-- ===== src/Governor/Writes.antt =====
-- What `write` and `fall_back` leave in the state, on every branch.
use turbo_mac.Prelude.{ℕ, ◌≤◌, ◌≡◌, Bool, true, Option, some, arith}
use turbo_mac.Governor.{State, Reason, Why, GovState, same_state}
use turbo_mac.Governor.Working.{Work, unchanged, cap1, cap2, enter, write}

module _ (now : ℕ) where
  -- After `write` the commanded limits are the clamped ones, written or found there already.
  pub pl1_w-write :
      (pl1 pl2 : ℕ) (why : Why) (force : Bool) (w : Work)
      → (write now pl1 pl2 why force w).s.pl1_w ≡ some (cap1 pl1 w.s)
  unfolding write unchanged
  pl1_w-write pl1 pl2 why force w = ground arith

  pub pl2_w-write :
      (pl1 pl2 : ℕ) (why : Why) (force : Bool) (w : Work)
      → (write now pl1 pl2 why force w).s.pl2_w ≡ some (cap2 pl2 w.s)
  unfolding write unchanged
  pl2_w-write pl1 pl2 why force w = ground arith

  -- `enter` and `write` leave the timer of the recovery alone.
  pub below_recover_since-enter :
      (new : State) (why : Option Reason) (w : Work)
      → (enter now new why w).s.below_recover_since ≡ w.s.below_recover_since
  unfolding enter
  below_recover_since-enter new why w = ground arith

  pub below_recover_since-write :
      (pl1 pl2 : ℕ) (why : Why) (force : Bool) (w : Work)
      → (write now pl1 pl2 why force w).s.below_recover_since ≡ w.s.below_recover_since
  unfolding write unchanged
  below_recover_since-write pl1 pl2 why force w = ground arith

pub cap1-le : (pl1 : ℕ) (s : GovState) → cap1 pl1 s ≤ pl1
unfolding cap1
cap1-le pl1 s = ground arith

pub eq_of_same_state : (a b : State) → same_state a b ≡ true → a ≡ b
unfolding same_state
eq_of_same_state a b h = ground arith
