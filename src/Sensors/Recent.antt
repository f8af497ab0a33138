-- ===== src/Sensors/Recent.antt =====
-- How old the limits of the fans may be that `read_fans` of linux/turbomac/daemon/smc.py returns.
use mathlib.Core.Option.{some-injective}
use mathlib.Core.Path.{subst}
use turbo_mac.Prelude.{
  ℕ, ◌+◌, ◌≤◌, ◌<◌, ◌≡◌, refl, sym, ap, Bool, true, false, ◌&&◌, not, Option, none, some, List, [],
  ◌∷◌, map, ◌⊎◌, inl, inr, arith, length, ◌==◌, if◌then◌else◌, Option-cases, leb, ltb,
}
use turbo_mac.Sensors.{
  FanSensor, Files, Limits, Fan, Caches, due_slack_s, due, fan_sensors, limits_of, rows, cached,
  read_fans,
}

unless_both :
    {A : Type 0} (b b' : Bool) (a l : A)
    → (if b then none else if b' then none else some a) ≡ some l
    → (b ≡ false) × (b' ≡ false) × (a ≡ l)
unless_both true b' a l e = cc
unless_both false true a l e = cc
unless_both false false a l e = (refl, refl, some-injective _ _ e)

-- Not older than `every_s` less the slack.
abbrev pub Recent : (now every_s : ℕ) → (ℕ × List Limits) → Type 0
Recent now every_s l = (l.0 ≤ now) × (now + due_slack_s < l.0 + every_s)

cached-Recent :
    (now every_s : ℕ) (sensors : List FanSensor) (o : Option (ℕ × List Limits))
    (l : ℕ × List Limits)
    → cached now every_s sensors o ≡ some l
    → (o ≡ some l) × (length l.1 ≡ length sensors) × Recent now every_s l
unfolding cached due
cached-Recent now every_s sensors none l e = cc
cached-Recent now every_s sensors (some (t, limits)) l e =
    let kept =
      unless_both (not (length limits == length sensors))
        (not (leb t now && ltb (now + due_slack_s) (t + every_s))) (t, limits) l e in
    subst
      (λ x.
        ◌≡◌ {A = Option (ℕ × List Limits)} (some (t, limits)) (some x)
        × (length x.1 ≡ length sensors)
        × Recent now every_s x)
      kept.2 (refl, ground (arith, kept.0), (ground (arith, kept.1), ground (arith, kept.1)))

-- Before the first call.
abbrev pub empty : Caches
empty = record { temp_sensors = []; fan_sensors = []; fan_limits = none }

module _ (d : Files) where
  -- A call: its time and the world.
  abbrev pub Call : Type 0
  Call = ℕ × d.World

  -- The caches after the calls, which are newest first.
  unfoldable pub after : (every_s : ℕ) → List Call → Caches → Caches
  after every_s [] c = c
  after every_s ((now, w) ∷ before) c = (read_fans d now every_s w (after every_s before c)).1

  -- The limits are those that the call read, of these sensors.
  abbrev pub ReadBy : List FanSensor → (ℕ × List Limits) → Call → Type 0
  ReadBy sensors l call = (l.0 ≡ call.0) × (l.1 ≡ map (limits_of d call.1) sensors)

  abbrev pub Among : (Call → Type 0) → List Call → Type 0
  Among P [] = ⊥
  Among P (call ∷ before) = P call ⊎ Among P before

  -- No sensors have no limits.
  none_read : (l : ℕ × List Limits) (calls : List Call) → Among (ReadBy [] l) calls → l.1 ≡ []
  none_read l [] h = absurd h
  none_read l (call ∷ before) (inl h) = h.1
  none_read l (call ∷ before) (inr h) = none_read l before h

  found-Among :
      (w : d.World) (sensors : List FanSensor) (l : ℕ × List Limits) (calls : List Call)
      → Among (ReadBy sensors l) calls
      → (l.1 ≡ []) ⊎ Among (ReadBy (fan_sensors d w sensors) l) calls
  unfolding fan_sensors
  found-Among w [] l calls h = inl (none_read l calls h)
  found-Among w (f ∷ rest) l calls h = inr h

  -- What the caches hold was read by one of the calls, of the sensors that are cached, or there are none.
  abbrev HoldsRead : List Call → Caches → Type 0
  HoldsRead calls c =
      (l : ℕ × List Limits)
      → c.fan_limits ≡ some l
      → (l.1 ≡ []) ⊎ Among (ReadBy c.fan_sensors l) calls

  module _ (every_s : ℕ) where
    read_fans-HoldsRead :
        (now : ℕ) (w : d.World) (calls : List Call) (c : Caches)
        → HoldsRead calls c
        → HoldsRead ((now, w) ∷ calls) (read_fans d now every_s w c).1
    unfolding read_fans
    read_fans-HoldsRead now w calls c h = by_cached (cached now every_s sensors c.fan_limits)
      where
        sensors : List FanSensor
        sensors = fan_sensors d w c.fan_sensors

        fresh : List Limits
        fresh = map (limits_of d w) sensors

        by_cached :
            (o : Option (ℕ × List Limits))
            → HoldsRead
                ((now, w) ∷ calls)
                (elim o as (λ x. List Fan × Caches) [
                  | none ↦ (
                    rows d w sensors fresh,
                    record c { fan_sensors = sensors; fan_limits = some (now, fresh) },
                  )
                  | some old ↦ (rows d w sensors old.1, record c { fan_sensors = sensors })
                ]).1
        by_cached none l e =
            let same = some-injective _ _ e in
            inr (inl (sym (ap (λ x. x.0) same), sym (ap (λ x. x.1) same)))
        by_cached (some old) l e = elim (h l e) [
          | inl no_limits ↦ inl no_limits
          | inr before ↦ elim (found-Among w c.fan_sensors l calls before) [
            | inl no_limits ↦ inl no_limits
            | inr still ↦ inr (inr still)
          ]
        ]

    after-HoldsRead : (calls : List Call) → HoldsRead calls (after every_s calls empty)
    unfolding after
    after-HoldsRead [] = λ l e. cc
    after-HoldsRead ((now, w) ∷ before) =
        read_fans-HoldsRead now w before _ (after-HoldsRead before)

    -- The rows of a call are those of the sensors with limits that one of the calls read of them, this
    -- one or one that is not too old.
    abbrev pub IsRecent : (now : ℕ) → d.World → List Call → List FanSensor → List Fan → Type 0
    IsRecent now w calls sensors fans =
        (l : ℕ × List Limits) × (fans ≡ rows d w sensors l.1)
        × Among (ReadBy sensors l) ((now, w) ∷ calls)
        × ((l.0 ≡ now) ⊎ Recent now every_s l)

    kept-IsRecent :
        (now : ℕ) (w : d.World) (calls : List Call) (sensors old_sensors : List FanSensor)
        (l : ℕ × List Limits)
        → sensors ≡ fan_sensors d w old_sensors
        → (l.1 ≡ []) ⊎ Among (ReadBy old_sensors l) calls
        → length l.1 ≡ length sensors
        → Recent now every_s l
        → IsRecent now w calls sensors (rows d w sensors l.1)
    unfolding fan_sensors rows
    kept-IsRecent now w calls [] old_sensors l e held same recent =
        ((now, []), refl, inl (refl, refl), inl refl)
    kept-IsRecent now w calls (f ∷ rest) old_sensors l e (inl no_limits) same recent =
        absurd (omega (arith, same, ap (λ x. length x) no_limits))
    kept-IsRecent now w calls (f ∷ rest) [] l e (inr before) same recent =
        absurd (omega (arith, same, ap (λ x. length x) (none_read l calls before)))
    kept-IsRecent now w calls (f ∷ rest) (g ∷ more) l e (inr before) same recent =
        (l, refl, inr (subst (λ x. Among (ReadBy x l) calls) (sym e) before), inr recent)

    -- After any calls of `read_fans`, a further call gives the rows of the sensors that are known then: with
    -- the speeds that it reads itself, and with limits that were all read by one and the same call, which
    -- is this one, or one less than `every_s` minus a tenth of a second ago.
    pub read_fans-IsRecent :
        (now : ℕ) (w : d.World) (calls : List Call)
        → let c = after every_s calls empty in
          IsRecent now w calls (fan_sensors d w c.fan_sensors) (read_fans d now every_s w c).0
    unfolding read_fans
    read_fans-IsRecent now w calls =
        let c = after every_s calls empty in
        let sensors = fan_sensors d w c.fan_sensors in
        elim (Option-cases (cached now every_s sensors c.fan_limits)) [
          | inl fresh ↦
              rw (fresh, read_fans)
                ((now, map (limits_of d w) sensors), refl, inl (refl, refl), inl refl)
          | inr (l, e) ↦
              let kept = cached-Recent now every_s sensors c.fan_limits l e in
              rw (e, read_fans)
                (kept-IsRecent now w calls sensors c.fan_sensors l refl
                  (after-HoldsRead calls l kept.0) kept.1 kept.2)
        ]
