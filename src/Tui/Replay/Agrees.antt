-- ===== src/Tui/Replay/Agrees.antt =====
-- The settings of a replay (linux/turbomac/tui/replay.py) and those of the daemon
-- (linux/turbomac/daemon/main.py).
use mathlib.Core.Path.{ap₂}
use turbo_mac.Prelude.{
  ℕ, ◌≡◌, refl, ap, ◌∙◌, Bool, true, Option, none, some, [], ◌∷◌, if_keeps, option_keeps,
  Bool-cases, Option-cases, inl, inr,
}
use turbo_mac.Dict.{Dict, get, pop}
use turbo_mac.Config.{Value, Reason, string}
use turbo_mac.Config.Validate.{validate}
use turbo_mac.Gpu.{GpuMode}
use turbo_mac.Daemon.Settings.{
  Host, Settings, Answer, bad_mode, already_running, no_cap, reached, apply_updates, mode_of,
  mode_name, number_of, same_as, asked, side_effects, change_gpu, set_gpu, commit, ask_gpu,
  set_config,
}
use turbo_mac.Daemon.Settings as Daemon
use turbo_mac.Daemon.Obeys.{side_effects-Has}
use turbo_mac.Tui.Backend
use turbo_mac.Tui.Backend.{Sim, GpuReply, accept, emit, config_set}
use turbo_mac.Tui.Replay.{Player, gpu_set, hooks}

-- What the daemon and the replay answer for the card's mode, and the configurations after it. The replay
-- applies nothing: it always reaches the mode that is asked for.
abbrev pub SameMode : Option Answer → Option GpuReply → (daemon replay : Dict Value) → Type 0
SameMode none none c c' = c ≡ c'
SameMode (some bad_mode) (some (Backend.failed t)) c c' = c ≡ c'
SameMode (some already_running) (some (Backend.reached ok m)) c c' = Unit
SameMode (some no_cap) (some (Backend.reached ok m)) c c' = Unit
SameMode (some (reached o e)) (some (Backend.reached ok m)) c c' = o.mode ≡ m → c ≡ c'
SameMode _ _ c c' = ⊥

abbrev pub Same :
    {h : Host} → Option Daemon.Reply × Settings h → Option Backend.Reply × Sim Player → Type 0
Same (none, s) (none, t) = s.config ≡ t.config
Same (some r, s) (some r', t) =
    (r.accepted ≡ r'.accepted)
    × (r.rejected ≡ r'.rejected)
    × SameMode r.gpu r'.gpu s.config t.config
Same _ _ = ⊥

abbrev with_mode : GpuMode → Dict Value → Dict Value
with_mode m c = apply_updates c (("gpu.mode", string (mode_name m)) ∷ [])

module _ {h : Host} where
  commit-accept :
      (busy : Bool) (now : ℕ) (a : Dict Value) (rejected : Dict Reason) (broken : Bool)
      (s : Settings h) (t : Sim Player)
      → s.config ≡ t.config
      → (commit busy now (record { accepted = a; rejected = rejected; broken = broken }) s).1.config
        ≡ (accept hooks a t).config
  unfolding commit accept emit
  commit-accept busy now [] rejected broken s t e = e
  commit-accept busy now (x ∷ rest) rejected broken s t e =
      side_effects-Has h (λ c. c ≡ apply_updates t.config (x ∷ rest)) busy now (x ∷ rest) _
        (ap (λ c. apply_updates c (x ∷ rest)) e)

  -- What is known after the daemon's answer, when the replay has set the mode.
  abbrev Set : GpuMode → Dict Value → Answer × Settings h → Type 0
  Set m c r = SameMode (some r.0) (some (Backend.reached true m)) r.1.config c

  change_gpu-Set :
      (m : GpuMode) (s : Settings h) (c : Dict Value)
      → s.config ≡ c
      → Set m (with_mode m c) (change_gpu m s)
  unfolding change_gpu
  change_gpu-Set m s c e =
      option_keeps (Set m (with_mode m c)) (number_of (get "gpu.cap_w" s.config)) _ _ tt
        (λ cap_w same. ap₂ with_mode same e)

  set_gpu-Same :
      (busy : Bool) (mode : Value) (s : Settings h) (t : Sim Player)
      → s.config ≡ t.config
      → let r = set_gpu busy mode s in
        let q = gpu_set mode t in SameMode (some r.0) (some q.0) r.1.config q.1.config
  unfolding set_gpu gpu_set emit
  set_gpu-Same busy mode s t e = elim (Option-cases (mode_of mode)) [
    | inl bad ↦ rw (bad, set_gpu, gpu_set) e
    | inr (m, ok) ↦
        rw (ok, set_gpu, gpu_set)
          (if_keeps (Set m (with_mode m t.config)) busy _ _ tt (change_gpu-Set m s t.config e))
  ]

  ask_gpu-Same :
      (busy : Bool) (o : Option Value) (s : Settings h) (t : Sim Player)
      → s.config ≡ t.config
      → let r = ask_gpu busy o s in
        let q = Backend.ask_gpu hooks o t in SameMode r.0 q.0 r.1.config q.1.config
  unfolding ask_gpu Backend.ask_gpu
  ask_gpu-Same busy none s t e = e
  ask_gpu-Same busy (some mode) s t e =
      let same : same_as mode (get "gpu.mode" s.config) ≡ same_as mode (get "gpu.mode" t.config) =
        ap (λ c. same_as mode (get "gpu.mode" c)) e in
      elim (Bool-cases (same_as mode (get "gpu.mode" t.config))) [
        | inl h ↦ rw (same, h) e
        | inr h ↦ rw (same, h) (set_gpu-Same busy mode s t e)
      ]

  -- The daemon and a replay that have the same configuration answer a `config.set` alike, whatever the
  -- updates and the daemon's devices are: they accept the same updates and reject the same for the same
  -- reasons, and have the same configuration afterwards; except that the daemon may be busy, lack the
  -- card's cap or not reach the mode that is asked for, where the replay sets it.
  pub config_set-Same :
      (busy busy' : Bool) (now : ℕ) (updates : Dict Value) (s : Settings h) (t : Sim Player)
      → s.config ≡ t.config
      → Same (set_config busy busy' now updates s) (config_set hooks updates t)
  unfolding set_config config_set
  config_set-Same busy busy' now updates s t e =
      let u = pop "gpu.mode" updates in
      elim (Option-cases (validate u t.config)) [
        | inl bad ↦ rw (ap (validate u) e ∙ bad, set_config, bad, config_set) e
        | inr (v, ok) ↦
            rw (ap (validate u) e ∙ ok, set_config, ok, config_set)
              (
                refl,
                refl,
                ask_gpu-Same busy' _ _ _
                    (commit-accept busy now v.accepted v.rejected v.broken s t e),
              )
      ]
