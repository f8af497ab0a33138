-- ===== src/Daemon/Obeys.antt =====
-- The configuration of the daemon (linux/turbomac/daemon/main.py) stays one that `validate` could have
-- made, through the requests that change it.
use turbo_mac.Prelude.{
  ℕ, ◌≡◌, Bool, Option, none, some, String, List, [], ◌∷◌, if_keeps, option_keeps, filled_keeps,
  Option-cases, inl, inr,
}
use turbo_mac.Dict.{Dict, get, pop}
use turbo_mac.Config.{Value}
use turbo_mac.Config.Validate.{validate, Verdict}
use turbo_mac.Gpu.{GpuMode, apply_mode}
use turbo_mac.Daemon.Settings.{
  Host, Settings, Answer, Loaded, load, reload_config, mode_of, number_of, cpu_effect,
  logging_effect, fan_effect, gpu_effect, side_effects, change_gpu, set_gpu, commit, ask_gpu,
  set_config,
}
use turbo_mac.Daemon.Legal.{IsLegal, updated-IsLegal, moded-IsLegal, load-IsLegal}

module _ (h : Host) (P : Dict Value → Type 0) where
  abbrev Has : Settings h → Type 0
  Has s = P s.config

  pub side_effects-Has :
      (busy : Bool) (now : ℕ) (accepted : Dict Value) (s : Settings h)
      → Has s
      → Has (side_effects busy now accepted s)
  unfolding side_effects
  side_effects-Has busy now accepted s p =
      gpu_effect-Has _ (fan_effect-Has _ (logging_effect-Has _ (cpu_effect-Has s p)))
    where
      cpu_effect-Has : (t : Settings h) → Has t → Has (cpu_effect accepted t)
      cpu_effect-Has t q = unfold cpu_effect in if_keeps Has _ _ t q q

      logging_effect-Has : (t : Settings h) → Has t → Has (logging_effect accepted t)
      logging_effect-Has t q =
          unfold logging_effect in
          if_keeps Has _ _ t (option_keeps Has t.retention t _ q (λ old. q)) q

      fan_effect-Has : (t : Settings h) → Has t → Has (fan_effect now accepted t)
      fan_effect-Has t q =
          unfold fan_effect in if_keeps Has _ _ t (option_keeps Has t.fanctl t _ q (λ c. q)) q

      gpu_effect-Has : (t : Settings h) → Has t → Has (gpu_effect busy accepted t)
      gpu_effect-Has t q = unfold gpu_effect in if_keeps Has _ _ t q q

module _ {h : Host} where
  abbrev Legal : Settings h → Type 0
  Legal s = IsLegal s.config

  commit-Legal :
      (busy : Bool) (now : ℕ) (updates : Dict Value) (v : Verdict) (s : Settings h)
      → validate updates s.config ≡ some v
      → Legal s
      → Legal (commit busy now v s).1
  unfolding commit
  commit-Legal busy now updates v s e legal =
      filled_keeps (λ (r : Option String × Settings h). Legal r.1) v.accepted _ _ legal
        (side_effects-Has h IsLegal busy now v.accepted _
          (updated-IsLegal s.config updates v legal e))

  change_gpu-Legal : (mode : GpuMode) (s : Settings h) → Legal s → Legal (change_gpu mode s).1
  unfolding change_gpu
  change_gpu-Legal mode s legal =
      option_keeps (λ (r : Answer × Settings h). Legal r.1) (number_of (get "gpu.cap_w" s.config)) _
        _ legal
        (λ cap_w.
          moded-IsLegal (apply_mode h.gpu mode cap_w s.gpu s.gpu_world).0.mode s.config legal)

  pub set_gpu-Legal :
      (busy : Bool) (mode : Value) (s : Settings h) → Legal s → Legal (set_gpu busy mode s).1
  unfolding set_gpu
  set_gpu-Legal busy mode s legal =
      option_keeps (λ (r : Answer × Settings h). Legal r.1) (mode_of mode) _ _ legal
        (λ m.
          if_keeps (λ (r : Answer × Settings h). Legal r.1) busy _ _ legal
            (change_gpu-Legal m s legal))

  ask_gpu-Legal :
      (busy : Bool) (o : Option Value) (s : Settings h) → Legal s → Legal (ask_gpu busy o s).1
  unfolding ask_gpu
  ask_gpu-Legal busy none s legal = legal
  ask_gpu-Legal busy (some mode) s legal =
      if_keeps (λ (r : Option Answer × Settings h). Legal r.1) _ _ _ legal
        (set_gpu-Legal busy mode s legal)

  pub set_config-Legal :
      (busy busy' : Bool) (now : ℕ) (updates : Dict Value) (s : Settings h)
      → Legal s
      → Legal (set_config busy busy' now updates s).1
  unfolding set_config
  set_config-Legal busy busy' now updates s legal =
      elim (Option-cases (validate (pop "gpu.mode" updates) s.config)) [
        | inl raised ↦ rw (raised, set_config) legal
        | inr (v, e) ↦
            rw (e, set_config) (ask_gpu-Legal busy' _ _ (commit-Legal busy now _ v s e legal))
      ]

  reload-Legal :
      (file : Loaded) (s : Settings h)
      → Legal s
      → Legal (elim (reload_config file s) [ none ↦ s | some s' ↦ s' ])
  unfolding reload_config
  reload-Legal file s legal = elim (Option-cases (load file)) [
    | inl raised ↦ rw (raised, reload_config) legal
    | inr (r, e) ↦ rw (e, reload_config) (load-IsLegal file r e)
  ]

-- A request of the control socket that may change the configuration, or SIGHUP.
pub data Request : Type 0 where
  set : (busy busy' : Bool) → (now : ℕ) → Dict Value → Request
  gpu : (busy : Bool) → Value → Request
  reload : Loaded → Request

unfoldable pub serve : {h : Host} → Request → Settings h → Settings h
serve (set busy busy' now updates) s = (set_config busy busy' now updates s).1
serve (gpu busy mode) s = (set_gpu busy mode s).1
serve (reload file) s = elim (reload_config file s) [ none ↦ s | some s' ↦ s' ]

unfoldable pub serve_all : {h : Host} → List Request → Settings h → Settings h
serve_all [] s = s
serve_all (r ∷ rest) s = serve_all rest (serve r s)

-- Whatever is requested or reloaded, in any order, and whatever the card, the fans and the disk do: a
-- configuration in which every cross rule holds and every value is one that `_check_one` lets through stays so.
pub serve_all-IsLegal :
    {h : Host} (requests : List Request) (s : Settings h)
    → IsLegal s.config
    → IsLegal (serve_all requests s).config
unfolding serve_all serve
serve_all-IsLegal [] s legal = legal
serve_all-IsLegal (set busy busy' now updates ∷ rest) s legal =
    serve_all-IsLegal rest _ (set_config-Legal busy busy' now updates s legal)
serve_all-IsLegal (gpu busy mode ∷ rest) s legal =
    serve_all-IsLegal rest _ (set_gpu-Legal busy mode s legal)
serve_all-IsLegal (reload file ∷ rest) s legal =
    serve_all-IsLegal rest _ (reload-Legal file s legal)
