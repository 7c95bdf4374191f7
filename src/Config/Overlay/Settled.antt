-- ===== src/Config/Overlay/Settled.antt =====
-- The active source and the overlay under lease, over sequences of operations.
use mrs_uav_bluetooth.Config.Overlay.{
  installed_cut, written_state, or_previous, activate_inspected, StateWrite, installed, not_written,
  not_installed, not_removed, k_required_misses, apply_config, persist_overlay_path,
  clear_persisted_overlay, reverted, finish_revert, revert_to_default, with_lease,
  finish_activation, retry_later, is_held, NodeConfig, apply_loaded, source_for, activate_overlay,
  reload, check_lease, OverlayEnv, OverlayManager,
}
use mrs_uav_bluetooth.Prelude.{
  All, ltb, if_cases, Result, ok, err, is_empty, text_eq, ◌+◌, refl, sym, ap, ◌∙◌, ◌⊎◌, inl, inr,
  true, false, ◌&&◌, none, some, Text, ℕ, ◌≡◌, Bool, Option, List, [], ◌∷◌,
}
use mrs_uav_bluetooth.Mesh.Swarm.Outcome.{done}
use mrs_uav_bluetooth.Util.Topics.{node_prefix, TopicError}
use mathlib.Core.Path.{subst}

-- The active source is the overlay under lease, or the default configuration without one.
abbrev pub IsSettled : OverlayManager → Type 0
IsSettled m = m.active_source ≡ source_for m.default_config_path m.overlay_path

-- What happens to the manager: a request, a lease check, or a reload.
pub data OverlayStep : Type 0 where
  activate_step : OverlayEnv → Text → Option ℕ → ℕ → OverlayStep
  check_step : OverlayEnv → Bool → ℕ → ℕ → OverlayStep
  reload_step : OverlayEnv → OverlayStep

abbrev pub take_step : OverlayManager → OverlayStep → OverlayManager
take_step m (activate_step env overlay hold now) = (activate_overlay env overlay hold now m).1
take_step m (check_step env published now finished) = check_lease env published now finished m
take_step m (reload_step env) = (reload env m).1

abbrev pub take_steps : OverlayManager → List OverlayStep → OverlayManager
take_steps m [] = m
take_steps m (step ∷ steps) = take_steps (take_step m step) steps

-- A configuration is applied, or nothing changes.
abbrev pub Applied : Text → OverlayManager → OverlayManager → Type 0
Applied overlay m new =
    (new.active_source ≡ source_for m.default_config_path overlay)
    × (new.default_config_path ≡ m.default_config_path)
    × (new.overlay_path ≡ m.overlay_path)

abbrev pub IsOutcome : Text → OverlayManager → Bool × OverlayManager → Type 0
IsOutcome overlay m r =
    (r ≡ (false, m)) ⊎ ((new : OverlayManager) × (r ≡ (true, new)) × Applied overlay m new)

apply_loaded-IsOutcome :
    (env : OverlayEnv) (overlay : Text) (loaded : Option NodeConfig)
    (prefix : Result TopicError Text) (m : OverlayManager)
    → IsOutcome overlay m (apply_loaded env overlay loaded prefix m)
apply_loaded-IsOutcome env overlay none prefix m = inl refl
apply_loaded-IsOutcome env overlay (some cfg) (err e) m = inl refl
apply_loaded-IsOutcome env overlay (some cfg) (ok prefix) m =
    if_cases (IsOutcome overlay m) (env.callbacks_return cfg)
      (λ yes. inr (_, refl, (refl, refl, refl))) (λ no. inl refl)

pub apply_config-IsOutcome :
    (env : OverlayEnv) (overlay : Text) (m : OverlayManager)
    → IsOutcome overlay m (apply_config env overlay m)
unfolding apply_config
apply_config-IsOutcome env overlay m =
    apply_loaded-IsOutcome env overlay (env.load_effective_config overlay) (node_prefix m.hostname)
      m

abbrev KeepsSource : Bool × OverlayManager → Type 0
KeepsSource r = IsSettled r.1

-- Writing the state file returns: it does not end with a temporary file that cannot be removed.
abbrev pub write_returns : StateWrite → Bool
write_returns installed = true
write_returns (installed_cut left) = true
write_returns not_written = true
write_returns not_installed = true
write_returns not_removed = false

abbrev pub WritesSafely : OverlayStep → Type 0
WritesSafely (activate_step env overlay hold now) = write_returns env.writes_state ≡ true
WritesSafely (check_step env published now finished) = Unit {0}
WritesSafely (reload_step env) = Unit {0}

-- Where it is written safely, the state file is the only thing that changes, and nothing is thrown.
abbrev Persisted : OverlayManager → Bool × OverlayManager → Type 0
Persisted m r = (saved : Option Text) × (r ≡ (true, record m { saved = saved }))

written_state-Persisted :
    (write : StateWrite) (overlay : Text) (m : OverlayManager)
    → write_returns write ≡ true
    → Persisted m (written_state write overlay m)
written_state-Persisted installed overlay m h = (some overlay, refl)
written_state-Persisted (installed_cut left) overlay m h = (left, refl)
written_state-Persisted not_written overlay m h = (m.saved, refl)
written_state-Persisted not_installed overlay m h = (m.saved, refl)
written_state-Persisted not_removed overlay m h = cc

persist-Persisted :
    (env : OverlayEnv) (overlay : Text) (m : OverlayManager)
    → write_returns env.writes_state ≡ true
    → Persisted m (persist_overlay_path env overlay m)
persist-Persisted env overlay m h =
    if_cases (Persisted m) m.has_state_path
      (λ kept. written_state-Persisted env.writes_state overlay m h) (λ unkept. (m.saved, refl))

-- A renewal keeps the active source and the overlay, even where writing the state file throws.
written_state-IsSettled :
    (write : StateWrite) (overlay : Text) (m : OverlayManager)
    → IsSettled m
    → KeepsSource (written_state write overlay m)
written_state-IsSettled installed overlay m h = h
written_state-IsSettled (installed_cut left) overlay m h = h
written_state-IsSettled not_written overlay m h = h
written_state-IsSettled not_installed overlay m h = h
written_state-IsSettled not_removed overlay m h = h

persist-IsSettled :
    (env : OverlayEnv) (overlay : Text) (m : OverlayManager)
    → IsSettled m
    → KeepsSource (persist_overlay_path env overlay m)
persist-IsSettled env overlay m h =
    if_cases KeepsSource m.has_state_path
      (λ kept. written_state-IsSettled env.writes_state overlay m h) (λ unkept. h)

reverted-IsSettled :
    (env : OverlayEnv) (m : OverlayManager)
    → m.active_source ≡ m.default_config_path
    → IsSettled (reverted (clear_persisted_overlay env m))
reverted-IsSettled env m h =
    if_cases (λ (n : OverlayManager). IsSettled (reverted n))
      (m.has_state_path && env.removes_state) (λ yes. h) (λ no. h)

pub revert_to_default-IsSettled :
    (env : OverlayEnv) (m : OverlayManager) → IsSettled m → KeepsSource (revert_to_default env m)
unfolding revert_to_default
revert_to_default-IsSettled env m h = elim (apply_config-IsOutcome env [] m) [
  | inl same ↦ subst (λ r. KeepsSource (finish_revert env r)) (sym same) h
  | inr (new, done, (source, default_path, path)) ↦
      subst (λ r. KeepsSource (finish_revert env r)) (sym done)
        (reverted-IsSettled env new (source ∙ sym default_path))
]

activation-IsSettled :
    (env : OverlayEnv) (overlay : Text) (hold_until : ℕ) (m : OverlayManager)
    → write_returns env.writes_state ≡ true
    → IsSettled m
    → KeepsSource (
        finish_activation env overlay m.overlay_path
          (apply_config env overlay (with_lease overlay hold_until m)))
activation-IsSettled env overlay hold_until m safe h =
    elim (apply_config-IsOutcome env overlay (with_lease overlay hold_until m)) [
      | inl same ↦
          subst (λ r. KeepsSource (finish_activation env overlay m.overlay_path r)) (sym same) h
      | inr (new, done, (source, default_path, path)) ↦
          subst (λ r. KeepsSource (finish_activation env overlay m.overlay_path r)) (sym done)
            (let (saved, persisted) = persist-Persisted env overlay new safe in
              subst (λ r. KeepsSource (or_previous m.overlay_path r)) (sym persisted)
                (source
                  ∙ ap (λ d. source_for d overlay) (sym default_path)
                  ∙ ap (source_for new.default_config_path) (sym path)))
    ]

inspected-IsSettled :
    (env : OverlayEnv) (inspected : Option Bool) (overlay : Text) (hold_until : ℕ)
    (m : OverlayManager)
    → write_returns env.writes_state ≡ true
    → IsSettled m
    → KeepsSource (activate_inspected env inspected overlay hold_until m)
inspected-IsSettled env none overlay hold_until m safe h = h
inspected-IsSettled env (some false) overlay hold_until m safe h = h
inspected-IsSettled env (some true) overlay hold_until m safe h =
    if_cases KeepsSource (text_eq overlay m.overlay_path)
      (λ active. persist-IsSettled env overlay (with_lease m.overlay_path hold_until m) h)
      (λ other. activation-IsSettled env overlay hold_until m safe h)

activate-IsSettled :
    (env : OverlayEnv) (overlay : Text) (hold : Option ℕ) (now : ℕ) (m : OverlayManager)
    → write_returns env.writes_state ≡ true
    → IsSettled m
    → KeepsSource (activate_overlay env overlay hold now m)
unfolding activate_overlay
activate-IsSettled env overlay none now m safe h = h
activate-IsSettled env overlay (some hold) now m safe h =
    if_cases KeepsSource (is_empty overlay) (λ empty. revert_to_default-IsSettled env m h)
      (λ given. inspected-IsSettled env (env.is_regular_file overlay) overlay (now + hold) m safe h)

retry-IsSettled :
    (now : ℕ) (r : Bool × OverlayManager) → KeepsSource r → IsSettled (retry_later now r)
retry-IsSettled now (true, m) h = h
retry-IsSettled now (false, m) h = h

check-IsSettled :
    (env : OverlayEnv) (published : Bool) (now finished : ℕ) (m : OverlayManager)
    → IsSettled m
    → IsSettled (check_lease env published now finished m)
unfolding check_lease
check-IsSettled env published now finished m h =
    if_cases IsSettled (is_held now m) (λ held. h)
      (λ over.
        if_cases IsSettled published (λ alive. h)
          (λ silent.
            if_cases IsSettled (ltb (m.keepalive_miss_count + 1) k_required_misses) (λ early. h)
              (λ last.
                retry-IsSettled finished
                  (revert_to_default env (record m { keepalive_miss_count = 0 }))
                  (revert_to_default-IsSettled env (record m { keepalive_miss_count = 0 }) h))))

reload-IsSettled :
    (env : OverlayEnv) (m : OverlayManager) → IsSettled m → KeepsSource (reload env m)
unfolding reload
reload-IsSettled env m h = elim (apply_config-IsOutcome env m.overlay_path m) [
  | inl same ↦ subst KeepsSource (sym same) h
  | inr (new, done, (source, default_path, path)) ↦ subst KeepsSource (sym done) (
      source
      ∙ ap (λ d. source_for d m.overlay_path) (sym default_path)
      ∙ ap (source_for new.default_config_path) (sym path))
]

take_step-IsSettled :
    (m : OverlayManager) (step : OverlayStep)
    → WritesSafely step
    → IsSettled m
    → IsSettled (take_step m step)
take_step-IsSettled m (activate_step env overlay hold now) safe h =
    activate-IsSettled env overlay hold now m safe h
take_step-IsSettled m (check_step env published now finished) safe h =
    check-IsSettled env published now finished m h
take_step-IsSettled m (reload_step env) safe h = reload-IsSettled env m h

-- After any sequence of activations, lease checks and reloads, each of which may fail in loading, in a
-- callback, or in inspecting, writing or installing a file, the active source is the overlay under
-- lease, or the default configuration where there is none, if it was before, and if a temporary state
-- file that cannot be installed can always be removed.
pub take_steps-IsSettled :
    (m : OverlayManager) (steps : List OverlayStep)
    → All WritesSafely steps
    → IsSettled m
    → IsSettled (take_steps m steps)
take_steps-IsSettled m [] safe h = h
take_steps-IsSettled m (step ∷ steps) (safe, later) h =
    take_steps-IsSettled (take_step m step) steps later (take_step-IsSettled m step safe h)
