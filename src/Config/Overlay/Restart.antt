-- ===== src/Config/Overlay/Restart.antt =====
-- Start-up with a saved overlay.
use mrs_uav_bluetooth.Prelude.{
  ◌⊎◌, false, if_cases, ok, is_empty, Text, ℕ, ◌+◌, ◌≡◌, refl, sym, ap, ◌∙◌, inl, inr, Bool, true,
  not, ◌&&◌, ◌||◌, Option, none, some, [],
}
use mrs_uav_bluetooth.Config.Overlay.{
  inspected_path, load_found, k_restart_lease_grace, source_for, apply_config,
  clear_persisted_overlay, with_lease, restored_overlay_path, fall_back, load_restored,
  load_initial, NodeConfig, OverlayEnv, OverlayManager,
}
use mrs_uav_bluetooth.Mesh.Swarm.Outcome.{done}
use mrs_uav_bluetooth.Config.Overlay.Settled.{IsSettled, apply_config-IsOutcome}
use mrs_uav_bluetooth.Util.Topics.{node_prefix}
use mathlib.Core.Path.{subst}

abbrev Starts : Bool × OverlayManager → Type 0
Starts r = (r.0 ≡ true) × IsSettled r.1

-- Inspecting the path of the saved overlay throws.
abbrev pub CannotInspect : OverlayEnv → OverlayManager → Type 0
CannotInspect env m =
    (overlay : Text) × (m.saved ≡ some overlay) × (env.is_regular_file overlay ≡ none)

abbrev StartsOrThrows : OverlayEnv → OverlayManager → Bool × OverlayManager → Type 0
StartsOrThrows env m r = (r ≡ (false, m)) × CannotInspect env m ⊎ Starts r

module _ (env : OverlayEnv) (cfg : NodeConfig) (prefix : Text)
    (loads : env.load_effective_config [] ≡ some cfg)
    (returns : env.callbacks_return cfg ≡ true) where
  applies :
      (n : OverlayManager)
      → node_prefix n.hostname ≡ ok prefix
      → n.overlay_path ≡ []
      → Starts (apply_config env [] n)
  unfolding apply_config
  applies n named none_active =
      rw (loads, named, returns) (refl, ap (source_for n.default_config_path) (sym none_active))

  applies_cleared :
      (n : OverlayManager)
      → node_prefix n.hostname ≡ ok prefix
      → n.overlay_path ≡ []
      → Starts (apply_config env [] (clear_persisted_overlay env n))
  applies_cleared n named none_active =
      if_cases (λ (c : OverlayManager). Starts (apply_config env [] c))
        (n.has_state_path && env.removes_state)
        (λ yes. applies (record n { saved = none }) named none_active)
        (λ no. applies n named none_active)

  restores :
      (overlay : Text) (now : ℕ) (n : OverlayManager)
      → node_prefix n.hostname ≡ ok prefix
      → Starts (fall_back env (apply_config env overlay (with_lease overlay now n)))
  restores overlay now n named =
      elim (apply_config-IsOutcome env overlay (with_lease overlay now n)) [
        | inl same ↦
            subst (λ r. Starts (fall_back env r)) (sym same)
              (applies_cleared
                (record (with_lease overlay now n) { overlay_path = []; keepalive_miss_count = 0 })
                named refl)
        | inr (new, done, (source, default_path, path)) ↦
            subst (λ r. Starts (fall_back env r)) (sym done)
              (
                refl,
                source
                    ∙ ap (λ d. source_for d overlay) (sym default_path)
                    ∙ ap (source_for new.default_config_path) (sym path),
              )
      ]

  load_restored-Starts :
      (now : ℕ) (overlay : Text) (n : OverlayManager)
      → node_prefix n.hostname ≡ ok prefix
      → n.overlay_path ≡ []
      → Starts (load_restored env now (overlay, n))
  load_restored-Starts now overlay n named none_active =
      if_cases Starts (is_empty overlay) (λ empty. applies n named none_active)
        (λ given. restores overlay (now + k_restart_lease_grace) n named)

  inspected-Starts :
      (now : ℕ) (overlay : Text) (inspected : Option Bool) (m : OverlayManager)
      → m.saved ≡ some overlay
      → env.is_regular_file overlay ≡ inspected
      → node_prefix m.hostname ≡ ok prefix
      → m.overlay_path ≡ []
      → StartsOrThrows env m (load_found env now m (inspected_path env inspected overlay m))
  inspected-Starts now overlay none m saved inspects named none_active =
      inl (refl, (overlay, saved, inspects))
  inspected-Starts now overlay (some true) m saved inspects named none_active =
      inr (load_restored-Starts now overlay m named none_active)
  inspected-Starts now overlay (some false) m saved inspects named none_active =
      inr (applies_cleared m named none_active)

  saved-Starts :
      (now : ℕ) (saved : Option Text) (m : OverlayManager)
      → m.saved ≡ saved
      → node_prefix m.hostname ≡ ok prefix
      → m.overlay_path ≡ []
      → StartsOrThrows env m (load_found env now m (restored_overlay_path env saved m))
  saved-Starts now none m is_saved named none_active =
      inr (load_restored-Starts now [] m named none_active)
  saved-Starts now (some overlay) m is_saved named none_active =
      if_cases (λ p. StartsOrThrows env m (load_found env now m p))
        (not m.has_state_path || is_empty overlay)
        (λ nothing. inr (load_restored-Starts now [] m named none_active))
        (λ something.
          inspected-Starts now overlay (env.is_regular_file overlay) m is_saved refl named
            none_active)

  -- If the default configuration can be applied, start-up throws only where inspecting the path of the
  -- saved overlay throws, and then changes nothing; else it returns whatever overlay was saved and
  -- whether or not it can be applied, and afterwards the active source is the overlay under lease, or
  -- the default configuration where there is none.
  pub load_initial-IsSettled :
      (now : ℕ) (m : OverlayManager)
      → node_prefix m.hostname ≡ ok prefix
      → m.overlay_path ≡ []
      → (load_initial env now m ≡ (false, m)) × CannotInspect env m
        ⊎ ((load_initial env now m).0 ≡ true) × IsSettled (load_initial env now m).1
  unfolding load_initial
  load_initial-IsSettled now m named none_active = saved-Starts now m.saved m refl named none_active
