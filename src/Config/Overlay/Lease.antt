-- ===== src/Config/Overlay/Lease.antt =====
-- When an overlay ends.
use mrs_uav_bluetooth.Prelude.{
  ap, ◌∙◌, ltb, Bool-cases, ok, Text, ℕ, ◌+◌, ◌≤◌, ◌≡◌, refl, ◌⊎◌, inl, inr, Bool, true, false,
  some, [], arith,
}
use mrs_uav_bluetooth.Config.Overlay.{
  retry_later, k_required_misses, apply_config, revert_to_default, is_held, check_lease, NodeConfig,
  OverlayEnv, OverlayManager,
}
use mrs_uav_bluetooth.Util.Topics.{node_prefix}

-- A lease check ends an overlay only if the hold is over, the keepalive topic has no publisher, and
-- two checks in a row have already missed one.
pub check_lease_lem :
    (env : OverlayEnv) (published : Bool) (now finished : ℕ) (m : OverlayManager)
    → ((check_lease env published now finished m).overlay_path ≡ m.overlay_path)
      ⊎ ((m.lease_hold_until ≤ now) × (published ≡ false) × (2 ≤ m.keepalive_miss_count))
unfolding check_lease
check_lease_lem env published now finished m = elim (Bool-cases (is_held now m)) [
  | inl held ↦ inl (rw held refl)
  | inr over ↦ elim (Bool-cases published) [
    | inl alive ↦ inl (rw (over, alive) refl)
    | inr silent ↦ elim (Bool-cases (ltb (m.keepalive_miss_count + 1) k_required_misses)) [
      | inl early ↦ inl (rw (over, silent, early) refl)
      | inr last ↦ inr (ground (arith, over), silent, ground (arith, last))
    ]
  ]
]

misses :
    (env : OverlayEnv) (now finished : ℕ) (m : OverlayManager)
    → is_held now m ≡ false
    → ltb (m.keepalive_miss_count + 1) k_required_misses ≡ true
    → check_lease env false now finished m
      ≡ record m { keepalive_miss_count = m.keepalive_miss_count + 1 }
unfolding check_lease
misses env now finished m over early = rw (over, early) refl

still_over : (m : OverlayManager) (t u : ℕ) → t ≤ u → is_held t m ≡ false → is_held u m ≡ false
still_over m t u h over = ground arith

module _ (env : OverlayEnv) (m : OverlayManager) (cfg : NodeConfig) (prefix : Text)
    (loads : env.load_effective_config [] ≡ some cfg) (returns : env.callbacks_return cfg ≡ true)
    (named : node_prefix m.hostname ≡ ok prefix) where
  reverts : (revert_to_default env (record m { keepalive_miss_count = 0 })).1.overlay_path ≡ []
  unfolding revert_to_default apply_config
  reverts = rw (loads, named, returns) refl

  retried :
      (finished : ℕ) (r : Bool × OverlayManager)
      → r.1.overlay_path ≡ []
      → (retry_later finished r).overlay_path ≡ []
  retried finished (true, n) h = h
  retried finished (false, n) h = h

  ends :
      (now finished count : ℕ)
      → is_held now m ≡ false
      → 2 ≤ count
      → (check_lease env false now finished
          (record m { keepalive_miss_count = count })).overlay_path
        ≡ []
  unfolding check_lease
  ends now finished count over many =
      let last : ltb (count + 1) k_required_misses ≡ false = ground arith in
      rw (over, last)
        (retried finished (revert_to_default env (record m { keepalive_miss_count = 0 })) reverts)

  -- If the default configuration can be applied, an overlay whose keepalive topic has no publisher at
  -- three checks behind its hold, after none was missed, stays at the first two and is gone at the third.
  pub check_lease-expires :
      (t₁ t₂ t₃ f₁ f₂ f₃ : ℕ)
      → is_held t₁ m ≡ false
      → t₁ ≤ t₂
      → t₂ ≤ t₃
      → m.keepalive_miss_count ≡ 0
      → (let second_check = check_lease env false t₂ f₂ (check_lease env false t₁ f₁ m) in
          (second_check.overlay_path ≡ m.overlay_path)
          × ((check_lease env false t₃ f₃ second_check).overlay_path ≡ []))
  check_lease-expires t₁ t₂ t₃ f₁ f₂ f₃ over h₁ h₂ none_missed =
      let over₂ : is_held t₂ m ≡ false = still_over m t₁ t₂ h₁ over in
      let over₃ : is_held t₃ m ≡ false = still_over m t₂ t₃ h₂ over₂ in
      let first = misses env t₁ f₁ m over (ground (arith, none_missed)) in
      let missed₁ = record m { keepalive_miss_count = m.keepalive_miss_count + 1 } in
      let again = misses env t₂ f₂ missed₁ over₂ (ground (arith, none_missed)) in
      let missed₂ = record m { keepalive_miss_count = m.keepalive_miss_count + 1 + 1 } in
      let both = ap (check_lease env false t₂ f₂) first ∙ again in
      (
        ap (λ (n : OverlayManager). n.overlay_path) both,
        ap (λ n. (check_lease env false t₃ f₃ n).overlay_path) both
            ∙ ends t₃ f₃ (m.keepalive_miss_count + 1 + 1) over₃ (omega (arith, none_missed)),
      )
