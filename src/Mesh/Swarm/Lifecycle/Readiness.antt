-- ===== src/Mesh/Swarm/Lifecycle/Readiness.antt =====
-- The setup of the local model, stage by stage.
use mrs_uav_bluetooth.Prelude.{
  sym, ◌+◌, ltb, ◌==◌, Bool, not, ◌&&◌, ◌||◌, arith, ℕ, ◌≤◌, ◌≡◌, true, false, some, List, [], ◌∷◌,
}
use mathlib.Core.Path.{subst}
use mrs_uav_bluetooth.Mesh.Swarm.Lifecycle.{setup_at, maintain_local_model, setup_stage}
use mrs_uav_bluetooth.Mesh.Application.{add_app_key, configure_vendor_model, Call, Answers, Status}
use mrs_uav_bluetooth.Mesh.Swarm.{k_configuration_step_delay, Swarm}

-- A pass at each of the given times.
abbrev pub setup_passes : Answers → Status → List ℕ → Swarm → Swarm
setup_passes answers status [] s = s
setup_passes answers status (now ∷ times) s =
    setup_passes answers status times (maintain_local_model answers status now s).state

-- All calls return, and BlueZ confirms the model.
pub record IsCooperative (answers : Answers) : Type 0 where
  pub returns : (c : Call) → answers.accepts c ≡ true
  pub keys : answers.keys_prepared ≡ some true
  pub confirmed : answers.vendor_model_ready ≡ some true

module _ (answers : Answers) (status : Status) (address : ℕ) (rest : List ℕ)
    (own : status.addresses ≡ address ∷ rest) where
  waiting : ℕ → Swarm → Bool
  waiting now s =
      s.application_ready
      || (not (s.next_local_model_action == 0) && ltb now s.next_local_model_action)

  -- One pass that is due.
  due :
      (now : ℕ) (s : Swarm)
      → s.application_ready ≡ false
      → s.next_local_model_action ≤ now
      → maintain_local_model answers status now s ≡ setup_stage answers address now s
  unfolding maintain_local_model
  due now s r n = rw own (ground (arith, r))

  module _ (c : IsCooperative answers) where
    -- The state when the setup waits at a stage until a time.
    abbrev At : ℕ → ℕ → Swarm → Type 0
    At stage ready_at s =
        (s.application_ready ≡ false)
        × (s.local_model_stage ≡ stage)
        × (s.next_local_model_action ≤ ready_at)

    abbrev pass : ℕ → Swarm → Swarm
    pass now s = (maintain_local_model answers status now s).state

    prepare :
        (now : ℕ) (s : Swarm) → At 0 now s → At 1 (now + k_configuration_step_delay) (pass now s)
    unfolding setup_stage
    prepare now s (r, e, n) =
        subst (λ o. At 1 (now + k_configuration_step_delay) o.state) (sym (due now s r n))
          (ground (arith, c.keys))

    add_key :
        (now : ℕ) (s : Swarm) → At 1 now s → At 2 (now + k_configuration_step_delay) (pass now s)
    unfolding setup_stage
    add_key now s (r, e, n) =
        let call = add_app_key address s.config.swarm_app_key_index s.config.swarm_network_index in
        subst (λ o. At 2 (now + k_configuration_step_delay) o.state) (sym (due now s r n))
          (ground (arith, c.returns call))

    configure_pass :
        (now : ℕ) (s : Swarm) → At 2 now s → At 3 (now + k_configuration_step_delay) (pass now s)
    unfolding setup_stage
    configure_pass now s (r, e, n) =
        subst (λ o. At 3 (now + k_configuration_step_delay) o.state) (sym (due now s r n))
          (ground (arith, c.returns (configure_vendor_model address)))

    confirm : (now : ℕ) (s : Swarm) → At 3 now s → (pass now s).application_ready ≡ true
    unfolding setup_stage
    confirm now s (r, e, n) =
        subst (λ o. o.state.application_ready ≡ true) (sym (due now s r n))
          (ground (arith, c.confirmed))

    later : (stage a b : ℕ) (s : Swarm) → At stage a s → a ≤ b → At stage b s
    later stage a b s (r, e, n) h = (r, e, omega arith)

    -- From the state that detaching leaves, four passes that follow one another by at least a second
    -- make the application ready, if the node has an address, the keys are prepared, every call
    -- returns, and BlueZ confirms the model.
    pub setup_passes-ready :
        (t₀ t₁ t₂ t₃ : ℕ) (s : Swarm)
        → s.application_ready ≡ false
        → s.local_model_stage ≡ 0
        → s.next_local_model_action ≡ 0
        → t₀ + k_configuration_step_delay ≤ t₁
        → t₁ + k_configuration_step_delay ≤ t₂
        → t₂ + k_configuration_step_delay ≤ t₃
        → (setup_passes answers status (t₀ ∷ t₁ ∷ t₂ ∷ t₃ ∷ []) s).application_ready ≡ true
    setup_passes-ready t₀ t₁ t₂ t₃ s r e n h₁ h₂ h₃ =
        let s₁ = pass t₀ s in
        let s₂ = pass t₁ s₁ in
        let s₃ = pass t₂ s₂ in
        let at₁ = prepare t₀ s (r, e, omega arith) in
        let at₂ = add_key t₁ s₁ (later 1 (t₀ + k_configuration_step_delay) t₁ s₁ at₁ h₁) in
        let at₃ = configure_pass t₂ s₂ (later 2 (t₁ + k_configuration_step_delay) t₂ s₂ at₂ h₂) in
        confirm t₃ s₃ (later 3 (t₂ + k_configuration_step_delay) t₃ s₃ at₃ h₃)

setup_at-confirmed :
    (answers : Answers) (addresses : List ℕ) (now : ℕ) (s : Swarm)
    → s.application_ready ≡ false
    → (setup_at answers addresses now s).state.application_ready ≡ true
    → (answers.vendor_model_ready ≡ some true) × (3 ≤ s.local_model_stage)
unfolding setup_at
setup_at-confirmed answers [] now s r e = cc
setup_at-confirmed answers (address ∷ rest) now s r e = (ground arith, ground arith)

-- A pass makes the application ready only from the last stage, and only if BlueZ confirms the model.
pub maintain_local_model-confirmed :
    (answers : Answers) (status : Status) (now : ℕ) (s : Swarm)
    → s.application_ready ≡ false
    → (maintain_local_model answers status now s).state.application_ready ≡ true
    → (answers.vendor_model_ready ≡ some true) × (3 ≤ s.local_model_stage)
unfolding maintain_local_model
maintain_local_model-confirmed answers status now s r e =
    setup_at-confirmed answers status.addresses now s r e
