-- ===== src/Mesh/Swarm/Passes.antt =====
-- The theorems on maintenance passes at concrete swarms.
use mrs_uav_bluetooth.Prelude.{
  ℕ, ◌+◌, All, is_empty, codes, ◌*◌, ◌≤◌, ◌≡◌, refl, ◌⊎◌, true, some, [], ◌∷◌, arith,
}
use mrs_uav_bluetooth.Mesh.Swarm.Lifecycle.Heartbeat.{
  AreSpaced, HeartbeatRun, at_start, heartbeat_pass, between_passes, publish_spaced,
}
use mrs_uav_bluetooth.Mesh.Swarm.{second, Swarm}
use mrs_uav_bluetooth.Mesh.Application.{Answers, Status}
use mrs_uav_bluetooth.Mesh.Swarm.Lifecycle.{maintain_local_model, publish_coordination_heartbeat}
use mrs_uav_bluetooth.Mesh.Swarm.Fleet.{seventh}
use mrs_uav_bluetooth.Mesh.Swarm.Enrollment.{direct_provisioning}
use mrs_uav_bluetooth.Mesh.Swarm.Lifecycle.Readiness.{
  setup_passes, setup_passes-ready, maintain_local_model-confirmed, IsCooperative,
}
use mrs_uav_bluetooth.Mesh.Swarm.Enrollment.Targets.{Aims, direct_provisioning-Aims}

abbrev willing : Answers
willing = record {
  accepts = λ call. true;
  keys_prepared = some true;
  vendor_model_ready = some true;
  device_keys = some (7 ∷ []);
}

abbrev attached_7 : Status
attached_7 = record {
  daemon_available = true;
  attached = true;
  state = codes "attached";
  token = 1;
  addresses = 7 ∷ [];
}

willing_cooperates : IsCooperative willing
willing_cooperates = record { returns = λ call. refl; keys = refl; confirmed = refl }

setup_passes-ready_example :
    (setup_passes willing attached_7
      (second ∷ (2 * second) ∷ (3 * second) ∷ (4 * second) ∷ [])
      seventh).application_ready
    ≡ true
setup_passes-ready_example =
    setup_passes-ready willing attached_7 7 [] refl willing_cooperates second (2 * second)
      (3 * second) (4 * second) seventh refl refl refl (omega arith) (omega arith) (omega arith)

abbrev uav7_configured : Swarm
uav7_configured = record seventh { local_model_stage = 3 }

becomes_ready :
    (maintain_local_model willing attached_7 9 uav7_configured).state.application_ready ≡ true
unfolding maintain_local_model
becomes_ready = refl

maintain_local_model-confirmed_example : (willing.vendor_model_ready ≡ some true) × (3 ≤ 3)
maintain_local_model-confirmed_example =
    maintain_local_model-confirmed willing attached_7 9 uav7_configured refl becomes_ready

abbrev uav7_ready : Swarm
uav7_ready = record seventh { application_ready = true }

abbrev period : ℕ
period = uav7_ready.config.heartbeat_period

-- A heartbeat, a pass that is held back, an election that turns the state over, and a heartbeat.
two_heartbeats :
    HeartbeatRun uav7_ready
      (record uav7_ready { active_number = 9; last_heartbeat = 9 + period })
      ((9 + period) ∷ 9 ∷ [])
unfolding publish_coordination_heartbeat
two_heartbeats =
    heartbeat_pass willing (9 + period)
      (between_passes (record uav7_ready { active_number = 9; last_heartbeat = 9 })
        (heartbeat_pass willing 10 (heartbeat_pass willing 9 at_start (omega arith) (omega arith))
          (omega arith) (omega arith))
        refl refl)
      (omega arith) (omega arith)

publish_spaced_example : AreSpaced period ((9 + period) ∷ 9 ∷ [])
publish_spaced_example = publish_spaced two_heartbeats

direct_provisioning-Aims_example :
    ((is_empty uav7_ready.pending_provision_uuid ≡ true)
      ⊎ ((direct_provisioning willing 100 uav7_ready).calls ≡ []))
    × All (Aims uav7_ready) (direct_provisioning willing 100 uav7_ready).calls
direct_provisioning-Aims_example = direct_provisioning-Aims willing 100 uav7_ready
