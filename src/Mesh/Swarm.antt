-- ===== src/Mesh/Swarm.antt =====
-- The state of the swarm coordinator, src/mesh/swarm_coordinator.cpp (`MeshSwarmCoordinator`).
-- The clock is a number of ticks and an argument of each operation; the default `time_point{}` is 0.
-- The configured seconds are whole numbers of ticks. Each operation that takes the mutex is one step.
pub mod Setup
pub mod Outcome
pub mod Presence
pub mod Frame
pub mod Selection
pub mod Lifecycle
pub mod Enrollment
pub mod Fleet
mod Runs
mod Passes
use mrs_uav_bluetooth.Prelude.{◌==◌, not, is_empty, Text, codes, ℕ, ◌*◌, Bool, ◌||◌, List, ◌++◌}
use mrs_uav_bluetooth.Prelude.NatMap.{NatMap}
use mrs_uav_bluetooth.Prelude.Decimal.{to_string}
use mathlib.Core.Option
use mrs_uav_bluetooth.Prelude.NatMap

-- The part of `config::NodeConfig` that the coordinator reads.
pub record SwarmConfig : Type 0 where
  pub peer_whitelist : List Text
  pub provisioner_preference : Text
  pub mesh_swarm_id : ℕ
  pub mesh_swarm_participating : Bool
  pub mesh_company_id : ℕ
  pub mesh_vendor_model_id : ℕ
  pub swarm_group_address : ℕ
  pub swarm_network_index : ℕ
  pub swarm_app_key_index : ℕ
  pub startup_grace : ℕ
  pub heartbeat_period : ℕ
  pub provisioner_timeout : ℕ

pub record PeerPresence : Type 0 where
  pub source : ℕ
  pub swarm_id : ℕ
  pub participating : Bool
  pub expires : ℕ

-- A lifecycle event; only the fields that the coordinator reads.
pub record MeshEvent : Type 0 where
  pub event : Text
  pub uuid : Text
  pub bytes : List ℕ
  pub unicast : ℕ
  pub count : ℕ

pub record Swarm : Type 0 where
  pub config : SwarmConfig
  pub hostname : Text
  pub local_number : ℕ
  pub preferred_number : ℕ
  pub whitelist_fingerprint : ℕ
  pub member_by_number : NatMap Text
  pub member_priority : List ℕ
  pub peer_presence : NatMap PeerPresence
  pub active_number : ℕ
  pub active_provisioner : Text
  pub local_is_active : Bool
  pub active_since : ℕ
  pub swarm_id : ℕ
  pub swarm_participating : Bool
  pub last_heartbeat : ℕ
  pub bootstrap_started_at : ℕ
  pub last_bootstrap_action : ℕ
  pub local_model_stage : ℕ
  pub next_local_model_action : ℕ
  pub application_ready : Bool
  pub pending_events : List MeshEvent
  pub pending_provision_uuid : Text
  pub pending_provision_address : ℕ
  pub remote_model_stage : ℕ
  pub remote_model_action_at : ℕ
  pub pending_provision_until : ℕ
  pub last_scan_at : ℕ
  pub last_direct_attempt : NatMap ℕ

abbrev pub second : ℕ
second = 1_000_000_000

abbrev pub k_configuration_step_delay : ℕ
k_configuration_step_delay = second

abbrev pub k_retry_delay : ℕ
k_retry_delay = 5 * second

abbrev pub k_per_priority_join_window : ℕ
k_per_priority_join_window = 90 * second

abbrev pub k_control_opcode : ℕ
k_control_opcode = 0xc0

abbrev pub k_frame_version : ℕ
k_frame_version = 4

abbrev pub k_frame_size : ℕ
k_frame_size = 8

abbrev pub k_swarm_participating_flag : ℕ
k_swarm_participating_flag = 0x02

unfoldable pub peer_allowed : Swarm → ℕ → Bool
peer_allowed s number =
    is_empty s.config.peer_whitelist || NatMap.contains number s.member_by_number

abbrev pub member_name_in : NatMap Text → ℕ → Text
member_name_in known number =
    Option.get_or (NatMap.find number known) (codes "uav" ++ to_string number)

unfoldable pub member_name : Swarm → ℕ → Text
member_name s number = member_name_in s.member_by_number number

-- What keeps a sender out of the presence table: no source, the UAV itself, no swarm, or a peer that
-- is not admitted.
abbrev pub refused : Swarm → ℕ → ℕ → Bool
refused s source id =
    source == 0 || source == s.local_number || id == 0 || not (peer_allowed s source)
