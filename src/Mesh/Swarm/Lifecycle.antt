-- ===== src/Mesh/Swarm/Lifecycle.antt =====
-- `maintain`: bootstrap while detached, then election, the local model, and the heartbeat.
pub mod Bootstrap
pub mod Readiness
pub mod Heartbeat
use mrs_uav_bluetooth.Bridge.Transport.Receive.{importing}
use mrs_uav_bluetooth.Prelude.{
  ltb, leb, ◌==◌, if◌then◌else◌, length, is_empty, codes, text_eq, ℕ, suc, ◌+◌, ◌-◌, ◌*◌, ◌%◌, Bool,
  true, false, not, ◌&&◌, ◌||◌, Option, none, some, List, [], ◌∷◌,
}
use mrs_uav_bluetooth.Mesh.Swarm.{
  k_configuration_step_delay, k_retry_delay, k_per_priority_join_window, Swarm,
}
use mrs_uav_bluetooth.Mesh.Application.{
  Call, Answers, Status, attach, cancel_join, import_auto_identity, join, send, prepare_auto_keys,
  add_app_key, configure_vendor_model,
}
use mrs_uav_bluetooth.Mesh.Swarm.Frame.{heartbeat_access}
use mrs_uav_bluetooth.Mesh.Swarm.Selection.{update_selection}
use mrs_uav_bluetooth.Mesh.Swarm.Outcome.{done, perform, then_do, Outcome}
use mrs_uav_bluetooth.Mesh.Swarm.Enrollment.{maintain_auto_enrollment}
use mathlib.Core.Option

abbrev pub retry_due : ℕ → Swarm → Bool
retry_due now s = s.last_bootstrap_action == 0 || leb k_retry_delay (now - s.last_bootstrap_action)

abbrev pub index_of : ℕ → List ℕ → Option ℕ
index_of n [] = none
index_of n (m ∷ ms) = if m == n then some 0 else Option.map suc (index_of n ms)

-- The place behind the first candidate, counted around the list; `own - first` wraps as a `size_t`.
abbrev pub turn : ℕ → Option ℕ → Option ℕ → ℕ
turn size (some first) (some own) = (own + size - first) % size
turn size first own = size

unfoldable pub bootstrap_priority : Swarm → ℕ
bootstrap_priority s =
    if is_empty s.member_priority
    then 0
    else turn (length s.member_priority)
        (if s.preferred_number == 0 then some 0 else index_of s.preferred_number s.member_priority)
        (index_of s.local_number s.member_priority)

unfoldable pub create_after : Swarm → ℕ
create_after s = s.config.startup_grace + k_per_priority_join_window * bootstrap_priority s

abbrev begin_action : ℕ → Swarm → Swarm
begin_action now s = record s { last_bootstrap_action = now }

unfoldable pub create_network : Answers → ℕ → Swarm → Outcome
create_network answers now s =
    if retry_due now s
    then perform answers (import_auto_identity (s.local_number % 65536)) (begin_action now s)
    else done s

abbrev pub is_joining : Status → Bool
is_joining status = text_eq status.state (codes "joining")

abbrev pub is_importing : Status → Bool
is_importing status = text_eq status.state (codes "importing")

unfoldable pub bootstrap_without_token : Answers → Status → ℕ → Swarm → Outcome
unfolding create_network
bootstrap_without_token answers status now s =
    if leb (create_after s) (now - s.bootstrap_started_at) && not (is_importing status)
    then then_do (if is_joining status then perform answers cancel_join s else done s)
        (create_network answers now)
    else if not (is_joining status) && not (is_importing status) && retry_due now s
    then perform answers join (begin_action now s)
    else done s

abbrev reset_local_model : Swarm → Swarm
reset_local_model s = record s {
  application_ready = false;
  local_model_stage = 0;
  next_local_model_action = 0;
}

unfoldable pub bootstrap : Answers → Status → ℕ → Swarm → Outcome
unfolding bootstrap_without_token
bootstrap answers status now s =
    let reset = reset_local_model s in
    if not status.daemon_available
    then done (record reset { last_bootstrap_action = 0 })
    else if not (status.token == 0)
    then if retry_due now reset
      then perform answers (attach status.token) (begin_action now reset)
      else done reset
    else bootstrap_without_token answers status now reset

-- A stage of the model setup: `advanced` if its call returns, a later retry if it throws.
abbrev model_step : Answers → Call → ℕ → Swarm → Swarm → Outcome
model_step answers call now s advanced = record {
  state =
      if answers.accepts call
      then record advanced { next_local_model_action = now + k_configuration_step_delay }
      else record s { next_local_model_action = now + k_retry_delay };
  calls = call ∷ [];
  raised = false;
}

prepare_keys : Option Bool → ℕ → Swarm → Outcome
prepare_keys (some true) now s = record {
  state = record s {
    local_model_stage = s.local_model_stage + 1;
    next_local_model_action = now + k_configuration_step_delay;
  };
  calls = prepare_auto_keys ∷ [];
  raised = false;
}
prepare_keys other now s = record {
  state = record s { next_local_model_action = now + k_retry_delay };
  calls = prepare_auto_keys ∷ [];
  raised = false;
}

confirm_model : Option Bool → ℕ → Swarm → Outcome
confirm_model (some true) now s = done (record s {
  application_ready = true;
  next_local_model_action = now + k_configuration_step_delay;
})
confirm_model (some false) now s =
    done (record s {
      local_model_stage = 1;
      next_local_model_action = now + k_configuration_step_delay;
    })
confirm_model none now s = done (record s { next_local_model_action = now + k_retry_delay })

abbrev next_stage : Swarm → Swarm
next_stage s = record s { local_model_stage = s.local_model_stage + 1 }

setup_stage : Answers → ℕ → ℕ → Swarm → Outcome
unfolding prepare_keys confirm_model
setup_stage answers address now s =
    if s.local_model_stage == 0
    then prepare_keys answers.keys_prepared now s
    else if s.local_model_stage == 1
    then model_step answers
        (add_app_key address s.config.swarm_app_key_index s.config.swarm_network_index) now s
        (next_stage s)
    else if s.local_model_stage == 2
    then model_step answers (configure_vendor_model address) now s (next_stage s)
    else confirm_model answers.vendor_model_ready now s

setup_at : Answers → List ℕ → ℕ → Swarm → Outcome
unfolding setup_stage
setup_at answers [] now s = done s
setup_at answers (address ∷ rest) now s =
    if s.application_ready
      || (not (s.next_local_model_action == 0) && ltb now s.next_local_model_action)
    then done s
    else setup_stage answers address now s

unfoldable pub maintain_local_model : Answers → Status → ℕ → Swarm → Outcome
unfolding setup_at
maintain_local_model answers status now s = setup_at answers status.addresses now s

abbrev pub throttled : ℕ → Swarm → Bool
throttled now s =
    not (s.last_heartbeat == 0) && ltb (now - s.last_heartbeat) s.config.heartbeat_period

unfoldable pub publish_coordination_heartbeat : Answers → ℕ → Swarm → Outcome
unfolding heartbeat_access
publish_coordination_heartbeat answers now s =
    if not s.application_ready
    then done s
    else if throttled now s
    then done s
    else perform answers
        (send s.config.swarm_group_address s.config.swarm_app_key_index (heartbeat_access s))
        (record s { last_heartbeat = now })

abbrev is_own_address : List ℕ → ℕ → Bool
is_own_address (address ∷ []) own = address == own
is_own_address addresses own = false

unfoldable pub maintain_attached : Answers → Status → ℕ → Swarm → Outcome
unfolding maintain_local_model publish_coordination_heartbeat
maintain_attached answers status now s =
    let selected =
      if leb s.config.startup_grace (now - s.bootstrap_started_at)
      then update_selection now s
      else s in
    then_do (maintain_local_model answers status now selected) λ t.
      then_do (publish_coordination_heartbeat answers now t)
        λ u. maintain_auto_enrollment answers status now u

-- A stored address that is not this UAV's number is an exception before anything changes.
unfoldable pub maintain : Answers → Status → ℕ → Swarm → Outcome
unfolding bootstrap maintain_attached
maintain answers status now s =
    if not status.attached
    then bootstrap answers status now s
    else if is_own_address status.addresses s.local_number
    then maintain_attached answers status now s
    else record { state = s; calls = []; raised = true }
