-- ===== src/Mesh/Swarm/Enrollment.antt =====
-- `handle_event` and `maintain_auto_enrollment`: provisioning newcomers, one at a time.
pub mod Targets
use mrs_uav_bluetooth.Prelude.{
  ltb, leb, ◌==◌, if◌then◌else◌, length, take, any, is_empty, Text, codes, text_eq, ℕ, ◌+◌, ◌-◌,
  ◌*◌, ◌%◌, Bool, true, false, not, ◌&&◌, ◌||◌, Option, none, some, List, [], ◌∷◌, ◌++◌,
}
use mrs_uav_bluetooth.Mesh.Swarm.{
  second, k_configuration_step_delay, k_retry_delay, peer_allowed, member_name, MeshEvent, Swarm,
}
use mrs_uav_bluetooth.Mesh.Application.{
  Answers, Status, add_app_key, configure_vendor_model, set_auto_provisioning_unicast, add_node,
}
use mrs_uav_bluetooth.Mesh.Uuid.{mesh_auto_uuid_from_name, mesh_auto_uuid_number, mesh_bytes_to_hex}
use mrs_uav_bluetooth.Mesh.Swarm.Outcome.{done, then_do, Outcome}
use mathlib.Core.Option
use mrs_uav_bluetooth.Prelude.NatMap

unfoldable pub handle_event : MeshEvent → Swarm → Swarm
handle_event e s =
    if not (text_eq e.event (codes "scan_result"))
      && not (text_eq e.event (codes "add_node_complete"))
      && not (text_eq e.event (codes "add_node_failed"))
    then s
    else if ltb (length s.pending_events) 128
    then record s { pending_events = s.pending_events ++ e ∷ [] }
    else s

abbrev forget_pending : Swarm → Swarm
forget_pending s = record s { pending_provision_uuid = []; pending_provision_address = 0 }

-- The try block around `set_auto_provisioning_unicast` and `add_node`: exceptions are caught.
start_provisioning : Answers → ℕ → List ℕ → ℕ → Swarm → Outcome
start_provisioning answers number uuid now s =
    let named = set_auto_provisioning_unicast number in
    let added = add_node uuid in
    if not (answers.accepts named)
    then record { state = s; calls = named ∷ []; raised = false }
    else record {
      state =
          if answers.accepts added
          then record s {
            pending_provision_uuid = mesh_bytes_to_hex uuid;
            pending_provision_address = number;
            pending_provision_until = now + 50 * second;
          }
          else s;
      calls = named ∷ added ∷ [];
      raised = false;
    }

-- The device UUID that the whitelist expects at the number, when there is a whitelist: `none` is an
-- exception, `some false` another UUID.
uuid_expected : Option Text → List ℕ → Option Bool
uuid_expected none uuid = some false
uuid_expected (some name) uuid =
    Option.map (λ expected. text_eq expected uuid) (mesh_auto_uuid_from_name name)

whitelist_admits : Swarm → ℕ → List ℕ → Option Bool
unfolding uuid_expected
whitelist_admits s number uuid =
    if is_empty s.config.peer_whitelist
    then some true
    else uuid_expected (NatMap.find number s.member_by_number) uuid

answer_scan : Option Bool → Answers → ℕ → List ℕ → ℕ → Swarm → Outcome
unfolding start_provisioning
answer_scan none answers number uuid now s = record { state = s; calls = []; raised = true }
answer_scan (some false) answers number uuid now s = done s
answer_scan (some true) answers number uuid now s =
    if NatMap.contains number s.peer_presence
    then done s
    else start_provisioning answers number uuid now s

handle_scan : Answers → MeshEvent → ℕ → Swarm → Outcome
unfolding answer_scan whitelist_admits
handle_scan answers e now s =
    let uuid = take 16 e.bytes in
    let number = mesh_auto_uuid_number uuid in
    if not (text_eq e.event (codes "scan_result"))
      || not s.local_is_active
      || not (is_empty s.pending_provision_uuid)
      || ltb (length e.bytes) 16
    then done s
    else if number == 0 || number == s.local_number || not (peer_allowed s number)
    then done s
    else answer_scan (whitelist_admits s number uuid) answers number uuid now s

process_event : Answers → ℕ → MeshEvent → Swarm → Outcome
unfolding handle_scan
process_event answers now e s =
    let ours = text_eq e.uuid s.pending_provision_uuid in
    if text_eq e.event (codes "add_node_failed") && ours
    then done (record s {
      pending_provision_uuid = [];
      pending_provision_address = 0;
      remote_model_stage = 0;
      last_scan_at = 0;
    })
    else if text_eq e.event (codes "add_node_complete") && ours
    then if not (e.unicast == s.pending_provision_address) || not (e.count == 1)
      then done (forget_pending s)
      else done (record s {
        remote_model_stage = 1;
        remote_model_action_at = now + k_configuration_step_delay;
        pending_provision_until = 0;
      })
    else handle_scan answers e now s

process_events : Answers → ℕ → List MeshEvent → Swarm → Outcome
unfolding process_event
process_events answers now [] s = done s
process_events answers now (e ∷ rest) s =
    then_do (process_event answers now e s) (process_events answers now rest)

expire_pending : ℕ → Swarm → Swarm
expire_pending now s =
    if not (is_empty s.pending_provision_uuid)
      && not (s.pending_provision_until == 0)
      && leb s.pending_provision_until now
    then record s { pending_provision_uuid = []; pending_provision_address = 0; last_scan_at = 0 }
    else s

abbrev remote_retry : ℕ → Swarm → Swarm
remote_retry now s = record s { remote_model_action_at = now + k_retry_delay }

-- Exceptions are caught and retried.
remote_model : Answers → ℕ → Swarm → Outcome
remote_model answers now s =
    let key =
      add_app_key s.pending_provision_address s.config.swarm_app_key_index
        s.config.swarm_network_index in
    let model = configure_vendor_model s.pending_provision_address in
    if s.remote_model_stage == 0 || ltb now s.remote_model_action_at
    then done s
    else if s.remote_model_stage == 1
    then record {
      state =
          if answers.accepts key
          then record s { remote_model_stage = 2; remote_model_action_at = now + 2 * second }
          else remote_retry now s;
      calls = key ∷ [];
      raised = false;
    }
    else record {
      state =
          if answers.accepts model
          then record s {
            remote_model_stage = 0;
            pending_provision_uuid = [];
            pending_provision_address = 0;
            last_scan_at = 0;
            remote_model_action_at = now + 2 * second;
          }
          else remote_retry now s;
      calls = model ∷ [];
      raised = false;
    }

abbrev attempted_recently : ℕ → Option ℕ → Bool
attempted_recently now none = false
attempted_recently now (some previous) = not (previous == 0) && ltb (now - previous) (55 * second)

provision_named : Answers → Option (List ℕ) → ℕ → ℕ → Swarm → Outcome
unfolding start_provisioning
provision_named answers none number now s = done s
provision_named answers (some uuid) number now s =
    start_provisioning answers (number % 65536) uuid now s

abbrev enrolled : Option (List ℕ) → ℕ → Bool
enrolled none number = false
enrolled (some known) number = any (λ unicast. unicast == number) known

-- The attempt at one candidate; `none` is the exception of `export_device_keys`, which is caught.
attempt : Answers → Option (List ℕ) → ℕ → ℕ → Swarm → Outcome
unfolding provision_named
attempt answers none number now s = done s
attempt answers (some known) number now s =
    provision_named answers (mesh_auto_uuid_from_name (member_name s number)) number now s

-- The loop over the candidates: it ends with the first one that it attempts.
direct_loop : Answers → ℕ → List ℕ → Swarm → Outcome
unfolding attempt
direct_loop answers now [] s = done s
direct_loop answers now (number ∷ rest) s =
    let marked = record s {
      last_direct_attempt = NatMap.assign number now s.last_direct_attempt;
    } in
    let skipped = direct_loop answers now rest s in
    let passed = direct_loop answers now rest marked in
    if number == s.local_number
      || NatMap.contains number s.peer_presence
      || attempted_recently now (NatMap.find number s.last_direct_attempt)
    then skipped
    else if enrolled answers.device_keys number
    then passed
    else attempt answers answers.device_keys number now marked

unfoldable pub direct_provisioning : Answers → ℕ → Swarm → Outcome
unfolding direct_loop
direct_provisioning answers now s =
    if not (is_empty s.pending_provision_uuid)
    then done s
    else direct_loop answers now s.member_priority s

unfoldable pub maintain_auto_enrollment : Answers → Status → ℕ → Swarm → Outcome
unfolding process_events expire_pending remote_model direct_provisioning
maintain_auto_enrollment answers status now s =
    if not status.attached || not s.application_ready
    then done s
    else then_do (process_events answers now s.pending_events (record s { pending_events = [] }))
        λ t.
          then_do (remote_model answers now (expire_pending now t))
            λ u. direct_provisioning answers now u
