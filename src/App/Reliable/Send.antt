-- ===== src/App/Reliable/Send.antt =====
-- `send_mesh_bridge_payload_impl` of src/app/service_node_mesh.cpp: what it needs of a sample's channel,
-- the sequence and the turn, the pending entry, the copies to the members, and the whole operation.
pub mod Choice
pub mod Sequence
pub mod Kept
pub mod Turn
pub mod Handoff
use mrs_uav_bluetooth.App.Reliable.Send.Choice.{
  nothing_sent, bridge_channel, store_latest, side_ready, choose_probe, add_probe, take_sequence,
  turn_at, put_turn, refresh_turn, successor, choose_turn, MeshSide, Admission, Submission, Sending,
  TurnChoice, handle_given, no_handle, send_raised, completed, mesh_disabled, no_channel_frame,
  no_turn, not_permitted, holds_turn,
}
use mrs_uav_bluetooth.Prelude.NatMap.{NatMap}
use mrs_uav_bluetooth.Prelude.{
  ltb, leb, ◌==◌, if◌then◌else◌, length, get_or, any, is_empty, ℕ, ◌+◌, ◌*◌, Bool, true, false, not,
  ◌&&◌, Option, none, some, List, [], ◌∷◌,
}
use mrs_uav_bluetooth.Mesh.Swarm.Presence.{swarm_member_addresses, swarm_probe_addresses}
use mrs_uav_bluetooth.Bridge.Transport.{SharedTopic}
use mrs_uav_bluetooth.App.Reliable.{
  k_reliable_data, k_reliable_data_no_turn, k_max_pending_samples, k_receipt_query_period,
  k_queue_retry_delay, k_turn_recovery, make_reliable_data, with_marker, sorted_unique,
  mesh_turn_members, peer_state, put_pending, pending_handles, cancel_all, clear_reliable_state,
  take_reset, remember_mesh_transfer, channel_busy, ReliableTarget, ReliablePending, Reliable,
}
use mrs_uav_bluetooth.Mesh.Swarm.{second, Swarm}
use mathlib.Core.Option
use mrs_uav_bluetooth.Prelude.NatMap

-- The first entry of the earliest creation.
abbrev pub oldest_from : ℕ → ReliablePending → NatMap ReliablePending → ℕ × ReliablePending
oldest_from key p [] = (key, p)
oldest_from key p ((k, q) ∷ rest) =
    if ltb q.created p.created then oldest_from k q rest else oldest_from key p rest

abbrev pub evict : NatMap ReliablePending → Reliable → Reliable
evict [] r = r
evict ((key, p) ∷ rest) r =
    let oldest = oldest_from key p rest in
    cancel_all (pending_handles oldest.1) (record r { pending = NatMap.erase oldest.0 r.pending })

unfoldable pub make_room : Reliable → Reliable
make_room r = if leb k_max_pending_samples (length r.pending) then evict r.pending r else r

abbrev await_all : List ℕ → ℕ → NatMap ReliableTarget
await_all [] now = []
await_all (peer ∷ peers) now =
    NatMap.assign peer
      (record {
        attempts = 0;
        transfer = none;
        retry_at = now + 5 * second;
        receipt_query_at = now + k_receipt_query_period;
        transfer_check_at = now;
      })
      (await_all peers now)

abbrev pub new_pending : SharedTopic → List ℕ → List ℕ → ℕ → ℕ → ReliablePending
new_pending b wrapped targets next now = record {
  channel_key = bridge_channel b;
  frame = wrapped;
  awaiting = await_all targets now;
  primary_transfer = none;
  app_key_index = b.mesh_app_key_index;
  element_index = b.mesh_element_index;
  turn_successor = next;
  force_segmented = b.mesh_force_segmented;
  native_completion_releases_channel = length targets == 1;
  blocks_channel = true;
  created = now;
}

-- A copy that the transport did not take is tried again soon.
abbrev pub defer_in :
    ℕ → ℕ → Option ReliablePending → Option ReliableTarget → ℕ → Reliable → Reliable
defer_in sequence destination (some p) (some target) retry_at r =
    put_pending sequence
      (record p {
        awaiting = NatMap.assign destination (record target { retry_at = retry_at }) p.awaiting;
      })
      r
defer_in sequence destination p target retry_at r = r

abbrev pub awaited : ℕ → Option ReliablePending → Option ReliableTarget
awaited destination none = none
awaited destination (some p) = NatMap.find destination p.awaiting

abbrev pub defer_target : ℕ → ℕ → ℕ → Reliable → Reliable
defer_target sequence destination retry_at r =
    let p = NatMap.find sequence r.pending in
    defer_in sequence destination p (awaited destination p) retry_at r

abbrev pub mark_busy : ℕ → ℕ → Reliable → Reliable
mark_busy destination until r = record r {
  peers =
      NatMap.assign destination (record (peer_state destination r) { transport_busy_until = until })
        r.peers;
}

abbrev pub after_admission : ℕ → ℕ → ℕ → Admission → Reliable → Reliable
after_admission sequence destination now (handle_given handle) r =
    remember_mesh_transfer sequence destination handle now r
after_admission sequence destination now no_handle r =
    defer_target sequence destination (now + k_queue_retry_delay)
      (mark_busy destination (now + k_queue_retry_delay) r)
after_admission sequence destination now send_raised r =
    defer_target sequence destination (now + k_queue_retry_delay) r

abbrev pub is_admitted : Admission → Bool
is_admitted (handle_given handle) = true
is_admitted a = false

abbrev pub turn_marker : ℕ → ℕ → ℕ
turn_marker destination next =
    if destination == next then k_reliable_data else k_reliable_data_no_turn

abbrev pub copy_for : SharedTopic → List ℕ → ℕ → ℕ → Submission
copy_for b wrapped next destination = record {
  element_index = b.mesh_element_index;
  destination = destination;
  app_key_index = b.mesh_app_key_index;
  force_segmented = b.mesh_force_segmented;
  wire = with_marker (turn_marker destination next) wrapped;
}

-- The copies, one for each target.
abbrev pub fan_out : SharedTopic → List ℕ → ℕ → List ℕ → List Submission
fan_out b wrapped next [] = []
fan_out b wrapped next (d ∷ ds) = copy_for b wrapped next d ∷ fan_out b wrapped next ds

-- What their submissions leave.
abbrev pub submit_all : (ℕ → Admission) → ℕ → List ℕ → ℕ → Reliable → Reliable
submit_all answer sequence [] now r = r
submit_all answer sequence (d ∷ ds) now r =
    submit_all answer sequence ds now (after_admission sequence d now (answer d) r)

abbrev pub restore_turn : Bool → ℕ → Reliable → Reliable
restore_turn false channel r = r
restore_turn true channel r = put_turn channel (record (turn_at channel r) { permitted = true }) r

abbrev pub consume_turn : Bool → ℕ → ℕ → Reliable → Reliable
consume_turn false channel now r = r
consume_turn true channel now r =
    put_turn channel
      (record (turn_at channel r) { permitted = false; reclaim_at = now + k_turn_recovery }) r

abbrev settle : Bool → Bool → SharedTopic → List ℕ → Bool → ℕ → Reliable → Reliable
settle any_admitted resumed b payload consumes sequence r =
    if any_admitted
    then r
    else restore_turn consumes (bridge_channel b)
        (store_latest resumed b payload (record r { pending = NatMap.erase sequence r.pending }))

-- The pending entry, the turn's use, the copies and what becomes of them.
unfoldable pub transmit :
    Bool
    → SharedTopic
    → List ℕ
    → (ℕ → Admission)
    → ℕ
    → List ℕ
    → ℕ
    → Bool
    → ℕ
    → ℕ
    → Reliable
    → Sending
unfolding make_room make_reliable_data remember_mesh_transfer store_latest
transmit resumed b payload answer swarm_id targets sequence consumes next now r =
    let wrapped = make_reliable_data payload sequence swarm_id in
    let queued =
      consume_turn consumes (bridge_channel b) now
        (put_pending sequence (new_pending b wrapped targets next now) (make_room r)) in
    record {
      result = completed;
      submitted = fan_out b wrapped next targets;
      state =
          settle (any (λ d. is_admitted (answer d)) targets) resumed b payload consumes sequence
            (submit_all answer sequence targets now queued);
    }

abbrev pub send_turn :
    Bool
    → SharedTopic
    → List ℕ
    → (ℕ → Admission)
    → ℕ
    → List ℕ
    → ℕ
    → ℕ
    → TurnChoice × Reliable
    → Sending
send_turn resumed b payload answer swarm_id targets sequence now (no_turn, r) =
    transmit resumed b payload answer swarm_id targets sequence false 0 now r
send_turn resumed b payload answer swarm_id targets sequence now (not_permitted, r) =
    nothing_sent (store_latest resumed b payload r)
send_turn resumed b payload answer swarm_id targets sequence now (holds_turn next, r) =
    transmit resumed b payload answer swarm_id targets sequence true next now r

abbrev send_sequenced :
    Bool
    → MeshSide
    → SharedTopic
    → List ℕ
    → (ℕ → Admission)
    → Swarm
    → List ℕ
    → List ℕ
    → ℕ
    → ℕ × Reliable
    → Sending
send_sequenced resumed side b payload answer s peers targets now (sequence, r) =
    send_turn resumed b payload answer s.swarm_id targets sequence now
      (choose_turn (bridge_channel b) peers side.addresses now r)

abbrev pub send_probed :
    Bool
    → MeshSide
    → SharedTopic
    → List ℕ
    → (ℕ → Admission)
    → Swarm
    → List ℕ
    → ℕ
    → Option ℕ × Reliable
    → Sending
send_probed resumed side b payload answer s peers now (probe, r) =
    let targets = sorted_unique (add_probe probe peers) in
    if is_empty targets
    then nothing_sent (store_latest resumed b payload r)
    else send_sequenced resumed side b payload answer s peers targets now (take_sequence r)

-- A sample too short, or without the bridge's marker, is an error.
abbrev pub has_channel_frame : List ℕ → Bool
has_channel_frame payload =
    leb 8 (length payload)
    && get_or payload 3 0 == b'M'
    && get_or payload 4 0 == b'B'
    && get_or payload 5 0 == 1

unfoldable pub send_reliable :
    Bool → MeshSide → SharedTopic → List ℕ → (ℕ → Admission) → Swarm → ℕ → Reliable → Sending
unfolding store_latest choose_probe take_sequence transmit refresh_turn successor mesh_turn_members
    swarm_member_addresses swarm_probe_addresses
send_reliable resumed side b payload answer s now r =
    if not (has_channel_frame payload)
    then record { result = no_channel_frame; submitted = []; state = r }
    else if channel_busy (bridge_channel b) r.pending
    then nothing_sent (store_latest resumed b payload r)
    else let peers = swarm_member_addresses now s in
      send_probed resumed side b payload answer s peers now
        (choose_probe (swarm_probe_addresses now s) now r)

-- `mesh_app_->send` of the sample itself.
abbrev send_plain : SharedTopic → List ℕ → Reliable → Sending
send_plain b payload r = record {
  result = completed;
  submitted =
      record {
        element_index = b.mesh_element_index;
        destination = b.mesh_destination;
        app_key_index = b.mesh_app_key_index;
        force_segmented = b.mesh_force_segmented;
        wire = payload;
      }
      ∷ [];
  state = r;
}

abbrev pub send_by :
    Bool
    → MeshSide
    → SharedTopic
    → List ℕ
    → (ℕ → Admission)
    → Option Swarm
    → Bool
    → ℕ
    → Reliable
    → Sending
send_by resumed side b payload answer (some s) true now r =
    send_reliable resumed side b payload answer s now r
send_by resumed side b payload answer swarm reliable now r = send_plain b payload r

abbrev send_current :
    Bool → MeshSide → SharedTopic → List ℕ → (ℕ → Admission) → ℕ → Reliable → Sending
send_current resumed side b payload answer now r =
    if resumed && NatMap.contains (bridge_channel b) r.latest
    then nothing_sent r
    else send_by resumed side b payload answer side.mesh_swarm_coordinator b.mesh_swarm_reliable now
        (if resumed then r else record r { latest = NatMap.erase (bridge_channel b) r.latest })

unfoldable pub send_mesh_bridge_payload_impl :
    Bool → MeshSide → SharedTopic → List ℕ → (ℕ → Admission) → ℕ → Reliable → Sending
unfolding clear_reliable_state send_reliable store_latest
send_mesh_bridge_payload_impl resumed side b payload answer now r =
    if not side.enabled
    then record { result = mesh_disabled; submitted = []; state = r }
    else if side_ready side
    then send_current resumed side b payload answer now (take_reset side.reset_cancel_returns r)
    else nothing_sent (store_latest resumed b payload (take_reset side.reset_cancel_returns r))
