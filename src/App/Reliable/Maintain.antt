-- ===== src/App/Reliable/Maintain.antt =====
-- `maintain_mesh_reliable` of src/app/service_node_mesh.cpp: the sweep of the tables, which plans the
-- messages of a round, and what follows the sweep. A round has one reading of the clock.
pub mod Sweep
use mrs_uav_bluetooth.Mesh.Swarm.Outcome.{done}
use mrs_uav_bluetooth.App.Reliable.Send.{awaited, mark_busy, send_mesh_bridge_payload_impl}
use mrs_uav_bluetooth.App.Reliable.Send.Choice.{
  MeshSide, Admission, Submission, Sending, handle_given, no_handle, send_raised,
}
use mrs_uav_bluetooth.App.Reliable.Maintain.Sweep.{
  sweep, Outbound, TransferCheck, Round, MeshCalls, Maintained,
}
use mrs_uav_bluetooth.Prelude.NatMap.{NatMap}
use mrs_uav_bluetooth.Prelude.{
  ltb, ◌==◌, if◌then◌else◌, length, ℕ, ◌+◌, ◌-◌, Bool, true, false, ◌&&◌, Option, none, some, List,
  [], ◌∷◌, ◌++◌,
}
use mrs_uav_bluetooth.App.Reliable.{
  k_reliable_receipt_query, k_max_queued_acks, k_queue_retry_delay, reliable_sequence, marker_of,
  is_data_marker, put_pending, clear_reliable_state, take_reset, remember_mesh_transfer,
  flush_cancellations, SendHandle, ReliableTarget, ReliablePending, LatestSample, Reliable,
}
use mrs_uav_bluetooth.Prelude.NatMap

abbrev same_handle : SendHandle → SendHandle → Bool
same_handle a b = a.attachment == b.attachment && a.transfer == b.transfer

abbrev pub is_transfer : SendHandle → Option SendHandle → Bool
is_transfer handle none = false
is_transfer handle (some h) = same_handle h handle

abbrev pub release_channel :
    TransferCheck → Option ReliablePending → Option ReliableTarget → Reliable → Reliable
release_channel check (some p) (some target) r =
    if is_transfer check.handle target.transfer
    then put_pending check.sequence
        (record p {
          awaiting = NatMap.assign check.destination (record target { transfer = none }) p.awaiting;
          blocks_channel = false;
        })
        r
    else r
release_channel check p target r = r

-- A transfer that has ended no longer holds its channel.
abbrev pub finish_check : Option Bool → TransferCheck → Reliable → Reliable
finish_check (some false) check r =
    let p = NatMap.find check.sequence r.pending in
    release_channel check p (awaited check.destination p) r
finish_check answer check r = r

abbrev pub run_checks : MeshCalls → List TransferCheck → Reliable → Reliable
run_checks calls [] r = r
run_checks calls (c ∷ cs) r = run_checks calls cs (finish_check (calls.send_pending c.handle) c r)

-- Whether a message is given to `try_send`: a query waits for its transfer.
pub data Gate : Type 0 where
  proceeds : Gate
  waits : Gate
  fails : Gate

abbrev gate_by : Option Bool → Gate
gate_by none = fails
gate_by (some true) = waits
gate_by (some false) = proceeds

abbrev query_gate : MeshCalls → Option SendHandle → Gate
query_gate calls none = proceeds
query_gate calls (some h) = gate_by (calls.send_pending h)

abbrev pub gate_of : MeshCalls → Outbound → Gate
gate_of calls item =
    if marker_of item.message.wire == k_reliable_receipt_query
    then query_gate calls item.transfer
    else proceeds

abbrev pub defer_sample :
    ℕ → ℕ → Option ReliablePending → Option ReliableTarget → ℕ → Reliable → Reliable
defer_sample sequence destination (some p) (some target) retry_at r =
    put_pending sequence
      (record p {
        awaiting =
            NatMap.assign destination
              (record target { attempts = target.attempts - 1; retry_at = retry_at }) p.awaiting;
      })
      r
defer_sample sequence destination p target retry_at r = r

abbrev defer_message : Submission → ℕ → Reliable → Reliable
defer_message m retry_at r =
    let p = NatMap.find (reliable_sequence m.wire) r.pending in
    defer_sample (reliable_sequence m.wire) m.destination p (awaited m.destination p) retry_at
      (mark_busy m.destination retry_at r)

-- A receipt that could not be sent is the first of the next ones.
abbrev pub requeue_ack : Outbound → Reliable → Reliable
requeue_ack item r =
    if item.acknowledgement && ltb (length r.acks) k_max_queued_acks
    then record r {
      acks =
          record {
            destination = item.message.destination;
            app_key_index = item.message.app_key_index;
            frame = item.message.wire;
          }
          ∷ r.acks;
    }
    else r

abbrev pub after_message : Admission → Outbound → ℕ → Reliable → Reliable
after_message (handle_given h) item now r =
    if is_data_marker (marker_of item.message.wire)
    then remember_mesh_transfer (reliable_sequence item.message.wire) item.message.destination h now
        r
    else r
after_message no_handle item now r = defer_message item.message (now + k_queue_retry_delay) r
after_message send_raised item now r = requeue_ack item r

abbrev pub send_item : Gate → MeshCalls → Outbound → ℕ → Maintained → Maintained
send_item waits calls item now done = done
send_item fails calls item now done = record done { state = requeue_ack item done.state }
send_item proceeds calls item now done = record {
  submitted = done.submitted ++ item.message ∷ [];
  state = after_message (calls.try_send item.message) item now done.state;
}

abbrev pub send_items : MeshCalls → List Outbound → ℕ → Maintained → Maintained
send_items calls [] now done = done
send_items calls (item ∷ items) now done =
    send_items calls items now (send_item (gate_of calls item) calls item now done)

abbrev pub resume_after : Sending → Maintained → Maintained
resume_after sending done = record {
  submitted = done.submitted ++ sending.submitted;
  state = sending.state;
}

unfoldable pub resume_samples :
    MeshSide → MeshCalls → List LatestSample → ℕ → Maintained → Maintained
unfolding send_mesh_bridge_payload_impl
resume_samples side calls [] now done = done
resume_samples side calls (s ∷ ss) now done = resume_samples side calls ss now (
    resume_after
      (send_mesh_bridge_payload_impl true side s.bridge s.payload (calls.resume_send s.bridge) now
        done.state)
      done)

unfoldable pub finish_round : MeshSide → MeshCalls → ℕ → List LatestSample × Round → Maintained
unfolding remember_mesh_transfer
finish_round side calls now (ready, round) = resume_samples side calls ready now (
    send_items calls round.outbound now (record {
      submitted = [];
      state = flush_cancellations calls.cancel_returns (run_checks calls round.checks round.state);
    }))

unfoldable pub maintain_mesh_reliable : MeshSide → MeshCalls → ℕ → Reliable → Maintained
unfolding clear_reliable_state sweep
maintain_mesh_reliable side calls now r =
    finish_round side calls now (sweep now (take_reset side.reset_cancel_returns r))
