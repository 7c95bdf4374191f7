-- ===== src/App/Reliable/Fits/Arrivals.antt =====
-- An arrival (src/app/service_node_mesh.cpp) keeps the tables within their bounds.
use mrs_uav_bluetooth.Prelude.{
  ◌==◌, if_cases, ℕ, ◌≡◌, refl, Bool, true, false, ◌||◌, Option, none, some, List,
}
use mrs_uav_bluetooth.Mesh.Swarm.Frame.{ReceivedMessage}
use mrs_uav_bluetooth.Bridge.Transport.{BridgeRuntime}
use mrs_uav_bluetooth.Bridge.Transport.Receive.{handle_mesh}
use mrs_uav_bluetooth.App.Reliable.{
  reliable_sequence, is_reliable_frame, ReliableTarget, ReliablePending, SeenEntry, Reliable,
}
use mrs_uav_bluetooth.App.Reliable.Fits.{Fits, put_pending-Fits, queue_ack-Fits}
use mrs_uav_bluetooth.App.Reliable.Receive.{
  find_seen, mark_delivered, is_delivered, seen_key, release_target, forgive_peer, matches_receipt,
  receive_receipt_for, receive_receipt, receive_query, admit_new, begin_data, rebuilt_frame,
  finish_found, finish_data, own_address, turn_ring, decode_new, receive_data, admit_frame,
  is_receipt, is_query, is_data, receive_admitted, from_self, raw_allowed, publish_mesh_message,
  MeshNode, Arrival,
}
use mrs_uav_bluetooth.Prelude.NatMap

forgive_peer-Fits : (source : ℕ) (r : Reliable) → Fits r → Fits (forgive_peer source r)
forgive_peer-Fits source r fits = fits

release_target-Fits :
    (sequence source : ℕ) (p : ReliablePending) (target : Option ReliableTarget) (r : Reliable)
    → NatMap.find sequence r.pending ≡ some p
    → Fits r
    → Fits (release_target sequence source p target r)
release_target-Fits sequence source p none r found fits = fits
release_target-Fits sequence source p (some target) r found fits =
    put_pending-Fits sequence p _ r found fits

receive_receipt_for-Fits :
    (m : ReceivedMessage) (p : Option ReliablePending) (r : Reliable)
    → NatMap.find (reliable_sequence m.bytes) r.pending ≡ p
    → Fits r
    → Fits (receive_receipt_for m p r)
receive_receipt_for-Fits m none r found fits = fits
receive_receipt_for-Fits m (some p) r found fits =
    if_cases (λ (t : Reliable). Fits t) (matches_receipt m p)
      (λ _.
        release_target-Fits (reliable_sequence m.bytes) m.source p (NatMap.find m.source p.awaiting)
          r found fits)
      (λ _. fits)

admit_new-Fits :
    (m : ReceivedMessage) (now : ℕ) (e : Option SeenEntry) (r : Reliable)
    → Fits r
    → Fits (admit_new m now e r).1
admit_new-Fits m now none r fits = fits
admit_new-Fits m now (some e) r fits =
    if_cases (λ (t : Reliable). Fits t) e.delivered (λ _. queue_ack-Fits m r fits) (λ _. fits)

finish_found-Fits :
    (handled : Bool) (m : ReceivedMessage) (element own : ℕ) (members : List ℕ) (now : ℕ)
    (e : Option SeenEntry) (r : Reliable)
    → Fits r
    → Fits (finish_found handled m element own members now e r)
finish_found-Fits handled m element own members now none r fits = fits
finish_found-Fits false m element own members now (some e) r fits = fits
finish_found-Fits true m element own members now (some e) r fits =
    let marked = record r { seen = mark_delivered (seen_key m) now r.seen } in
    if_cases (λ (t : Reliable). Fits t) (own == 0) (λ _. queue_ack-Fits m marked fits)
      (λ _. queue_ack-Fits m marked fits)

decode_new-Fits :
    (runtime : BridgeRuntime) (m : ReceivedMessage) (element now : ℕ) (n : MeshNode) (new : Bool)
    (r : Reliable)
    → Fits r
    → Fits (decode_new runtime m element now n (new, r)).node.reliable
unfolding finish_data
decode_new-Fits runtime m element now n false r fits = fits
decode_new-Fits runtime m element now n true r fits =
    let own = own_address n.mesh_swarm_coordinator n.addresses in
    let h = handle_mesh runtime m.source m.key_index (rebuilt_frame m.bytes) n.bridges in
    finish_found-Fits h.handled m element own (turn_ring n.mesh_swarm_coordinator own now) now
      (find_seen (seen_key m) r.seen) r fits

receive_admitted-Fits :
    (runtime : BridgeRuntime) (m : ReceivedMessage) (element now : ℕ) (n : MeshNode)
    → Fits n.reliable
    → Fits (receive_admitted runtime m element now n).node.reliable
unfolding receive_receipt receive_query receive_data begin_data
receive_admitted-Fits runtime m element now n fits =
    let found = find_seen (seen_key m) n.reliable.seen in
    let begun = admit_new m now found n.reliable in
    if_cases (λ (a : Arrival). Fits a.node.reliable) (is_receipt m.bytes)
      (λ _.
        receive_receipt_for-Fits m (NatMap.find (reliable_sequence m.bytes) n.reliable.pending)
          n.reliable refl fits)
      (λ _.
        if_cases (λ (a : Arrival). Fits a.node.reliable) (is_query m.bytes)
          (λ _.
            if_cases (λ (t : Reliable). Fits t) (is_delivered found)
              (λ _. queue_ack-Fits m n.reliable fits) (λ _. fits))
          (λ _.
            if_cases (λ (a : Arrival). Fits a.node.reliable) (is_data m.bytes)
              (λ _.
                decode_new-Fits runtime m element now n begun.0 begun.1
                  (admit_new-Fits m now found n.reliable fits))
              (λ _. fits)))

pub publish_mesh_message-Fits :
    (runtime : BridgeRuntime) (m : ReceivedMessage) (element now : ℕ) (n : MeshNode)
    → Fits n.reliable
    → Fits (publish_mesh_message runtime m element now n).node.reliable
unfolding publish_mesh_message
publish_mesh_message-Fits runtime m element now n fits =
    let admission = admit_frame m now n.mesh_swarm_coordinator in
    if_cases (λ (a : Arrival). Fits a.node.reliable) (m.device_key || from_self m n.addresses)
      (λ _. fits)
      (λ _.
        if_cases (λ (a : Arrival). Fits a.node.reliable) (is_reliable_frame m.bytes)
          (λ _.
            if_cases (λ (a : Arrival). Fits a.node.reliable) admission.0
              (λ _.
                receive_admitted-Fits runtime m element now
                  (record n { mesh_swarm_coordinator = admission.1 }) fits)
              (λ _. fits))
          (λ _.
            if_cases (λ (a : Arrival). Fits a.node.reliable)
              (raw_allowed m now n.mesh_swarm_coordinator) (λ _. fits) (λ _. fits)))
