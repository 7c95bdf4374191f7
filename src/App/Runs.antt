-- ===== src/App/Runs.antt =====
-- The theorems on reliable delivery at UAV 7, which has heard UAV 9 and shares the odometry bridge.
use mrs_uav_bluetooth.App.Reliable.Send.Handoff.{
  passed_on, successor-cycles, handoffs, transmit-handoffs,
}
use mrs_uav_bluetooth.Prelude.{
  none, length, get_or, ℕ, suc, ◌<◌, ◌≡◌, refl, true, false, ◌&&◌, some, List, [], ◌∷◌, arith,
}
use mrs_uav_bluetooth.App.Reliable.{
  k_reliable_data, k_reliable_data_no_turn, reliable_sequence, reliable_swarm_id, marker_of,
  make_reliable_data, is_reliable_frame, with_marker, sorted_unique, mesh_turn_members,
  ReliablePending, Reliable,
}
use mrs_uav_bluetooth.App.Reliable.Receive.{
  receive_receipt, seen_key, rebuilt_frame, receive_data, is_data, publish_mesh_message, MeshNode,
}
use mrs_uav_bluetooth.App.Reliable.Receipt.{receipt_from, receive_receipt-releases}
use mrs_uav_bluetooth.App.Reliable.Send.{
  awaited, new_pending, turn_marker, transmit, send_mesh_bridge_payload_impl,
}
use mrs_uav_bluetooth.Mesh.Swarm.{Swarm}
use mrs_uav_bluetooth.Mesh.Swarm.Frame.{ReceivedMessage}
use mrs_uav_bluetooth.Mesh.Swarm.Fleet.{uav7_meets_9}
use mrs_uav_bluetooth.Bridge.Transport.Runs.{odom_topic, plain_runtime, odom_manager}
use mrs_uav_bluetooth.Bridge.Transport.Receive.{handle_mesh}
use mrs_uav_bluetooth.App.Reliable.Fits.{Fits}
use mrs_uav_bluetooth.App.Reliable.Frame.{rebuild-make_reliable_data}
use mrs_uav_bluetooth.App.Reliable.Reach.{Reached-Fits, starts, arrives, sends}
use mrs_uav_bluetooth.App.Reliable.Receive.Once.{IsOnce, receive_data-IsOnce}
use mrs_uav_bluetooth.App.Reliable.Send.Sequence.{take_sequence-free}
use mrs_uav_bluetooth.App.Reliable.Send.Kept.{
  IsSentOrKept, send_mesh_bridge_payload_impl-IsSentOrKept,
}
use mrs_uav_bluetooth.App.Reliable.Send.Turn.{mesh_turn_members-agree}
use mrs_uav_bluetooth.App.Reliable.Send.Choice.{
  add_probe, take_sequence, successor, MeshSide, Admission, handle_given, no_handle,
}
use mrs_uav_bluetooth.Prelude.NatMap

abbrev uav7_ready : Swarm
uav7_ready = record uav7_meets_9 { application_ready = true }

abbrev empty_tables : Reliable
empty_tables = record {
  pending = [];
  latest = [];
  seen = [];
  acks = [];
  cancellations = [];
  reset_requested = false;
  peers = [];
  turns = [];
  next_probe_at = 0;
  probe_cursor = 0;
  next_sequence = 40;
}

abbrev uav7_side : MeshSide
uav7_side = record {
  enabled = true;
  attached = true;
  addresses = 7 ∷ [];
  auto_configure_relay = true;
  radio_configured = true;
  mesh_swarm_coordinator = some uav7_ready;
  reset_cancel_returns = λ handle. true;
}

abbrev uav7_node : MeshNode
uav7_node = record {
  reliable = empty_tables;
  mesh_swarm_coordinator = some uav7_ready;
  bridges = odom_manager;
  addresses = some (7 ∷ []);
}

abbrev odom_sample : List ℕ
odom_sample = 0xc1 ∷ 0xf1 ∷ 0x05 ∷ b'M' ∷ b'B' ∷ 1 ∷ 44 ∷ 1 ∷ 1 ∷ 2 ∷ []

-- The copy that hands the turn over.
abbrev odom_copy : List ℕ
odom_copy = 0xc1 ∷ 0xf1 ∷ 0x05 ∷ 0xd1 ∷ 41 ∷ 0 ∷ 5 ∷ 0 ∷ 44 ∷ 1 ∷ 1 ∷ 2 ∷ []

abbrev odom_arrival : ReceivedMessage
odom_arrival = record { source = 9; key_index = 1; device_key = false; bytes = odom_copy }

abbrev takes_all : ℕ → Admission
takes_all d = handle_given (record { transfer = suc d; attachment = 1 })

abbrev takes_none : ℕ → Admission
takes_none d = no_handle

receive_data-IsOnce_example :
    IsOnce uav7_node
      (seen_key odom_arrival)
      (handle_mesh plain_runtime 9 1 (rebuilt_frame odom_copy) odom_manager)
      (receive_data plain_runtime odom_arrival 0 20 uav7_node)
receive_data-IsOnce_example = receive_data-IsOnce plain_runtime odom_arrival 0 20 uav7_node tt

sent_copy : (make_reliable_data odom_sample 41 5) ≡ with_marker k_reliable_data_no_turn odom_copy
unfolding make_reliable_data
sent_copy = refl

rebuild-make_reliable_data_example :
    let wire = with_marker (turn_marker 9 9) (make_reliable_data odom_sample 41 5) in
    (rebuilt_frame wire ≡ odom_sample)
    × ((reliable_sequence wire ≡ 41)
        × ((reliable_swarm_id wire ≡ 5)
            × ((is_reliable_frame wire && is_data wire ≡ true)
                × (marker_of wire ≡ turn_marker 9 9))))
rebuild-make_reliable_data_example =
    rebuild-make_reliable_data odom_sample 41 5 9 9 refl (omega arith) (omega arith)

send_mesh_bridge_payload_impl-IsSentOrKept_example :
    IsSentOrKept false odom_topic odom_sample takes_none (
      send_mesh_bridge_payload_impl false uav7_side odom_topic odom_sample takes_none 20
        empty_tables)
send_mesh_bridge_payload_impl-IsSentOrKept_example =
    send_mesh_bridge_payload_impl-IsSentOrKept false odom_topic odom_sample takes_none uav7_side
      uav7_ready 20 empty_tables refl refl refl refl

abbrev waiting_sample : ReliablePending
waiting_sample =
    new_pending odom_topic (with_marker k_reliable_data_no_turn odom_copy) (9 ∷ []) 9 10

abbrev two_waiting : Reliable
two_waiting = record empty_tables { pending = (41, waiting_sample) ∷ (42, waiting_sample) ∷ [] }

take_sequence-free_example :
    ((take_sequence two_waiting).0 < 65536)
    × (NatMap.contains (take_sequence two_waiting).0 (take_sequence two_waiting).1.pending ≡ false)
take_sequence-free_example = take_sequence-free two_waiting (omega arith)

mesh_turn_members-agree_example :
    mesh_turn_members 7 (9 ∷ 12 ∷ 9 ∷ []) ≡ mesh_turn_members 12 (7 ∷ 9 ∷ [])
mesh_turn_members-agree_example =
    mesh_turn_members-agree 7 12 (9 ∷ 12 ∷ 9 ∷ []) (7 ∷ 9 ∷ []) (λ k. ground arith)

ring_fits : 2 < length (mesh_turn_members 7 (12 ∷ 9 ∷ []))
unfolding mesh_turn_members
ring_fits = omega arith

ring_fits_too : 1 < length (mesh_turn_members 7 (12 ∷ 9 ∷ []))
unfolding mesh_turn_members
ring_fits_too = omega arith

abbrev ring_7 : List ℕ
ring_7 = mesh_turn_members 7 (12 ∷ 9 ∷ [])

successor-cycles_example :
    ((passes : ℕ) × (passes < length ring_7)
      × (passed_on passes (get_or ring_7 2 0) ring_7 ≡ get_or ring_7 1 0))
    × (passed_on (length ring_7) (get_or ring_7 2 0) ring_7 ≡ get_or ring_7 2 0)
successor-cycles_example = successor-cycles 7 (12 ∷ 9 ∷ []) 2 1 ring_fits ring_fits_too

transmit-handoffs_example :
    handoffs
      (transmit false odom_topic odom_sample takes_all 5
        (sorted_unique (add_probe (some 12) (9 ∷ [])))
        41
        true
        (successor 7 (mesh_turn_members 7 (9 ∷ [])))
        20
        empty_tables).submitted
    ≡ 1
transmit-handoffs_example =
    transmit-handoffs false odom_topic odom_sample takes_all 5 41 7 9 [] (some 12) 20 empty_tables
      refl

Reached-Fits_example :
    Fits
      (send_mesh_bridge_payload_impl false uav7_side odom_topic odom_sample takes_all 30
        (publish_mesh_message plain_runtime odom_arrival 0 20 uav7_node).node.reliable).state
Reached-Fits_example =
    Reached-Fits
      (record ((publish_mesh_message plain_runtime odom_arrival 0 20 uav7_node).node) {
        reliable =
            (send_mesh_bridge_payload_impl false uav7_side odom_topic odom_sample takes_all 30
              (publish_mesh_message plain_runtime odom_arrival 0 20 uav7_node).node.reliable).state;
      })
      (sends false uav7_side odom_topic odom_sample takes_all 30
        (publish_mesh_message plain_runtime odom_arrival 0 20 uav7_node).node
        (arrives plain_runtime odom_arrival 0 20 uav7_node (starts uav7_node (refl, refl))))

receive_receipt-releases_example :
    awaited 9 (
      NatMap.find 41
        (receive_receipt
          (receipt_from 9 1 (with_marker k_reliable_data (make_reliable_data odom_sample 41 5)))
          two_waiting).pending)
    ≡ none
unfolding make_reliable_data NatMap.assign
receive_receipt-releases_example =
    receive_receipt-releases odom_sample 41 5 k_reliable_data 9 waiting_sample two_waiting refl
      (omega arith) (omega arith) refl refl (omega arith, tt)
