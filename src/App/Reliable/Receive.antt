-- ===== src/App/Reliable/Receive.antt =====
-- `publish_mesh_message` of src/app/service_node_mesh.cpp: receipts, receipt queries and data frames,
-- and what the bridges publish. The raw publication of every message on /mesh/rx is left out, and a
-- frame is received to its end before another operation.
pub mod Once
use mrs_uav_bluetooth.Prelude.{
  leb, ◌==◌, if◌then◌else◌, length, get_or, take, drop, any, text_eq, ℕ, ◌+◌, ◌*◌, Bool, true,
  false, ◌&&◌, ◌||◌, Option, none, some, List, [], ◌∷◌, ◌++◌,
}
use mrs_uav_bluetooth.Mesh.Swarm.{Swarm}
use mrs_uav_bluetooth.Mesh.Swarm.Presence.{
  swarm_member_addresses, accepts_raw_payload, accepts_swarm_payload,
}
use mrs_uav_bluetooth.Mesh.Swarm.Frame.{ReceivedMessage}
use mrs_uav_bluetooth.Bridge.Transport.{BridgeRuntime}
use mrs_uav_bluetooth.Bridge.Transport.Publish.{Publication}
use mrs_uav_bluetooth.Bridge.Transport.Receive.{handle_mesh, Manager, Handled}
use mrs_uav_bluetooth.App.Reliable.{
  k_reliable_data, k_reliable_ack, k_reliable_receipt_query, k_reliable_ack_header_bytes,
  k_reliable_data_header_bytes, k_max_queued_acks, k_turn_recovery, k_reset_peer, reliable_sequence,
  reliable_swarm_id, marker_of, reliable_header, is_data_marker, is_reliable_frame, channel_key_of,
  mesh_turn_members, put_pending, handles_of, cancel_all, ReliableTarget, ReliablePending, SeenKey,
  SeenEntry, ReliableAck, Reliable,
}
use mrs_uav_bluetooth.Prelude.NatMap

-- What the node has besides: its bridges, its coordinator and its addresses, where it has them.
pub record MeshNode : Type 0 where
  pub reliable : Reliable
  pub mesh_swarm_coordinator : Option Swarm
  pub bridges : Manager
  pub addresses : Option (List ℕ)

abbrev pub same_key : SeenKey → SeenKey → Bool
same_key a b =
    a.source == b.source
    && a.key_index == b.key_index
    && a.swarm_id == b.swarm_id
    && a.vendor_opcode == b.vendor_opcode
    && a.sequence == b.sequence

abbrev pub find_seen : SeenKey → List SeenEntry → Option SeenEntry
find_seen key [] = none
find_seen key (e ∷ es) = if same_key key e.key then some e else find_seen key es

abbrev erase_seen : SeenKey → List SeenEntry → List SeenEntry
erase_seen key [] = []
erase_seen key (e ∷ es) = if same_key key e.key then es else e ∷ erase_seen key es

abbrev pub mark_delivered : SeenKey → ℕ → List SeenEntry → List SeenEntry
mark_delivered key now [] = []
mark_delivered key now (e ∷ es) =
    if same_key key e.key
    then record e { last = now; delivered = true } ∷ es
    else e ∷ mark_delivered key now es

abbrev pub is_delivered : Option SeenEntry → Bool
is_delivered none = false
is_delivered (some e) = e.delivered

abbrev opcode_of : List ℕ → ℕ
opcode_of bytes = get_or bytes 0 0 + 256 * get_or bytes 1 0 + 65536 * get_or bytes 2 0

abbrev pub seen_key : ReceivedMessage → SeenKey
seen_key m = record {
  source = m.source;
  key_index = m.key_index;
  swarm_id = reliable_swarm_id m.bytes;
  vendor_opcode = opcode_of m.bytes;
  sequence = reliable_sequence m.bytes;
}

abbrev pub receipt_of : ReceivedMessage → List ℕ
receipt_of m =
    reliable_header (take 3 m.bytes) k_reliable_ack (reliable_sequence m.bytes)
      (reliable_swarm_id m.bytes)

abbrev pub same_ack : ReceivedMessage → ReliableAck → Bool
same_ack m ack =
    ack.destination == m.source
    && ack.app_key_index == m.key_index
    && text_eq ack.frame (receipt_of m)

-- The lambda `queue_ack`.
unfoldable pub queue_ack : ReceivedMessage → Reliable → Reliable
queue_ack m r =
    if leb k_max_queued_acks (length r.acks)
    then r
    else if any (same_ack m) r.acks
    then r
    else record r {
      acks =
          r.acks
          ++ record { destination = m.source; app_key_index = m.key_index; frame = receipt_of m }
            ∷ [];
    }

-- A receipt releases its sender's target and clears its back-off.
abbrev pub release_target : ℕ → ℕ → ReliablePending → Option ReliableTarget → Reliable → Reliable
release_target sequence source p none r = r
release_target sequence source p (some target) r =
    cancel_all (handles_of target.transfer)
      (put_pending sequence (record p { awaiting = NatMap.erase source p.awaiting }) r)

abbrev pub forgive_peer : ℕ → Reliable → Reliable
forgive_peer source r = record r { peers = NatMap.assign source k_reset_peer r.peers }

abbrev pub matches_receipt : ReceivedMessage → ReliablePending → Bool
matches_receipt m p =
    p.app_key_index == m.key_index
    && text_eq (take 3 m.bytes) (take 3 p.frame)
    && reliable_swarm_id m.bytes == reliable_swarm_id p.frame

abbrev pub receive_receipt_for : ReceivedMessage → Option ReliablePending → Reliable → Reliable
receive_receipt_for m none r = r
receive_receipt_for m (some p) r =
    if matches_receipt m p
    then forgive_peer m.source
        (release_target (reliable_sequence m.bytes) m.source p (NatMap.find m.source p.awaiting) r)
    else r

unfoldable pub receive_receipt : ReceivedMessage → Reliable → Reliable
receive_receipt m r = receive_receipt_for m (NatMap.find (reliable_sequence m.bytes) r.pending) r

unfoldable pub receive_query : ReceivedMessage → Reliable → Reliable
unfolding queue_ack
receive_query m r = if is_delivered (find_seen (seen_key m) r.seen) then queue_ack m r else r

abbrev pub admit_new : ReceivedMessage → ℕ → Option SeenEntry → Reliable → Bool × Reliable
admit_new m now none r =
    (true, record r { seen = record { key = seen_key m; last = now; delivered = false } ∷ r.seen })
admit_new m now (some e) r = (false, if e.delivered then queue_ack m r else r)

-- Under the first lock: whether the frame is new and to be decoded.
unfoldable pub begin_data : ReceivedMessage → ℕ → Reliable → Bool × Reliable
unfolding queue_ack
begin_data m now r = admit_new m now (find_seen (seen_key m) r.seen) r

-- The frame of the bridge, rebuilt.
unfoldable pub rebuilt_frame : List ℕ → List ℕ
rebuilt_frame bytes =
    take 3 bytes
    ++ (b'M'
        ∷ b'B'
        ∷ 1
        ∷ get_or bytes 8 0
        ∷ get_or bytes 9 0
        ∷ drop k_reliable_data_header_bytes bytes)

abbrev pub hand_over : ReceivedMessage → ℕ → ℕ → List ℕ → ℕ → Reliable → Reliable
hand_over m element_index own members now r = if own == 0 then r else record r {
  turns =
      NatMap.assign
        (channel_key_of element_index m.key_index (get_or m.bytes 8 0 + 256 * get_or m.bytes 9 0))
        (record {
          members = members;
          initialized = true;
          permitted = marker_of m.bytes == k_reliable_data;
          reclaim_at = now + k_turn_recovery;
        })
        r.turns;
}

abbrev pub finish_found :
    Bool → ReceivedMessage → ℕ → ℕ → List ℕ → ℕ → Option SeenEntry → Reliable → Reliable
finish_found delivered m element_index own members now none r = r
finish_found false m element_index own members now (some e) r = record r {
  seen = erase_seen (seen_key m) r.seen;
}
finish_found true m element_index own members now (some e) r =
    hand_over m element_index own members now
      (queue_ack m (record r { seen = mark_delivered (seen_key m) now r.seen }))

-- Under the second lock, once the bridge has published the sample or not.
unfoldable pub finish_data : Bool → ReceivedMessage → ℕ → ℕ → List ℕ → ℕ → Reliable → Reliable
unfolding queue_ack
finish_data delivered m element_index own members now r =
    finish_found delivered m element_index own members now (find_seen (seen_key m) r.seen) r

-- The local address and the members of the turn, where there are any.
abbrev pub own_address : Option Swarm → Option (List ℕ) → ℕ
own_address none addresses = 0
own_address (some s) none = 0
own_address (some s) (some []) = 0
own_address (some s) (some (a ∷ others)) = a

abbrev pub turn_ring : Option Swarm → ℕ → ℕ → List ℕ
turn_ring none own now = []
turn_ring (some s) own now = mesh_turn_members own (swarm_member_addresses now s)

-- What an arrival publishes, and the node after it.
pub record Arrival : Type 0 where
  pub sample : Option Publication
  pub node : MeshNode

abbrev pub quiet : MeshNode → Arrival
quiet n = record { sample = none; node = n }

abbrev pub finish_decoded : Handled → ReceivedMessage → ℕ → ℕ → MeshNode → Arrival
finish_decoded h m element_index now n =
    let own = own_address n.mesh_swarm_coordinator n.addresses in
    record {
      sample = h.sample;
      node = record n {
        reliable =
            finish_data h.handled m element_index own (turn_ring n.mesh_swarm_coordinator own now)
              now n.reliable;
        bridges = h.manager;
      };
    }

abbrev pub decode_new :
    BridgeRuntime → ReceivedMessage → ℕ → ℕ → MeshNode → Bool × Reliable → Arrival
decode_new runtime m element_index now n (false, r) = quiet (record n { reliable = r })
decode_new runtime m element_index now n (true, r) =
    finish_decoded (handle_mesh runtime m.source m.key_index (rebuilt_frame m.bytes) n.bridges) m
      element_index now (record n { reliable = r })

unfoldable pub receive_data : BridgeRuntime → ReceivedMessage → ℕ → ℕ → MeshNode → Arrival
unfolding begin_data finish_data rebuilt_frame handle_mesh mesh_turn_members swarm_member_addresses
receive_data runtime m element_index now n =
    decode_new runtime m element_index now n (begin_data m now n.reliable)

-- The swarm's admission of a frame, which renews the sender's lease.
abbrev pub admit_frame : ReceivedMessage → ℕ → Option Swarm → Bool × Option Swarm
admit_frame m now none = (true, none)
admit_frame m now (some s) =
    let admitted = accepts_swarm_payload m.source (reliable_swarm_id m.bytes) now s in
    (admitted.0, some admitted.1)

abbrev pub is_receipt : List ℕ → Bool
is_receipt bytes = marker_of bytes == k_reliable_ack && length bytes == k_reliable_ack_header_bytes

abbrev pub is_query : List ℕ → Bool
is_query bytes =
    marker_of bytes == k_reliable_receipt_query && length bytes == k_reliable_ack_header_bytes

abbrev pub is_data : List ℕ → Bool
is_data bytes = is_data_marker (marker_of bytes) && leb k_reliable_data_header_bytes (length bytes)

abbrev pub receive_admitted : BridgeRuntime → ReceivedMessage → ℕ → ℕ → MeshNode → Arrival
receive_admitted runtime m element_index now n =
    if is_receipt m.bytes
    then quiet (record n { reliable = receive_receipt m n.reliable })
    else if is_query m.bytes
    then quiet (record n { reliable = receive_query m n.reliable })
    else if is_data m.bytes
    then receive_data runtime m element_index now n
    else quiet n

abbrev receive_reliable :
    BridgeRuntime → ReceivedMessage → ℕ → ℕ → MeshNode → Bool × Option Swarm → Arrival
receive_reliable runtime m element_index now n (allowed, swarm) =
    if allowed
    then receive_admitted runtime m element_index now (record n { mesh_swarm_coordinator = swarm })
    else quiet (record n { mesh_swarm_coordinator = swarm })

abbrev pub from_self : ReceivedMessage → Option (List ℕ) → Bool
from_self m none = false
from_self m (some addresses) = any (λ a. a == m.source) addresses

abbrev pub raw_allowed : ReceivedMessage → ℕ → Option Swarm → Bool
raw_allowed m now none = true
raw_allowed m now (some s) = accepts_raw_payload m.source now s

abbrev plain_arrival : Handled → MeshNode → Arrival
plain_arrival h n = record { sample = h.sample; node = record n { bridges = h.manager } }

unfoldable pub publish_mesh_message : BridgeRuntime → ReceivedMessage → ℕ → ℕ → MeshNode → Arrival
unfolding receive_receipt receive_query receive_data is_reliable_frame accepts_swarm_payload
    accepts_raw_payload
publish_mesh_message runtime m element_index now n =
    if m.device_key || from_self m n.addresses
    then quiet n
    else if is_reliable_frame m.bytes
    then receive_reliable runtime m element_index now n (admit_frame m now n.mesh_swarm_coordinator)
    else if raw_allowed m now n.mesh_swarm_coordinator
    then plain_arrival (handle_mesh runtime m.source m.key_index m.bytes n.bridges) n
    else quiet n
