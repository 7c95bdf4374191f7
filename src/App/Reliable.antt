-- ===== src/App/Reliable.antt =====
-- The reliable delivery of bridge samples over Mesh in src/app/service_node_mesh.cpp: the state that
-- `ServiceNode` keeps for it, and the frames. Times are nanoseconds of the steady clock; one operation
-- reads it once. A frame's bytes are below 256, so that `|` of shifted bytes is their sum.
pub mod Receive
pub mod Frame
pub mod Receipt
pub mod Fits
pub mod Reach
pub mod Send
pub mod Maintain
use mrs_uav_bluetooth.Prelude.NatMap.{NatMap}
use mrs_uav_bluetooth.Prelude.{
  ltb, leb, ◌==◌, if◌then◌else◌, length, get_or, take, drop, set, ℕ, ◌+◌, ◌*◌, ◌/◌, ◌%◌, ◌^◌, Bool,
  true, false, ◌&&◌, ◌||◌, Option, none, some, List, [], ◌∷◌, ◌++◌,
}
use mrs_uav_bluetooth.Mesh.Swarm.{second}
use mrs_uav_bluetooth.Bridge.Transport.{SharedTopic}
use mathlib.Core.Option
use mrs_uav_bluetooth.Prelude.NatMap

-- `mesh::SendHandle`.
pub record SendHandle : Type 0 where
  pub transfer : ℕ
  pub attachment : ℕ

pub record ReliableTarget : Type 0 where
  pub attempts : ℕ
  pub transfer : Option SendHandle
  pub retry_at : ℕ
  pub receipt_query_at : ℕ
  pub transfer_check_at : ℕ

pub record ReliablePending : Type 0 where
  pub channel_key : ℕ
  pub frame : List ℕ
  pub awaiting : NatMap ReliableTarget
  pub primary_transfer : Option SendHandle
  pub app_key_index : ℕ
  pub element_index : ℕ
  pub turn_successor : ℕ
  pub force_segmented : Bool
  pub native_completion_releases_channel : Bool
  pub blocks_channel : Bool
  pub created : ℕ

-- `MeshReliableSeenKey`.
pub record SeenKey : Type 0 where
  pub source : ℕ
  pub key_index : ℕ
  pub swarm_id : ℕ
  pub vendor_opcode : ℕ
  pub sequence : ℕ

pub record SeenEntry : Type 0 where
  pub key : SeenKey
  pub last : ℕ
  pub delivered : Bool

pub record ReliableAck : Type 0 where
  pub destination : ℕ
  pub app_key_index : ℕ
  pub frame : List ℕ

pub record ReliablePeer : Type 0 where
  pub transport_busy_until : ℕ
  pub consecutive_expiries : ℕ
  pub retry_after : ℕ

pub record ReliableTurn : Type 0 where
  pub members : List ℕ
  pub initialized : Bool
  pub permitted : Bool
  pub reclaim_at : ℕ

pub record LatestSample : Type 0 where
  pub bridge : SharedTopic
  pub payload : List ℕ

-- The members of `ServiceNode` named `mesh_reliable_*`. The table of seen frames is a list, since only
-- searches and erasures by key use it.
pub record Reliable : Type 0 where
  pub pending : NatMap ReliablePending
  pub latest : NatMap LatestSample
  pub seen : List SeenEntry
  pub acks : List ReliableAck
  pub cancellations : List SendHandle
  pub reset_requested : Bool
  pub peers : NatMap ReliablePeer
  pub turns : NatMap ReliableTurn
  pub next_probe_at : ℕ
  pub probe_cursor : ℕ
  pub next_sequence : ℕ

abbrev pub milliseconds : ℕ
milliseconds = 1_000_000

abbrev pub k_reliable_data : ℕ
k_reliable_data = 0xd1

abbrev pub k_reliable_data_no_turn : ℕ
k_reliable_data_no_turn = 0xd4

abbrev pub k_reliable_ack : ℕ
k_reliable_ack = 0xd2

abbrev pub k_reliable_receipt_query : ℕ
k_reliable_receipt_query = 0xd3

abbrev pub k_reliable_ack_header_bytes : ℕ
k_reliable_ack_header_bytes = 8

abbrev pub k_reliable_data_header_bytes : ℕ
k_reliable_data_header_bytes = 10

abbrev pub k_max_pending_samples : ℕ
k_max_pending_samples = 32

abbrev pub k_max_queued_acks : ℕ
k_max_queued_acks = 128

abbrev pub k_receipt_query_period : ℕ
k_receipt_query_period = 2 * second

abbrev pub k_queue_retry_delay : ℕ
k_queue_retry_delay = 250 * milliseconds

abbrev pub k_turn_recovery : ℕ
k_turn_recovery = 12 * second

abbrev pub k_reset_peer : ReliablePeer
k_reset_peer = record { transport_busy_until = 0; consecutive_expiries = 0; retry_after = 0 }

abbrev pub reliable_sequence : List ℕ → ℕ
reliable_sequence bytes = get_or bytes 4 0 + 256 * get_or bytes 5 0

abbrev pub reliable_swarm_id : List ℕ → ℕ
reliable_swarm_id bytes = get_or bytes 6 0 + 256 * get_or bytes 7 0

-- The frame's marker, where there is one.
abbrev pub marker_of : List ℕ → ℕ
marker_of bytes = get_or bytes 3 0

-- The vendor prefix, a marker, the sequence and the swarm.
abbrev pub reliable_header : List ℕ → ℕ → ℕ → ℕ → List ℕ
reliable_header prefix marker sequence swarm_id =
    prefix
    ++ (marker
        ∷ (sequence % 256)
        ∷ (sequence / 256 % 256)
        ∷ (swarm_id % 256)
        ∷ (swarm_id / 256 % 256)
        ∷ [])

unfoldable pub make_reliable_data : List ℕ → ℕ → ℕ → List ℕ
make_reliable_data payload sequence swarm_id =
    reliable_header (take 3 payload) k_reliable_data_no_turn sequence swarm_id
    ++ (get_or payload 6 0 ∷ get_or payload 7 0 ∷ drop 8 payload)

abbrev pub is_data_marker : ℕ → Bool
is_data_marker marker = marker == k_reliable_data || marker == k_reliable_data_no_turn

unfoldable pub is_reliable_frame : List ℕ → Bool
is_reliable_frame bytes =
    leb k_reliable_ack_header_bytes (length bytes)
    && (is_data_marker (marker_of bytes)
        || marker_of bytes == k_reliable_ack
        || marker_of bytes == k_reliable_receipt_query)

-- `data[3] = marker` on a frame.
abbrev pub with_marker : ℕ → List ℕ → List ℕ
with_marker marker bytes = set bytes 3 marker

-- The fields are narrower than their places.
abbrev pub channel_key_of : ℕ → ℕ → ℕ → ℕ
channel_key_of element_index key_index channel =
    element_index * 2 ^ 32 + key_index * 2 ^ 16 + channel

-- A sorted list without duplicates gains a number: what `sort` and `unique` make of one more.
abbrev pub insert_unique : ℕ → List ℕ → List ℕ
insert_unique n [] = n ∷ []
insert_unique n (m ∷ ms) =
    let rest = insert_unique n ms in
    if ltb n m then n ∷ m ∷ ms else if n == m then m ∷ ms else m ∷ rest

abbrev pub sorted_unique : List ℕ → List ℕ
sorted_unique [] = []
sorted_unique (n ∷ ns) = insert_unique n (sorted_unique ns)

unfoldable pub mesh_turn_members : ℕ → List ℕ → List ℕ
mesh_turn_members own peers = sorted_unique (own ∷ peers)

-- `mesh_reliable_peers_[address]`: a missing entry is a fresh one.
abbrev pub peer_state : ℕ → Reliable → ReliablePeer
peer_state address r = Option.get_or (NatMap.find address r.peers) k_reset_peer

abbrev pub put_pending : ℕ → ReliablePending → Reliable → Reliable
put_pending sequence p r = record r { pending = NatMap.assign sequence p r.pending }

abbrev pub handles_of : Option SendHandle → List SendHandle
handles_of none = []
handles_of (some h) = h ∷ []

abbrev target_handles : NatMap ReliableTarget → List SendHandle
target_handles [] = []
target_handles ((peer, target) ∷ rest) = handles_of target.transfer ++ target_handles rest

abbrev pub pending_handles : ReliablePending → List SendHandle
pending_handles p = handles_of p.primary_transfer ++ target_handles p.awaiting

abbrev all_handles : NatMap ReliablePending → List SendHandle
all_handles [] = []
all_handles ((sequence, p) ∷ rest) = pending_handles p ++ all_handles rest

abbrev pub cancel_all : List SendHandle → Reliable → Reliable
cancel_all handles r = record r { cancellations = r.cancellations ++ handles }

-- `flush_mesh_transfer_cancellations`, given which cancellations return: the first that throws and
-- those behind it are kept.
abbrev uncancelled : (SendHandle → Bool) → List SendHandle → List SendHandle
uncancelled returns [] = []
uncancelled returns (h ∷ hs) = if returns h then uncancelled returns hs else h ∷ hs

abbrev pub flush_cancellations : (SendHandle → Bool) → Reliable → Reliable
flush_cancellations returns r = record r { cancellations = uncancelled returns r.cancellations }

abbrev cleared_tables : Bool → Reliable → Reliable
cleared_tables preserve_latest r = record {
  pending = [];
  latest = if preserve_latest then r.latest else [];
  seen = [];
  acks = [];
  cancellations = r.cancellations ++ all_handles r.pending;
  reset_requested = r.reset_requested;
  peers = [];
  turns = [];
  next_probe_at = 0;
  probe_cursor = 0;
  next_sequence = r.next_sequence;
}

-- `clear_mesh_reliable_state`, given which cancellations return.
unfoldable pub clear_reliable_state : (SendHandle → Bool) → Bool → Reliable → Reliable
clear_reliable_state returns preserve_latest r =
    flush_cancellations returns (cleared_tables preserve_latest r)

-- `if (mesh_reliable_reset_requested_.exchange(false)) clear_mesh_reliable_state(true)`.
abbrev pub take_reset : (SendHandle → Bool) → Reliable → Reliable
take_reset returns r =
    if r.reset_requested
    then clear_reliable_state returns true (record r { reset_requested = false })
    else r

abbrev pub remember_target :
    ℕ → ℕ → SendHandle → ℕ → ReliablePending → Option ReliableTarget → Reliable → Reliable
remember_target sequence destination handle now p none r =
    put_pending sequence (record p { primary_transfer = some handle }) r
remember_target sequence destination handle now p (some target) r =
    put_pending sequence
      (record p {
        awaiting =
            NatMap.assign destination
              (record target {
                transfer = some handle;
                transfer_check_at = now + 100 * milliseconds;
              })
              p.awaiting;
        blocks_channel = true;
      })
      r

abbrev pub remember_pending : ℕ → ℕ → SendHandle → ℕ → Option ReliablePending → Reliable → Reliable
remember_pending sequence destination handle now none r = record r {
  cancellations = r.cancellations ++ handle ∷ [];
}
remember_pending sequence destination handle now (some p) r =
    remember_target sequence destination handle now p (NatMap.find destination p.awaiting) r

unfoldable pub remember_mesh_transfer : ℕ → ℕ → SendHandle → ℕ → Reliable → Reliable
remember_mesh_transfer sequence destination handle now r =
    if handle.transfer == 0
    then r
    else remember_pending sequence destination handle now (NatMap.find sequence r.pending) r

abbrev pub channel_busy : ℕ → NatMap ReliablePending → Bool
channel_busy channel [] = false
channel_busy channel ((sequence, p) ∷ rest) =
    (p.channel_key == channel && p.blocks_channel) || channel_busy channel rest
