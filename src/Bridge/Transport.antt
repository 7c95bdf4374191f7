-- ===== src/Bridge/Transport.antt =====
-- src/bridge/transport_bridge_manager.cpp: the bridges over advertisements and Mesh, and the send
-- side. Times are nanoseconds of the steady clock, and 0 is the unset deadline. The codec of a ROS
-- type, `GenericMessageBridge`, and the transport senders are parameters.
pub mod Publish
pub mod Receive
pub mod Configure
pub mod Delivery
pub mod Replay
pub mod RoundTrip
pub mod Runs
use mrs_uav_bluetooth.Prelude.{
  ltb, leb, ◌==◌, if◌then◌else◌, is_some, drop, Text, codes, ℕ, zero, suc, ◌+◌, ◌*◌, ◌/◌, ◌%◌, ◌^◌,
  max, Bool, true, false, not, ◌&&◌, Option, none, some, List, ◌∷◌, ◌++◌,
}
use mrs_uav_bluetooth.Prelude.Decimal.{to_string}

pub data Transport : Type 0 where
  gatt advertisement mesh : Transport

pub data BridgeMode : Type 0 where
  export_only import_only both_ways : BridgeMode

-- `SharedTopicConfig`. `period` is the cast of `1.0 / rate_hz` to the clock's duration, and `none`
-- where `rate_hz` is not positive.
pub record SharedTopic : Type 0 where
  pub transport : Transport
  pub channel_id : ℕ
  pub mode : BridgeMode
  pub advertisement_bare : Bool
  pub mesh_destination : ℕ
  pub mesh_swarm_reliable : Bool
  pub mesh_element_index : ℕ
  pub mesh_force_segmented : Bool
  pub mesh_vendor_opcode : ℕ
  pub mesh_company_id : ℕ
  pub mesh_app_key_index : ℕ
  pub period : Option ℕ
  pub export_topic : Text
  pub import_topic_suffix : Text

abbrev pub exports : BridgeMode → Bool
exports import_only = false
exports mode = true

abbrev pub imports : BridgeMode → Bool
imports export_only = false
imports mode = true

abbrev pub transport_name : Transport → Text
transport_name gatt = codes "gatt"
transport_name advertisement = codes "advertisement"
transport_name mesh = codes "mesh"

unfoldable pub entry_key : Transport → ℕ → Text
entry_key transport channel_id = transport_name transport ++ b':' ∷ to_string channel_id

abbrev pub k_bridge_frame_version : ℕ
k_bridge_frame_version = 1

unfoldable pub frame_payload : ℕ → List ℕ → List ℕ
frame_payload channel_id payload =
    b'M' ∷ b'B' ∷ k_bridge_frame_version ∷ channel_id % 256 ∷ channel_id / 256 % 256 ∷ payload

-- The bytes from the offset on, as a channel and a payload.
abbrev pub unframe_here : List ℕ → Option (ℕ × List ℕ)
unframe_here (m ∷ b ∷ v ∷ low ∷ high ∷ payload) =
    if m == b'M' && b == b'B' && v == k_bridge_frame_version
    then some (low + 256 * high, payload)
    else none
unframe_here bytes = none

unfoldable pub unframe_payload : List ℕ → ℕ → Option (ℕ × List ℕ)
unframe_payload bytes offset = unframe_here (drop offset bytes)

-- The payloads that one peer's advertisements showed; their times are stored but never read.
pub record RecentPayloads : Type 0 where
  pub peer : Text
  pub payloads : List (List ℕ)

-- `Impl::Entry`; of its ROS endpoints only the peers that have a publisher are kept.
pub record BridgeEntry : Type 0 where
  pub config : SharedTopic
  pub generation : ℕ
  pub revision : ℕ
  pub pending_payload : Option (List ℕ)
  pub next_dispatch_at : ℕ
  pub publishers : List Text
  pub recent_payloads : List RecentPayloads

-- What `GenericMessageBridge` does for a type: a serialized message is its bytes, and an exception
-- of the library is `none` or `false`.
pub record BridgeRuntime : Type 0 where
  pub encode_payload : SharedTopic → List ℕ → Option (List ℕ)
  pub decode_payload : SharedTopic → List ℕ → Option (List ℕ)
  pub opens_publisher : Text → Bool

-- The part of `handle_local_message` under the lock: the encoded sample is the newest value.
unfoldable pub buffer_payload : List ℕ → BridgeEntry → BridgeEntry
buffer_payload payload entry = record entry {
  pending_payload = some payload;
  revision = (entry.revision + 1) % 2 ^ 64;
}

abbrev pub buffer_encoded : Option (List ℕ) → BridgeEntry → Bool × BridgeEntry
buffer_encoded none entry = (false, entry)
buffer_encoded (some payload) entry =
    (not (is_some entry.config.period), buffer_payload payload entry)

-- Whether a flush follows, and the entry. A callback of an old generation does nothing.
unfoldable pub handle_local_message : BridgeRuntime → ℕ → List ℕ → BridgeEntry → Bool × BridgeEntry
unfolding buffer_payload
handle_local_message runtime generation message entry =
    if not (entry.generation == generation)
    then (false, entry)
    else buffer_encoded (runtime.encode_payload entry.config message) entry

-- What a flush took out of its entry before it releases the lock.
pub record Dispatch : Type 0 where
  pub config : SharedTopic
  pub generation : ℕ
  pub revision : ℕ
  pub payload : List ℕ

abbrev pub is_early : Option ℕ → ℕ → ℕ → Bool
is_early none now deadline = false
is_early (some period) now deadline = ltb now deadline

abbrev pub begin_with : Option (List ℕ) → ℕ → ℕ → BridgeEntry → Option Dispatch × BridgeEntry
begin_with none generation now entry = (none, entry)
begin_with (some payload) generation now entry =
    if is_early entry.config.period now entry.next_dispatch_at then (none, entry) else (
      some record {
        config = entry.config;
        generation = generation;
        revision = entry.revision;
        payload = payload;
      },
      record entry { pending_payload = none },
    )

-- The part of `flush` before the sender is called.
unfoldable pub begin_flush : ℕ → ℕ → BridgeEntry → Option Dispatch × BridgeEntry
begin_flush generation now entry =
    if not (entry.generation == generation)
    then (none, entry)
    else begin_with entry.pending_payload generation now entry

-- `do { deadline += spacing; } while (deadline <= now)`, on fuel.
pub step_deadline : ℕ → ℕ → ℕ → ℕ → ℕ
step_deadline zero spacing now deadline = deadline
step_deadline (suc fuel) spacing now deadline =
    let next = deadline + spacing in
    let rest = step_deadline fuel spacing now next in if leb next now then rest else next

-- A spacing is positive, so `now` + 1 rounds reach beyond `now`.
unfoldable pub next_deadline : ℕ → ℕ → ℕ → ℕ
unfolding step_deadline
next_deadline spacing now deadline =
    if deadline == 0 then now + spacing else step_deadline (suc now) spacing now deadline

abbrev pub schedule : Option ℕ → ℕ → BridgeEntry → BridgeEntry
schedule none now entry = entry
schedule (some period) now entry = record entry {
  next_dispatch_at = next_deadline (max 1 period) now entry.next_dispatch_at;
}

-- The part of `flush` behind the sender, on the entry as it is then.
unfoldable pub finish_flush : Bool → Dispatch → ℕ → BridgeEntry → BridgeEntry
unfolding next_deadline
finish_flush accepted taken now entry =
    if not (entry.generation == taken.generation)
    then entry
    else if accepted
    then schedule taken.config.period now entry
    else if entry.revision == taken.revision && not (is_some entry.pending_payload)
    then record entry { pending_payload = some taken.payload }
    else entry

-- The bytes that `dispatch` hands to the advertisement's sender.
unfoldable pub advertised : SharedTopic → List ℕ → List ℕ
unfolding frame_payload
advertised config payload =
    if config.advertisement_bare then payload else frame_payload config.channel_id payload

-- The access message that `dispatch` hands to the Mesh sender.
unfoldable pub mesh_access : SharedTopic → List ℕ → List ℕ
unfolding frame_payload
mesh_access config payload =
    config.mesh_vendor_opcode
    ∷ (config.mesh_company_id % 256)
    ∷ (config.mesh_company_id / 256 % 256)
    ∷ frame_payload config.channel_id payload
