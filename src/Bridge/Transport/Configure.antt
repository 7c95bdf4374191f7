-- ===== src/Bridge/Transport/Configure.antt =====
-- `configure` of src/bridge/transport_bridge_manager.cpp: a new generation of bridges. The creation
-- of the codecs and of the ROS endpoints of a bridge is taken to succeed.
pub mod Fresh
use mrs_uav_bluetooth.Bridge.Transport.Receive.{find_entry, Manager}
use mrs_uav_bluetooth.Prelude.NatMap.{NatMap}
use mrs_uav_bluetooth.Prelude.{
  ltb, if◌then◌else◌, is_some, all, Text, is_digit, ℕ, ◌+◌, ◌%◌, ◌^◌, Bool, true, false, ◌&&◌,
  Option, none, some, List, [], ◌∷◌, map,
}
use mrs_uav_bluetooth.Mesh.Number.{digit_suffix, number_up_to}
use mrs_uav_bluetooth.Util.Strings.{lower_trim_copy}
use mrs_uav_bluetooth.Bridge.Transport.{
  exports, entry_key, Transport, SharedTopic, BridgeEntry, gatt, advertisement,
}
use mrs_uav_bluetooth.Prelude.NatMap

pub data ConfigureError : Type 0 where
  two_advertisement_exports duplicate_channel : ConfigureError

-- The number at the end of a whitelisted name with a byte that is no digit before it.
abbrev pub listed_address : Text → Option ℕ
listed_address name = if all is_digit name then none else number_up_to 0x7fff (digit_suffix name)

abbrev pub emplace_peer : Option ℕ → Text → NatMap Text → NatMap Text
emplace_peer none name peers = peers
emplace_peer (some n) name peers =
    if NatMap.contains n peers then peers else NatMap.assign n name peers

unfoldable pub address_peers : List Text → NatMap Text → NatMap Text
address_peers [] peers = peers
address_peers (name ∷ names) peers =
    address_peers names (emplace_peer (listed_address name) name peers)

abbrev pub is_advertisement : Transport → Bool
is_advertisement advertisement = true
is_advertisement transport = false

abbrev pub is_gatt : Transport → Bool
is_gatt gatt = true
is_gatt transport = false

unfoldable pub advertisement_exports : List SharedTopic → ℕ
advertisement_exports [] = 0
advertisement_exports (t ∷ topics) =
    (if is_advertisement t.transport && exports t.mode then 1 else 0) + advertisement_exports topics

abbrev pub new_entry : SharedTopic → ℕ → BridgeEntry
new_entry configured generation = record {
  config = configured;
  generation = generation;
  revision = 0;
  pending_payload = none;
  next_dispatch_at = 0;
  publishers = [];
  recent_payloads = [];
}

abbrev pub add_bridge : SharedTopic → Manager → Manager
add_bridge configured m =
    let generation = (m.next_generation + 1) % 2 ^ 64 in
    record m {
      next_generation = generation;
      entries =
          record {
            key = entry_key configured.transport configured.channel_id;
            entry = new_entry configured generation;
          }
          ∷ m.entries;
    }

-- The loop over the configured topics; an exception leaves the bridges that were added before it.
unfoldable pub add_bridges : List SharedTopic → Manager → Option ConfigureError × Manager
unfolding entry_key
add_bridges [] m = (none, m)
add_bridges (t ∷ topics) m =
    let skipped = add_bridges topics m in
    let added = add_bridges topics (add_bridge t m) in
    if is_gatt t.transport
    then skipped
    else if is_some (find_entry (entry_key t.transport t.channel_id) m.entries)
    then (some duplicate_channel, m)
    else added

-- The manager with no bridges and the new peers.
unfoldable pub reset_bridges : Text → List Text → Manager → Manager
unfolding lower_trim_copy address_peers
reset_bridges prefix whitelist m =
    let names = map lower_trim_copy whitelist in
    record {
      next_generation = m.next_generation;
      peers_prefix = prefix;
      peer_whitelist = names;
      mesh_peer_by_address = address_peers names [];
      entries = [];
    }

unfoldable pub configure :
    List SharedTopic → Text → List Text → Manager → Option ConfigureError × Manager
unfolding advertisement_exports add_bridges reset_bridges
configure topics prefix whitelist m =
    if ltb 1 (advertisement_exports topics)
    then (some two_advertisement_exports, reset_bridges prefix whitelist m)
    else add_bridges topics (reset_bridges prefix whitelist m)

unfoldable pub clear : Manager → Manager
clear m = record m { entries = [] }
