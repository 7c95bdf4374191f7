-- ===== src/Bridge/Transport/Receive.antt =====
-- src/bridge/transport_bridge_manager.cpp: the table of bridges, its configuration, and what is done
-- with received advertisements and Mesh messages. The creation of ROS subscriptions and timers is
-- left out; the publication of a decoded message is an event.
use mrs_uav_bluetooth.Bridge.Transport.Publish.{
  safe_peer_token, remember, publish, Publication, Published,
}
use mrs_uav_bluetooth.Prelude.NatMap.{NatMap}
use mrs_uav_bluetooth.Prelude.{
  leb, ◌==◌, if◌then◌else◌, is_some, length, get_or, any, is_empty, Text, codes, text_eq, ℕ, ◌/◌,
  ◌%◌, Bool, true, false, not, ◌&&◌, ◌||◌, Option, none, some, List, [], ◌∷◌, ◌++◌,
}
use mrs_uav_bluetooth.Util.Strings.{lower_trim_copy}
use mrs_uav_bluetooth.Bridge.Transport.{
  imports, entry_key, unframe_payload, Transport, SharedTopic, BridgeEntry, BridgeRuntime,
  advertisement, mesh,
}
use mrs_uav_bluetooth.Prelude.Decimal.{to_string}
use mrs_uav_bluetooth.Prelude.NatMap

pub record BridgeSlot : Type 0 where
  pub key : Text
  pub entry : BridgeEntry

pub record Manager : Type 0 where
  pub next_generation : ℕ
  pub peers_prefix : Text
  pub peer_whitelist : List Text
  pub mesh_peer_by_address : NatMap Text
  pub entries : List BridgeSlot

abbrev pub find_entry : Text → List BridgeSlot → Option BridgeEntry
find_entry key [] = none
find_entry key (slot ∷ slots) =
    let rest = find_entry key slots in if text_eq key slot.key then some slot.entry else rest

abbrev pub put_entry : Text → BridgeEntry → List BridgeSlot → List BridgeSlot
put_entry key entry [] = []
put_entry key entry (slot ∷ slots) =
    let rest = put_entry key entry slots in
    if text_eq key slot.key then record slot { entry = entry } ∷ slots else slot ∷ rest

-- The result of a receive handler: its Boolean, what it published, and the manager.
pub record Handled : Type 0 where
  pub handled : Bool
  pub sample : Option Publication
  pub manager : Manager

abbrev pub ignored : Manager → Handled
ignored m = record { handled = false; sample = none; manager = m }

abbrev pub store : Text → Published → Manager → Handled
store key result m = record {
  handled = result.handled;
  sample = result.sample;
  manager = record m { entries = put_entry key result.entry m.entries };
}

-- An empty whitelist admits everyone.
abbrev pub admits_peer : Text → Text → Manager → Bool
admits_peer hostname mac m =
    is_empty m.peer_whitelist
    || any (text_eq (lower_trim_copy hostname)) m.peer_whitelist
    || any (text_eq (lower_trim_copy mac)) m.peer_whitelist

abbrev pub peer_label : Text → Text → Text
peer_label hostname mac = if is_empty hostname then codes "mac_" ++ mac else hostname

-- What an advertisement addresses: a bridge and its payload.
pub record Addressed : Type 0 where
  pub key : Text
  pub entry : BridgeEntry
  pub payload : List ℕ

abbrev pub importing : Text → List ℕ → Option BridgeEntry → Option Addressed
importing key payload none = none
importing key payload (some entry) =
    if imports entry.config.mode
    then some record { key = key; entry = entry; payload = payload }
    else none

abbrev pub framed_channel : Transport → Manager → Option (ℕ × List ℕ) → Option Addressed
framed_channel transport m none = none
framed_channel transport m (some (channel, payload)) =
    let key = entry_key transport channel in importing key payload (find_entry key m.entries)

abbrev pub bare_or_framed : Option BridgeEntry → List ℕ → Manager → Option Addressed
bare_or_framed none bytes m = framed_channel advertisement m (unframe_payload bytes 0)
bare_or_framed (some entry) bytes m =
    if entry.config.advertisement_bare
    then importing (entry_key advertisement 0) bytes (some entry)
    else framed_channel advertisement m (unframe_payload bytes 0)

-- The bare bridge on channel 0 if there is one, else the bridge of the frame's channel.
unfoldable pub addressed : List ℕ → Manager → Option Addressed
unfolding entry_key unframe_payload
addressed bytes m = bare_or_framed (find_entry (entry_key advertisement 0) m.entries) bytes m

abbrev pub publish_addressed : BridgeRuntime → Text → Bool → Manager → Option Addressed → Handled
publish_addressed runtime peer deduplicate m none = ignored m
publish_addressed runtime peer deduplicate m (some a) =
    store a.key (publish runtime m.peers_prefix peer a.payload deduplicate a.entry) m

unfoldable pub handle_advertisement : BridgeRuntime → Text → Text → List ℕ → Manager → Handled
unfolding addressed publish lower_trim_copy
handle_advertisement runtime hostname mac bytes m =
    if not (admits_peer hostname mac m)
    then ignored m
    else publish_addressed runtime (peer_label hostname mac) true m (addressed bytes m)

abbrev pub remember_addressed : Text → Manager → Option Addressed → Manager
remember_addressed peer m none = m
remember_addressed peer m (some a) = record m {
  entries = put_entry a.key (remember (safe_peer_token peer) a.payload a.entry) m.entries;
}

unfoldable pub remember_advertisement : Text → Text → List ℕ → Manager → Manager
unfolding addressed remember safe_peer_token lower_trim_copy
remember_advertisement hostname mac bytes m =
    if not (admits_peer hostname mac m)
    then m
    else remember_addressed (peer_label hostname mac) m (addressed bytes m)

-- BlueZ keeps the vendor opcode in some of its callbacks.
abbrev pub mesh_offset : List ℕ → ℕ
mesh_offset bytes = if leb 3 (length bytes) && leb 0xc0 (get_or bytes 0 0) then 3 else 0

abbrev pub is_own_opcode : SharedTopic → List ℕ → Bool
is_own_opcode config bytes =
    get_or bytes 0 0 == config.mesh_vendor_opcode
    && get_or bytes 1 0 == config.mesh_company_id % 256
    && get_or bytes 2 0 == config.mesh_company_id / 256 % 256

abbrev pub mesh_sender_name : ℕ → Option Text → Text
mesh_sender_name source none = codes "unicast_" ++ to_string source
mesh_sender_name source (some name) = name

abbrev pub deliver_mesh : BridgeRuntime → ℕ → ℕ → List ℕ → Manager → Option Addressed → Handled
deliver_mesh runtime source key_index bytes m none = ignored m
deliver_mesh runtime source key_index bytes m (some a) =
    let name = NatMap.find source m.mesh_peer_by_address in
    if not (key_index == a.entry.config.mesh_app_key_index)
    then ignored m
    else if mesh_offset bytes == 3 && not (is_own_opcode a.entry.config bytes)
    then ignored m
    else if not (is_some name) && not (is_empty m.peer_whitelist)
    then ignored m
    else publish_addressed runtime (mesh_sender_name source name) false m (some a)

unfoldable pub handle_mesh : BridgeRuntime → ℕ → ℕ → List ℕ → Manager → Handled
unfolding entry_key unframe_payload publish
handle_mesh runtime source key_index bytes m =
    deliver_mesh runtime source key_index bytes m
      (framed_channel mesh m (unframe_payload bytes (mesh_offset bytes)))
