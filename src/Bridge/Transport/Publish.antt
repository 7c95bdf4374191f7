-- ===== src/Bridge/Transport/Publish.antt =====
-- `safe_peer_token`, `publish` and `remember` of src/bridge/transport_bridge_manager.cpp: a received
-- payload becomes a sample of its peer's topic, unless an advertisement repeats it.
use mrs_uav_bluetooth.Prelude.{
  ltb, if◌then◌else◌, length, drop, any, Text, codes, text_eq, is_digit, ℕ, Bool, true, false, not,
  ◌&&◌, ◌||◌, Option, none, some, List, [], ◌∷◌, ◌++◌,
}
use mrs_uav_bluetooth.Util.Topics.{sanitize_topic_suffix, normalize_ros_topic}
use mrs_uav_bluetooth.Bridge.Transport.{SharedTopic, RecentPayloads, BridgeEntry, BridgeRuntime}

-- One sample for a ROS topic.
pub record Publication : Type 0 where
  pub topic : Text
  pub message : List ℕ

abbrev pub or_unknown : Text → Text
or_unknown [] = codes "unknown"
or_unknown (c ∷ t) = c ∷ t

abbrev pub label_number : Text → Text
label_number [] = []
label_number (c ∷ t) = if is_digit c then codes "peer_" ++ c ∷ t else c ∷ t

unfoldable pub safe_peer_token : Text → Text
unfolding sanitize_topic_suffix
safe_peer_token peer = label_number (or_unknown (sanitize_topic_suffix peer))

abbrev pub recent_of : Text → List RecentPayloads → List (List ℕ)
recent_of token [] = []
recent_of token (r ∷ rs) =
    let rest = recent_of token rs in if text_eq token r.peer then r.payloads else rest

abbrev pub put_recent : Text → List (List ℕ) → List RecentPayloads → List RecentPayloads
put_recent token payloads [] = record { peer = token; payloads = payloads } ∷ []
put_recent token payloads (r ∷ rs) =
    let rest = put_recent token payloads rs in
    if text_eq token r.peer then record r { payloads = payloads } ∷ rs else r ∷ rest

abbrev pub is_seen : List ℕ → List (List ℕ) → Bool
is_seen payload recent = any (text_eq payload) recent

abbrev pub k_history : ℕ
k_history = 4096

-- The history with one more payload at its end, without its oldest where it is too long.
unfoldable pub push_recent : List ℕ → List (List ℕ) → List (List ℕ)
push_recent payload recent =
    let longer = recent ++ payload ∷ [] in
    if ltb k_history (length longer) then drop 1 longer else longer

unfoldable pub remember : Text → List ℕ → BridgeEntry → BridgeEntry
unfolding push_recent
remember token payload entry =
    let recent = recent_of token entry.recent_payloads in
    if is_seen payload recent then entry else record entry {
      recent_payloads = put_recent token (push_recent payload recent) entry.recent_payloads;
    }

abbrev pub import_topic : Text → Text → SharedTopic → Text
import_topic prefix token config =
    normalize_ros_topic (prefix ++ b'/' ∷ token ++ b'/' ∷ config.import_topic_suffix)

-- The result of `publish`: its Boolean, what it published, and the entry.
pub record Published : Type 0 where
  pub handled : Bool
  pub sample : Option Publication
  pub entry : BridgeEntry

abbrev pub publish_decoded : Option (List ℕ) → Text → Text → List ℕ → Bool → BridgeEntry → Published
publish_decoded none topic token payload deduplicate entry = record {
  handled = false;
  sample = none;
  entry = entry;
}
publish_decoded (some message) topic token payload deduplicate entry = record {
  handled = true;
  sample = some record { topic = topic; message = message };
  entry = if deduplicate then remember token payload entry else entry;
}

abbrev pub with_publisher : Text → BridgeEntry → BridgeEntry
with_publisher token entry =
    if any (text_eq token) entry.publishers
    then entry
    else record entry { publishers = token ∷ entry.publishers }

-- A known peer has its publisher; another gets one, unless its creation throws.
abbrev pub has_publisher : BridgeRuntime → Text → Text → BridgeEntry → Bool
has_publisher runtime topic token entry =
    any (text_eq token) entry.publishers || runtime.opens_publisher topic

abbrev pub was_published : Text → List ℕ → Bool → BridgeEntry → Bool
was_published token payload deduplicate entry =
    deduplicate && is_seen payload (recent_of token entry.recent_payloads)

unfoldable pub publish : BridgeRuntime → Text → Text → List ℕ → Bool → BridgeEntry → Published
unfolding safe_peer_token remember normalize_ros_topic
publish runtime prefix peer payload deduplicate entry =
    let token = safe_peer_token peer in
    let topic = import_topic prefix token entry.config in
    if was_published token payload deduplicate entry
    then record { handled = true; sample = none; entry = entry }
    else if not (has_publisher runtime topic token entry)
    then record { handled = false; sample = none; entry = entry }
    else publish_decoded (runtime.decode_payload entry.config payload) topic token payload
        deduplicate (with_publisher token entry)
