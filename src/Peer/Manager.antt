-- ===== src/Peer/Manager.antt =====
-- PeerManager of src/peer/peer_manager.cpp: the session of a peer, which its members read and change.
-- Times are milliseconds, and zero is the time that was not taken; a factor of 0.25 divides by four.
-- The match with the configured pattern, a regular expression, is an argument.
pub mod Sync
pub mod Attempts
pub mod Table
use mrs_uav_bluetooth.Prelude.{
  leb, ◌==◌, if◌then◌else◌, length, any, is_empty, Text, codes, text_eq, is_digit, is_lower, ℕ, suc,
  ◌-◌, ◌%◌, Bool, true, false, not, ◌&&◌, ◌||◌, List, [], ◌∷◌, map,
}
use mrs_uav_bluetooth.Util.Strings.{to_lower, strip}

pub record PeerDevice : Type 0 where
  pub mac : Text
  pub connected : Bool
  pub paired : Bool
  pub bonded : Bool
  pub trusted : Bool
  pub blocked : Bool
  pub services_resolved : Bool

-- The fields of NodeConfig that the manager reads.
pub record PeerPolicy : Type 0 where
  pub auto_connect_enable : Bool
  pub auto_pair : Bool
  pub auto_trust : Bool
  pub enable_mesh : Bool
  pub advertise_mode : Text
  pub peer_whitelist : List Text
  pub auto_connect_period : ℕ
  pub peer_connection_timeout : ℕ

pub record PeerSession : Type 0 where
  pub mac : Text
  pub desired : Bool
  pub explicit_target : Bool
  pub peer_candidate : Bool
  pub peer_initiated : Bool
  pub peer_name : Text
  pub phase : Text
  pub detail : Text
  pub first_seen : ℕ
  pub last_seen : ℕ
  pub desired_since : ℕ
  pub last_connect_attempt : ℕ
  pub connect_started : ℕ
  pub connected_since : ℕ
  pub last_security_attempt : ℕ
  pub pairing_wait_started : ℕ
  pub repair_requested_at : ℕ
  pub last_service_retry : ℕ
  pub last_pairing_request : ℕ
  pub missing_since : ℕ
  pub bridge_wait_started : ℕ
  pub last_notify_failure : ℕ
  pub init_notify_failure : ℕ
  pub bridge_wait_reason : Text
  pub pairing_failures : ℕ
  pub notify_failure_count : ℕ
  pub init_notify_failure_count : ℕ
  pub pairing_in_progress : Bool
  pub repair_requested : Bool
  pub pairing_reset_pending : Bool
  pub repair_in_progress : Bool
  pub repair_remove_issued : Bool
  pub repair_awaiting_cache_removal : Bool
  pub forget_pending : Bool
  pub time_bridge_healthy : Bool
  pub local_time_notify_active : Bool
  pub repair_reason : Text
  pub services_wait_started : ℕ
  pub services_wait_grace : ℕ
  pub services_resolved_since : ℕ
  pub service_regression_started : ℕ
  pub last_notify_failure_path : Text
  pub remote_gatt_missing_since : ℕ
  pub remote_gatt_missing_checks : ℕ

abbrev pub k_connect_attempt_grace_min : ℕ
k_connect_attempt_grace_min = 15000

abbrev pub k_connect_attempt_grace_multiplier : ℕ
k_connect_attempt_grace_multiplier = 5

abbrev pub k_services_wait_grace_min : ℕ
k_services_wait_grace_min = 15000

abbrev pub k_pair_cooldown_min : ℕ
k_pair_cooldown_min = 10000

abbrev pub k_pair_after_connect_grace_min : ℕ
k_pair_after_connect_grace_min = 5000

abbrev pub k_trust_cooldown_min : ℕ
k_trust_cooldown_min = 500

abbrev pub is_phase : PeerSession → List Text → Bool
is_phase s phases = any (λ p. text_eq s.phase p) phases

abbrev pub is_policy_blank : ℕ → Bool
is_policy_blank c = c == 32 || c == 9 || c == 13 || c == 10

abbrev pub lower_all : Text → Text
lower_all = map to_lower

abbrev to_upper : ℕ → ℕ
to_upper c = if is_lower c then c - 32 else c

abbrev is_hex_byte : ℕ → Bool
is_hex_byte c = is_digit c || (leb b'a' c && leb c b'f') || (leb b'A' c && leb c b'F')

-- The bytes from an index of the address on.
abbrev is_mac_from : ℕ → Text → Bool
is_mac_from index [] = true
is_mac_from index (c ∷ cs) =
    (if index % 3 == 2 then c == b':' else is_hex_byte c) && is_mac_from (suc index) cs

abbrev looks_like_mac_address : Text → Bool
looks_like_mac_address value = length value == 17 && is_mac_from 0 value

abbrev normalize_mac : Text → Text
normalize_mac value = map to_upper (strip is_policy_blank value)

abbrev normalize_whitelist_token : Text → Text
normalize_whitelist_token value =
    let trimmed = strip is_policy_blank value in
    if looks_like_mac_address trimmed then normalize_mac trimmed else lower_all trimmed

abbrev entry_matches : Text → Text → Text → Bool
entry_matches mac name entry =
    not (is_empty entry) && (text_eq entry mac || (not (is_empty name) && text_eq entry name))

unfoldable pub whitelist_contains : List Text → Text → Text → Bool
whitelist_contains whitelist mac name =
    any
      (λ entry.
        entry_matches (normalize_mac mac) (lower_all (strip is_policy_blank name))
          (normalize_whitelist_token entry))
      whitelist

abbrev pub has_local_security : PeerDevice → Bool
has_local_security d = d.paired || d.bonded || d.trusted

abbrev pub has_required_pairing : PeerDevice → PeerPolicy → Bool
has_required_pairing d config = not config.auto_pair || d.paired || d.bonded

abbrev pub needs_forget : PeerDevice → Bool
needs_forget d = d.connected || d.services_resolved || has_local_security d

abbrev pub repair_blocks_regular_actions : PeerSession → Bool
repair_blocks_regular_actions s =
    s.repair_requested && (not s.repair_remove_issued || s.repair_awaiting_cache_removal)

abbrev pub set_phase : Text → Text → PeerSession → PeerSession
set_phase phase detail s = record s { phase = phase; detail = detail }

unfoldable note_local_connect_attempt : ℕ → PeerSession → PeerSession
note_local_connect_attempt now s = record s {
  peer_initiated = false;
  last_connect_attempt = now;
  connect_started = now;
}

-- The failures of notifications, the wait for the bridge and the missing services, forgotten.
abbrev pub forget_failures : PeerSession → PeerSession
forget_failures s = record s {
  last_notify_failure = 0;
  notify_failure_count = 0;
  last_notify_failure_path = [];
}

abbrev pub forget_init_failures : PeerSession → PeerSession
forget_init_failures s = record s { init_notify_failure = 0; init_notify_failure_count = 0 }

abbrev pub forget_bridge_wait : PeerSession → PeerSession
forget_bridge_wait s = record s { bridge_wait_started = 0; bridge_wait_reason = [] }

abbrev pub forget_missing_gatt : PeerSession → PeerSession
forget_missing_gatt s = record s { remote_gatt_missing_since = 0; remote_gatt_missing_checks = 0 }

abbrev reset_detail : Text → Text
reset_detail reason = if is_empty reason then codes "resetting peer device state" else reason

abbrev repeat_reset : Text → Bool → PeerSession → PeerSession
repeat_reset reason reset_pairing s =
    let reason' = if is_empty s.repair_reason then reason else s.repair_reason in
    record s {
      repair_reason = reason';
      pairing_reset_pending = s.pairing_reset_pending || reset_pairing;
      detail = if is_empty s.detail then reset_detail reason' else s.detail;
    }

unfoldable request_device_reset : Text → Bool → ℕ → PeerSession → PeerSession
request_device_reset reason reset_pairing now s =
    if s.repair_requested
    then repeat_reset reason reset_pairing s
    else set_phase (codes "recovering") (reset_detail reason) (
        forget_failures (
          forget_init_failures (
            forget_bridge_wait (
              forget_missing_gatt (record s {
                repair_requested = true;
                pairing_reset_pending = reset_pairing;
                repair_in_progress = false;
                repair_remove_issued = false;
                repair_awaiting_cache_removal = false;
                repair_requested_at = now;
                repair_reason = reason;
                services_wait_started = 0;
                service_regression_started = 0;
                local_time_notify_active = false;
              })))))

unfoldable pub clear_device_reset : Bool → PeerSession → PeerSession
clear_device_reset clear_pairing_reset s = forget_failures (
    forget_init_failures (
      forget_missing_gatt (record s {
        repair_requested = false;
        repair_in_progress = false;
        repair_remove_issued = false;
        repair_awaiting_cache_removal = false;
        repair_requested_at = 0;
        pairing_reset_pending = s.pairing_reset_pending && not clear_pairing_reset;
        forget_pending = false;
        repair_reason = [];
        last_service_retry = 0;
        services_resolved_since = 0;
        service_regression_started = 0;
      })))
