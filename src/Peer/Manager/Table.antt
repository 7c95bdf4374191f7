-- ===== src/Peer/Manager/Table.antt =====
-- The table of sessions in src/peer/peer_manager.cpp, keyed by the address; the order of its entries is
-- nowhere looked at.
use mrs_uav_bluetooth.Prelude.{
  leb, if◌then◌else◌, Bool-cases, is_some, if_cases, any, is_empty, Text, codes, text_eq,
  text_eq→eq, ℕ, suc, ◌+◌, ◌≡◌, refl, inl, inr, Bool, true, false, ◌&&◌, ◌||◌, Option, none, some,
  List, [], ◌∷◌, arith,
}
use mrs_uav_bluetooth.Peer.Manager.{
  is_phase, has_local_security, set_phase, PeerDevice, PeerPolicy, PeerSession,
}
use mrs_uav_bluetooth.Peer.Manager.Sync.{is_tracked, sync_session, note_missing}

abbrev SessionTable : Type 0
SessionTable = List (Text × PeerSession)

abbrev find_session : Text → SessionTable → Option PeerSession
find_session mac [] = none
find_session mac ((m, s) ∷ rest) = if text_eq m mac then some s else find_session mac rest

abbrev put_session : Text → PeerSession → SessionTable → SessionTable
put_session mac s [] = (mac, s) ∷ []
put_session mac s ((m, t) ∷ rest) =
    let others = put_session mac s rest in if text_eq m mac then (m, s) ∷ rest else (m, t) ∷ others

abbrev pub new_session : Text → Text → ℕ → PeerSession
new_session mac name now = record {
  mac = mac;
  desired = false;
  explicit_target = false;
  peer_candidate = false;
  peer_initiated = false;
  peer_name = name;
  phase = codes "idle";
  detail = [];
  first_seen = now;
  last_seen = now;
  desired_since = 0;
  last_connect_attempt = 0;
  connect_started = 0;
  connected_since = 0;
  last_security_attempt = 0;
  pairing_wait_started = 0;
  repair_requested_at = 0;
  last_service_retry = 0;
  last_pairing_request = 0;
  missing_since = 0;
  bridge_wait_started = 0;
  last_notify_failure = 0;
  init_notify_failure = 0;
  bridge_wait_reason = [];
  pairing_failures = 0;
  notify_failure_count = 0;
  init_notify_failure_count = 0;
  pairing_in_progress = false;
  repair_requested = false;
  pairing_reset_pending = false;
  repair_in_progress = false;
  repair_remove_issued = false;
  repair_awaiting_cache_removal = false;
  forget_pending = false;
  time_bridge_healthy = false;
  local_time_notify_active = false;
  repair_reason = [];
  services_wait_started = 0;
  services_wait_grace = 0;
  services_resolved_since = 0;
  service_regression_started = 0;
  last_notify_failure_path = [];
  remote_gatt_missing_since = 0;
  remote_gatt_missing_checks = 0;
}

abbrev seen_session : Text → Text → ℕ → Option PeerSession → PeerSession
seen_session mac name now none = new_session mac name now
seen_session mac name now (some s) = record s {
  last_seen = now;
  peer_name = if is_empty name then s.peer_name else name;
}

unfoldable get_or_create_session : Text → Text → ℕ → SessionTable → PeerSession
get_or_create_session mac name now table = seen_session mac name now (find_session mac table)

unfoldable pub sync_device :
    (Text → Bool) → PeerDevice → PeerPolicy → Text → Bool → Bool → ℕ → SessionTable → SessionTable
unfolding get_or_create_session sync_session
sync_device is_uav_hostname d config name preserve_ready preserve_bridge now table =
    if is_tracked d config name (is_some (find_session d.mac table))
    then put_session d.mac
        (sync_session is_uav_hostname d config preserve_ready preserve_bridge now
          (get_or_create_session d.mac name now table))
        table
    else table

abbrev pub note_missing_found : Text → ℕ → Option PeerSession → SessionTable → SessionTable
unfolding note_missing
note_missing_found mac now none table = table
note_missing_found mac now (some s) table = put_session mac (note_missing now s) table

abbrev pub note_missing_device : Text → ℕ → SessionTable → SessionTable
note_missing_device mac now table = note_missing_found mac now (find_session mac table) table

-- `prune_sessions`: the devices of the cache and the time bridges keep their sessions.
unfoldable prune_sessions : (Text → Bool) → (Text → Bool) → ℕ → ℕ → SessionTable → SessionTable
prune_sessions is_current has_bridge now ttl [] = []
prune_sessions is_current has_bridge now ttl ((mac, s) ∷ rest) =
    let others = prune_sessions is_current has_bridge now ttl rest in
    if is_current mac || has_bridge mac || leb now (s.last_seen + ttl)
    then (mac, s) ∷ others
    else others

-- The events of the pairing agent.
abbrev confirm_pairing : PeerDevice → Text → PeerSession → PeerSession
confirm_pairing d event s =
    if has_local_security d
    then (if is_phase s (codes "ready" ∷ codes "connected_unready" ∷ [])
        then record s { detail = if is_empty s.detail then event else s.detail }
        else set_phase (codes "securing") event s)
    else if is_phase s (codes "ready" ∷ [])
    then record s { detail = event }
    else set_phase (codes "securing") event s

unfoldable note_pairing_event : PeerDevice → Text → ℕ → PeerSession → PeerSession
note_pairing_event d event now s =
    let attempted = record s { last_security_attempt = now } in
    if text_eq event (codes "request_authorization")
    then (if is_phase s (codes "ready" ∷ []) && is_empty s.detail
        then record attempted { detail = event }
        else attempted)
    else if any (text_eq event)
        (codes "request_confirmation" ∷ codes "request_passkey" ∷ codes "request_pin" ∷ [])
    then confirm_pairing d event
        (record attempted { pairing_in_progress = true; last_pairing_request = now })
    else if text_eq event (codes "cancel")
    then set_phase (codes "recovering") (codes "pairing cancelled") (record attempted {
      pairing_in_progress = false;
      pairing_failures = suc s.pairing_failures;
    })
    else if text_eq event (codes "agent_release")
    then record attempted { pairing_in_progress = false; detail = codes "pairing agent released" }
    else attempted

-- Pruning keeps the session of a device that the cache has or that has a time bridge, however long ago it
-- was seen.
find-prune_sessions :
    (is_current has_bridge : Text → Bool) (now ttl : ℕ) (mac : Text) (table : SessionTable)
    → (is_current mac || has_bridge mac) ≡ true
    → find_session mac (prune_sessions is_current has_bridge now ttl table) ≡ find_session mac table
unfolding prune_sessions
find-prune_sessions is_current has_bridge now ttl mac [] kept = refl
find-prune_sessions is_current has_bridge now ttl mac ((m, s) ∷ rest) kept =
    let later = find-prune_sessions is_current has_bridge now ttl mac rest kept in
    elim (Bool-cases (text_eq m mac)) [
      | inl e ↦
          let same = text_eq→eq m mac e in
          let stays : (is_current m || has_bridge m || leb now (s.last_seen + ttl)) ≡ true =
            rw same (ground arith) in
          rw stays (rw e refl)
      | inr e ↦
          if_cases (λ (t : SessionTable). find_session mac t ≡ find_session mac ((m, s) ∷ rest))
            (is_current m || has_bridge m || leb now (s.last_seen + ttl)) (λ _. rw e later)
            (λ _. rw e later)
    ]
