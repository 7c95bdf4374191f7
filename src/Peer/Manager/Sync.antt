-- ===== src/Peer/Manager/Sync.antt =====
-- `sync_device` and `note_missing_device` of src/peer/peer_manager.cpp on the session of a device.
use mrs_uav_bluetooth.Prelude.{
  ltb, ◌==◌, if◌then◌else◌, is_empty, Text, codes, text_eq, ℕ, ◌+◌, ◌*◌, max, Bool, true, false,
  not, ◌&&◌, ◌||◌, [], ◌∷◌,
}
use mrs_uav_bluetooth.Util.Strings.{strip}
use mrs_uav_bluetooth.Peer.Manager.{
  k_connect_attempt_grace_min, k_connect_attempt_grace_multiplier, k_services_wait_grace_min,
  is_phase, is_policy_blank, lower_all, whitelist_contains, has_required_pairing, needs_forget,
  set_phase, forget_failures, forget_init_failures, forget_bridge_wait, forget_missing_gatt,
  clear_device_reset, PeerDevice, PeerPolicy, PeerSession,
}

abbrev matches_auto_connect_policy : (Text → Bool) → Text → Bool
matches_auto_connect_policy is_uav_hostname name =
    let normalized = lower_all (strip is_policy_blank name) in
    not (is_empty normalized) && is_uav_hostname normalized

-- A device without a session and without a connection is tracked only for automatic connection.
abbrev pub is_tracked : PeerDevice → PeerPolicy → Text → Bool → Bool
is_tracked d config name known =
    known || needs_forget d || (config.auto_connect_enable && not (is_empty name))

abbrev is_desired : PeerPolicy → Bool → Bool → Bool
is_desired config explicit candidate =
    config.auto_connect_enable && (explicit || (candidate && is_empty config.peer_whitelist))

-- What the policy makes of the session.
unfoldable pub select_session :
    (Text → Bool) → PeerDevice → PeerPolicy → ℕ → PeerSession → PeerSession
unfolding whitelist_contains
select_session is_uav_hostname d config now s =
    let explicit = whitelist_contains config.peer_whitelist d.mac s.peer_name in
    let candidate = matches_auto_connect_policy is_uav_hostname s.peer_name in
    let wanted = is_desired config explicit candidate in
    record s {
      missing_since = 0;
      explicit_target = explicit;
      peer_candidate = candidate;
      desired = wanted;
      desired_since =
          if wanted
          then (if not s.desired || s.desired_since == 0 then now else s.desired_since)
          else 0;
      forget_pending = false;
      services_wait_grace = max k_services_wait_grace_min config.peer_connection_timeout;
    }

abbrev pub sync_credentials : PeerDevice → PeerSession → PeerSession
sync_credentials d s =
    let unpaired = if d.paired || d.bonded then s else forget_init_failures s in
    if needs_forget d || s.repair_requested
    then unpaired
    else record unpaired { forget_pending = false; repair_in_progress = false }

-- What ends with a connection.
abbrev pub end_connection : PeerSession → PeerSession
end_connection s = forget_failures (
    forget_bridge_wait (
      forget_missing_gatt (record s {
        pairing_in_progress = false;
        time_bridge_healthy = false;
        local_time_notify_active = false;
        connected_since = 0;
        services_wait_started = 0;
        last_service_retry = 0;
        services_resolved_since = 0;
        service_regression_started = 0;
      })))

abbrev pub passive_phase : PeerDevice → PeerPolicy → PeerSession → PeerSession
passive_phase d config s =
    if d.connected
    then set_phase (codes "passive") (codes "peer-initiated or manually managed connection") s
    else if s.peer_candidate
    then set_phase (codes "idle")
        (if config.auto_connect_enable
          then codes "not selected for automatic connection"
          else codes "automatic connection disabled")
        s
    else set_phase (codes "idle")
        (if is_empty s.peer_name
          then codes "device does not match peer policy"
          else codes "not a peer candidate")
        s

unfoldable pub sync_undesired : PeerDevice → PeerPolicy → PeerSession → PeerSession
unfolding clear_device_reset
sync_undesired d config s =
    let ended = forget_init_failures (end_connection s) in
    passive_phase d config (
      if needs_forget d
      then ended
      else clear_device_reset true (record ended { forget_pending = false }))

abbrev sync_disconnected : PeerSession → PeerSession
sync_disconnected s =
    let ended = end_connection (record s { peer_initiated = false }) in
    if is_phase s (codes "connecting" ∷ codes "connect_pending" ∷ [])
    then set_phase (codes "connect_pending") (codes "awaiting connection") ended
    else set_phase
        (if s.last_connect_attempt == 0 then codes "discovered" else codes "disconnected")
        (codes "awaiting connection") ended

abbrev connect_in_flight : PeerPolicy → ℕ → PeerSession → Bool
connect_in_flight config now s =
    not (s.connect_started == 0)
    && ltb now (
        s.connect_started
        + max k_connect_attempt_grace_min
            (config.auto_connect_period * k_connect_attempt_grace_multiplier))

-- The first sight of a connection that this node did not start makes it the peer's.
unfoldable pub observe_connection : PeerPolicy → ℕ → PeerSession → PeerSession
unfolding clear_device_reset
observe_connection config now s =
    let owned =
      if s.connected_since == 0 && not (connect_in_flight config now s)
      then clear_device_reset true (record s { peer_initiated = true })
      else s in
    record owned { connected_since = if s.connected_since == 0 then now else s.connected_since }

abbrev sync_unpaired : PeerSession → PeerSession
sync_unpaired s =
    let unsecured =
      forget_bridge_wait (forget_missing_gatt (record s { last_service_retry = 0 })) in
    if s.pairing_in_progress
    then record unsecured {
      detail =
          if is_empty s.detail || text_eq s.detail (codes "connected, waiting for pairing")
          then codes "awaiting pairing completion"
          else s.detail;
      phase = codes "securing";
    }
    else set_phase (codes "connected_unready") (codes "connected, waiting for pairing") unsecured

abbrev start_regression : ℕ → PeerSession → ℕ
start_regression now s =
    if s.service_regression_started == 0 then now else s.service_regression_started

abbrev sync_unresolved : Bool → Bool → ℕ → PeerSession → PeerSession
sync_unresolved preserve_ready preserve_bridge now s =
    if preserve_ready
    then set_phase (codes "ready")
        (codes "peer time bridge active during expected services rediscovery")
        (forget_failures (
          forget_bridge_wait (
            forget_missing_gatt (record s {
              last_service_retry = 0;
              service_regression_started = start_regression now s;
              services_wait_started = 0;
            }))))
    else if preserve_bridge
    then forget_missing_gatt (record s {
      last_service_retry = 0;
      service_regression_started = start_regression now s;
      services_wait_started = 0;
      phase = codes "connected_unready";
      detail =
          if is_empty s.detail
          then codes "peer time bridge active during expected services rediscovery"
          else s.detail;
    })
    else set_phase (codes "connected_unready") (codes "connected, waiting for services") (
        forget_failures (
          forget_bridge_wait (
            forget_missing_gatt (record s {
              last_service_retry = 0;
              services_resolved_since = 0;
              service_regression_started = 0;
              services_wait_started =
                  if s.services_wait_started == 0 then now else s.services_wait_started;
            }))))

abbrev sync_resolved : Bool → ℕ → PeerSession → PeerSession
sync_resolved preserve_ready now s =
    let seen = record s {
      services_resolved_since =
          if s.services_resolved_since == 0 then now else s.services_resolved_since;
      service_regression_started = 0;
      services_wait_started = 0;
    } in
    if preserve_ready
    then set_phase (codes "ready") (codes "peer time bridge active") seen
    else set_phase (codes "connected_unready")
        (codes "connected, services resolved, awaiting peer time bridge") seen

abbrev pub sync_connected : PeerDevice → PeerPolicy → Bool → Bool → ℕ → PeerSession → PeerSession
sync_connected d config preserve_ready preserve_bridge now s =
    if has_required_pairing d config
    then (let paired = record s { pairing_in_progress = false; pairing_wait_started = 0 } in
        if d.services_resolved
        then sync_resolved preserve_ready now paired
        else sync_unresolved preserve_ready preserve_bridge now paired)
    else sync_unpaired s

unfoldable pub sync_selected : PeerDevice → PeerPolicy → Bool → Bool → ℕ → PeerSession → PeerSession
unfolding clear_device_reset sync_undesired observe_connection
sync_selected d config preserve_ready preserve_bridge now s =
    if not s.desired
    then sync_undesired d config s
    else if d.blocked
    then set_phase (codes "blocked") (codes "device is blocked by BlueZ") s
    else if not d.connected
    then sync_disconnected s
    else sync_connected d config preserve_ready preserve_bridge now
        (observe_connection config now s)

-- `sync_device` on a session that is there, its last sight renewed.
unfoldable pub sync_session :
    (Text → Bool) → PeerDevice → PeerPolicy → Bool → Bool → ℕ → PeerSession → PeerSession
unfolding select_session sync_selected
sync_session is_uav_hostname d config preserve_ready preserve_bridge now s =
    sync_selected d config preserve_ready preserve_bridge now
      (sync_credentials d (select_session is_uav_hostname d config now s))

-- `note_missing_device` on the session of a device that the cache has lost.
unfoldable pub note_missing : ℕ → PeerSession → PeerSession
unfolding clear_device_reset
note_missing now s =
    let ended = record (end_connection s) {
      missing_since = if s.missing_since == 0 then now else s.missing_since;
      forget_pending = false;
    } in
    if s.repair_requested && s.repair_awaiting_cache_removal
    then set_phase (codes "stale")
        (if is_empty s.repair_reason
          then codes "awaiting fresh discovery after security reset"
          else s.repair_reason)
        (clear_device_reset true ended)
    else set_phase (codes "stale") (codes "device missing from cache") ended
