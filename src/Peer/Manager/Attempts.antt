-- ===== src/Peer/Manager/Attempts.antt =====
-- What the node may attempt on a peer (src/peer/peer_manager.cpp), and that its attempts exclude one
-- another once the device has been synchronised.
use mrs_uav_bluetooth.Prelude.{
  ◌≢◌, false, arith, ltb, leb, ◌==◌, if◌then◌else◌, if_cases, Text, codes, text_eq, ℕ, ◌+◌, ◌*◌,
  ◌/◌, max, ◌≡◌, refl, Bool, true, not, ◌&&◌, ◌||◌, List, [], ◌∷◌,
}
use mrs_uav_bluetooth.Peer.Manager.{
  clear_device_reset, k_connect_attempt_grace_min, k_connect_attempt_grace_multiplier,
  k_pair_cooldown_min, k_pair_after_connect_grace_min, k_trust_cooldown_min, is_phase,
  has_required_pairing, repair_blocks_regular_actions, PeerDevice, PeerPolicy, PeerSession,
}
use mrs_uav_bluetooth.Peer.Manager.Sync.{note_missing}

abbrev repair_stops : PeerSession → Bool
repair_stops s = repair_blocks_regular_actions s || s.repair_in_progress

-- At least the given time has gone by, or there was no such event.
abbrev is_past : ℕ → ℕ → ℕ → Bool
is_past event now span = event == 0 || leb (event + span) now

abbrev k_untrusted_phases : List Text
k_untrusted_phases =
    codes "connecting"
    ∷ codes "connect_pending"
    ∷ codes "discovered"
    ∷ codes "disconnected"
    ∷ codes "blocked"
    ∷ codes "policy_blocked"
    ∷ codes "recovering"
    ∷ codes "stale"
    ∷ []

abbrev k_connected_phases : List Text
k_connected_phases =
    codes "ready"
    ∷ codes "connected_unready"
    ∷ codes "securing"
    ∷ codes "blocked"
    ∷ codes "policy_blocked"
    ∷ []

unfoldable pub should_attempt_trust : PeerSession → PeerDevice → PeerPolicy → ℕ → ℕ → Bool
should_attempt_trust s d config now retry =
    config.auto_trust
    && s.desired
    && not (repair_stops s)
    && d.connected
    && not d.blocked
    && not d.trusted
    && not (s.connected_since == 0)
    && not s.pairing_in_progress
    && has_required_pairing d config
    && not (is_phase s k_untrusted_phases)
    && leb (s.connected_since + k_trust_cooldown_min) now
    && is_past s.last_security_attempt now (max k_trust_cooldown_min (retry / 4))

abbrev connecting_in_grace : PeerSession → ℕ → ℕ → Bool
connecting_in_grace s now retry =
    not (s.connect_started == 0)
    && is_phase s (codes "connecting" ∷ codes "connect_pending" ∷ [])
    && ltb now (
        s.connect_started
        + max k_connect_attempt_grace_min (retry * k_connect_attempt_grace_multiplier))

unfoldable pub should_attempt_connect : PeerSession → ℕ → ℕ → Bool
should_attempt_connect s now retry =
    s.desired
    && not (repair_stops s)
    && s.missing_since == 0
    && not (is_phase s k_connected_phases)
    && not (connecting_in_grace s now retry)
    && is_past s.last_connect_attempt now retry

abbrev pairing_fallback_due : PeerSession → ℕ → Bool
pairing_fallback_due s now =
    not (s.pairing_wait_started == 0) && leb (s.pairing_wait_started + 10000) now

-- The start of the wait that pairing respects.
abbrev pair_wait_start : PeerSession → ℕ
pair_wait_start s =
    if s.services_wait_started == 0 then s.connected_since else s.services_wait_started

abbrev pair_grace_over : PeerSession → ℕ → ℕ → Bool
pair_grace_over s now retry =
    not (pair_wait_start s == 0)
    && leb (pair_wait_start s + max k_pair_after_connect_grace_min retry) now

unfoldable pub should_attempt_pair : PeerSession → PeerDevice → PeerPolicy → ℕ → ℕ → Bool
should_attempt_pair s d config now retry =
    config.auto_pair
    && s.desired
    && not (repair_stops s)
    && not s.pairing_in_progress
    && not d.blocked
    && d.connected
    && not (s.connected_since == 0)
    && not (has_required_pairing d config)
    && (pairing_fallback_due s now || pair_grace_over s now retry)
    && is_past s.last_security_attempt now
        (max k_pair_cooldown_min (retry * max 1 (s.pairing_failures + 1)))

unfoldable should_repair_authentication_disconnect :
    PeerSession → PeerDevice → PeerPolicy → Text → Bool
should_repair_authentication_disconnect s d config reason =
    text_eq reason (codes "org.bluez.Reason.Authentication")
    && config.auto_pair
    && config.auto_connect_enable
    && not config.enable_mesh
    && not (text_eq config.advertise_mode (codes "broadcast"))
    && s.desired
    && not d.blocked
    && (d.paired || d.bonded)
    && not s.repair_requested
    && not s.repair_in_progress

-- The phase of a desired peer that is connected or blocked keeps another connection from it.
abbrev IsHeld : PeerSession → Type 0
IsHeld s = s.desired ≡ true → is_phase s k_connected_phases ≡ true

-- The attempts on a device exclude one another, and a blocked one is left alone.
abbrev pub AreExclusive : PeerDevice → Bool → Bool → Bool → Type 0
AreExclusive d connects trusts pairs =
    (connects ≡ true → (d.connected ≡ false) × (d.blocked ≡ false))
    × ((trusts ≡ true → (d.connected ≡ true) × ((d.blocked ≡ false) × (pairs ≡ false)))
        × (pairs ≡ true → (d.connected ≡ true) × ((d.blocked ≡ false) × (trusts ≡ false))))

-- A session that is missing, with no connection.
abbrev IsGone : PeerSession → Type 0
IsGone s = ((s.missing_since == 0) ≡ false) × ((s.connected_since == 0) ≡ true)

note_missing-IsGone : (now : ℕ) (s : PeerSession) → now ≢ 0 → IsGone (note_missing now s)
unfolding note_missing clear_device_reset
note_missing-IsGone now s counts =
    let since : ((if s.missing_since == 0 then now else s.missing_since) == 0) ≡ false =
      ground arith in
    if_cases (λ (t : PeerSession). IsGone t) (s.repair_requested && s.repair_awaiting_cache_removal)
      (λ _. (since, refl)) (λ _. (since, refl))

gone-attempts :
    (d : PeerDevice) (config : PeerPolicy) (later retry : ℕ) (s : PeerSession)
    → IsGone s
    → (should_attempt_connect s later retry
        || should_attempt_trust s d config later retry
        || should_attempt_pair s d config later retry)
      ≡ false
unfolding should_attempt_connect should_attempt_trust should_attempt_pair
gone-attempts d config later retry s gone = rw (gone.0, gone.1) (ground arith)

-- A device that the cache has lost is left alone until it is seen again: behind `note_missing_device`
-- at a time that counts, the node attempts nothing on it.
pub note_missing-alone :
    (d : PeerDevice) (config : PeerPolicy) (now later retry : ℕ) (s : PeerSession)
    → now ≢ 0
    → (should_attempt_connect (note_missing now s) later retry
        || should_attempt_trust (note_missing now s) d config later retry
        || should_attempt_pair (note_missing now s) d config later retry)
      ≡ false
note_missing-alone d config now later retry s counts =
    gone-attempts d config later retry (note_missing now s) (note_missing-IsGone now s counts)
