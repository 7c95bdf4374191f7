-- ===== src/Peer/Runs.antt =====
-- The theorems on peers at a UAV that has just connected.
use mrs_uav_bluetooth.Prelude.{Text, codes, ◌≡◌, refl, Bool, true, false, ◌||◌, [], ◌∷◌, arith}
use mrs_uav_bluetooth.Peer.Manager.{PeerDevice, PeerPolicy, PeerSession}
use mrs_uav_bluetooth.Peer.Manager.Attempts.{
  should_attempt_trust, should_attempt_connect, should_attempt_pair, note_missing-alone,
}
use mrs_uav_bluetooth.Peer.Manager.Sync.{sync_session, note_missing}
use mrs_uav_bluetooth.Peer.Manager.Table.{new_session}

abbrev uav9_device : PeerDevice
uav9_device = record {
  mac = codes "AA:BB:CC:00:00:09";
  connected = true;
  paired = false;
  bonded = false;
  trusted = false;
  blocked = false;
  services_resolved = false;
}

abbrev pairing_policy : PeerPolicy
pairing_policy = record {
  auto_connect_enable = true;
  auto_pair = true;
  auto_trust = true;
  enable_mesh = false;
  advertise_mode = codes "broadcast";
  peer_whitelist = codes " UAV9 " ∷ [];
  auto_connect_period = 5000;
  peer_connection_timeout = 20000;
}

abbrev uav9_session : PeerSession
uav9_session = new_session (codes "AA:BB:CC:00:00:09") (codes "uav9") 1000

abbrev any_name : Text → Bool
any_name name = true

-- Five seconds behind the connection the node pairs.
uav9_paired :
    should_attempt_pair
      (sync_session any_name uav9_device pairing_policy false false 2000 uav9_session)
      uav9_device
      pairing_policy
      9000
      5000
    ≡ true
unfolding should_attempt_pair sync_session mrs_uav_bluetooth.Util.Strings.drop_end
uav9_paired = refl

note_missing-alone_example :
    (should_attempt_connect (note_missing 3000 uav9_session) 9000 5000
      || should_attempt_trust (note_missing 3000 uav9_session) uav9_device pairing_policy 9000 5000
      || should_attempt_pair (note_missing 3000 uav9_session) uav9_device pairing_policy 9000 5000)
    ≡ false
note_missing-alone_example =
    note_missing-alone uav9_device pairing_policy 3000 9000 5000 uav9_session (omega arith)
