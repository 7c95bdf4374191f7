-- ===== src/Mesh/Swarm/Fleet.antt =====
-- Concrete swarms for the theorems' runs: two UAVs, uav7 and uav9, of one whitelist.
use mrs_uav_bluetooth.Prelude.NatMap.{NatMap}
use mrs_uav_bluetooth.Prelude.{Text, codes, ℕ, true, false, [], ◌∷◌}
use mrs_uav_bluetooth.Mesh.Swarm.{SwarmConfig, PeerPresence, Swarm}

abbrev pub second_config : SwarmConfig
second_config = record {
  peer_whitelist = codes "uav7" ∷ codes "uav9" ∷ [];
  provisioner_preference = [];
  mesh_swarm_id = 5;
  mesh_swarm_participating = true;
  mesh_company_id = 0x05f1;
  mesh_vendor_model_id = 1;
  swarm_group_address = 0xc000;
  swarm_network_index = 0;
  swarm_app_key_index = 1;
  startup_grace = 10;
  heartbeat_period = 2;
  provisioner_timeout = 60;
}

abbrev pub swarm_of : ℕ → Text → NatMap PeerPresence → Swarm
swarm_of number hostname presence = record {
  config = second_config;
  hostname = hostname;
  local_number = number;
  preferred_number = 0;
  whitelist_fingerprint = 0x123456;
  member_by_number = (7, codes "uav7") ∷ (9, codes "uav9") ∷ [];
  member_priority = 7 ∷ 9 ∷ [];
  peer_presence = presence;
  active_number = number;
  active_provisioner = hostname;
  local_is_active = true;
  active_since = 1;
  swarm_id = 5;
  swarm_participating = true;
  last_heartbeat = 0;
  bootstrap_started_at = 1;
  last_bootstrap_action = 0;
  local_model_stage = 0;
  next_local_model_action = 0;
  application_ready = false;
  pending_events = [];
  pending_provision_uuid = [];
  pending_provision_address = 0;
  remote_model_stage = 0;
  remote_model_action_at = 0;
  pending_provision_until = 0;
  last_scan_at = 0;
  last_direct_attempt = [];
}

abbrev pub fresh_presence : ℕ → PeerPresence
fresh_presence number = record { source = number; swarm_id = 5; participating = true; expires = 50 }

abbrev pub seventh : Swarm
seventh = swarm_of 7 (codes "uav7") []

abbrev pub ninth : Swarm
ninth = swarm_of 9 (codes "uav9") []

abbrev pub uav7_meets_9 : Swarm
uav7_meets_9 = swarm_of 7 (codes "uav7") ((9, fresh_presence 9) ∷ [])

abbrev pub uav9_meets_7 : Swarm
uav9_meets_7 = swarm_of 9 (codes "uav9") ((7, fresh_presence 7) ∷ [])
