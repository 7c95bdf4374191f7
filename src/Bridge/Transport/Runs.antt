-- ===== src/Bridge/Transport/Runs.antt =====
-- The theorems on transports at concrete bridges.
use mrs_uav_bluetooth.Prelude.{
  codes, ℕ, suc, ◌+◌, ◌*◌, ◌≤◌, ◌<◌, ◌≡◌, refl, ◌⊎◌, true, false, none, some, [], ◌∷◌, arith,
}
use mrs_uav_bluetooth.Bridge.Transport.{
  entry_key, handle_local_message, begin_flush, next_deadline, finish_flush, mesh_access,
  SharedTopic, BridgeEntry, BridgeRuntime, Dispatch, advertisement, mesh, both_ways,
}
use mrs_uav_bluetooth.Bridge.Transport.Publish.{safe_peer_token, import_topic, publish}
use mrs_uav_bluetooth.Bridge.Transport.Receive.{find_entry, handle_mesh, Manager}
use mrs_uav_bluetooth.Bridge.Transport.Delivery.{
  buffer_all, left_waiting, finish_flush-newest, next_deadline_lem,
}
use mrs_uav_bluetooth.Bridge.Transport.RoundTrip.{handle_mesh-mesh_access, MeshLink}
use mrs_uav_bluetooth.Bridge.Transport.Replay.{remember_all, publish-once}
use mrs_uav_bluetooth.Bridge.Transport.Configure.{configure}
use mrs_uav_bluetooth.Bridge.Transport.Configure.Fresh.{configure-silences}
use mrs_uav_bluetooth.Prelude.Decimal.{to_string}

abbrev pub odom_topic : SharedTopic
odom_topic = record {
  transport = mesh;
  channel_id = 300;
  mode = both_ways;
  advertisement_bare = false;
  mesh_destination = 0xc000;
  mesh_swarm_reliable = true;
  mesh_element_index = 0;
  mesh_force_segmented = true;
  mesh_vendor_opcode = 0xc1;
  mesh_company_id = 0x05f1;
  mesh_app_key_index = 1;
  period = some 100;
  export_topic = codes "/odom";
  import_topic_suffix = codes "odom";
}

abbrev beacon_topic : SharedTopic
beacon_topic = record odom_topic {
  transport = advertisement;
  channel_id = 0;
  advertisement_bare = true;
}

abbrev pub entry_of : SharedTopic → BridgeEntry
entry_of config = record {
  config = config;
  generation = 3;
  revision = 0;
  pending_payload = some (1 ∷ 2 ∷ []);
  next_dispatch_at = 0;
  publishers = [];
  recent_payloads = [];
}

abbrev pub plain_runtime : BridgeRuntime
plain_runtime = record {
  encode_payload = λ config message. some message;
  decode_payload = λ config payload. some payload;
  opens_publisher = λ topic. true;
}

abbrev pub odom_manager : Manager
odom_manager = record {
  next_generation = 3;
  peers_prefix = codes "/peers";
  peer_whitelist = codes "uav7" ∷ [];
  mesh_peer_by_address = (7, codes "uav7") ∷ [];
  entries = record { key = codes "mesh:300"; entry = entry_of odom_topic } ∷ [];
}

odom_link :
    MeshLink plain_runtime odom_manager odom_topic
      (entry_of odom_topic)
      7
      (codes "uav7")
      (1 ∷ 2 ∷ [])
      (1 ∷ 2 ∷ [])
unfolding entry_key to_string
odom_link = record {
  channel_found = refl;
  channel_imports = refl;
  channel_fits = omega arith;
  vendor_opcode = refl;
  same_opcode = refl;
  same_company = refl;
  sender_known = refl;
  topic_opens = refl;
  payload_decodes = refl;
}

handle_mesh-mesh_access_example :
    (handle_mesh plain_runtime 7 1 (mesh_access odom_topic (1 ∷ 2 ∷ [])) odom_manager).sample
    ≡ some (record {
      topic = import_topic (codes "/peers") (safe_peer_token (codes "uav7")) odom_topic;
      message = 1 ∷ 2 ∷ [];
    })
handle_mesh-mesh_access_example =
    handle_mesh-mesh_access plain_runtime odom_manager odom_topic (entry_of odom_topic) 7
      (codes "uav7") (1 ∷ 2 ∷ []) (1 ∷ 2 ∷ []) odom_link

abbrev odom_dispatch : Dispatch
odom_dispatch = record { config = odom_topic; generation = 3; revision = 0; payload = 1 ∷ 2 ∷ [] }

abbrev odom_emptied : BridgeEntry
odom_emptied = record (entry_of odom_topic) { pending_payload = none }

odom_taken : begin_flush 3 50 (entry_of odom_topic) ≡ (some odom_dispatch, odom_emptied)
unfolding begin_flush
odom_taken = refl

finish_flush-newest_example :
    (finish_flush false odom_dispatch 60
      (buffer_all ((5 ∷ []) ∷ (6 ∷ []) ∷ []) odom_emptied)).pending_payload
    ≡ left_waiting false (1 ∷ 2 ∷ []) ((5 ∷ []) ∷ (6 ∷ []) ∷ [])
finish_flush-newest_example =
    finish_flush-newest (entry_of odom_topic) 3 50 60 odom_dispatch odom_emptied
      ((5 ∷ []) ∷ (6 ∷ []) ∷ []) false odom_taken

abbrev forty : ℕ
forty = 40

next_deadline_lem_example :
    (250 < next_deadline 100 250 40)
    × (next_deadline 100 250 40 ≤ 250 + 100)
    × ((forty ≡ 0) ⊎ ((k : ℕ) × (next_deadline 100 250 40 ≡ 40 + suc k * 100)))
next_deadline_lem_example = next_deadline_lem 100 250 40 (omega arith) (omega arith)

beacon_published :
    (publish plain_runtime
      (codes "/peers")
      (codes "uav7")
      (1 ∷ 2 ∷ [])
      true
      (entry_of beacon_topic)).sample
    ≡ some (record {
      topic = import_topic (codes "/peers") (safe_peer_token (codes "uav7")) beacon_topic;
      message = 1 ∷ 2 ∷ [];
    })
unfolding publish
beacon_published = refl

abbrev beacon_later : BridgeEntry
beacon_later =
    remember_all (safe_peer_token (codes "uav7")) ((5 ∷ []) ∷ [])
      (publish plain_runtime (codes "/peers") (codes "uav7") (1 ∷ 2 ∷ []) true
        (entry_of beacon_topic)).entry

publish-once_example :
    publish plain_runtime (codes "/peers") (codes "uav7") (1 ∷ 2 ∷ []) true beacon_later
    ≡ record { handled = true; sample = none; entry = beacon_later }
publish-once_example =
    publish-once plain_runtime (codes "/peers") (codes "uav7") (1 ∷ 2 ∷ []) (entry_of beacon_topic)
      (record {
        topic = import_topic (codes "/peers") (safe_peer_token (codes "uav7")) beacon_topic;
        message = 1 ∷ 2 ∷ [];
      })
      ((5 ∷ []) ∷ []) beacon_published (omega arith)

abbrev odom_renewed : BridgeEntry
odom_renewed = record (entry_of odom_topic) { generation = 4; pending_payload = none }

odom_configured :
    find_entry
      (codes "mesh:300")
      (configure (odom_topic ∷ []) (codes "/peers") (codes "UAV7" ∷ []) odom_manager).1.entries
    ≡ some odom_renewed
unfolding configure entry_key to_string
odom_configured = refl

configure-silences_example :
    (handle_local_message plain_runtime 3 (9 ∷ []) odom_renewed ≡ (false, odom_renewed))
    × (begin_flush 3 70 odom_renewed ≡ (none, odom_renewed))
configure-silences_example =
    configure-silences (odom_topic ∷ []) (codes "/peers") (codes "UAV7" ∷ []) odom_manager 3
      (codes "mesh:300") odom_renewed plain_runtime (9 ∷ []) 70 (omega arith) (omega arith)
      odom_configured
