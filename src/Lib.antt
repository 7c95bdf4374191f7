-- ===== src/Lib.antt =====
-- mrs_uav_bluetooth: UAVs that find each other, form Bluetooth Mesh swarms and carry ROS topics over
-- Bluetooth. The library models the parts that decide what is sent, accepted and elected.
--
-- Prelude: numbers, Boolean tests, lists, bytes, the ordered map, decimals and bit operations.
--
-- Util, src/util: Strings (string_utils.cpp), Topics (topic_utils.cpp), Md5 and Uuid (uuid_utils.cpp).
-- A text is the list of its bytes. MD5 is the streaming code, block by block, on 32-bit words with
-- their wrap-around written out; the loops are structural.
--
-- Mesh, src/mesh: Uuid and Number are the free functions of mesh_application.cpp and `uav_number`.
-- Application is the interface of MeshApplication that the coordinator calls: its calls are data, and
-- the answers of a pass, exceptions included, are inputs. Swarm is MeshSwarmCoordinator
-- (swarm_coordinator.cpp), its members a record, each member function that takes the mutex one step:
-- Swarm/Setup (constructor, fingerprint, state file), Swarm/Presence (join, leave, addresses, bridge
-- frames), Swarm/Frame (heartbeats sent and received), Swarm/Selection (election, with whom it is to
-- elect in Selection/Vote), Swarm/Lifecycle (`maintain`: bootstrap, local model, heartbeat) and
-- Swarm/Enrollment (provisioning). Swarm/Outcome holds what a pass leaves behind. The clock is an
-- argument, in nanosecond ticks.
--
-- Bridge, src/bridge: Scalar and Codec are payload_codec.cpp, with Codec/Integers the exact integers;
-- Math is the exact integer parser of math_expression.cpp, Math/Grammar the trees it is compared with;
-- Transport is transport_bridge_manager.cpp, with Transport/Publish and Transport/Receive the received
-- messages, and Transport/Configure the configurations. A flush is two steps, before and behind the
-- call of the sender, which runs without the entry's lock; the samples in between are explicit.
-- GenericMessageBridge, the ROS endpoints and the senders are parameters.
--
-- Config, src/config: Overlay is OverlayConfigManager (overlay_config_manager.cpp), whose operations
-- take the answers of the loader, the callbacks, the file system and the ROS graph as an argument, the
-- exceptions of the file system included. SharedTopics is shared_topic_config.cpp.
--
-- App, src/app: Reliable is the reliable delivery of samples over Mesh in service_node_mesh.cpp, the
-- members `mesh_reliable_*` of ServiceNode a record: Reliable/Send is `send_mesh_bridge_payload_impl`,
-- Send/Choice what it decides first; Reliable/Receive is `publish_mesh_message`; Reliable/Maintain is
-- `maintain_mesh_reliable`, Maintain/Sweep its part under the lock. Reliable/Reach is the relation of
-- these operations in any order. One operation reads the clock once and runs to its end, so the
-- windows between its locks are not seen. Mesh's answers are arguments.
--
-- Peer, src/peer: Manager is PeerManager (peer_manager.cpp) on one session, with Manager/Sync for
-- `sync_device`, Manager/Attempts for what may be attempted and Manager/Table for the table of sessions.
-- Its times are milliseconds in place of seconds in double.
--
-- Bounds: lengths and identifiers are natural numbers; where the source narrows or wraps, the modulus
-- is written out. Three recursions are on fuel: the deadline's, `step_deadline`, whose spacing is positive, so
-- that now + 1 rounds from a deadline that is due reach beyond now; and the loop for a fresh sequence,
-- `fresh_counter`, which sees different sequences and so needs one round more than samples are pending;
-- and the integer parser, whose calls shorten the text or go down the grammar, so that eight times the
-- length and eight are enough.
--
-- Not modelled: D-Bus, BlueZ, ROS, YAML, files, threads and user interfaces; the conversions between
-- integers and floats; std::regex in `is_uuid`; logging. Also left out: serial links, the
-- math expressions over double, member paths, the clock bridge of a
-- peer, and the rest of the service node.
--
-- Each theorem with hypotheses is applied to a concrete input in the Runs module of its
-- part, or in Mesh/Swarm/Passes; Mesh/Swarm/Fleet holds the swarms they use.
pub mod Prelude
pub mod Util
pub mod Mesh
pub mod Config
pub mod Bridge
pub mod App
pub mod Peer
