-- ===== src/Mesh/Swarm/Frame.antt =====
-- The coordination heartbeat: its bytes, and what a received one does.
pub mod RoundTrip
use mrs_uav_bluetooth.Mesh.Swarm.{
  refused, PeerPresence, k_control_opcode, k_frame_version, k_frame_size,
  k_swarm_participating_flag, SwarmConfig, Swarm,
}
use mrs_uav_bluetooth.Prelude.{
  ◌==◌, if◌then◌else◌, length, get_or, drop, ℕ, suc, ◌+◌, ◌*◌, ◌/◌, ◌%◌, bit_and, bit_or, Bool,
  true, false, not, ◌&&◌, ◌||◌, Option, none, some, List, ◌∷◌, ◌++◌,
}
use mrs_uav_bluetooth.Util.Md5.{le_bytes}
use mrs_uav_bluetooth.Prelude.NatMap

pub record ReceivedMessage : Type 0 where
  pub source : ℕ
  pub key_index : ℕ
  pub device_key : Bool
  pub bytes : List ℕ

-- `read_u16` and `read_u24`; the bytes are shifted apart and joined by `|`.
abbrev pub read_u16 : List ℕ → ℕ → ℕ
read_u16 bytes offset = bit_or (get_or bytes offset 0) (get_or bytes (suc offset) 0 * 256)

abbrev pub read_u24 : List ℕ → ℕ → ℕ
read_u24 bytes offset =
    bit_or (bit_or (get_or bytes offset 0) (get_or bytes (suc offset) 0 * 256))
      (get_or bytes (suc (suc offset)) 0 * 65536)

abbrev pub version_byte : Bool → ℕ
version_byte participating =
    bit_or (k_frame_version * 16) (if participating then k_swarm_participating_flag else 0) % 256

-- The access message that `publish_coordination_heartbeat` sends: `append_u24` and `append_u16`
-- write the low bytes, least significant first.
unfoldable pub heartbeat_access : Swarm → List ℕ
heartbeat_access s =
    k_control_opcode
      ∷ (s.config.mesh_company_id % 256)
      ∷ (s.config.mesh_company_id / 256 % 256)
      ∷ b'M'
      ∷ b'S'
      ∷ version_byte s.swarm_participating
      ∷ le_bytes 3 s.whitelist_fingerprint
    ++ le_bytes 2 s.swarm_id

abbrev pub is_coordination : List ℕ → Bool
is_coordination frame =
    length frame == k_frame_size && get_or frame 0 0 == b'M' && get_or frame 1 0 == b'S'

-- Not a frame of this version and this whitelist.
abbrev pub is_alien : Swarm → List ℕ → Bool
is_alien s frame =
    not (is_coordination frame)
    || not (get_or frame 2 0 / 16 == k_frame_version)
    || not (read_u24 frame 3 == s.whitelist_fingerprint)

abbrev pub presence_of : List ℕ → ℕ → ℕ → Swarm → PeerPresence
presence_of frame source now s = record {
  source = source;
  swarm_id = read_u16 frame 6;
  participating = not (bit_and (get_or frame 2 0) k_swarm_participating_flag == 0);
  expires = now + s.config.provisioner_timeout;
}

unfoldable pub accept_coordination_frame : List ℕ → ℕ → ℕ → Swarm → Swarm
accept_coordination_frame frame source now s =
    if is_alien s frame then s else if refused s source (read_u16 frame 6) then s else record s {
      peer_presence = NatMap.assign source (presence_of frame source now s) s.peer_presence;
    }

-- Where the frame begins: behind the vendor opcode if BlueZ kept it.
unfoldable pub frame_offset : SwarmConfig → List ℕ → Option ℕ
frame_offset config bytes =
    if length bytes == k_frame_size + 3
      && get_or bytes 0 0 == k_control_opcode
      && get_or bytes 1 0 == config.mesh_company_id % 256
      && get_or bytes 2 0 == config.mesh_company_id / 256 % 256
    then some 3
    else if length bytes == k_frame_size
    then some 0
    else none

unfoldable pub accept_framed : List ℕ → ℕ → ℕ → Swarm → Bool × Swarm
accept_framed frame source now s =
    if is_coordination frame
    then (true, accept_coordination_frame frame source now s)
    else (false, s)

unfoldable pub accept_at : Option ℕ → ReceivedMessage → ℕ → Swarm → Bool × Swarm
unfolding accept_framed
accept_at none message now s = (false, s)
accept_at (some offset) message now s =
    accept_framed (drop offset message.bytes) message.source now s

-- Not under the swarm's application key, or with no source.
abbrev pub is_foreign : Swarm → ReceivedMessage → Bool
is_foreign s message =
    message.device_key
    || not (message.key_index == s.config.swarm_app_key_index)
    || message.source == 0

-- Whether the message is a coordination frame and so consumed, and the new state.
unfoldable pub handle_message : ReceivedMessage → ℕ → Swarm → Bool × Swarm
unfolding accept_at
handle_message message now s =
    if message.device_key
      || not (message.key_index == s.config.swarm_app_key_index)
      || message.source == 0
    then (false, s)
    else accept_at (frame_offset s.config message.bytes) message now s
