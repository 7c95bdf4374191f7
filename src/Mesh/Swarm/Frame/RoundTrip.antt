-- ===== src/Mesh/Swarm/Frame/RoundTrip.antt =====
-- The heartbeat of one coordinator at another one.
use mrs_uav_bluetooth.Prelude.{
  some, ◌==◌, bit_and, refl, ◌≢◌, not, drop, ℕ, ◌+◌, ◌*◌, ◌/◌, ◌%◌, ◌^◌, ◌<◌, bit_or, ◌≡◌, Bool,
  true, false, List, arith,
}
use mrs_uav_bluetooth.Mesh.Swarm.Frame.{
  is_coordination, accept_framed, version_byte, heartbeat_access, accept_coordination_frame,
  frame_offset, handle_message,
}
use mrs_uav_bluetooth.Mesh.Swarm.{k_frame_version, k_swarm_participating_flag, peer_allowed, Swarm}
use mrs_uav_bluetooth.Prelude.Bits.{bit_or_8, bit_or_16}
use mrs_uav_bluetooth.Prelude.NatMap

-- The bytes as BlueZ hands them over: with the vendor opcode, or without it.
abbrev pub received_access : Bool → List ℕ → List ℕ
received_access true access = access
received_access false access = drop 3 access

abbrev pub renewed : Swarm → ℕ → Swarm → Swarm
renewed sender now s = record s {
  peer_presence =
      NatMap.assign sender.local_number
        (record {
          source = sender.local_number;
          swarm_id = sender.swarm_id;
          participating = sender.swarm_participating;
          expires = now + s.config.provisioner_timeout;
        })
        s.peer_presence;
}

u16_bytes : (n : ℕ) → n < 2 ^ 16 → bit_or (n % 256) (n / 256 % 256 * 256) ≡ n
u16_bytes n h = omega (arith, bit_or_8 (n % 256) (n / 256 % 256) (omega arith))

u24_bytes :
    (n : ℕ)
    → n < 2 ^ 24
    → bit_or (bit_or (n % 256) (n / 256 % 256 * 256)) (n / 256 / 256 % 256 * 65536) ≡ n
u24_bytes n h =
    rw (bit_or_8 (n % 256) (n / 256 % 256) (omega arith))
      (omega (arith, bit_or_16 (n % 256 + n / 256 % 256 * 256) (n / 256 / 256 % 256) (omega arith)))

version_nibble : (b : Bool) → version_byte b / 16 ≡ k_frame_version
version_nibble true = refl
version_nibble false = refl

participating_flag : (b : Bool) → not (bit_and (version_byte b) k_swarm_participating_flag == 0) ≡ b
participating_flag true = refl
participating_flag false = refl

-- What makes `receiver` take a heartbeat of `sender` in: both have the same fingerprint and the
-- sender is another, admitted UAV with a swarm identifier.
pub record Hears (receiver sender : Swarm) : Type 0 where
  pub same_fingerprint : receiver.whitelist_fingerprint ≡ sender.whitelist_fingerprint
  pub fingerprint_fits : sender.whitelist_fingerprint < 2 ^ 24
  pub swarm_id_fits : sender.swarm_id < 2 ^ 16
  pub swarm_id_given : sender.swarm_id ≢ 0
  pub numbered : sender.local_number ≢ 0
  pub other : sender.local_number ≢ receiver.local_number
  pub admitted : peer_allowed receiver sender.local_number ≡ true

module _ (a b : Swarm) (now : ℕ) (h : Hears b a) where
  accept-heartbeat :
      accept_coordination_frame (drop 3 (heartbeat_access a)) a.local_number now b ≡ renewed a now b
  unfolding accept_coordination_frame heartbeat_access
  accept-heartbeat =
      rw
        (
          version_nibble a.swarm_participating,
          u24_bytes a.whitelist_fingerprint h.fingerprint_fits,
          u16_bytes a.swarm_id h.swarm_id_fits,
          participating_flag a.swarm_participating,
          h.admitted,
        )
        (ground (arith, h.same_fingerprint, h.swarm_id_given, h.numbered, h.other))

  heartbeat-is_coordination : is_coordination (drop 3 (heartbeat_access a)) ≡ true
  unfolding heartbeat_access
  heartbeat-is_coordination = refl

  framed :
      accept_framed (drop 3 (heartbeat_access a)) a.local_number now b ≡ (true, renewed a now b)
  unfolding accept_framed
  framed = rw (heartbeat-is_coordination, accept-heartbeat)

  offset_kept :
      b.config.mesh_company_id ≡ a.config.mesh_company_id
      → frame_offset b.config (heartbeat_access a) ≡ some 3
  unfolding frame_offset heartbeat_access
  offset_kept e = ground arith

  offset_stripped : frame_offset b.config (drop 3 (heartbeat_access a)) ≡ some 0
  unfolding frame_offset heartbeat_access
  offset_stripped = refl

  -- A heartbeat of another UAV, which the receiver admits and which has its fingerprint and company
  -- identifier, a number and a swarm, is consumed, whether or not BlueZ kept the opcode, and the
  -- receiver records the sender's swarm, its participation and a full lease.
  pub handle_message-heartbeat :
      (kept : Bool)
      → b.config.mesh_company_id ≡ a.config.mesh_company_id
      → handle_message
          (record {
            source = a.local_number;
            key_index = b.config.swarm_app_key_index;
            device_key = false;
            bytes = received_access kept (heartbeat_access a);
          })
          now
          b
        ≡ (true, renewed a now b)
  unfolding handle_message
  handle_message-heartbeat true e = ground (arith, offset_kept e, framed, h.numbered)
  handle_message-heartbeat false e = ground (arith, offset_stripped, framed, h.numbered)
