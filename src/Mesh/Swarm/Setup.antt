-- ===== src/Mesh/Swarm/Setup.antt =====
-- The constructor of `MeshSwarmCoordinator`: what the whitelist and the preference amount to.
use mrs_uav_bluetooth.Prelude.NatMap.{NatMap}
use mrs_uav_bluetooth.Prelude.NatMap
use mrs_uav_bluetooth.Prelude.{
  ltb, ◌==◌, if◌then◌else◌, ◌>>=◌, is_empty, Text, codes, text_eq, ℕ, ◌*◌, ◌%◌, ◌^◌, bit_and,
  bit_xor, false, not, ◌||◌, Option, none, some, List, [], ◌∷◌, ◌++◌, map,
}
use mrs_uav_bluetooth.Mesh.Swarm.{member_name_in, SwarmConfig, Swarm}
use mrs_uav_bluetooth.Mesh.Number.{uav_number}
use mrs_uav_bluetooth.Util.Strings.{lower_trim_copy}

abbrev fnv_step : ℕ → ℕ → ℕ
fnv_step hash byte = bit_xor hash byte * 16777619 % 2 ^ 32

abbrev fnv_loop : ℕ → Text → ℕ
fnv_loop hash [] = hash
fnv_loop hash (b ∷ t) = fnv_loop (fnv_step hash b) t

members_text : List Text → Text
members_text [] = []
members_text (m ∷ ms) = m ++ b',' ∷ members_text ms

canonical_members : List Text → Text
unfolding members_text
canonical_members members =
    if is_empty members then codes "*" else members_text (map lower_trim_copy members)

unfoldable pub swarm_fingerprint : List Text → Text → ℕ
unfolding canonical_members
swarm_fingerprint members preference =
    let canonical = lower_trim_copy preference ++ b'|' ∷ canonical_members members in
    let hash = bit_and (fnv_loop 2166136261 canonical) 0x00ffffff in if hash == 0 then 1 else hash

pub record Members : Type 0 where
  pub by_number : NatMap Text
  pub priority : List ℕ

-- The loop over the whitelist; a number that stands twice is an exception.
unfoldable pub read_members : Members → List Text → Option Members
read_members m [] = some m
read_members m (raw ∷ rest) = do
  number ← uav_number (lower_trim_copy raw)
  let next : Members = record {
    by_number = NatMap.assign number (lower_trim_copy raw) m.by_number;
    priority = m.priority ++ number ∷ [];
  }
  let more = read_members next rest
  if NatMap.contains number m.by_number then none else more

preferred_of : Text → Option ℕ
preferred_of preference =
    if text_eq preference (codes "ordered") then some 0 else uav_number preference

first_or : ℕ → List ℕ → ℕ
first_or d [] = d
first_or d (n ∷ ns) = n

-- The state that the constructor leaves before it loads the stored swarm.
initial : SwarmConfig → Text → ℕ → ℕ → Members → ℕ → Swarm
unfolding first_or
initial config name local preferred m now =
    let active = if preferred == 0 then first_or local m.priority else preferred in
    record {
      config = config;
      hostname = name;
      local_number = local;
      preferred_number = preferred;
      whitelist_fingerprint =
          swarm_fingerprint config.peer_whitelist (lower_trim_copy config.provisioner_preference);
      member_by_number = m.by_number;
      member_priority = m.priority;
      peer_presence = [];
      active_number = active;
      active_provisioner = member_name_in m.by_number active;
      local_is_active = active == local;
      active_since = now;
      swarm_id = config.mesh_swarm_id;
      swarm_participating = config.mesh_swarm_participating;
      last_heartbeat = 0;
      bootstrap_started_at = now;
      last_bootstrap_action = 0;
      local_model_stage = 0;
      next_local_model_action = 0;
      application_ready = false;
      pending_events = [];
      pending_provision_uuid = [];
      pending_provision_address = 0;
      remote_model_stage = 0;
      remote_model_action_at = 0;
      pending_provision_until = 0;
      last_scan_at = 0;
      last_direct_attempt = [];
    }

-- `stored` is what the two extractions from the state file yield, if there is a file and both
-- succeed: a number that fits 32 bits, and an `int`, of which only 0 and 1 are told from the rest.
unfoldable pub load_swarm_state : Option (ℕ × ℕ) → Swarm → Swarm
load_swarm_state none s = s
load_swarm_state (some (id, flag)) s =
    if id == 0 || ltb 0xffff id || not (flag == 0 || flag == 1)
    then s
    else record s { swarm_id = id; swarm_participating = not (flag == 0) }

unfoldable pub coordinator : SwarmConfig → Text → Option (ℕ × ℕ) → ℕ → Option Swarm
unfolding preferred_of initial
coordinator config hostname stored now = do
  local ← uav_number (lower_trim_copy hostname)
  m ← read_members (record { by_number = []; priority = [] }) config.peer_whitelist
  preferred ← preferred_of (lower_trim_copy config.provisioner_preference)
  some (load_swarm_state stored (initial config (lower_trim_copy hostname) local preferred m now))
