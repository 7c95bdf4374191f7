-- ===== src/Mesh/Swarm/Presence.antt =====
-- Logical swarm membership: joining, leaving, and the queries over the presence table.
pub mod Admission
pub mod Membership
use mrs_uav_bluetooth.Mesh.Swarm.{refused, member_name, PeerPresence, Swarm}
use mrs_uav_bluetooth.Prelude.NatMap.{NatMap}
use mrs_uav_bluetooth.Prelude.{
  ltb, leb, ◌==◌, if◌then◌else◌, Result, ok, err, select, Text, ℕ, ◌+◌, Bool, true, false, not,
  ◌&&◌, ◌||◌, Option, none, some, List, [], ◌∷◌, ◌++◌, map,
}
use mrs_uav_bluetooth.Prelude.Decimal.{to_string}
use mrs_uav_bluetooth.Prelude.NatMap

pub data JoinError : Type 0 where
  zero_swarm_id not_persisted : JoinError

-- The line that `persist_swarm_state` writes.
abbrev pub state_line : ℕ → Bool → Text
state_line id participating =
    to_string id ++ b' ' ∷ (if participating then b'1' else b'0') ∷ 10 ∷ []

-- `persists` says whether writing and renaming the state file succeeds, or no path is configured.
unfoldable pub join_swarm : (Text → Bool) → ℕ → Swarm → Result JoinError Swarm
join_swarm persists id s =
    if id == 0
    then err zero_swarm_id
    else if persists (state_line id true)
    then ok (record s { swarm_id = id; swarm_participating = true; last_heartbeat = 0 })
    else err not_persisted

unfoldable pub leave_swarm : (Text → Bool) → Swarm → Result JoinError Swarm
leave_swarm persists s =
    if persists (state_line s.swarm_id false)
    then ok (record s { swarm_participating = false; last_heartbeat = 0 })
    else err not_persisted

-- Fresh participation in the swarm of the given identifier.
abbrev pub is_member : ℕ → ℕ → PeerPresence → Bool
is_member id now p = ltb now p.expires && p.participating && p.swarm_id == id

member_numbers : ℕ → ℕ → NatMap PeerPresence → List ℕ
member_numbers id now [] = []
member_numbers id now ((number, p) ∷ rest) =
    if is_member id now p then number ∷ member_numbers id now rest else member_numbers id now rest

unfoldable pub swarm_members : ℕ → Swarm → List Text
unfolding member_numbers
swarm_members now s =
    (if s.swarm_participating then s.hostname ∷ [] else [])
    ++ map (member_name s) (member_numbers s.swarm_id now s.peer_presence)

unfoldable pub swarm_member_addresses : ℕ → Swarm → List ℕ
unfolding member_numbers
swarm_member_addresses now s =
    if s.swarm_participating
    then select (λ n. leb n 0x7fff) (member_numbers s.swarm_id now s.peer_presence)
    else []

-- A peer of any swarm whose presence has not run out.
abbrev pub is_fresh : ℕ → Option PeerPresence → Bool
is_fresh now none = false
is_fresh now (some p) = ltb now p.expires

abbrev probe_wanted : ℕ → Swarm → ℕ → Bool
probe_wanted now s n =
    not (n == s.local_number || ltb 0x7fff n) && not (is_fresh now (NatMap.find n s.peer_presence))

unfoldable pub swarm_probe_addresses : ℕ → Swarm → List ℕ
swarm_probe_addresses now s =
    if s.swarm_participating then select (probe_wanted now s) s.member_priority else []

any_member_from : ℕ → ℕ → ℕ → NatMap PeerPresence → Bool
any_member_from source id now [] = false
any_member_from source id now ((number, p) ∷ rest) =
    (p.source == source && is_member id now p) || any_member_from source id now rest

-- `accepts_swarm_payload(source)`: a raw message counts on the last heartbeat.
unfoldable pub accepts_raw_payload : ℕ → ℕ → Swarm → Bool
unfolding any_member_from
accepts_raw_payload source now s =
    s.swarm_participating && any_member_from source s.swarm_id now s.peer_presence

abbrev pub not_here : Swarm → ℕ → Bool
not_here s sender_swarm_id = not s.swarm_participating || not (sender_swarm_id == s.swarm_id)

-- `accepts_swarm_payload(source, sender_swarm_id)`: a bridge frame renews the sender's presence.
unfoldable pub accepts_swarm_payload : ℕ → ℕ → ℕ → Swarm → Bool × Swarm
accepts_swarm_payload source sender_swarm_id now s =
    if refused s source sender_swarm_id
    then (false, s)
    else if not_here s sender_swarm_id
    then (false, s)
    else (
      true,
      record s {
        peer_presence =
            NatMap.assign source
              (record {
                source = source;
                swarm_id = sender_swarm_id;
                participating = true;
                expires = now + s.config.provisioner_timeout;
              })
              s.peer_presence;
      },
    )
