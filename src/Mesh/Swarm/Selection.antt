-- ===== src/Mesh/Swarm/Selection.antt =====
-- The election of the active provisioner.
pub mod Agreement
pub mod Consistent
pub mod Vote
use mrs_uav_bluetooth.Mesh.Swarm.{PeerPresence, member_name, Swarm}
use mrs_uav_bluetooth.Prelude.{
  min, leb, ◌==◌, if◌then◌else◌, is_empty, ℕ, Bool, not, ◌&&◌, ◌||◌, List, [], ◌∷◌,
}
use mrs_uav_bluetooth.Prelude.NatMap

-- Local, or with a presence in the table.
unfoldable pub available : Swarm → ℕ → Bool
available s number = number == s.local_number || NatMap.contains number s.peer_presence

abbrev pub first_available : (ℕ → Bool) → ℕ → List ℕ → ℕ
first_available p default [] = default
first_available p default (n ∷ ns) = if p n then n else first_available p default ns

abbrev pub least_from : ℕ → List ℕ → ℕ
least_from selected [] = selected
least_from selected (n ∷ ns) = least_from (min selected n) ns

abbrev pub prefers : Swarm → Bool
prefers s = not (s.preferred_number == 0) && available s s.preferred_number

unfoldable pub selected_number : Swarm → ℕ
selected_number s =
    if not (s.preferred_number == 0) && available s s.preferred_number
    then s.preferred_number
    else if not (is_empty s.member_priority)
    then first_available (available s) s.local_number s.member_priority
    else least_from s.local_number (NatMap.keys s.peer_presence)

-- An entry is erased if its lease has run out by `now`.
abbrev pub outlives : ℕ → PeerPresence → Bool
outlives now p = not (leb p.expires now)

unfoldable pub purge_expired : ℕ → Swarm → Swarm
purge_expired now s = record s { peer_presence = NatMap.retain (outlives now) s.peer_presence }

unfoldable pub activate : ℕ → ℕ → Swarm → Swarm
activate selected now s = if selected == s.active_number then s else record s {
  active_number = selected;
  active_provisioner = member_name s selected;
  local_is_active = selected == s.local_number;
  active_since = now;
}

unfoldable pub update_selection : ℕ → Swarm → Swarm
update_selection now s =
    let purged = purge_expired now s in activate (selected_number purged) now purged
