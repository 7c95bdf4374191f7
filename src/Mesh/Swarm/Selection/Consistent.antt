-- ===== src/Mesh/Swarm/Selection/Consistent.antt =====
-- The active provisioner's number, name and flag agree.
use mrs_uav_bluetooth.Prelude.{refl, ◌==◌, Bool-cases, inl, inr, ℕ, ◌≡◌, arith}
use mrs_uav_bluetooth.Mesh.Swarm.Selection.{activate, purge_expired}
use mrs_uav_bluetooth.Mesh.Swarm.{member_name, Swarm}

-- The state names the elected number, and says rightly whether it is the UAV's own.
pub record IsConsistent (s : Swarm) : Type 0 where
  pub named : s.active_provisioner ≡ member_name s s.active_number
  pub own : s.local_is_active ≡ (s.active_number == s.local_number)

pub activate-IsConsistent :
    (n now : ℕ) (s : Swarm)
    → IsConsistent s
    → IsConsistent (activate n now s) × ((activate n now s).active_number ≡ n)
unfolding activate member_name
activate-IsConsistent n now s c = elim (Bool-cases (n == s.active_number)) [
  | inl e ↦ rw e (c, ground arith)
  | inr e ↦ rw e (record { named = refl; own = refl }, refl)
]

pub activate-keeps : (n now : ℕ) (s : Swarm) → (activate n now s).peer_presence ≡ s.peer_presence
unfolding activate
activate-keeps n now s = ground arith

pub purge-IsConsistent : (now : ℕ) (s : Swarm) → IsConsistent s → IsConsistent (purge_expired now s)
unfolding purge_expired member_name
purge-IsConsistent now s c = record { named = c.named; own = c.own }
