-- ===== src/Mesh/Swarm/Enrollment/Targets.antt =====
-- Whom the coordinator tries to provision of its own accord.
use mrs_uav_bluetooth.Prelude.{
  is_empty, ◌⊎◌, Bool, ◌||◌, [], ◌∷◌, arith, ◌==◌, Bool-cases, All, any, ℕ, ◌%◌, ◌≡◌, refl, ◌≢◌,
  inl, inr, true, false, Option, none, some, List,
}
use mathlib.Core.Path.{subst}
use mrs_uav_bluetooth.Mesh.Swarm.Enrollment.{
  enrolled, attempted_recently, direct_loop, direct_provisioning, provision_named, attempt,
  start_provisioning,
}
use mrs_uav_bluetooth.Mesh.Swarm.{member_name, Swarm}
use mrs_uav_bluetooth.Mesh.Application.{Call, Answers, set_auto_provisioning_unicast}
use mrs_uav_bluetooth.Mesh.Uuid.{mesh_auto_uuid_from_name}
use mrs_uav_bluetooth.Prelude.NatMap

-- The number of a whitelisted peer other than the UAV itself, without a presence.
abbrev pub IsTarget : Swarm → ℕ → Type 0
IsTarget s n =
    (n ≢ s.local_number)
    × (NatMap.contains n s.peer_presence ≡ false)
    × (any (λ k. k == n) s.member_priority ≡ true)

abbrev pub Aims : Swarm → Call → Type 0
Aims s (set_auto_provisioning_unicast k) = (n : ℕ) × (k ≡ n % 65536) × IsTarget s n
Aims s call = Unit {0}

start-Aims :
    (answers : Answers) (n : ℕ) (uuid : List ℕ) (now : ℕ) (s t : Swarm)
    → IsTarget t n
    → All (Aims t) (start_provisioning answers (n % 65536) uuid now s).calls
unfolding start_provisioning
start-Aims answers n uuid now s t h =
    elim (Bool-cases (answers.accepts (set_auto_provisioning_unicast (n % 65536)))) [
      | inl e ↦ rw e ((n, refl, h), (tt, tt))
      | inr e ↦ rw e ((n, refl, h), tt)
    ]

named-Aims :
    (answers : Answers) (u : Option (List ℕ)) (n now : ℕ) (s t : Swarm)
    → IsTarget t n
    → All (Aims t) (provision_named answers u n now s).calls
unfolding provision_named
named-Aims answers none n now s t h = tt
named-Aims answers (some uuid) n now s t h = start-Aims answers n uuid now s t h

attempt-Aims :
    (answers : Answers) (known : Option (List ℕ)) (n now : ℕ) (s t : Swarm)
    → IsTarget t n
    → All (Aims t) (attempt answers known n now s).calls
unfolding attempt
attempt-Aims answers none n now s t h = tt
attempt-Aims answers (some known) n now s t h =
    named-Aims answers (mesh_auto_uuid_from_name (member_name s n)) n now s t h

-- The two states agree on what makes a target.
pub record SamePeers (s t : Swarm) : Type 0 where
  pub same_own : s.local_number ≡ t.local_number
  pub same_presence : s.peer_presence ≡ t.peer_presence

passed_over : ℕ → ℕ → Swarm → Bool
passed_over now n s =
    n == s.local_number
    || NatMap.contains n s.peer_presence
    || attempted_recently now (NatMap.find n s.last_direct_attempt)

IsTarget-of :
    (now n : ℕ) (s t : Swarm)
    → SamePeers s t
    → passed_over now n s ≡ false
    → any (λ k. k == n) t.member_priority ≡ true
    → IsTarget t n
unfolding passed_over
IsTarget-of now n s t p e m = (
  λ h. cc (own_test h),
  subst (λ q. NatMap.contains n q ≡ false) p.same_presence (ground arith),
  m,
)
  where
    own_test : n ≡ t.local_number → false ≡ true
    own_test h = ground (arith, p.same_own)

direct_loop-Aims :
    (answers : Answers) (now : ℕ) (ns : List ℕ) (s t : Swarm)
    → SamePeers s t
    → ((n : ℕ) → any (λ k. k == n) ns ≡ true → any (λ k. k == n) t.member_priority ≡ true)
    → All (Aims t) (direct_loop answers now ns s).calls
unfolding direct_loop passed_over
direct_loop-Aims answers now [] s t p m = tt
direct_loop-Aims answers now (n ∷ ns) s t p m = elim (Bool-cases (passed_over now n s)) [
  | inl e ↦ rw e (direct_loop-Aims answers now ns s t p deeper)
  | inr e ↦ rw e (elim (Bool-cases (enrolled answers.device_keys n)) [
    | inl o ↦ rw o (direct_loop-Aims answers now ns marked t q deeper)
    | inr o ↦ rw o (
        attempt-Aims answers answers.device_keys n now marked t
          (IsTarget-of now n s t p e (m n (ground arith))))
  ])
]
  where
    deeper : (k : ℕ) → any (λ j. j == k) ns ≡ true → any (λ j. j == k) t.member_priority ≡ true
    deeper k h = m k (ground (arith, h))

    marked : Swarm
    marked = record s { last_direct_attempt = NatMap.assign n now s.last_direct_attempt }

    q : SamePeers marked t
    q = record { same_own = p.same_own; same_presence = p.same_presence }

-- While a provisioning is pending no other is begun; otherwise the number that a pass hands to a
-- newcomer is that of a whitelisted peer other than the UAV itself, without a presence.
pub direct_provisioning-Aims :
    (answers : Answers) (now : ℕ) (s : Swarm)
    → ((is_empty s.pending_provision_uuid ≡ true)
        ⊎ ((direct_provisioning answers now s).calls ≡ []))
      × All (Aims s) (direct_provisioning answers now s).calls
unfolding direct_provisioning
direct_provisioning-Aims answers now s = elim (Bool-cases (is_empty s.pending_provision_uuid)) [
  | inl e ↦ (inl e, rw e (direct_loop-Aims answers now s.member_priority s s same (λ n h. h)))
  | inr e ↦ (inr (rw e), rw e tt)
]
  where
    same : SamePeers s s
    same = record { same_own = refl; same_presence = refl }
