-- ===== src/Mesh/Swarm/Selection/Agreement.antt =====
-- The election over the presence table, and two UAVs with one view of the swarm.
use mrs_uav_bluetooth.Prelude.{
  if◌then◌else◌, ap, Bool-cases, is_empty, sym, ◌∙◌, ◌⊎◌, inl, inr, not, any, all, ℕ, ◌≤◌, min, ◌≡◌,
  Bool, true, List, [], ◌∷◌, arith,
}
use mrs_uav_bluetooth.Mesh.Swarm.Selection.{
  available, prefers, selected_number, first_available, least_from,
}
use mathlib.Core.Path.{fun_ext}
use mrs_uav_bluetooth.Mesh.Swarm.{Swarm, PeerPresence}
use mrs_uav_bluetooth.Prelude.NatMap.{NatMap}
use mrs_uav_bluetooth.Prelude.NatMap

first_available_is :
    (p : ℕ → Bool) (d : ℕ) (ns : List ℕ) → p d ≡ true → p (first_available p d ns) ≡ true
first_available_is p d [] h = h
first_available_is p d (n ∷ ns) h = ground (arith, first_available_is p d ns h)

-- The default is not reached if some candidate passes.
first_available-default :
    (p : ℕ → Bool) (d e : ℕ) (ns : List ℕ)
    → any p ns ≡ true
    → first_available p d ns ≡ first_available p e ns
first_available-default p d e [] h = cc
first_available-default p d e (n ∷ ns) h = ground (arith, first_available-default p d e ns)

abbrev IsKey : ℕ → NatMap PeerPresence → Type 0
IsKey n m = NatMap.contains n m ≡ true

least_from-le :
    (d : ℕ) (m : NatMap PeerPresence)
    → (least_from d (NatMap.keys m) ≤ d) × ((n : ℕ) → IsKey n m → least_from d (NatMap.keys m) ≤ n)
least_from-le d [] = (omega arith, λ n h. absurd (ground arith))
least_from-le d ((j, w) ∷ m) =
    let (le, all) = least_from-le (min d j) m in (omega arith, λ n h. ground (arith, all n))

min_is : (p : ℕ → Bool) (a b : ℕ) → p a ≡ true → p b ≡ true → p (min a b) ≡ true
min_is p a b h k = elim (min_cases a b) [ inl e ↦ rw e h | inr e ↦ rw e k ]
  where
    min_cases : (a b : ℕ) → (min a b ≡ a) ⊎ (min a b ≡ b)
    min_cases a b = omega arith

IsKey-cons :
    (n j : ℕ) (w : PeerPresence) (m : NatMap PeerPresence) → IsKey n m → IsKey n ((j, w) ∷ m)
IsKey-cons n j w m h = ground arith

IsKey-head : (j : ℕ) (w : PeerPresence) (m : NatMap PeerPresence) → IsKey j ((j, w) ∷ m)
IsKey-head j w m = ground arith

pub least_from_is :
    (p : ℕ → Bool) (d : ℕ) (m : NatMap PeerPresence)
    → p d ≡ true
    → ((n : ℕ) → IsKey n m → p n ≡ true)
    → p (least_from d (NatMap.keys m)) ≡ true
least_from_is p d [] h k = h
least_from_is p d ((j, w) ∷ m) h k =
    least_from_is p (min d j) m (min_is p d j h (k j (IsKey-head j w m)))
      (λ n e. k n (IsKey-cons n j w m e))

pub available_own : (s : Swarm) → available s s.local_number ≡ true
unfolding available
available_own s = ground arith

pub available_key : (s : Swarm) (n : ℕ) → IsKey n s.peer_presence → available s n ≡ true
unfolding available
available_key s n h = ground arith

pub available_cases :
    (s : Swarm) (n : ℕ) → available s n ≡ true → (n ≡ s.local_number) ⊎ IsKey n s.peer_presence
unfolding available
available_cases s n h = ground arith

-- The elected number is the UAV's own or one with a presence in the table, never an absent peer's.
selected_number-available : (s : Swarm) → available s (selected_number s) ≡ true
unfolding selected_number
selected_number-available s = elim (Bool-cases (prefers s)) [
  | inl e ↦ rw e (ground arith)
  | inr e ↦ rw e (elim (Bool-cases (not (is_empty s.member_priority))) [
    | inl o ↦
        rw o (first_available_is (available s) s.local_number s.member_priority (available_own s))
    | inr o ↦ rw o (
        least_from_is (available s) s.local_number s.peer_presence (available_own s)
          (available_key s))
  ])
]

pub least-le-available :
    (s : Swarm) (n : ℕ)
    → available s n ≡ true
    → least_from s.local_number (NatMap.keys s.peer_presence) ≤ n
least-le-available s n h =
    let (le, all) = least_from-le s.local_number s.peer_presence in
    elim (available_cases s n h) [ inl e ↦ omega arith | inr k ↦ all n k ]

module _ (a b : Swarm) (view : (n : ℕ) → available a n ≡ available b n) where
  least-agree :
      least_from a.local_number (NatMap.keys a.peer_presence)
      ≡ least_from b.local_number (NatMap.keys b.peer_presence)
  least-agree =
      let la = least_from a.local_number (NatMap.keys a.peer_presence) in
      let lb = least_from b.local_number (NatMap.keys b.peer_presence) in
      let ha : available a la ≡ true =
        least_from_is (available a) a.local_number a.peer_presence (available_own a)
          (available_key a) in
      let hb : available b lb ≡ true =
        least_from_is (available b) b.local_number b.peer_presence (available_own b)
          (available_key b) in
      omega (
        arith,
        least-le-available a lb (view lb ∙ hb),
        least-le-available b la (sym (view la) ∙ ha),
      )

  first-agree :
      (ns : List ℕ)
      → any (available a) ns ≡ true
      → first_available (available a) a.local_number ns
        ≡ first_available (available b) b.local_number ns
  first-agree ns h =
      rw (← fun_ext view) (first_available-default (available a) a.local_number b.local_number ns h)

  -- The vote without a preferred member.
  vote-agree :
      (ns : List ℕ)
      → (ns ≡ []) ⊎ (any (available a) ns ≡ true)
      → (if not (is_empty ns)
          then first_available (available a) a.local_number ns
          else least_from a.local_number (NatMap.keys a.peer_presence))
        ≡ (if not (is_empty ns)
            then first_available (available b) b.local_number ns
            else least_from b.local_number (NatMap.keys b.peer_presence))
  vote-agree [] h = least-agree
  vote-agree (n ∷ ns) (inl e) = cc
  vote-agree (n ∷ ns) (inr e) = first-agree (n ∷ ns) e

  -- Two UAVs with the same preference and the same ordered whitelist, which see the same members as
  -- available, elect the same one: with a whitelist if it names some available member, and in an open
  -- swarm always.
  pub selected_number-agree :
      a.preferred_number ≡ b.preferred_number
      → a.member_priority ≡ b.member_priority
      → (a.member_priority ≡ []) ⊎ (any (available a) a.member_priority ≡ true)
      → selected_number a ≡ selected_number b
  unfolding selected_number available
  selected_number-agree same_preference same_order reachable =
      rw (← same_preference, ← same_order, ← view a.preferred_number)
        (ap (λ v. if prefers a then a.preferred_number else v)
          (vote-agree a.member_priority reachable))
