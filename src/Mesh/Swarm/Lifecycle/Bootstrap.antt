-- ===== src/Mesh/Swarm/Lifecycle/Bootstrap.antt =====
-- Who creates a network, and when.
use mrs_uav_bluetooth.Prelude.{
  is_empty, false, ◌==◌, if◌then◌else◌, Bool-cases, get_or, suc, ◌≤◌, refl, sym, ap, ◌∙◌, ◌≢◌, ◌⊎◌,
  inl, inr, Option, none, length, ℕ, ◌+◌, ◌-◌, ◌%◌, ◌<◌, ◌≡◌, some, List, [], ◌∷◌, arith,
}
use mathlib.Core.Path.{subst}
use mrs_uav_bluetooth.Mesh.Swarm.{k_per_priority_join_window, Swarm}
use mrs_uav_bluetooth.Mesh.Swarm.Lifecycle.{bootstrap_priority, create_after, index_of}
use mathlib.Core.Option

map-suc : (o : Option ℕ) (i : ℕ) → Option.map suc o ≡ some i → (j : ℕ) × (o ≡ some j) × (i ≡ suc j)
map-suc none i e = cc
map-suc (some j) i e = (j, refl, ground arith)

index_of-bound : (n : ℕ) (ns : List ℕ) (i : ℕ) → index_of n ns ≡ some i → i < length ns
index_of-bound n [] i e = cc
index_of-bound n (m ∷ ns) i e = elim (Bool-cases (m == n)) [
  | inl h ↦ let z : some 0 ≡ some i = rw h at e in ground arith
  | inr h ↦
      let (j, at_j, same) = map-suc (index_of n ns) i (rw h at e) in
      omega (arith, index_of-bound n ns j at_j)
]

index_of-element : (n : ℕ) (ns : List ℕ) (i : ℕ) → index_of n ns ≡ some i → get_or ns i 0 ≡ n
index_of-element n [] i e = cc
index_of-element n (m ∷ ns) i e = elim (Bool-cases (m == n)) [
  | inl h ↦ let z : some 0 ≡ some i = rw h at e in ground arith
  | inr h ↦
      let (j, at_j, same) = map-suc (index_of n ns) i (rw h at e) in
      rw same (index_of-element n ns j at_j)
]

index_of-injective :
    (m n : ℕ) (ns : List ℕ) (i j : ℕ)
    → index_of m ns ≡ some i
    → index_of n ns ≡ some j
    → i ≡ j
    → m ≡ n
index_of-injective m n ns i j e f same =
    sym (index_of-element m ns i e) ∙ ap (λ k. get_or ns k 0) same ∙ index_of-element n ns j f

turn-injective :
    (size first a b : ℕ)
    → first < size
    → a < size
    → b < size
    → (a + size - first) % size ≡ (b + size - first) % size
    → a ≡ b
turn-injective size first a b p q r e = grind arith

-- A candidate of the whitelist under a preference that the whitelist names, if it names any.
pub record IsCandidate (s : Swarm) (first own : ℕ) : Type 0 where
  pub first_at :
      (if s.preferred_number == 0 then some 0 else index_of s.preferred_number s.member_priority)
      ≡ some first
  pub first_within : first < length s.member_priority
  pub own_at : index_of s.local_number s.member_priority ≡ some own

nonempty : (n i : ℕ) (ns : List ℕ) → index_of n ns ≡ some i → is_empty ns ≡ false
nonempty n i [] e = cc
nonempty n i (m ∷ ns) e = refl

priority_of :
    (s : Swarm) (first own : ℕ)
    → IsCandidate s first own
    → bootstrap_priority s ≡ (own + length s.member_priority - first) % length s.member_priority
unfolding bootstrap_priority
priority_of s first own c =
    rw (nonempty s.local_number own s.member_priority c.own_at, c.first_at, c.own_at)

module _ (a b : Swarm) (first i j : ℕ) (ca : IsCandidate a first i) (cb : IsCandidate b first j)
    (same_order : a.member_priority ≡ b.member_priority) where
  priorities_differ : a.local_number ≢ b.local_number → bootstrap_priority a ≢ bootstrap_priority b
  priorities_differ different e =
      let size = length b.member_priority in
      let same_size : length a.member_priority ≡ size = ap length same_order in
      let own_a : index_of a.local_number b.member_priority ≡ some i =
        subst (λ ns. index_of a.local_number ns ≡ some i) same_order ca.own_at in
      different (
        index_of-injective a.local_number b.local_number b.member_priority i j own_a cb.own_at (
          turn-injective size first i j cb.first_within
            (index_of-bound a.local_number b.member_priority i own_a)
            (index_of-bound b.local_number b.member_priority j cb.own_at)
            (ap (λ n. (i + n - first) % n) (sym same_size)
              ∙ sym (priority_of a first i ca)
              ∙ e
              ∙ priority_of b first j cb)))

  -- Two UAVs of one whitelist, in which the preferred member stands too if there is one, with the same
  -- preference and the same startup grace but different numbers, wait different times, each from its own
  -- start, before they create a network: the two delays differ by at least one join window.
  pub create_after_staggered :
      a.config.startup_grace ≡ b.config.startup_grace
      → a.local_number ≢ b.local_number
      → (create_after a + k_per_priority_join_window ≤ create_after b)
        ⊎ (create_after b + k_per_priority_join_window ≤ create_after a)
  unfolding create_after
  create_after_staggered same_grace different =
      let apart = priorities_differ different in omega arith
