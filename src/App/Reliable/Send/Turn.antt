-- ===== src/App/Reliable/Send/Turn.antt =====
-- The turn of a reliable channel in src/app/service_node_mesh.cpp: the ring of the members, its
-- successors, and the copy that hands the turn over.
use mrs_uav_bluetooth.Prelude.{
  ◌==◌, any, ℕ, suc, ◌≤◌, ◌<◌, ◌≡◌, refl, sym, ◌∙◌, Bool, false, ◌||◌, List, [], ◌∷◌, arith,
}
use mrs_uav_bluetooth.App.Reliable.{insert_unique, sorted_unique, mesh_turn_members}
use mathlib.Core.Path.{subst}

abbrev pub has : ℕ → List ℕ → Bool
has k ns = any (λ n. n == k) ns

-- The numbers ascend strictly, from the bound on.
abbrev pub Ascends : ℕ → List ℕ → Type 0
Ascends bound [] = Unit {0}
Ascends bound (n ∷ ns) = (bound ≤ n) × Ascends (suc n) ns

insert_unique-Ascends :
    (bound n : ℕ) (ns : List ℕ) → bound ≤ n → Ascends bound ns → Ascends bound (insert_unique n ns)
insert_unique-Ascends bound n [] low up = (low, tt)
insert_unique-Ascends bound n (m ∷ ms) low up = ground (arith, insert_unique-Ascends (suc m) n ms)

pub sorted_unique-Ascends : (ns : List ℕ) → Ascends 0 (sorted_unique ns)
sorted_unique-Ascends [] = tt
sorted_unique-Ascends (n ∷ ns) =
    insert_unique-Ascends 0 n (sorted_unique ns) (omega arith) (sorted_unique-Ascends ns)

has-insert_unique : (k n : ℕ) (ns : List ℕ) → has k (insert_unique n ns) ≡ (n == k || has k ns)
has-insert_unique k n [] = refl
has-insert_unique k n (m ∷ ms) = ground (arith, has-insert_unique k n ms)

pub has-sorted_unique : (k : ℕ) (ns : List ℕ) → has k (sorted_unique ns) ≡ has k ns
has-sorted_unique k [] = refl
has-sorted_unique k (n ∷ ns) =
    rw (has-insert_unique k n (sorted_unique ns), has-sorted_unique k ns) refl

pub has_below : (k bound : ℕ) (ns : List ℕ) → k < bound → Ascends bound ns → has k ns ≡ false
has_below k bound [] low up = refl
has_below k bound (n ∷ ns) low up = ground (arith, has_below k (suc n) ns)

-- An ascending list is known from its elements.
Ascends-same :
    (bound : ℕ) (ns ms : List ℕ)
    → Ascends bound ns
    → Ascends bound ms
    → ((k : ℕ) → has k ns ≡ has k ms)
    → ns ≡ ms
Ascends-same bound [] [] up up' same = refl
Ascends-same bound [] (m ∷ ms) up up' same = let one = same m in ground arith
Ascends-same bound (n ∷ ns) [] up up' same = let one = same n in ground arith
Ascends-same bound (n ∷ ns) (m ∷ ms) up up' same =
    let low_n = has_below n (suc m) ms in
    let low_m = has_below m (suc n) ns in
    let at_n = same n in
    let at_m = same m in
    let heads : n ≡ m = ground arith in
    let up'' : Ascends (suc n) ms = subst (λ x. Ascends (suc x) ms) (sym heads) up'.1 in
    let tails = Ascends-same (suc n) ns ms up.1 up'' (λ k.
      let at_k = same k in
      let none_n = has_below k (suc n) ns in
      let none_m = has_below k (suc n) ms in ground (arith, heads)) in
    rw (heads, tails) refl

-- Two nodes whose views name the same addresses have the same ring, in whatever order and however
-- often their views list them.
pub mesh_turn_members-agree :
    (own own' : ℕ) (peers peers' : List ℕ)
    → ((k : ℕ) → has k (own ∷ peers) ≡ has k (own' ∷ peers'))
    → mesh_turn_members own peers ≡ mesh_turn_members own' peers'
unfolding mesh_turn_members
mesh_turn_members-agree own own' peers peers' same =
    Ascends-same 0 (sorted_unique (own ∷ peers)) (sorted_unique (own' ∷ peers'))
      (sorted_unique-Ascends (own ∷ peers)) (sorted_unique-Ascends (own' ∷ peers'))
      (λ k. has-sorted_unique k (own ∷ peers) ∙ same k ∙ sym (has-sorted_unique k (own' ∷ peers')))
