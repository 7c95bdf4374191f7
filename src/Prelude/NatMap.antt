-- ===== src/Prelude/NatMap.antt =====
-- std::map with an unsigned integer key: its entries in ascending order of the keys.
use mathlib.Core.Path.{subst, ◌≡◌, refl}
use mathlib.Core.Logic.{inl, inr}
use mrs_uav_bluetooth.Prelude.Tests.{==_iff, Bool-cases, ltb, ◌==◌, if◌then◌else◌, is_some}
use Prim.Native.Nat.{ℕ, suc, ◌≤◌, ◌<◌}
use mathlib.Core.Bool.{Bool}
use mathlib.Core.List.{List, [], ◌∷◌}
use mathlib.Core.Option.{Option, none, some}
use native.Mathlib.Omega.{arith}

abbrev pub NatMap {ℓ} : Type ℓ → Type ℓ
NatMap V = List (ℕ × V)

module _ {ℓ} {V : Type ℓ} where
  abbrev pub find : ℕ → NatMap V → Option V
  find k [] = none
  find k ((j, w) ∷ m) = if j == k then some w else find k m

  abbrev pub contains : ℕ → NatMap V → Bool
  contains k m = is_some (find k m)

  -- operator[] followed by an assignment.
  unfoldable pub assign : ℕ → V → NatMap V → NatMap V
  assign k v [] = (k, v) ∷ []
  assign k v ((j, w) ∷ m) =
      if ltb k j then (k, v) ∷ (j, w) ∷ m else if j == k then (k, v) ∷ m else (j, w) ∷ assign k v m

  -- The loop that erases the entries which do not pass a test.
  abbrev pub retain : (V → Bool) → NatMap V → NatMap V
  retain p [] = []
  retain p ((j, w) ∷ m) = if p w then (j, w) ∷ retain p m else retain p m

  abbrev pub keys : NatMap V → List ℕ
  keys [] = []
  keys ((j, w) ∷ m) = j ∷ keys m

  abbrev pub erase : ℕ → NatMap V → NatMap V
  erase k [] = []
  erase k ((j, w) ∷ m) = if j == k then m else (j, w) ∷ erase k m

  -- Every key is at least the bound, and the keys ascend strictly.
  abbrev pub AscendsFrom : ℕ → NatMap V → Type 0
  AscendsFrom n [] = Unit {0}
  AscendsFrom n ((j, w) ∷ m) = (n ≤ j) × AscendsFrom (suc j) m

  pub find-assign :
      (k j : ℕ) (v : V) (m : NatMap V)
      → find j (assign k v m) ≡ (if k == j then some v else find j m)
  unfolding assign
  find-assign k j v [] = refl
  find-assign k j v ((i, w) ∷ m) = ground (arith, find-assign k j v m)

  pub AscendsFrom-mono : (a b : ℕ) (m : NatMap V) → a ≤ b → AscendsFrom b m → AscendsFrom a m
  AscendsFrom-mono a b [] h s = tt
  AscendsFrom-mono a b ((j, w) ∷ m) h s = (omega arith, s.1)

  pub assign-AscendsFrom :
      (n k : ℕ) (v : V) (m : NatMap V) → n ≤ k → AscendsFrom n m → AscendsFrom n (assign k v m)
  unfolding assign
  assign-AscendsFrom n k v [] h s = (h, tt)
  assign-AscendsFrom n k v ((j, w) ∷ m) h s =
      ground (arith, assign-AscendsFrom (suc j) k v m, AscendsFrom-mono (suc k) (suc j) m)

  pub find_below : (n k : ℕ) (m : NatMap V) → k < n → AscendsFrom n m → find k m ≡ none
  find_below n k [] h s = refl
  find_below n k ((j, w) ∷ m) h s = ground (arith, find_below (suc j) k m)

  pub retain-AscendsFrom :
      (p : V → Bool) (n : ℕ) (m : NatMap V) → AscendsFrom n m → AscendsFrom n (retain p m)
  retain-AscendsFrom p n [] s = tt
  retain-AscendsFrom p n ((j, w) ∷ m) s =
      ground (arith, retain-AscendsFrom p (suc j) m s.1, AscendsFrom-mono n (suc j) (retain p m))

  abbrev pub keep_if : (V → Bool) → Option V → Option V
  keep_if p none = none
  keep_if p (some v) = if p v then some v else none

  -- Erasing keeps exactly the entries that pass.
  pub find-retain :
      (p : V → Bool) (n k : ℕ) (m : NatMap V)
      → AscendsFrom n m
      → find k (retain p m) ≡ keep_if p (find k m)
  find-retain p n k [] s = refl
  find-retain p n k ((j, w) ∷ m) s = ground (
    arith,
    find-retain p (suc j) k m s.1,
    find_below (suc j) k (retain p m),
    retain-AscendsFrom p (suc j) m s.1,
  )

  -- Each entry has the property.
  abbrev pub AllEntries {κ} : (ℕ → V → Type κ) → NatMap V → Type κ
  AllEntries P [] = Unit {κ}
  AllEntries P ((j, w) ∷ m) = P j w × AllEntries P m

  pub assign-AllEntries {κ} :
      (P : ℕ → V → Type κ) (k : ℕ) (v : V) (m : NatMap V)
      → P k v
      → AllEntries P m
      → AllEntries P (assign k v m)
  unfolding assign
  assign-AllEntries P k v [] p h = (p, tt)
  assign-AllEntries P k v ((j, w) ∷ m) p h = elim (Bool-cases (ltb k j)) [
    | inl e ↦ rw e (p, h)
    | inr e ↦ rw e (elim (Bool-cases (j == k)) [
      | inl e' ↦ rw e' (p, h.1)
      | inr e' ↦ rw e' (h.0, assign-AllEntries P k v m p h.1)
    ])
  ]

  pub retain-AllEntries {κ} :
      (P : ℕ → V → Type κ) (p : V → Bool) (m : NatMap V)
      → AllEntries P m
      → AllEntries P (retain p m)
  retain-AllEntries P p [] h = tt
  retain-AllEntries P p ((j, w) ∷ m) h = elim (Bool-cases (p w)) [
    | inl e ↦ rw e (h.0, retain-AllEntries P p m h.1)
    | inr e ↦ rw e (retain-AllEntries P p m h.1)
  ]

  -- What every entry has is so of what a search finds.
  pub find-AllEntries {κ} :
      (P : ℕ → V → Type κ) (k : ℕ) (m : NatMap V) {v : V}
      → AllEntries P m
      → find k m ≡ some v
      → P k v
  find-AllEntries P k [] h e = cc
  find-AllEntries P k ((j, w) ∷ m) {v} h e = elim (Bool-cases (j == k)) [
    | inl e' ↦
        let same : j ≡ k = (==_iff j k).0 e' in
        let value : w ≡ v = ground arith in subst (λ x. P x v) same (subst (λ x. P j x) value h.0)
    | inr e' ↦ find-AllEntries P k m h.1 (rw e' at e)
  ]

  pub find-erase :
      (n k j : ℕ) (m : NatMap V)
      → AscendsFrom n m
      → find j (erase k m) ≡ (if k == j then none else find j m)
  find-erase n k j [] s = ground arith
  find-erase n k j ((i, w) ∷ m) s =
      ground (arith, find-erase (suc i) k j m s.1, find_below (suc i) j m, find_below (suc i) k m)
