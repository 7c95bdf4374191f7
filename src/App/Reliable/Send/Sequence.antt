-- ===== src/App/Reliable/Send/Sequence.antt =====
-- The sequence that `send_mesh_bridge_payload_impl` (src/app/service_node_mesh.cpp) takes: the loop finds
-- a free one.
use mrs_uav_bluetooth.Prelude.NatMap.{NatMap}
use mrs_uav_bluetooth.Prelude.{
  ◌==◌, Bool-cases, length, All, ℕ, zero, suc, ◌+◌, ◌%◌, ◌^◌, ◌≤◌, ◌<◌, ◌≡◌, refl, ap, ◌∙◌, ◌⊎◌,
  inl, inr, true, false, List, [], ◌∷◌, arith,
}
use mrs_uav_bluetooth.App.Reliable.{ReliablePending, Reliable}
use mrs_uav_bluetooth.App.Reliable.Send.Choice.{fresh_counter, take_sequence}
use mathlib.Core.Path.{subst}
use mrs_uav_bluetooth.Prelude.NatMap

module _ {ℓ} {V : Type ℓ} where
  contains-erase_other :
      (k j : ℕ) (m : NatMap V)
      → (k == j) ≡ false
      → NatMap.contains j (NatMap.erase k m) ≡ NatMap.contains j m
  contains-erase_other k j [] other = refl
  contains-erase_other k j ((i, v) ∷ m) other = ground (arith, contains-erase_other k j m other)

  pub length-erase :
      (k : ℕ) (m : NatMap V)
      → NatMap.contains k m ≡ true
      → suc (length (NatMap.erase k m)) ≡ length m
  length-erase k [] found = ground arith
  length-erase k ((i, v) ∷ m) found = ground (arith, length-erase k m)

  -- Different numbers, all of them keys.
  abbrev AllKeys : List ℕ → NatMap V → Type 0
  AllKeys ks m = All (λ k. NatMap.contains k m ≡ true) ks

  AllKeys-erase :
      (k : ℕ) (ks : List ℕ) (m : NatMap V)
      → All (λ j. (k == j) ≡ false) ks
      → AllKeys ks m
      → AllKeys ks (NatMap.erase k m)
  AllKeys-erase k [] m other found = tt
  AllKeys-erase k (j ∷ ks) m (other, others) (found, rest) =
      (contains-erase_other k j m other ∙ found, AllKeys-erase k ks m others rest)

abbrev AllDifferent : List ℕ → Type 0
AllDifferent [] = Unit {0}
AllDifferent (k ∷ ks) = All (λ j. (k == j) ≡ false) ks × AllDifferent ks

length-AllKeys {ℓ} :
    {V : Type ℓ} (ks : List ℕ) (m : NatMap V)
    → AllDifferent ks
    → AllKeys ks m
    → length ks ≤ length m
length-AllKeys [] m different found = omega arith
length-AllKeys (k ∷ ks) m (other, different) (found, rest) =
    let shorter =
      length-AllKeys ks (NatMap.erase k m) different (AllKeys-erase k ks m other rest) in
    let one = length-erase k m found in omega arith

-- The sequences of the counters behind one.
abbrev window : ℕ → ℕ → List ℕ
window zero counter = []
window (suc n) counter = (suc counter % 2 ^ 32) % 65536 ∷ window n (suc counter % 2 ^ 32)

window-other :
    (n k counter d : ℕ)
    → (k + d) % 65536 ≡ counter % 65536
    → d + n < 65536
    → All (λ j. (k % 65536 == j) ≡ false) (window n counter)
window-other zero k counter d at fits = tt
window-other (suc n) k counter d at fits =
    (ground arith, window-other n k (suc counter % 2 ^ 32) (suc d) (omega arith) (omega arith))

window-AllDifferent : (n counter : ℕ) → n < 65537 → AllDifferent (window n counter)
window-AllDifferent zero counter fits = tt
window-AllDifferent (suc n) counter fits = (
  window-other n (suc counter % 2 ^ 32) (suc counter % 2 ^ 32) 0 (omega arith) (omega arith),
  window-AllDifferent n (suc counter % 2 ^ 32) (omega arith),
)

length-window : (n counter : ℕ) → length (window n counter) ≡ n
length-window zero counter = refl
length-window (suc n) counter = ap suc (length-window n (suc counter % 2 ^ 32))

-- Either the loop has found a free sequence, or all it saw are keys.
fresh_or_keys :
    (fuel counter : ℕ) (pending : NatMap ReliablePending)
    → (NatMap.contains (fresh_counter fuel counter pending % 65536) pending ≡ false)
      ⊎ AllKeys (window fuel counter) pending
fresh_or_keys zero counter pending = inr tt
fresh_or_keys (suc fuel) counter pending =
    elim (Bool-cases (NatMap.contains (suc counter % 2 ^ 32 % 65536) pending)) [
      | inl e ↦ rw e (elim (fresh_or_keys fuel (suc counter % 2 ^ 32) pending) [
        | inl free ↦ inl free
        | inr found ↦ inr (refl, found)
      ])
      | inr e ↦ inl (rw e e)
    ]

-- The loop for a fresh sequence ends: one turn more than there are pending samples is enough for a
-- sequence of 16 bits that no pending sample has, where fewer than 65536 samples are pending.
pub take_sequence-free :
    (r : Reliable)
    → length r.pending < 65536
    → ((take_sequence r).0 < 65536)
      × (NatMap.contains (take_sequence r).0 (take_sequence r).1.pending ≡ false)
unfolding take_sequence
take_sequence-free r few = (
  omega arith,
  elim (fresh_or_keys (suc (length r.pending)) r.next_sequence r.pending) [
    | inl free ↦ free
    | inr found ↦
        let many =
          length-AllKeys (window (suc (length r.pending)) r.next_sequence) r.pending
            (window-AllDifferent (suc (length r.pending)) r.next_sequence (omega arith)) found in
        let size = length-window (suc (length r.pending)) r.next_sequence in
        let too_many : suc (length r.pending) ≤ length r.pending =
          subst (λ n. n ≤ length r.pending) size many in
        ground arith
  ],
)
