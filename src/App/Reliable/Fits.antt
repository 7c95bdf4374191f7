-- ===== src/App/Reliable/Fits.antt =====
-- The bounded tables of src/app/service_node_mesh.cpp: what keeps the pending samples and the queued
-- receipts within their bounds, in the parts of the operations.
pub mod Sends
pub mod Rounds
pub mod Arrivals
use mrs_uav_bluetooth.Prelude.{
  Bool, leb, ◌==◌, if_cases, length, length-append, any, ℕ, suc, ◌≤◌, ◌<◌, ◌≡◌, refl, true, Option,
  none, some, [], ◌∷◌, arith,
}
use mrs_uav_bluetooth.Prelude.NatMap.{NatMap}
use mrs_uav_bluetooth.Mesh.Swarm.Frame.{ReceivedMessage}
use mrs_uav_bluetooth.App.Reliable.{
  k_max_pending_samples, k_max_queued_acks, put_pending, clear_reliable_state, take_reset,
  remember_target, remember_pending, remember_mesh_transfer, SendHandle, ReliableTarget,
  ReliablePending, Reliable,
}
use mrs_uav_bluetooth.App.Reliable.Receive.{receipt_of, same_ack, queue_ack}
use mrs_uav_bluetooth.Prelude.NatMap

-- The pending samples are a map of at most 32, and at most 128 receipts are queued.
abbrev pub Fits : Reliable → Type 0
Fits r =
    (NatMap.AscendsFrom 0 r.pending × (length r.pending ≤ k_max_pending_samples))
    × (length r.acks ≤ k_max_queued_acks)

module _ {ℓ} {V : Type ℓ} where
  length-assign : (k : ℕ) (v : V) (m : NatMap V) → length (NatMap.assign k v m) ≤ suc (length m)
  unfolding NatMap.assign
  length-assign k v [] = omega arith
  length-assign k v ((j, w) ∷ m) = ground (arith, length-assign k v m)

  length-assign_found :
      (n k : ℕ) (v : V) (m : NatMap V)
      → NatMap.AscendsFrom n m
      → NatMap.contains k m ≡ true
      → length (NatMap.assign k v m) ≡ length m
  unfolding NatMap.assign
  length-assign_found n k v [] up found = ground arith
  length-assign_found n k v ((j, w) ∷ m) up found =
      let below = NatMap.find_below (suc j) k m in
      ground (arith, length-assign_found (suc j) k v m, below)

  erase-AscendsFrom :
      (n k : ℕ) (m : NatMap V) → NatMap.AscendsFrom n m → NatMap.AscendsFrom n (NatMap.erase k m)
  erase-AscendsFrom n k [] up = tt
  erase-AscendsFrom n k ((j, w) ∷ m) up =
      ground (arith, erase-AscendsFrom (suc j) k m, NatMap.AscendsFrom-mono n (suc j) m)

  length-erase_at_most : (k : ℕ) (m : NatMap V) → length (NatMap.erase k m) ≤ length m
  length-erase_at_most k [] = omega arith
  length-erase_at_most k ((j, w) ∷ m) = ground (arith, length-erase_at_most k m)

pub put_pending-Fits :
    (k : ℕ) (p p' : ReliablePending) (r : Reliable)
    → NatMap.find k r.pending ≡ some p
    → Fits r
    → Fits (put_pending k p' r)
put_pending-Fits k p p' r found ((up, few), acks) =
    let same = length-assign_found 0 k p' r.pending up (rw found refl) in
    ((NatMap.assign-AscendsFrom 0 k p' r.pending (omega arith) up, omega arith), acks)

pub erase-Fits :
    (k : ℕ) (r : Reliable) → Fits r → Fits (record r { pending = NatMap.erase k r.pending })
erase-Fits k r ((up, few), acks) =
    let fewer = length-erase_at_most k r.pending in
    ((erase-AscendsFrom 0 k r.pending up, omega arith), acks)

pub put_new-Fits :
    (k : ℕ) (p : ReliablePending) (r : Reliable)
    → length r.pending < k_max_pending_samples
    → Fits r
    → Fits (put_pending k p r)
put_new-Fits k p r room ((up, few), acks) =
    let one = length-assign k p r.pending in
    ((NatMap.assign-AscendsFrom 0 k p r.pending (omega arith) up, omega arith), acks)

remember_target-Fits :
    (sequence destination : ℕ) (handle : SendHandle) (now : ℕ) (p : ReliablePending)
    (target : Option ReliableTarget) (r : Reliable)
    → NatMap.find sequence r.pending ≡ some p
    → Fits r
    → Fits (remember_target sequence destination handle now p target r)
remember_target-Fits sequence destination handle now p none r found fits =
    put_pending-Fits sequence p _ r found fits
remember_target-Fits sequence destination handle now p (some target) r found fits =
    put_pending-Fits sequence p _ r found fits

remember_pending-Fits :
    (sequence destination : ℕ) (handle : SendHandle) (now : ℕ) (found : Option ReliablePending)
    (r : Reliable)
    → NatMap.find sequence r.pending ≡ found
    → Fits r
    → Fits (remember_pending sequence destination handle now found r)
remember_pending-Fits sequence destination handle now none r e fits = fits
remember_pending-Fits sequence destination handle now (some p) r e fits =
    remember_target-Fits sequence destination handle now p (NatMap.find destination p.awaiting) r e
      fits

pub remember_mesh_transfer-Fits :
    (sequence destination : ℕ) (handle : SendHandle) (now : ℕ) (r : Reliable)
    → Fits r
    → Fits (remember_mesh_transfer sequence destination handle now r)
unfolding remember_mesh_transfer
remember_mesh_transfer-Fits sequence destination handle now r fits =
    if_cases (λ (t : Reliable). Fits t) (handle.transfer == 0) (λ _. fits)
      (λ _.
        remember_pending-Fits sequence destination handle now (NatMap.find sequence r.pending) r
          refl fits)

pub take_reset-Fits :
    (returns : SendHandle → Bool) (r : Reliable) → Fits r → Fits (take_reset returns r)
unfolding clear_reliable_state
take_reset-Fits returns r fits =
    if_cases (λ (t : Reliable). Fits t) r.reset_requested (λ _. ((tt, omega arith), omega arith))
      (λ _. fits)

pub queue_ack-Fits : (m : ReceivedMessage) (r : Reliable) → Fits r → Fits (queue_ack m r)
unfolding queue_ack
queue_ack-Fits m r fits =
    if_cases (λ (t : Reliable). Fits t) (leb k_max_queued_acks (length r.acks)) (λ _. fits)
      (λ room.
        if_cases (λ (t : Reliable). Fits t) (any (same_ack m) r.acks) (λ _. fits)
          (λ _. (
            fits.0,
            rw
                (length-append r.acks (
                  record {
                    destination = m.source;
                    app_key_index = m.key_index;
                    frame = receipt_of m;
                  }
                  ∷ []))
                (ground arith),
          )))
