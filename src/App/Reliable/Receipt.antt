-- ===== src/App/Reliable/Receipt.antt =====
-- The receipt of a data frame in src/app/service_node_mesh.cpp, from the receiver to the sender.
use mathlib.Core.Path.{subst}
use mrs_uav_bluetooth.Prelude.{
  ==_iff, ℕ, ◌<◌, ◌≡◌, refl, true, false, Option, none, some, List, ◌∷◌, arith,
}
use mrs_uav_bluetooth.Mesh.Swarm.Frame.{ReceivedMessage}
use mrs_uav_bluetooth.App.Reliable.{
  reliable_sequence, make_reliable_data, with_marker, ReliableTarget, ReliablePending, Reliable,
}
use mrs_uav_bluetooth.App.Reliable.Receive.{
  receipt_of, release_target, forgive_peer, matches_receipt, receive_receipt,
}
use mrs_uav_bluetooth.App.Reliable.Send.{awaited, has_channel_frame}
use mrs_uav_bluetooth.Prelude.NatMap

-- What the receiver of a copy queues comes back from it as a message.
abbrev pub receipt_from : ℕ → ℕ → List ℕ → ReceivedMessage
receipt_from peer key_index wire = record {
  source = peer;
  key_index = key_index;
  device_key = false;
  bytes =
      receipt_of (record { source = 0; key_index = key_index; device_key = false; bytes = wire });
}

release-awaited :
    (sequence peer : ℕ) (p : ReliablePending) (target : Option ReliableTarget) (r : Reliable)
    → NatMap.find sequence r.pending ≡ some p
    → NatMap.find peer p.awaiting ≡ target
    → NatMap.AscendsFrom 0 p.awaiting
    → awaited peer
        (NatMap.find sequence (forgive_peer peer (release_target sequence peer p target r)).pending)
      ≡ none
release-awaited sequence peer p none r found awaits up = rw (found, awaits) refl
release-awaited sequence peer p (some target) r found awaits up =
    let put =
      NatMap.find-assign sequence sequence (record p { awaiting = NatMap.erase peer p.awaiting })
        r.pending in
    let erased = NatMap.find-erase 0 peer peer p.awaiting up in
    rw (put, (==_iff sequence sequence).1 refl, erased, (==_iff peer peer).1 refl) refl

receipt-matches :
    (payload : List ℕ) (sequence swarm_id marker peer : ℕ) (p : ReliablePending)
    → has_channel_frame payload ≡ true
    → sequence < 65536
    → swarm_id < 65536
    → p.frame ≡ make_reliable_data payload sequence swarm_id
    → let m =
        receipt_from peer p.app_key_index
          (with_marker marker (make_reliable_data payload sequence swarm_id)) in
      (reliable_sequence m.bytes ≡ sequence) × (matches_receipt m p ≡ true)
unfolding make_reliable_data
receipt-matches (a ∷ b ∷ c ∷ d ∷ e ∷ f ∷ g ∷ h ∷ rest) sequence swarm_id marker peer p frame fits
      fits' sent =
    (omega arith, rw sent (ground arith))
receipt-matches payload sequence swarm_id marker peer p frame fits fits' sent = ground arith

released_by :
    (m : ReceivedMessage) (p : ReliablePending) (sequence : ℕ) (r : Reliable)
    → reliable_sequence m.bytes ≡ sequence
    → matches_receipt m p ≡ true
    → NatMap.find sequence r.pending ≡ some p
    → NatMap.AscendsFrom 0 p.awaiting
    → awaited m.source (NatMap.find sequence (receive_receipt m r).pending) ≡ none
unfolding receive_receipt
released_by m p sequence r read matches found up =
    let found' : NatMap.find (reliable_sequence m.bytes) r.pending ≡ some p = rw read found in
    subst (λ s. awaited m.source (NatMap.find s (receive_receipt m r).pending) ≡ none) read
      (rw (found', matches)
        (release-awaited (reliable_sequence m.bytes) m.source p (NatMap.find m.source p.awaiting) r
          found' refl up))

-- A receipt releases its sender: where a sample is pending with the frame that `make_reliable_data`
-- makes of it, the receipt that a peer makes of a copy of that frame leaves the peer not awaited.
pub receive_receipt-releases :
    (payload : List ℕ) (sequence swarm_id marker peer : ℕ) (p : ReliablePending) (r : Reliable)
    → has_channel_frame payload ≡ true
    → sequence < 65536
    → swarm_id < 65536
    → NatMap.find sequence r.pending ≡ some p
    → p.frame ≡ make_reliable_data payload sequence swarm_id
    → NatMap.AscendsFrom 0 p.awaiting
    → awaited peer (
        NatMap.find sequence
          (receive_receipt
            (receipt_from peer p.app_key_index
              (with_marker marker (make_reliable_data payload sequence swarm_id)))
            r).pending)
      ≡ none
receive_receipt-releases payload sequence swarm_id marker peer p r frame fits fits' found sent up =
    let m =
      receipt_from peer p.app_key_index
        (with_marker marker (make_reliable_data payload sequence swarm_id)) in
    let read = receipt-matches payload sequence swarm_id marker peer p frame fits fits' sent in
    released_by m p sequence r read.0 read.1 found up
