-- ===== src/App/Reliable/Fits/Sends.antt =====
-- Sending a sample (src/app/service_node_mesh.cpp) keeps the tables within their bounds.
use mrs_uav_bluetooth.Prelude.{
  ltb, if◌then◌else◌, get_or, ◌+◌, ◌%◌, leb, leb→le, if_cases, length, any, is_empty, ℕ, zero, suc,
  ◌≤◌, ◌<◌, ◌≡◌, refl, sym, Bool, true, false, not, ◌&&◌, Option, none, some, List, [], ◌∷◌, arith,
}
use mrs_uav_bluetooth.App.Reliable.{
  k_queue_retry_delay, peer_state, put_pending, k_max_pending_samples, make_reliable_data,
  sorted_unique, take_reset, channel_busy, ReliableTarget, ReliablePending, Reliable,
}
use mrs_uav_bluetooth.App.Reliable.Send.{
  mark_busy, oldest_from, evict, make_room, new_pending, defer_in, awaited, defer_target,
  after_admission, is_admitted, submit_all, restore_turn, consume_turn, transmit, send_turn,
  send_probed, has_channel_frame, send_reliable, send_by, send_mesh_bridge_payload_impl,
}
use mrs_uav_bluetooth.App.Reliable.Send.Choice.{
  touch_peer, bridge_channel, store_latest, side_ready, probe_from, choose_probe, add_probe,
  take_sequence, choose_turn, MeshSide, Admission, Sending, TurnChoice, handle_given, no_handle,
  send_raised, no_turn, not_permitted, holds_turn,
}
use mrs_uav_bluetooth.Prelude.NatMap.{NatMap}
use mrs_uav_bluetooth.Mesh.Swarm.{Swarm}
use mrs_uav_bluetooth.Mesh.Swarm.Presence.{swarm_member_addresses, swarm_probe_addresses}
use mrs_uav_bluetooth.Bridge.Transport.{SharedTopic}
use mrs_uav_bluetooth.App.Reliable.Fits.{
  put_pending-Fits, erase-Fits, put_new-Fits, remember_mesh_transfer-Fits, take_reset-Fits, Fits,
}
use mrs_uav_bluetooth.App.Reliable.Send.Sequence.{length-erase}
use mathlib.Core.Path.{subst}
use mrs_uav_bluetooth.Prelude.NatMap

oldest-contains :
    (key : ℕ) (p : ReliablePending) (rest : NatMap ReliablePending)
    → NatMap.contains (oldest_from key p rest).0 ((key, p) ∷ rest) ≡ true
oldest-contains key p [] = ground arith
oldest-contains key p ((k, q) ∷ rest) =
    let one = oldest-contains k q rest in let other = oldest-contains key p rest in ground arith

evict-room :
    (pending : NatMap ReliablePending) (r : Reliable)
    → r.pending ≡ pending
    → Fits r
    → k_max_pending_samples ≤ length pending
    → Fits (evict pending r) × (length (evict pending r).pending < k_max_pending_samples)
evict-room [] r same fits full = ground arith
evict-room ((key, p) ∷ rest) r same fits full =
    let oldest = oldest_from key p rest in
    let found =
      subst (λ m. NatMap.contains oldest.0 m ≡ true) (sym same) (oldest-contains key p rest) in
    let shorter = length-erase oldest.0 r.pending found in
    (erase-Fits oldest.0 r fits, omega (arith, fits.0.1))

make_room-room :
    (r : Reliable)
    → Fits r
    → Fits (make_room r) × (length (make_room r).pending < k_max_pending_samples)
unfolding make_room
make_room-room r fits =
    if_cases (λ (t : Reliable). Fits t × (length t.pending < k_max_pending_samples))
      (leb k_max_pending_samples (length r.pending))
      (λ full.
        evict-room r.pending r refl fits (leb→le k_max_pending_samples (length r.pending) full))
      (λ room. (fits, ground arith))

defer_in-Fits :
    (sequence destination : ℕ) (p : Option ReliablePending) (target : Option ReliableTarget)
    (retry_at : ℕ) (r : Reliable)
    → NatMap.find sequence r.pending ≡ p
    → Fits r
    → Fits (defer_in sequence destination p target retry_at r)
defer_in-Fits sequence destination none target retry_at r found fits = fits
defer_in-Fits sequence destination (some p) none retry_at r found fits = fits
defer_in-Fits sequence destination (some p) (some target) retry_at r found fits =
    put_pending-Fits sequence p _ r found fits

defer_target-Fits :
    (sequence destination retry_at : ℕ) (r : Reliable)
    → Fits r
    → Fits (defer_target sequence destination retry_at r)
defer_target-Fits sequence destination retry_at r fits =
    let p = NatMap.find sequence r.pending in
    defer_in-Fits sequence destination p (awaited destination p) retry_at r refl fits

after_admission-Fits :
    (sequence destination now : ℕ) (a : Admission) (r : Reliable)
    → Fits r
    → Fits (after_admission sequence destination now a r)
after_admission-Fits sequence destination now (handle_given h) r fits =
    remember_mesh_transfer-Fits sequence destination h now r fits
after_admission-Fits sequence destination now no_handle r fits =
    defer_target-Fits sequence destination (now + k_queue_retry_delay)
      (mark_busy destination (now + k_queue_retry_delay) r) fits
after_admission-Fits sequence destination now send_raised r fits =
    defer_target-Fits sequence destination (now + k_queue_retry_delay) r fits

submit_all-Fits :
    (answer : ℕ → Admission) (sequence : ℕ) (targets : List ℕ) (now : ℕ) (r : Reliable)
    → Fits r
    → Fits (submit_all answer sequence targets now r)
submit_all-Fits answer sequence [] now r fits = fits
submit_all-Fits answer sequence (d ∷ ds) now r fits =
    submit_all-Fits answer sequence ds now _ (after_admission-Fits sequence d now (answer d) r fits)

consume_turn-Fits :
    (consumes : Bool) (channel now : ℕ) (r : Reliable)
    → Fits r
    → Fits (consume_turn consumes channel now r)
consume_turn-Fits false channel now r fits = fits
consume_turn-Fits true channel now r fits = fits

restore_turn-Fits :
    (consumes : Bool) (channel : ℕ) (r : Reliable) → Fits r → Fits (restore_turn consumes channel r)
restore_turn-Fits false channel r fits = fits
restore_turn-Fits true channel r fits = fits

probe_from-Fits :
    (left : ℕ) (candidates : List ℕ) (cursor offset now : ℕ) (r : Reliable)
    → Fits r
    → Fits (probe_from left candidates cursor offset now r).1
probe_from-Fits zero candidates cursor offset now r fits = fits
probe_from-Fits (suc left) candidates cursor offset now r fits =
    let peer = get_or candidates ((cursor + offset) % length candidates) 0 in
    if_cases (λ (t : Option ℕ × Reliable). Fits t.1) (ltb now (peer_state peer r).retry_after)
      (λ _. probe_from-Fits left candidates cursor (suc offset) now (touch_peer peer r) fits)
      (λ _. fits)

choose_probe-Fits :
    (candidates : List ℕ) (now : ℕ) (r : Reliable) → Fits r → Fits (choose_probe candidates now r).1
unfolding choose_probe
choose_probe-Fits candidates now r fits =
    if_cases (λ (t : Option ℕ × Reliable). Fits t.1) (leb r.next_probe_at now)
      (λ _. probe_from-Fits (length candidates) candidates r.probe_cursor 0 now r fits) (λ _. fits)

choose_turn-Fits :
    (channel : ℕ) (peers addresses : List ℕ) (now : ℕ) (r : Reliable)
    → Fits r
    → Fits (choose_turn channel peers addresses now r).1
choose_turn-Fits channel [] addresses now r fits = fits
choose_turn-Fits channel (p ∷ ps) [] now r fits = fits
choose_turn-Fits channel (p ∷ ps) (own ∷ others) now r fits = fits

module _ (resumed : Bool) (b : SharedTopic) (payload : List ℕ) where
  store_latest-Fits : (r : Reliable) → Fits r → Fits (store_latest resumed b payload r)
  unfolding store_latest
  store_latest-Fits r fits =
      if_cases (λ (t : Reliable). Fits t) (resumed && NatMap.contains (bridge_channel b) r.latest)
        (λ _. fits) (λ _. fits)

  module _ (answer : ℕ → Admission) where
    transmit-Fits :
        (swarm_id : ℕ) (targets : List ℕ) (sequence : ℕ) (consumes : Bool) (next now : ℕ)
        (r : Reliable)
        → Fits r
        → Fits
            (transmit resumed b payload answer swarm_id targets sequence consumes next now r).state
    unfolding transmit
    transmit-Fits swarm_id targets sequence consumes next now r fits =
        let p = new_pending b (make_reliable_data payload sequence swarm_id) targets next now in
        let entered = put_pending sequence p (make_room r) in
        let used = consume_turn consumes (bridge_channel b) now entered in
        let sent = submit_all answer sequence targets now used in
        let dropped = record sent { pending = NatMap.erase sequence sent.pending } in
        let room = make_room-room r fits in
        let used_fits =
          consume_turn-Fits consumes (bridge_channel b) now entered
            (put_new-Fits sequence p (make_room r) room.1 room.0) in
        let sent_fits = submit_all-Fits answer sequence targets now used used_fits in
        if_cases (λ (t : Reliable). Fits t) (any (λ d. is_admitted (answer d)) targets)
          (λ _. sent_fits)
          (λ _.
            restore_turn-Fits consumes (bridge_channel b) (store_latest resumed b payload dropped)
              (store_latest-Fits dropped (erase-Fits sequence sent sent_fits)))

    send_turn-Fits :
        (swarm_id : ℕ) (targets : List ℕ) (sequence now : ℕ) (choice : TurnChoice) (r : Reliable)
        → Fits r
        → Fits (send_turn resumed b payload answer swarm_id targets sequence now (choice, r)).state
    send_turn-Fits swarm_id targets sequence now no_turn r fits =
        transmit-Fits swarm_id targets sequence false 0 now r fits
    send_turn-Fits swarm_id targets sequence now not_permitted r fits = store_latest-Fits r fits
    send_turn-Fits swarm_id targets sequence now (holds_turn next) r fits =
        transmit-Fits swarm_id targets sequence true next now r fits

    send_probed-Fits :
        (side : MeshSide) (s : Swarm) (peers : List ℕ) (now : ℕ) (probe : Option ℕ) (r : Reliable)
        → Fits r
        → Fits (send_probed resumed side b payload answer s peers now (probe, r)).state
    unfolding take_sequence
    send_probed-Fits side s peers now probe r fits =
        if_cases (λ (t : Sending). Fits t.state) (is_empty (sorted_unique (add_probe probe peers)))
          (λ _. store_latest-Fits r fits)
          (λ _.
            send_turn-Fits s.swarm_id (sorted_unique (add_probe probe peers)) (take_sequence r).0
              now (choose_turn (bridge_channel b) peers side.addresses now (take_sequence r).1).0
              (choose_turn (bridge_channel b) peers side.addresses now (take_sequence r).1).1
              (choose_turn-Fits (bridge_channel b) peers side.addresses now (take_sequence r).1
                fits))

    send_by-Fits :
        (side : MeshSide) (swarm : Option Swarm) (reliable : Bool) (now : ℕ) (r : Reliable)
        → Fits r
        → Fits (send_by resumed side b payload answer swarm reliable now r).state
    unfolding send_reliable
    send_by-Fits side none reliable now r fits = fits
    send_by-Fits side (some s) false now r fits = fits
    send_by-Fits side (some s) true now r fits =
        if_cases (λ (t : Sending). Fits t.state) (not (has_channel_frame payload)) (λ _. fits)
          (λ _.
            if_cases (λ (t : Sending). Fits t.state) (channel_busy (bridge_channel b) r.pending)
              (λ _. store_latest-Fits r fits)
              (λ _.
                send_probed-Fits side s (swarm_member_addresses now s) now
                  (choose_probe (swarm_probe_addresses now s) now r).0
                  (choose_probe (swarm_probe_addresses now s) now r).1
                  (choose_probe-Fits (swarm_probe_addresses now s) now r fits)))

    pub send_mesh_bridge_payload_impl-Fits :
        (side : MeshSide) (now : ℕ) (r : Reliable)
        → Fits r
        → Fits (send_mesh_bridge_payload_impl resumed side b payload answer now r).state
    unfolding send_mesh_bridge_payload_impl
    send_mesh_bridge_payload_impl-Fits side now r fits =
        let reset = take_reset side.reset_cancel_returns r in
        let reset_fits = take_reset-Fits side.reset_cancel_returns r fits in
        let now_newest =
          if resumed
          then reset
          else record reset { latest = NatMap.erase (bridge_channel b) reset.latest } in
        if_cases (λ (t : Sending). Fits t.state) (not side.enabled) (λ _. fits)
          (λ _.
            if_cases (λ (t : Sending). Fits t.state) (side_ready side)
              (λ _.
                if_cases (λ (t : Sending). Fits t.state)
                  (resumed && NatMap.contains (bridge_channel b) reset.latest) (λ _. reset_fits)
                  (λ _.
                    send_by-Fits side side.mesh_swarm_coordinator b.mesh_swarm_reliable now
                      now_newest
                      (if_cases (λ (t : Reliable). Fits t) resumed (λ _. reset_fits)
                        (λ _. reset_fits))))
              (λ _. store_latest-Fits reset reset_fits))
