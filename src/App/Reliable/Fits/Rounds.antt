-- ===== src/App/Reliable/Fits/Rounds.antt =====
-- Maintenance (src/app/service_node_mesh.cpp) keeps the tables within their bounds.
use mrs_uav_bluetooth.App.Reliable.Maintain.{
  finish_round, is_transfer, release_channel, finish_check, run_checks, gate_of, defer_sample,
  requeue_ack, after_message, send_item, send_items, resume_after, resume_samples,
  maintain_mesh_reliable, Gate, proceeds, waits, fails,
}
use mrs_uav_bluetooth.Prelude.NatMap.{NatMap}
use mrs_uav_bluetooth.Prelude.{
  ltb, leb, ◌==◌, if_cases, length, drop, length-drop, any, is_empty, ℕ, suc, ◌+◌, ◌*◌, ◌≤◌, ◌≡◌,
  refl, sym, ◌∙◌, Bool, true, false, ◌&&◌, ◌||◌, Option, none, some, List, [], ◌∷◌, arith,
}
use mrs_uav_bluetooth.Mesh.Swarm.{second}
use mrs_uav_bluetooth.App.Reliable.{
  k_max_queued_acks, k_queue_retry_delay, reliable_sequence, marker_of, is_data_marker, peer_state,
  handles_of, cancel_all, take_reset, flush_cancellations, SendHandle, ReliableTarget,
  ReliablePending, LatestSample, Reliable,
}
use mrs_uav_bluetooth.App.Reliable.Fits.{
  put_pending-Fits, remember_mesh_transfer-Fits, take_reset-Fits, Fits,
}
use mrs_uav_bluetooth.App.Reliable.Send.{awaited, mark_busy, send_mesh_bridge_payload_impl}
use mrs_uav_bluetooth.App.Reliable.Fits.Sends.{send_mesh_bridge_payload_impl-Fits}
use mrs_uav_bluetooth.App.Reliable.Maintain.Sweep.{
  backed_off, expire_targets, take_latest, check_due, plan_check, plan_message, k_max_outbound,
  plan_target, plan_targets, plan_entry, sweep_entry, keep_entry, sweep_pending, start_round, sweep,
  Outbound, TransferCheck, Round, MeshCalls, Maintained,
}
use mrs_uav_bluetooth.App.Reliable.Send.Choice.{
  MeshSide, Admission, handle_given, no_handle, send_raised,
}
use mathlib.Core.Path.{subst}
use mrs_uav_bluetooth.Prelude.NatMap

-- The sweep leaves the queued receipts of the round as they are.
abbrev SameAcks : Round → Round → Type 0
SameAcks a b = a.state.acks ≡ b.state.acks

expire_targets-acks :
    (targets : NatMap ReliableTarget) (now : ℕ) (r : Reliable)
    → (expire_targets targets now r).acks ≡ r.acks
expire_targets-acks [] now r = refl
expire_targets-acks ((peer, target) ∷ rest) now r = expire_targets-acks rest now (
    cancel_all (handles_of target.transfer)
      (record r { peers = NatMap.assign peer (backed_off now (peer_state peer r)) r.peers }))

plan_check-acks :
    (sequence peer : ℕ) (due : Bool) (handle : Option SendHandle) (now : ℕ)
    (target : ReliableTarget) (round : Round)
    → SameAcks (plan_check sequence peer due handle now target round).1 round
plan_check-acks sequence peer true (some h) now target round = refl
plan_check-acks sequence peer true none now target round = refl
plan_check-acks sequence peer false handle now target round = refl

plan_message-acks :
    (p : ReliablePending) (peer now : ℕ) (target : ReliableTarget) (round : Round)
    → SameAcks (plan_message p peer now (target, round)).1 round
plan_message-acks p peer now target round =
    if_cases (λ (t : ReliableTarget × Round). SameAcks t.1 round)
      (leb target.receipt_query_at now && ltb now target.retry_at) (λ _. refl)
      (λ _.
        if_cases (λ (t : ReliableTarget × Round). SameAcks t.1 round)
          (ltb now target.retry_at || leb 3 target.attempts || any (λ s. s == peer) round.scheduled)
          (λ _. refl)
          (λ _.
            if_cases (λ (t : ReliableTarget × Round). SameAcks t.1 round)
              (ltb now (peer_state peer round.state).retry_after) (λ _. refl) (λ _. refl)))

plan_target-acks :
    (sequence : ℕ) (p : ReliablePending) (peer now : ℕ) (target : ReliableTarget) (round : Round)
    → SameAcks (plan_target sequence p peer now target round).1 round
plan_target-acks sequence p peer now target round =
    let checked =
      plan_check sequence peer (check_due p target now) target.transfer now target round in
    if_cases (λ (t : ReliableTarget × Round). SameAcks t.1 round)
      (leb k_max_outbound (length round.outbound)) (λ _. refl)
      (λ _.
        plan_message-acks p peer now checked.0 checked.1
        ∙ plan_check-acks sequence peer (check_due p target now) target.transfer now target round)

plan_targets-acks :
    (sequence : ℕ) (p : ReliablePending) (targets : NatMap ReliableTarget) (now : ℕ) (round : Round)
    → SameAcks (plan_targets sequence p targets now round).1 round
plan_targets-acks sequence p [] now round = refl
plan_targets-acks sequence p ((peer, target) ∷ rest) now round =
    plan_targets-acks sequence p rest now (plan_target sequence p peer now target round).1
    ∙ plan_target-acks sequence p peer now target round

plan_entry-acks :
    (sequence now : ℕ) (round : Round) (p : ReliablePending) (latest : Option LatestSample)
    → SameAcks (plan_entry sequence now round (take_latest sequence p latest round.state)).1 round
plan_entry-acks sequence now round p none = plan_targets-acks sequence p p.awaiting now round
plan_entry-acks sequence now round p (some sample) =
    let taken = take_latest sequence p (some sample) round.state in
    plan_targets-acks sequence taken.0 p.awaiting now (record round { state = taken.1 })

sweep_entry-acks :
    (sequence : ℕ) (p : ReliablePending) (now : ℕ) (round : Round)
    → SameAcks (sweep_entry sequence p now round).1 round
unfolding sweep_entry
sweep_entry-acks sequence p now round =
    if_cases (λ (t : Option ReliablePending × Round). SameAcks t.1 round) (is_empty p.awaiting)
      (λ _. refl)
      (λ _.
        if_cases (λ (t : Option ReliablePending × Round). SameAcks t.1 round)
          (ltb (p.created + 30 * second) now) (λ _. expire_targets-acks p.awaiting now round.state)
          (λ _.
            plan_entry-acks sequence now round p (NatMap.find p.channel_key round.state.latest)))

-- What is kept of a map: its keys ascend, and there are no more.
keep_entry-AscendsFrom :
    (n k : ℕ) (o : Option ReliablePending) (m : NatMap ReliablePending)
    → n ≤ k
    → NatMap.AscendsFrom (suc k) m
    → NatMap.AscendsFrom n (keep_entry k o m)
keep_entry-AscendsFrom n k none m low up = NatMap.AscendsFrom-mono n (suc k) m (omega arith) up
keep_entry-AscendsFrom n k (some p) m low up = (low, up)

length-keep_entry :
    (k : ℕ) (o : Option ReliablePending) (m : NatMap ReliablePending)
    → length (keep_entry k o m) ≤ suc (length m)
length-keep_entry k none m = omega arith
length-keep_entry k (some p) m = omega arith

sweep_pending-kept :
    (n : ℕ) (m : NatMap ReliablePending) (now : ℕ) (round : Round)
    → NatMap.AscendsFrom n m
    → (NatMap.AscendsFrom n (sweep_pending m now round).0
        × (length (sweep_pending m now round).0 ≤ length m))
      × SameAcks (sweep_pending m now round).1 round
unfolding sweep_pending
sweep_pending-kept n [] now round up = ((tt, omega arith), refl)
sweep_pending-kept n ((k, p) ∷ rest) now round up =
    let first = sweep_entry k p now round in
    let others = sweep_pending rest now first.1 in
    let later = sweep_pending-kept (suc k) rest now first.1 up.1 in
    let grown = length-keep_entry k first.0 others.0 in
    (
      (keep_entry-AscendsFrom n k first.0 others.0 up.0 later.0.0, omega (arith, later.0.1)),
      later.1 ∙ sweep_entry-acks k p now round,
    )

sweep-Fits : (now : ℕ) (r : Reliable) → Fits r → Fits (sweep now r).1.state
unfolding sweep
sweep-Fits now r ((up, few), acks) =
    let kept = sweep_pending-kept 0 r.pending now (start_round now r) up in
    let fewer = length-drop 4 r.acks in
    let left : length (drop 4 r.acks) ≤ k_max_queued_acks = omega arith in
    (
      (kept.0.0, omega (arith, kept.0.1)),
      subst (λ xs. length xs ≤ k_max_queued_acks) (sym kept.1) left,
    )

release_channel-Fits :
    (check : TransferCheck) (p : Option ReliablePending) (target : Option ReliableTarget)
    (r : Reliable)
    → NatMap.find check.sequence r.pending ≡ p
    → Fits r
    → Fits (release_channel check p target r)
release_channel-Fits check none target r found fits = fits
release_channel-Fits check (some p) none r found fits = fits
release_channel-Fits check (some p) (some target) r found fits =
    if_cases (λ (t : Reliable). Fits t) (is_transfer check.handle target.transfer)
      (λ _. put_pending-Fits check.sequence p _ r found fits) (λ _. fits)

finish_check-Fits :
    (answer : Option Bool) (check : TransferCheck) (r : Reliable)
    → Fits r
    → Fits (finish_check answer check r)
finish_check-Fits none check r fits = fits
finish_check-Fits (some true) check r fits = fits
finish_check-Fits (some false) check r fits =
    let p = NatMap.find check.sequence r.pending in
    release_channel-Fits check p (awaited check.destination p) r refl fits

run_checks-Fits :
    (calls : MeshCalls) (checks : List TransferCheck) (r : Reliable)
    → Fits r
    → Fits (run_checks calls checks r)
run_checks-Fits calls [] r fits = fits
run_checks-Fits calls (c ∷ cs) r fits =
    run_checks-Fits calls cs (finish_check (calls.send_pending c.handle) c r)
      (finish_check-Fits (calls.send_pending c.handle) c r fits)

defer_sample-Fits :
    (sequence destination : ℕ) (p : Option ReliablePending) (target : Option ReliableTarget)
    (retry_at : ℕ) (r : Reliable)
    → NatMap.find sequence r.pending ≡ p
    → Fits r
    → Fits (defer_sample sequence destination p target retry_at r)
defer_sample-Fits sequence destination none target retry_at r found fits = fits
defer_sample-Fits sequence destination (some p) none retry_at r found fits = fits
defer_sample-Fits sequence destination (some p) (some target) retry_at r found fits =
    put_pending-Fits sequence p _ r found fits

requeue_ack-Fits : (item : Outbound) (r : Reliable) → Fits r → Fits (requeue_ack item r)
requeue_ack-Fits item r (pending, acks) =
    if_cases (λ (t : Reliable). Fits t)
      (item.acknowledgement && ltb (length r.acks) k_max_queued_acks)
      (λ room. (pending, ground arith)) (λ _. (pending, acks))

after_message-Fits :
    (a : Admission) (item : Outbound) (now : ℕ) (r : Reliable)
    → Fits r
    → Fits (after_message a item now r)
after_message-Fits (handle_given h) item now r fits =
    if_cases (λ (t : Reliable). Fits t) (is_data_marker (marker_of item.message.wire))
      (λ _.
        remember_mesh_transfer-Fits (reliable_sequence item.message.wire) item.message.destination h
          now r fits)
      (λ _. fits)
after_message-Fits no_handle item now r fits =
    let m = item.message in
    let p = NatMap.find (reliable_sequence m.wire) r.pending in
    defer_sample-Fits (reliable_sequence m.wire) m.destination p (awaited m.destination p)
      (now + k_queue_retry_delay) (mark_busy m.destination (now + k_queue_retry_delay) r) refl fits
after_message-Fits send_raised item now r fits = requeue_ack-Fits item r fits

send_item-Fits :
    (gate : Gate) (calls : MeshCalls) (item : Outbound) (now : ℕ) (m : Maintained)
    → Fits m.state
    → Fits (send_item gate calls item now m).state
send_item-Fits waits calls item now m fits = fits
send_item-Fits fails calls item now m fits = requeue_ack-Fits item m.state fits
send_item-Fits proceeds calls item now m fits =
    after_message-Fits (calls.try_send item.message) item now m.state fits

send_items-Fits :
    (calls : MeshCalls) (items : List Outbound) (now : ℕ) (m : Maintained)
    → Fits m.state
    → Fits (send_items calls items now m).state
send_items-Fits calls [] now m fits = fits
send_items-Fits calls (item ∷ items) now m fits =
    send_items-Fits calls items now (send_item (gate_of calls item) calls item now m)
      (send_item-Fits (gate_of calls item) calls item now m fits)

resume_samples-Fits :
    (side : MeshSide) (calls : MeshCalls) (samples : List LatestSample) (now : ℕ) (m : Maintained)
    → Fits m.state
    → Fits (resume_samples side calls samples now m).state
unfolding resume_samples
resume_samples-Fits side calls [] now m fits = fits
resume_samples-Fits side calls (s ∷ ss) now m fits =
    let sent =
      send_mesh_bridge_payload_impl true side s.bridge s.payload (calls.resume_send s.bridge) now
        m.state in
    resume_samples-Fits side calls ss now (resume_after sent m) (
      send_mesh_bridge_payload_impl-Fits true s.bridge s.payload (calls.resume_send s.bridge) side
        now m.state fits)

pub maintain_mesh_reliable-Fits :
    (side : MeshSide) (calls : MeshCalls) (now : ℕ) (r : Reliable)
    → Fits r
    → Fits (maintain_mesh_reliable side calls now r).state
unfolding maintain_mesh_reliable finish_round
maintain_mesh_reliable-Fits side calls now r fits =
    let swept = sweep now (take_reset side.reset_cancel_returns r) in
    let checked = run_checks calls swept.1.checks swept.1.state in
    let checked_fits = run_checks-Fits calls swept.1.checks swept.1.state (
      sweep-Fits now (take_reset side.reset_cancel_returns r)
        (take_reset-Fits side.reset_cancel_returns r fits)) in
    let begun : Maintained = record {
      submitted = [];
      state = flush_cancellations calls.cancel_returns checked;
    } in
    resume_samples-Fits side calls swept.0 now (send_items calls swept.1.outbound now begun)
      (send_items-Fits calls swept.1.outbound now begun checked_fits)
