-- ===== src/App/Reliable/Maintain/Sweep.antt =====
-- The part of `maintain_mesh_reliable` (src/app/service_node_mesh.cpp) under the lock: the tables are
-- swept, and the messages of the round planned.
use mrs_uav_bluetooth.App.Reliable.Send.{turn_marker}
use mrs_uav_bluetooth.App.Reliable.Send.Choice.{touch_peer, Admission, Submission}
use mrs_uav_bluetooth.Prelude.NatMap.{NatMap}
use mrs_uav_bluetooth.Prelude.{
  ltb, leb, ◌==◌, if◌then◌else◌, length, take, drop, any, select, is_empty, ℕ, suc, ◌+◌, ◌*◌, min,
  Bool, true, false, ◌&&◌, ◌||◌, Option, none, some, List, [], ◌∷◌, ◌++◌, map,
}
use mrs_uav_bluetooth.Bridge.Transport.{SharedTopic}
use mrs_uav_bluetooth.App.Reliable.{
  milliseconds, k_reliable_receipt_query, k_reliable_ack_header_bytes, k_receipt_query_period,
  reliable_swarm_id, make_reliable_data, with_marker, peer_state, handles_of, cancel_all,
  channel_busy, SendHandle, ReliableTarget, ReliablePending, SeenEntry, ReliableAck, ReliablePeer,
  LatestSample, Reliable,
}
use mrs_uav_bluetooth.Mesh.Swarm.{second}
use mrs_uav_bluetooth.Prelude.NatMap

pub record Outbound : Type 0 where
  pub message : Submission
  pub acknowledgement : Bool
  pub transfer : Option SendHandle

pub record TransferCheck : Type 0 where
  pub sequence : ℕ
  pub destination : ℕ
  pub handle : SendHandle

-- A round as the sweep makes it. `scheduled` holds the peers that get a repair.
pub record Round : Type 0 where
  pub state : Reliable
  pub outbound : List Outbound
  pub checks : List TransferCheck
  pub scheduled : List ℕ

-- What the round asks of `mesh_app_`: whether a transfer goes on, where that call returns; which
-- cancellations return behind the checks; and what becomes of its messages and of the resumed samples' copies.
pub record MeshCalls : Type 0 where
  pub send_pending : SendHandle → Option Bool
  pub cancel_returns : SendHandle → Bool
  pub try_send : Submission → Admission
  pub resume_send : SharedTopic → ℕ → Admission

pub record Maintained : Type 0 where
  pub submitted : List Submission
  pub state : Reliable

abbrev purge_seen : ℕ → List SeenEntry → List SeenEntry
purge_seen now seen = select (λ e. leb now (e.last + 90 * second)) seen

abbrev ack_message : ReliableAck → Outbound
ack_message ack = record {
  message = record {
    element_index = 0;
    destination = ack.destination;
    app_key_index = ack.app_key_index;
    force_segmented = false;
    wire = ack.frame;
  };
  acknowledgement = true;
  transfer = none;
}

abbrev k_max_expiries : ℕ
k_max_expiries = 6

-- A peer that let a sample expire waits longer each time.
abbrev pub backed_off : ℕ → ReliablePeer → ReliablePeer
backed_off now peer =
    let expiries = min (suc peer.consecutive_expiries) k_max_expiries in
    record peer {
      consecutive_expiries = expiries;
      retry_after = now + min (5 * expiries) 30 * second;
    }

abbrev pub expire_targets : NatMap ReliableTarget → ℕ → Reliable → Reliable
expire_targets [] now r = r
expire_targets ((peer, target) ∷ rest) now r = expire_targets rest now (
    cancel_all (handles_of target.transfer)
      (record r { peers = NatMap.assign peer (backed_off now (peer_state peer r)) r.peers }))

-- An outstanding frame takes on the newest sample of its channel.
abbrev pub take_latest :
    ℕ → ReliablePending → Option LatestSample → Reliable → ReliablePending × Reliable
take_latest sequence p none r = (p, r)
take_latest sequence p (some sample) r = (
  record p { frame = make_reliable_data sample.payload sequence (reliable_swarm_id p.frame) },
  record r { latest = NatMap.erase p.channel_key r.latest },
)

abbrev to_peer : ReliablePending → ℕ → Bool → List ℕ → Option SendHandle → Outbound
to_peer p peer segmented wire transfer = record {
  message = record {
    element_index = p.element_index;
    destination = peer;
    app_key_index = p.app_key_index;
    force_segmented = segmented;
    wire = wire;
  };
  acknowledgement = false;
  transfer = transfer;
}

abbrev pub check_due : ReliablePending → ReliableTarget → ℕ → Bool
check_due p target now = p.native_completion_releases_channel && leb target.transfer_check_at now

abbrev pub plan_check :
    ℕ → ℕ → Bool → Option SendHandle → ℕ → ReliableTarget → Round → ReliableTarget × Round
plan_check sequence peer true (some h) now target round = (
  record target { transfer_check_at = now + 100 * milliseconds },
  record round {
    checks = round.checks ++ record { sequence = sequence; destination = peer; handle = h } ∷ [];
  },
)
plan_check sequence peer due handle now target round = (target, round)

abbrev push : Outbound → Round → Round
push item round = record round { outbound = round.outbound ++ item ∷ [] }

abbrev query_for : ReliablePending → List ℕ
query_for p = with_marker k_reliable_receipt_query (take k_reliable_ack_header_bytes p.frame)

abbrev plan_query : ReliablePending → ℕ → ℕ → ReliableTarget → Round → ReliableTarget × Round
plan_query p peer now target round = (
  record target { receipt_query_at = now + k_receipt_query_period },
  push (to_peer p peer false (query_for p) target.transfer) round,
)

abbrev plan_repair : ReliablePending → ℕ → ℕ → ReliableTarget → Round → ReliableTarget × Round
plan_repair p peer now target round = (
  record target {
    attempts = suc target.attempts;
    receipt_query_at = now + k_receipt_query_period;
    retry_at = now + 4 * (suc target.attempts + 1) * second;
  },
  push
      (to_peer p peer p.force_segmented (with_marker (turn_marker peer p.turn_successor) p.frame)
        none)
      (record round { scheduled = peer ∷ round.scheduled }),
)

abbrev plan_if_open : ReliablePending → ℕ → ℕ → ReliableTarget → Round → ReliableTarget × Round
plan_if_open p peer now target round =
    let touched = record round { state = touch_peer peer round.state } in
    if ltb now (peer_state peer round.state).retry_after
    then (target, touched)
    else plan_repair p peer now target touched

abbrev pub plan_message : ReliablePending → ℕ → ℕ → ReliableTarget × Round → ReliableTarget × Round
plan_message p peer now (target, round) =
    if leb target.receipt_query_at now && ltb now target.retry_at
    then plan_query p peer now target round
    else if ltb now target.retry_at || leb 3 target.attempts || any (λ s. s == peer) round.scheduled
    then (target, round)
    else plan_if_open p peer now target round

abbrev pub k_max_outbound : ℕ
k_max_outbound = 6

abbrev pub plan_target :
    ℕ → ReliablePending → ℕ → ℕ → ReliableTarget → Round → ReliableTarget × Round
plan_target sequence p peer now target round =
    if leb k_max_outbound (length round.outbound)
    then (target, round)
    else plan_message p peer now
        (plan_check sequence peer (check_due p target now) target.transfer now target round)

abbrev pub plan_targets :
    ℕ → ReliablePending → NatMap ReliableTarget → ℕ → Round → NatMap ReliableTarget × Round
plan_targets sequence p [] now round = ([], round)
plan_targets sequence p ((peer, target) ∷ rest) now round =
    let first = plan_target sequence p peer now target round in
    let others = plan_targets sequence p rest now first.1 in ((peer, first.0) ∷ others.0, others.1)

abbrev pub plan_entry : ℕ → ℕ → Round → ReliablePending × Reliable → Option ReliablePending × Round
plan_entry sequence now round (p, r) =
    let planned = plan_targets sequence p p.awaiting now (record round { state = r }) in
    (some (record p { awaiting = planned.0 }), planned.1)

-- One pending entry: what is kept of it.
unfoldable pub sweep_entry : ℕ → ReliablePending → ℕ → Round → Option ReliablePending × Round
unfolding make_reliable_data
sweep_entry sequence p now round =
    if is_empty p.awaiting
    then (none, record round { state = cancel_all (handles_of p.primary_transfer) round.state })
    else if ltb (p.created + 30 * second) now
    then (
      none,
      record round {
        state =
            cancel_all (handles_of p.primary_transfer) (expire_targets p.awaiting now round.state);
      },
    )
    else plan_entry sequence now round
        (take_latest sequence p (NatMap.find p.channel_key round.state.latest) round.state)

abbrev pub keep_entry : ℕ → Option ReliablePending → NatMap ReliablePending → NatMap ReliablePending
keep_entry sequence none rest = rest
keep_entry sequence (some p) rest = (sequence, p) ∷ rest

unfoldable pub sweep_pending : NatMap ReliablePending → ℕ → Round → NatMap ReliablePending × Round
unfolding sweep_entry
sweep_pending [] now round = ([], round)
sweep_pending ((sequence, p) ∷ rest) now round =
    let first = sweep_entry sequence p now round in
    let others = sweep_pending rest now first.1 in (keep_entry sequence first.0 others.0, others.1)

-- The channels that wait for nothing hand over their samples.
abbrev ready_samples : NatMap ReliablePending → NatMap LatestSample → List LatestSample
ready_samples pending [] = []
ready_samples pending ((channel, sample) ∷ rest) =
    let others = ready_samples pending rest in
    if channel_busy channel pending then others else sample ∷ others

abbrev held_samples : NatMap ReliablePending → NatMap LatestSample → NatMap LatestSample
held_samples pending [] = []
held_samples pending ((channel, sample) ∷ rest) =
    let others = held_samples pending rest in
    if channel_busy channel pending then (channel, sample) ∷ others else others

abbrev pub start_round : ℕ → Reliable → Round
start_round now r = record {
  state = record r { seen = purge_seen now r.seen; acks = drop 4 r.acks };
  outbound = map ack_message (take 4 r.acks);
  checks = [];
  scheduled = [];
}

abbrev end_sweep : NatMap ReliablePending × Round → List LatestSample × Round
end_sweep (pending, round) = (
  ready_samples pending round.state.latest,
  record round {
    state = record round.state {
      pending = pending;
      latest = held_samples pending round.state.latest;
    };
  },
)

-- The part under the lock: the samples to resume, and the round.
unfoldable pub sweep : ℕ → Reliable → List LatestSample × Round
unfolding sweep_entry sweep_pending
sweep now r = end_sweep (sweep_pending r.pending now (start_round now r))
