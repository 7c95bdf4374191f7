-- ===== src/App/Reliable/Send/Choice.antt =====
-- What `send_mesh_bridge_payload_impl` (src/app/service_node_mesh.cpp) decides before it sends: whether
-- the node is ready, the probe, the sequence, and the turn of the channel.
use mrs_uav_bluetooth.Prelude.NatMap.{NatMap}
use mrs_uav_bluetooth.Prelude.{
  ltb, leb, ◌==◌, if◌then◌else◌, length, get_or, ℕ, zero, suc, ◌+◌, ◌*◌, ◌%◌, ◌^◌, Bool, true,
  false, not, ◌&&◌, ◌||◌, Option, none, some, List, [], ◌∷◌, ◌++◌,
}
use mrs_uav_bluetooth.Bridge.Transport.{SharedTopic}
use mrs_uav_bluetooth.App.Reliable.{
  k_turn_recovery, channel_key_of, mesh_turn_members, peer_state, SendHandle, ReliablePending,
  ReliableTurn, Reliable,
}
use mrs_uav_bluetooth.Mesh.Swarm.{second, Swarm}
use mathlib.Core.Option
use mrs_uav_bluetooth.Prelude.NatMap

-- The parts of `mesh_app_->status()` and of the node that the operation reads, and which cancellations
-- return where a reset is due.
pub record MeshSide : Type 0 where
  pub enabled : Bool
  pub attached : Bool
  pub addresses : List ℕ
  pub auto_configure_relay : Bool
  pub radio_configured : Bool
  pub mesh_swarm_coordinator : Option Swarm
  pub reset_cancel_returns : SendHandle → Bool

-- What `try_send` does with a copy: a handle, no handle, or an exception.
pub data Admission : Type 0 where
  handle_given : SendHandle → Admission
  no_handle : Admission
  send_raised : Admission

-- A message given to `mesh_app_`.
pub record Submission : Type 0 where
  pub element_index : ℕ
  pub destination : ℕ
  pub app_key_index : ℕ
  pub force_segmented : Bool
  pub wire : List ℕ

pub data SendResult : Type 0 where
  completed : SendResult
  mesh_disabled : SendResult
  no_channel_frame : SendResult

pub record Sending : Type 0 where
  pub result : SendResult
  pub submitted : List Submission
  pub state : Reliable

abbrev pub nothing_sent : Reliable → Sending
nothing_sent r = record { result = completed; submitted = []; state = r }

abbrev pub bridge_channel : SharedTopic → ℕ
bridge_channel b = channel_key_of b.mesh_element_index b.mesh_app_key_index b.channel_id

-- The lambda `store_latest_locked`.
unfoldable pub store_latest : Bool → SharedTopic → List ℕ → Reliable → Reliable
store_latest resumed b payload r =
    if resumed && NatMap.contains (bridge_channel b) r.latest then r else record r {
      latest = NatMap.assign (bridge_channel b) (record { bridge = b; payload = payload }) r.latest;
    }

abbrev swarm_ready : Option Swarm → Bool
swarm_ready none = true
swarm_ready (some s) = s.swarm_participating && s.application_ready

abbrev pub side_ready : MeshSide → Bool
side_ready side =
    side.attached
    && (not side.auto_configure_relay || side.radio_configured)
    && swarm_ready side.mesh_swarm_coordinator

-- `mesh_reliable_peers_[peer]` read: a missing entry is made.
abbrev pub touch_peer : ℕ → Reliable → Reliable
touch_peer peer r = record r { peers = NatMap.assign peer (peer_state peer r) r.peers }

-- The loop over the probe candidates, with what is left of them.
abbrev pub probe_from : ℕ → List ℕ → ℕ → ℕ → ℕ → Reliable → Option ℕ × Reliable
probe_from zero candidates cursor offset now r = (none, r)
probe_from (suc left) candidates cursor offset now r =
    let index = (cursor + offset) % length candidates in
    let peer = get_or candidates index 0 in
    let rest = probe_from left candidates cursor (suc offset) now (touch_peer peer r) in
    if ltb now (peer_state peer r).retry_after then rest else (
      some peer,
      record (touch_peer peer r) { probe_cursor = suc index; next_probe_at = now + 10 * second },
    )

unfoldable pub choose_probe : List ℕ → ℕ → Reliable → Option ℕ × Reliable
choose_probe candidates now r =
    if leb r.next_probe_at now
    then probe_from (length candidates) candidates r.probe_cursor 0 now r
    else (none, r)

abbrev pub add_probe : Option ℕ → List ℕ → List ℕ
add_probe none targets = targets
add_probe (some peer) targets = targets ++ peer ∷ []

-- `++mesh_reliable_next_sequence_` until the sequence is free, on fuel. A counter of 32 bits.
abbrev pub fresh_counter : ℕ → ℕ → NatMap ReliablePending → ℕ
fresh_counter zero counter pending = counter
fresh_counter (suc fuel) counter pending =
    let next = suc counter % 2 ^ 32 in
    let rest = fresh_counter fuel next pending in
    if NatMap.contains (next % 65536) pending then rest else next

unfoldable pub take_sequence : Reliable → ℕ × Reliable
take_sequence r =
    let counter = fresh_counter (suc (length r.pending)) r.next_sequence r.pending in
    (counter % 65536, record r { next_sequence = counter })

abbrev k_reset_turn : ReliableTurn
k_reset_turn = record { members = []; initialized = false; permitted = false; reclaim_at = 0 }

abbrev pub turn_at : ℕ → Reliable → ReliableTurn
turn_at channel r = Option.get_or (NatMap.find channel r.turns) k_reset_turn

abbrev pub put_turn : ℕ → ReliableTurn → Reliable → Reliable
put_turn channel t r = record r { turns = NatMap.assign channel t r.turns }

abbrev recover_turn : ℕ → ℕ → ReliableTurn → ReliableTurn
recover_turn own now t =
    if not t.permitted && get_or t.members 0 0 == own && leb t.reclaim_at now
    then record t { permitted = true }
    else t

-- The turn as the members are now: the first of them holds a new one.
unfoldable pub refresh_turn : ℕ → List ℕ → ℕ → ReliableTurn → ReliableTurn
refresh_turn own members now t = recover_turn own now (
    if t.initialized then record t { members = members } else record {
      members = members;
      initialized = true;
      permitted = get_or members 0 0 == own;
      reclaim_at = now + k_turn_recovery;
    })

-- The member behind one's own place, the first behind the last.
abbrev pub next_after : ℕ → ℕ → List ℕ → ℕ
next_after own front [] = 0
next_after own front (m ∷ ms) = if m == own then get_or ms 0 front else next_after own front ms

unfoldable pub successor : ℕ → List ℕ → ℕ
successor own members = next_after own (get_or members 0 0) members

-- The turn the channel has, where there are members: whether it is this node's, and the successor.
pub data TurnChoice : Type 0 where
  no_turn : TurnChoice
  not_permitted : TurnChoice
  holds_turn : ℕ → TurnChoice

abbrev pub choose_turn : ℕ → List ℕ → List ℕ → ℕ → Reliable → TurnChoice × Reliable
choose_turn channel [] addresses now r = (no_turn, r)
choose_turn channel peers [] now r = (no_turn, r)
choose_turn channel peers (own ∷ others) now r =
    let members = mesh_turn_members own peers in
    let t = refresh_turn own members now (turn_at channel r) in
    (
      if t.permitted then holds_turn (successor own members) else not_permitted,
      put_turn channel t r,
    )
