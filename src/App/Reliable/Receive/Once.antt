-- ===== src/App/Reliable/Receive/Once.antt =====
-- Each sample of src/app/service_node_mesh.cpp reaches the bridge once: the table of seen frames
-- against an inbox that only knows which frames it has delivered.
use mrs_uav_bluetooth.Prelude.{
  Option, some, sym, ◌==◌, if◌then◌else◌, Bool-cases, ℕ, inl, inr, false, none, List, [], ◌∷◌, leb,
  if_cases, length, All, any, ◌≡◌, refl, Bool, true, ◌&&◌, ◌||◌, arith,
}
use mrs_uav_bluetooth.App.Reliable.Receive.{
  mark_delivered, decode_new, begin_data, rebuilt_frame, receive_data, own_address, turn_ring,
  quiet, finish_decoded, MeshNode, Arrival, seen_key, admit_new, hand_over, finish_data, same_key,
  find_seen, is_delivered, same_ack, queue_ack,
}
use mrs_uav_bluetooth.Bridge.Transport.{BridgeRuntime}
use mrs_uav_bluetooth.Bridge.Transport.Receive.{handle_mesh, Handled}
use mathlib.Core.Path.{subst}
use mrs_uav_bluetooth.App.Reliable.{SeenEntry, k_max_queued_acks, SeenKey, Reliable}
use mrs_uav_bluetooth.Mesh.Swarm.Frame.{ReceivedMessage}

-- The inbox: whether a frame has been delivered.
abbrev pub inbox : Reliable → SeenKey → Bool
inbox r key = is_delivered (find_seen key r.seen)

-- What delivering a frame, or failing to, makes of an inbox.
abbrev deliver : SeenKey → Bool → (SeenKey → Bool) → SeenKey → Bool
deliver key handled box j = box j || (same_key j key && handled)

-- Between two operations, every frame in the table has been delivered.
abbrev AllDelivered : Reliable → Type 0
AllDelivered r = All (λ e. e.delivered ≡ true) r.seen

same_key_refl : (k : SeenKey) → same_key k k ≡ true
same_key_refl k = ground arith

same_key_trans : (a b c : SeenKey) → same_key a b ≡ true → same_key a c ≡ same_key b c
same_key_trans a b c h = ground arith

queue_ack-seen : (m : ReceivedMessage) (r : Reliable) → (queue_ack m r).seen ≡ r.seen
unfolding queue_ack
queue_ack-seen m r =
    if_cases (λ (t : Reliable). t.seen ≡ r.seen) (leb k_max_queued_acks (length r.acks)) (λ _. refl)
      (λ _.
        if_cases (λ (t : Reliable). t.seen ≡ r.seen) (any (same_ack m) r.acks) (λ _. refl)
          (λ _. refl))

hand_over-seen :
    (m : ReceivedMessage) (element own : ℕ) (members : List ℕ) (now : ℕ) (r : Reliable)
    → (hand_over m element own members now r).seen ≡ r.seen
hand_over-seen m element own members now r =
    if_cases (λ (t : Reliable). t.seen ≡ r.seen) (own == 0) (λ _. refl) (λ _. refl)

find_seen-known :
    (key : SeenKey) (s : List SeenEntry) (entry : SeenEntry)
    → All (λ e. e.delivered ≡ true) s
    → find_seen key s ≡ some entry
    → is_delivered (find_seen key s) ≡ true
find_seen-known key [] entry d found = cc
find_seen-known key (e ∷ es) entry d found = elim (Bool-cases (same_key key e.key)) [
  | inl same ↦ rw same d.0
  | inr other ↦ rw other (find_seen-known key es entry d.1 (rw other at found))
]

-- The table behind a frame that was not in it.
abbrev table_after : Bool → SeenKey → ℕ → List SeenEntry → List SeenEntry
table_after handled key now s =
    if handled then record { key = key; last = now; delivered = true } ∷ s else s

mark_delivered_new :
    (key : SeenKey) (now : ℕ) (s : List SeenEntry)
    → mark_delivered key now (record { key = key; last = now; delivered = false } ∷ s)
      ≡ record { key = key; last = now; delivered = true } ∷ s
mark_delivered_new key now s = rw (same_key_refl key) refl

finish_data-seen :
    (handled : Bool) (m : ReceivedMessage) (element own : ℕ) (members : List ℕ) (now : ℕ)
    (r : Reliable)
    → (finish_data handled m element own members now (admit_new m now none r).1).seen
      ≡ table_after handled (seen_key m) now r.seen
unfolding finish_data
finish_data-seen false m element own members now r =
    rw (same_key_refl (seen_key m), same_key_refl (seen_key m)) refl
finish_data-seen true m element own members now r =
    rw (same_key_refl (seen_key m), hand_over-seen, queue_ack-seen)
      (mark_delivered_new (seen_key m) now r.seen)

inbox-table_after :
    (handled : Bool) (key j : SeenKey) (now : ℕ) (s : List SeenEntry)
    → is_delivered (find_seen key s) ≡ false
    → is_delivered (find_seen j (table_after handled key now s))
      ≡ (is_delivered (find_seen j s) || (same_key j key && handled))
inbox-table_after false key j now s h = ground arith
inbox-table_after true key j now s h = elim (Bool-cases (same_key j key)) [
  | inl same ↦ rw same (ground arith)
  | inr other ↦ rw other (ground arith)
]

table_after-AllDelivered :
    (handled : Bool) (key : SeenKey) (now : ℕ) (s : List SeenEntry)
    → All (λ e. e.delivered ≡ true) s
    → All (λ e. e.delivered ≡ true) (table_after handled key now s)
table_after-AllDelivered false key now s d = d
table_after-AllDelivered true key now s d = (refl, d)

-- What an arrival does to the inbox that delivers once.
abbrev pub IsOnce : MeshNode → SeenKey → Handled → Arrival → Type 0
IsOnce n key h a =
    (a.sample ≡ (if inbox n.reliable key then none else h.sample))
    × (((j : SeenKey) → inbox a.node.reliable j ≡ deliver key h.handled (inbox n.reliable) j)
        × AllDelivered a.node.reliable)

find_same :
    (j key : SeenKey) (s : List SeenEntry) → same_key j key ≡ true → find_seen j s ≡ find_seen key s
find_same j key [] same = refl
find_same j key (e ∷ es) same = rw (same_key_trans j key e.key same, find_same j key es same) refl

IsOnce-again :
    (m : ReceivedMessage) (n : MeshNode) (h : Handled) (r : Reliable)
    → AllDelivered n.reliable
    → inbox n.reliable (seen_key m) ≡ true
    → r.seen ≡ n.reliable.seen
    → IsOnce n (seen_key m) h (quiet (record n { reliable = r }))
IsOnce-again m n h r d known same = (
  rw known refl,
  (
    λ j. rw same (elim (Bool-cases (same_key j (seen_key m))) [
      | inl e ↦ rw (find_same j (seen_key m) n.reliable.seen e, known) refl
      | inr e ↦ rw e (ground arith)
    ]),
    subst (λ s. All (λ e. e.delivered ≡ true) s) (sym same) d,
  ),
)

IsOnce-new :
    (m : ReceivedMessage) (element now : ℕ) (n : MeshNode) (h : Handled)
    → AllDelivered n.reliable
    → find_seen (seen_key m) n.reliable.seen ≡ none
    → IsOnce n (seen_key m) h (
        finish_decoded h m element now
          (record n { reliable = (admit_new m now none n.reliable).1 }))
IsOnce-new m element now n h d e =
    let table =
      finish_data-seen h.handled m element (own_address n.mesh_swarm_coordinator n.addresses)
        (turn_ring n.mesh_swarm_coordinator (own_address n.mesh_swarm_coordinator n.addresses) now)
        now n.reliable in
    (
      rw e refl,
      (
        λ j. rw table (inbox-table_after h.handled (seen_key m) j now n.reliable.seen (rw e refl)),
        subst (λ s. All (λ e. e.delivered ≡ true) s) (sym table)
            (table_after-AllDelivered h.handled (seen_key m) now n.reliable.seen d),
      ),
    )

IsOnce-by :
    (runtime : BridgeRuntime) (m : ReceivedMessage) (element now : ℕ) (n : MeshNode)
    (found : Option SeenEntry)
    → AllDelivered n.reliable
    → find_seen (seen_key m) n.reliable.seen ≡ found
    → IsOnce n
        (seen_key m)
        (handle_mesh runtime m.source m.key_index (rebuilt_frame m.bytes) n.bridges)
        (decode_new runtime m element now n (admit_new m now found n.reliable))
IsOnce-by runtime m element now n none d e =
    IsOnce-new m element now n
      (handle_mesh runtime m.source m.key_index (rebuilt_frame m.bytes) n.bridges) d e
IsOnce-by runtime m element now n (some entry) d e =
    IsOnce-again m n (handle_mesh runtime m.source m.key_index (rebuilt_frame m.bytes) n.bridges)
      (if entry.delivered then queue_ack m n.reliable else n.reliable) d
      (find_seen-known (seen_key m) n.reliable.seen entry d e)
      (if_cases (λ (t : Reliable). t.seen ≡ n.reliable.seen) entry.delivered
        (λ _. queue_ack-seen m n.reliable) (λ _. refl))

-- A data frame refines the inbox that delivers once, where the table holds delivered frames only: the
-- bridge publishes the sample exactly when the frame's key has not been delivered and the bridge takes
-- the rebuilt frame; the delivered keys grow by exactly that key; a refused frame may come again; and
-- the table holds delivered frames only.
pub receive_data-IsOnce :
    (runtime : BridgeRuntime) (m : ReceivedMessage) (element now : ℕ) (n : MeshNode)
    → AllDelivered n.reliable
    → IsOnce n
        (seen_key m)
        (handle_mesh runtime m.source m.key_index (rebuilt_frame m.bytes) n.bridges)
        (receive_data runtime m element now n)
unfolding receive_data begin_data
receive_data-IsOnce runtime m element now n d =
    IsOnce-by runtime m element now n (find_seen (seen_key m) n.reliable.seen) d refl
