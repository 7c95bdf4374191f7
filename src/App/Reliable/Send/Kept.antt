-- ===== src/App/Reliable/Send/Kept.antt =====
-- A sample given to src/app/service_node_mesh.cpp is sent or kept.
use mrs_uav_bluetooth.Prelude.{
  not, Bool-cases, if_cases, any, is_empty, ℕ, ◌≡◌, refl, ◌∙◌, ◌⊎◌, inl, inr, Bool, true, false,
  ◌&&◌, Option, some, List, [], ◌∷◌, arith,
}
use mrs_uav_bluetooth.App.Reliable.Send.{
  send_by, is_admitted, fan_out, restore_turn, transmit, send_turn, send_probed, has_channel_frame,
  send_reliable, send_mesh_bridge_payload_impl,
}
use mrs_uav_bluetooth.Mesh.Swarm.{Swarm}
use mrs_uav_bluetooth.Mesh.Swarm.Presence.{swarm_member_addresses, swarm_probe_addresses}
use mrs_uav_bluetooth.Bridge.Transport.{SharedTopic}
use mrs_uav_bluetooth.App.Reliable.{
  make_reliable_data, sorted_unique, take_reset, channel_busy, Reliable,
}
use mrs_uav_bluetooth.App.Reliable.Send.Choice.{
  nothing_sent, bridge_channel, store_latest, side_ready, choose_probe, add_probe, take_sequence,
  choose_turn, MeshSide, Admission, Sending, TurnChoice, completed, no_turn, not_permitted,
  holds_turn,
}
use mrs_uav_bluetooth.Prelude.NatMap

-- The newest sample of the channel is there, and it is this one unless it was resumed.
abbrev IsKept : Bool → SharedTopic → List ℕ → Reliable → Type 0
IsKept resumed b payload r =
    (NatMap.contains (bridge_channel b) r.latest ≡ true)
    × (resumed ≡ false
        → NatMap.find (bridge_channel b) r.latest ≡ some (record { bridge = b; payload = payload }))

-- A copy was taken, or the sample is kept.
abbrev pub IsSentOrKept : Bool → SharedTopic → List ℕ → (ℕ → Admission) → Sending → Type 0
IsSentOrKept resumed b payload answer s =
    (s.result ≡ completed)
    × ((any (λ m. is_admitted (answer m.destination)) s.submitted ≡ true)
        ⊎ IsKept resumed b payload s.state)

module _ (resumed : Bool) (b : SharedTopic) (payload : List ℕ) where
  store_latest-IsKept : (r : Reliable) → IsKept resumed b payload (store_latest resumed b payload r)
  unfolding store_latest
  store_latest-IsKept r =
      elim (Bool-cases (resumed && NatMap.contains (bridge_channel b) r.latest)) [
        | inl e ↦ rw e (ground arith, λ h. ground arith)
        | inr e ↦ rw e (
            let found =
              NatMap.find-assign (bridge_channel b) (bridge_channel b)
                (record { bridge = b; payload = payload }) r.latest in
            (rw found (ground arith), λ h. rw found (ground arith)))
      ]

  restore_turn-IsKept :
      (consumes : Bool) (channel : ℕ) (r : Reliable)
      → IsKept resumed b payload r
      → IsKept resumed b payload (restore_turn consumes channel r)
  restore_turn-IsKept false channel r k = k
  restore_turn-IsKept true channel r k = k

  module _ (answer : ℕ → Admission) where
    nothing_sent-IsSentOrKept :
        (r : Reliable)
        → IsSentOrKept resumed b payload answer (nothing_sent (store_latest resumed b payload r))
    nothing_sent-IsSentOrKept r = (refl, inr (store_latest-IsKept r))

    any-fan_out :
        (wrapped : List ℕ) (next : ℕ) (targets : List ℕ)
        → any (λ m. is_admitted (answer m.destination)) (fan_out b wrapped next targets)
          ≡ any (λ d. is_admitted (answer d)) targets
    any-fan_out wrapped next [] = refl
    any-fan_out wrapped next (d ∷ ds) = rw (any-fan_out wrapped next ds) refl

    transmit-IsSentOrKept :
        (swarm_id : ℕ) (targets : List ℕ) (sequence : ℕ) (consumes : Bool) (next now : ℕ)
        (r : Reliable)
        → IsSentOrKept resumed b payload answer
            (transmit resumed b payload answer swarm_id targets sequence consumes next now r)
    unfolding transmit
    transmit-IsSentOrKept swarm_id targets sequence consumes next now r =
        elim (Bool-cases (any (λ d. is_admitted (answer d)) targets)) [
          | inl e ↦ (
            refl,
            inl (any-fan_out (make_reliable_data payload sequence swarm_id) next targets ∙ e),
          )
          | inr e ↦ (
            refl,
            inr (rw e (restore_turn-IsKept consumes (bridge_channel b) _ (store_latest-IsKept _))),
          )
        ]

    send_turn-IsSentOrKept :
        (swarm_id : ℕ) (targets : List ℕ) (sequence now : ℕ) (choice : TurnChoice × Reliable)
        → IsSentOrKept resumed b payload answer
            (send_turn resumed b payload answer swarm_id targets sequence now choice)
    send_turn-IsSentOrKept swarm_id targets sequence now (no_turn, r) =
        transmit-IsSentOrKept swarm_id targets sequence false 0 now r
    send_turn-IsSentOrKept swarm_id targets sequence now (not_permitted, r) =
        nothing_sent-IsSentOrKept r
    send_turn-IsSentOrKept swarm_id targets sequence now (holds_turn next, r) =
        transmit-IsSentOrKept swarm_id targets sequence true next now r

    send_probed-IsSentOrKept :
        (side : MeshSide) (s : Swarm) (peers : List ℕ) (now : ℕ) (probed : Option ℕ × Reliable)
        → IsSentOrKept resumed b payload answer
            (send_probed resumed side b payload answer s peers now probed)
    send_probed-IsSentOrKept side s peers now (probe, r) =
        if_cases (λ (t : Sending). IsSentOrKept resumed b payload answer t)
          (is_empty (sorted_unique (add_probe probe peers))) (λ _. nothing_sent-IsSentOrKept r)
          (λ _.
            send_turn-IsSentOrKept s.swarm_id (sorted_unique (add_probe probe peers))
              (take_sequence r).0 now
              (choose_turn (bridge_channel b) peers side.addresses now (take_sequence r).1))

    send_reliable-IsSentOrKept :
        (side : MeshSide) (s : Swarm) (now : ℕ) (r : Reliable)
        → has_channel_frame payload ≡ true
        → IsSentOrKept resumed b payload answer
            (send_reliable resumed side b payload answer s now r)
    unfolding send_reliable
    send_reliable-IsSentOrKept side s now r framed = rw framed (
        if_cases (λ (t : Sending). IsSentOrKept resumed b payload answer t)
          (channel_busy (bridge_channel b) r.pending) (λ _. nothing_sent-IsSentOrKept r)
          (λ _.
            send_probed-IsSentOrKept side s (swarm_member_addresses now s) now
              (choose_probe (swarm_probe_addresses now s) now r)))

    send_by-IsSentOrKept :
        (side : MeshSide) (s : Swarm) (now : ℕ) (r : Reliable) (swarm : Option Swarm)
        (reliable : Bool)
        → swarm ≡ some s
        → reliable ≡ true
        → has_channel_frame payload ≡ true
        → IsSentOrKept resumed b payload answer
            (send_by resumed side b payload answer swarm reliable now r)
    send_by-IsSentOrKept side s now r swarm reliable coordinated reliably framed =
        rw (coordinated, reliably) (send_reliable-IsSentOrKept side s now r framed)

    -- A sample of a reliable channel is not lost, whatever the transport answers: where Mesh is
    -- enabled, the node has a coordinator and the sample has the channel frame, the operation
    -- completes, and either a copy was taken or the channel's newest sample is kept; that is this
    -- sample unless it was resumed. It holds before the node is ready, with the channel busy,
    -- without the turn, and with every copy refused.
    pub send_mesh_bridge_payload_impl-IsSentOrKept :
        (side : MeshSide) (s : Swarm) (now : ℕ) (r : Reliable)
        → side.enabled ≡ true
        → side.mesh_swarm_coordinator ≡ some s
        → b.mesh_swarm_reliable ≡ true
        → has_channel_frame payload ≡ true
        → IsSentOrKept resumed b payload answer
            (send_mesh_bridge_payload_impl resumed side b payload answer now r)
    unfolding send_mesh_bridge_payload_impl
    send_mesh_bridge_payload_impl-IsSentOrKept side s now r enabled coordinated reliable framed =
        if_cases (λ (t : Sending). IsSentOrKept resumed b payload answer t) (not side.enabled)
          (λ off. ground arith)
          (λ _.
            if_cases (λ (t : Sending). IsSentOrKept resumed b payload answer t) (side_ready side)
              (λ _.
                if_cases (λ (t : Sending). IsSentOrKept resumed b payload answer t)
                  (resumed
                    && NatMap.contains (bridge_channel b)
                        (take_reset side.reset_cancel_returns r).latest)
                  (λ e. (refl, inr (ground arith, λ h. ground arith)))
                  (λ _.
                    send_by-IsSentOrKept side s now _ side.mesh_swarm_coordinator
                      b.mesh_swarm_reliable coordinated reliable framed))
              (λ _. nothing_sent-IsSentOrKept (take_reset side.reset_cancel_returns r)))
