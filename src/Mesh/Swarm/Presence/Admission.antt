-- ===== src/Mesh/Swarm/Presence/Admission.antt =====
-- The presence table under the inputs of the coordinator.
use mrs_uav_bluetooth.Prelude.{
  drop, ◌+◌, ◌==◌, if_cases, refl, Bool, false, Option, none, some, [], ◌∷◌, ℕ, ◌≡◌, ◌≢◌, true,
  List, arith,
}
use mrs_uav_bluetooth.Mesh.Swarm.{refused, peer_allowed, PeerPresence, Swarm}
use mrs_uav_bluetooth.Mesh.Swarm.Presence.{not_here, accepts_swarm_payload}
use mrs_uav_bluetooth.Mesh.Swarm.Frame.{
  read_u16, is_coordination, is_alien, presence_of, is_foreign, accept_at, frame_offset,
  handle_message, ReceivedMessage, accept_coordination_frame,
}
use mrs_uav_bluetooth.Mesh.Swarm.Selection.{
  selected_number, purge_expired, activate, update_selection,
}
use mrs_uav_bluetooth.Prelude.NatMap

-- An entry of the table of `s`: an admitted peer other than the local UAV, in a swarm.
abbrev pub IsAdmittedEntry : Swarm → ℕ → PeerPresence → Type 0
IsAdmittedEntry s number p =
    (p.source ≡ number)
    × (number ≢ 0)
    × (number ≢ s.local_number)
    × (peer_allowed s number ≡ true)
    × (p.swarm_id ≢ 0)

pub record IsAdmitted (s : Swarm) : Type 0 where
  pub entries : NatMap.AllEntries (IsAdmittedEntry s) s.peer_presence
  pub ascends : NatMap.AscendsFrom 1 s.peer_presence

module _ (s : Swarm) (source : ℕ) (p : PeerPresence) where
  assign-IsAdmitted :
      IsAdmittedEntry s source p
      → IsAdmitted s
      → IsAdmitted (record s { peer_presence = NatMap.assign source p s.peer_presence })
  unfolding peer_allowed
  assign-IsAdmitted e h = record {
    entries = NatMap.assign-AllEntries (IsAdmittedEntry s) source p s.peer_presence e h.entries;
    ascends = NatMap.assign-AscendsFrom 1 source p s.peer_presence (ground (arith, e.1)) h.ascends;
  }

not_refused :
    (s : Swarm) (source id now : ℕ) (participating : Bool)
    → refused s source id ≡ false
    → IsAdmittedEntry s source
        (record { source = source; swarm_id = id; participating = participating; expires = now })
not_refused s source id now participating e =
    (refl, ground arith, ground arith, ground arith, ground arith)

abbrev Keeps : Bool × Swarm → Type 0
Keeps r = IsAdmitted r.1

module _ (source now : ℕ) (s : Swarm) (h : IsAdmitted s) where
  accept-IsAdmitted : (frame : List ℕ) → IsAdmitted (accept_coordination_frame frame source now s)
  unfolding accept_coordination_frame
  accept-IsAdmitted frame =
      if_cases IsAdmitted (is_alien s frame) (λ _. h)
        (λ _.
          if_cases IsAdmitted (refused s source (read_u16 frame 6)) (λ _. h)
            (λ e.
              assign-IsAdmitted s source (presence_of frame source now s)
                (not_refused s source (read_u16 frame 6) (now + s.config.provisioner_timeout)
                  (presence_of frame source now s).participating e)
                h))

  payload-IsAdmitted : (id : ℕ) → IsAdmitted (accepts_swarm_payload source id now s).1
  unfolding accepts_swarm_payload
  payload-IsAdmitted id =
      if_cases Keeps (refused s source id) (λ _. h)
        (λ e.
          if_cases Keeps (not_here s id) (λ _. h)
            (λ _.
              assign-IsAdmitted s source _
                (not_refused s source id (now + s.config.provisioner_timeout) true e) h))

accept_at-IsAdmitted :
    (o : Option ℕ) (m : ReceivedMessage) (now : ℕ) (s : Swarm)
    → IsAdmitted s
    → IsAdmitted (accept_at o m now s).1
unfolding accept_at
accept_at-IsAdmitted none m now s h = h
accept_at-IsAdmitted (some offset) m now s h =
    if_cases Keeps (is_coordination (drop offset m.bytes))
      (λ _. accept-IsAdmitted m.source now s h _) (λ _. h)

message-IsAdmitted :
    (m : ReceivedMessage) (now : ℕ) (s : Swarm)
    → IsAdmitted s
    → IsAdmitted (handle_message m now s).1
unfolding handle_message
message-IsAdmitted m now s h =
    if_cases Keeps (is_foreign s m) (λ _. h)
      (λ _. accept_at-IsAdmitted (frame_offset s.config m.bytes) m now s h)

purge-IsAdmitted : (now : ℕ) (s : Swarm) → IsAdmitted s → IsAdmitted (purge_expired now s)
unfolding purge_expired peer_allowed
purge-IsAdmitted now s h = record {
  entries = NatMap.retain-AllEntries (IsAdmittedEntry s) _ s.peer_presence h.entries;
  ascends = NatMap.retain-AscendsFrom _ 1 s.peer_presence h.ascends;
}

selection-IsAdmitted : (now : ℕ) (s : Swarm) → IsAdmitted s → IsAdmitted (update_selection now s)
unfolding update_selection activate purge_expired peer_allowed
selection-IsAdmitted now s h =
    let p = purge-IsAdmitted now s h in
    if_cases IsAdmitted (selected_number (purge_expired now s) == s.active_number) (λ _. p)
      (λ _. record { entries = p.entries; ascends = p.ascends })

-- What reaches the presence table: heartbeats, bridge frames, and the election's purge.
pub data Input : Type 0 where
  receive : ReceivedMessage → Input
  renew : ℕ → ℕ → Input
  elect : Input

abbrev pub take_input : Swarm → ℕ × Input → Swarm
take_input s (now, receive m) = (handle_message m now s).1
take_input s (now, renew source id) = (accepts_swarm_payload source id now s).1
take_input s (now, elect) = update_selection now s

abbrev pub take_inputs : Swarm → List (ℕ × Input) → Swarm
take_inputs s [] = s
take_inputs s (i ∷ is) = take_inputs (take_input s i) is

take_input-IsAdmitted : (s : Swarm) (i : ℕ × Input) → IsAdmitted s → IsAdmitted (take_input s i)
take_input-IsAdmitted s (now, receive m) h = message-IsAdmitted m now s h
take_input-IsAdmitted s (now, renew source id) h = payload-IsAdmitted source now s h id
take_input-IsAdmitted s (now, elect) h = selection-IsAdmitted now s h

-- Whatever arrives in whatever order, every entry of the presence table is of an admitted peer other
-- than the local UAV, under its own nonzero number and with a nonzero swarm, and the table is a map.
pub take_inputs-IsAdmitted :
    (s : Swarm) (is : List (ℕ × Input)) → IsAdmitted s → IsAdmitted (take_inputs s is)
take_inputs-IsAdmitted s [] h = h
take_inputs-IsAdmitted s (i ∷ is) h =
    take_inputs-IsAdmitted (take_input s i) is (take_input-IsAdmitted s i h)
