-- ===== src/Mesh/Swarm/Runs.antt =====
-- The theorems on frames, presence and election at concrete swarms.
use mrs_uav_bluetooth.Mesh.Swarm.Selection.Consistent.{IsConsistent}
use mrs_uav_bluetooth.Mesh.Swarm.Selection.Vote.{update_selection-Elects, Purged, Elects}
use mrs_uav_bluetooth.Mesh.Swarm.Selection.Agreement.{selected_number-agree}
use mrs_uav_bluetooth.Prelude.{
  ◌==◌, ok, any, ℕ, ◌+◌, ◌≤◌, ◌≡◌, refl, ◌⊎◌, inr, true, false, List, [], ◌∷◌, arith,
}
use mrs_uav_bluetooth.Mesh.Swarm.{k_per_priority_join_window, peer_allowed, member_name, Swarm}
use mrs_uav_bluetooth.Mesh.Swarm.Presence.{
  leave_swarm, swarm_member_addresses, swarm_probe_addresses, accepts_raw_payload,
  accepts_swarm_payload,
}
use mrs_uav_bluetooth.Mesh.Swarm.Lifecycle.{create_after}
use mrs_uav_bluetooth.Mesh.Swarm.Frame.{heartbeat_access, handle_message}
use mrs_uav_bluetooth.Mesh.Swarm.Fleet.{seventh, ninth, uav7_meets_9, uav9_meets_7}
use mrs_uav_bluetooth.Mesh.Swarm.Selection.{available, selected_number, update_selection}
use mrs_uav_bluetooth.Mesh.Swarm.Presence.Admission.{
  take_inputs, take_inputs-IsAdmitted, IsAdmitted, Input, receive, renew, elect,
}
use mrs_uav_bluetooth.Mesh.Swarm.Presence.Membership.{
  leave_swarm-isolates, accepts_swarm_payload-renews,
}
use mrs_uav_bluetooth.Mesh.Swarm.Frame.RoundTrip.{
  received_access, renewed, handle_message-heartbeat, Hears,
}
use mrs_uav_bluetooth.Mesh.Swarm.Lifecycle.Bootstrap.{create_after_staggered, IsCandidate}
use mrs_uav_bluetooth.Prelude.NatMap

ninth-Hears_7 : Hears ninth seventh
unfolding peer_allowed
ninth-Hears_7 = record {
  same_fingerprint = refl;
  fingerprint_fits = omega arith;
  swarm_id_fits = omega arith;
  swarm_id_given = omega arith;
  numbered = omega arith;
  other = omega arith;
  admitted = refl;
}

handle_message-heartbeat_example :
    handle_message
      (record {
        source = 7;
        key_index = 1;
        device_key = false;
        bytes = received_access true (heartbeat_access seventh);
      })
      100
      ninth
    ≡ (true, renewed seventh 100 ninth)
handle_message-heartbeat_example =
    handle_message-heartbeat seventh ninth 100 ninth-Hears_7 true refl

same_view : (n : ℕ) → available uav7_meets_9 n ≡ available uav9_meets_7 n
unfolding available
same_view n = ground arith

same_vote : any (available uav7_meets_9) (7 ∷ 9 ∷ []) ≡ true
unfolding available
same_vote = refl

selected_number-agree_example : selected_number uav7_meets_9 ≡ selected_number uav9_meets_7
selected_number-agree_example =
    selected_number-agree uav7_meets_9 uav9_meets_7 same_view refl refl (inr same_vote)

ninth-IsAdmitted : IsAdmitted ninth
ninth-IsAdmitted = record { entries = tt; ascends = tt }

abbrev uav9_inputs : List (ℕ × Input)
uav9_inputs =
    (
      100,
      receive (record {
        source = 7;
        key_index = 1;
        device_key = false;
        bytes = 0x4d ∷ 0x53 ∷ 0x42 ∷ 0x56 ∷ 0x34 ∷ 0x12 ∷ 5 ∷ 0 ∷ [];
      }),
    )
    ∷ (101, renew 7 5)
    ∷ (102, renew 8 5)
    ∷ (200, elect)
    ∷ []

take_inputs-IsAdmitted_example : IsAdmitted (take_inputs ninth uav9_inputs)
take_inputs-IsAdmitted_example = take_inputs-IsAdmitted ninth uav9_inputs ninth-IsAdmitted

uav9_meets_7-IsAdmitted : IsAdmitted uav9_meets_7
unfolding peer_allowed
uav9_meets_7-IsAdmitted = record {
  entries = ((refl, omega arith, omega arith, refl, omega arith), tt);
  ascends = (omega arith, tt);
}

ninth-IsConsistent : IsConsistent uav9_meets_7
unfolding member_name
ninth-IsConsistent = record { named = refl; own = refl }

update_selection-Elects_example :
    IsConsistent (update_selection 40 uav9_meets_7)
    × Elects 40 uav9_meets_7 (update_selection 40 uav9_meets_7).active_number
    × Purged 40
        (NatMap.find 7 uav9_meets_7.peer_presence)
        (NatMap.find 7 (update_selection 40 uav9_meets_7).peer_presence)
update_selection-Elects_example =
    update_selection-Elects 40 uav9_meets_7 7 ninth-IsConsistent uav9_meets_7-IsAdmitted

seventh-IsCandidate : IsCandidate seventh 0 0
seventh-IsCandidate = record { first_at = refl; first_within = omega arith; own_at = refl }

ninth-IsCandidate : IsCandidate ninth 0 1
ninth-IsCandidate = record { first_at = refl; first_within = omega arith; own_at = refl }

create_after_staggered_example :
    (create_after seventh + k_per_priority_join_window ≤ create_after ninth)
    ⊎ (create_after ninth + k_per_priority_join_window ≤ create_after seventh)
create_after_staggered_example =
    create_after_staggered seventh ninth 0 0 1 seventh-IsCandidate ninth-IsCandidate refl refl
      (omega arith)

accepted : (accepts_swarm_payload 7 5 100 ninth).0 ≡ true
unfolding accepts_swarm_payload peer_allowed
accepted = refl

accepts_swarm_payload-renews_example :
    any (λ k. k == 7) (swarm_member_addresses 120 (accepts_swarm_payload 7 5 100 ninth).1) ≡ true
accepts_swarm_payload-renews_example =
    accepts_swarm_payload-renews 7 5 100 ninth 120 accepted (omega arith) (omega arith)

abbrev uav7_alone : Swarm
uav7_alone = record uav7_meets_9 { swarm_participating = false; last_heartbeat = 0 }

left_swarm : leave_swarm (λ line. true) uav7_meets_9 ≡ ok uav7_alone
unfolding leave_swarm
left_swarm = refl

leave_swarm-isolates_example :
    (swarm_member_addresses 20 uav7_alone ≡ [])
    × (swarm_probe_addresses 20 uav7_alone ≡ [])
    × ((source : ℕ) → accepts_raw_payload source 20 uav7_alone ≡ false)
    × ((source id : ℕ) → accepts_swarm_payload source id 20 uav7_alone ≡ (false, uav7_alone))
leave_swarm-isolates_example =
    leave_swarm-isolates (λ line. true) uav7_meets_9 uav7_alone left_swarm 20
