-- ===== src/Mesh/Swarm/Lifecycle/Heartbeat.antt =====
-- The heartbeat's rate and size.
use mrs_uav_bluetooth.Prelude.{
  if◌then◌else◌, Bool-cases, is_empty, ◌∙◌, inl, inr, List, ◌∷◌, ◌≤◌, length, All, IsByte, ℕ, ◌+◌,
  ◌<◌, ◌≡◌, refl, Bool, true, false, [], arith,
}
use mrs_uav_bluetooth.Bridge.Transport.Delivery.{newest}
use mrs_uav_bluetooth.Mesh.Swarm.{Swarm}
use mrs_uav_bluetooth.Mesh.Application.{Answers}
use mrs_uav_bluetooth.Mesh.Swarm.Lifecycle.{throttled, publish_coordination_heartbeat}
use mrs_uav_bluetooth.Mesh.Swarm.Frame.{version_byte, heartbeat_access}

-- What coordination makes of the state from one heartbeat pass to the next: the passes, with the times
-- at which they sent a heartbeat, newest first, on a clock that does not go back, and between them
-- whatever keeps the time of the last heartbeat and the period. Joining and leaving reset that time.
pub data HeartbeatRun : Swarm → Swarm → List ℕ → Type 0 where
  at_start : {s : Swarm} → HeartbeatRun s s []
  heartbeat_pass :
      {s t : Swarm} {sent : List ℕ} (answers : Answers) (now : ℕ)
      → HeartbeatRun s t sent
      → 0 < now
      → t.last_heartbeat ≤ now
      → HeartbeatRun s (publish_coordination_heartbeat answers now t).state (
          if is_empty (publish_coordination_heartbeat answers now t).calls
          then sent
          else now ∷ sent)
  between_passes :
      {s t : Swarm} {sent : List ℕ} (u : Swarm)
      → HeartbeatRun s t sent
      → u.last_heartbeat ≡ t.last_heartbeat
      → u.config.heartbeat_period ≡ t.config.heartbeat_period
      → HeartbeatRun s u sent

-- Each time lies at least the period behind the one before it.
abbrev pub AreSpaced : ℕ → List ℕ → Type 0
AreSpaced period [] = Unit {0}
AreSpaced period (newest ∷ []) = Unit {0}
AreSpaced period (newest ∷ (before ∷ sent)) =
    (before + period ≤ newest) × AreSpaced period (before ∷ sent)

-- The newest time is the last one that the state knows.
abbrev IsLast : Swarm → List ℕ → Type 0
IsLast s [] = Unit {0}
IsLast s (newest ∷ sent) = (0 < newest) × (s.last_heartbeat ≡ newest)

abbrev IsRunning : ℕ → Swarm → List ℕ → Type 0
IsRunning period s sent =
    (s.config.heartbeat_period ≡ period) × IsLast s sent × AreSpaced period sent

IsLast-same :
    (s t : Swarm) (sent : List ℕ)
    → t.last_heartbeat ≡ s.last_heartbeat
    → IsLast s sent
    → IsLast t sent
IsLast-same s t [] same h = tt
IsLast-same s t (newest ∷ sent) same h = (h.0, same ∙ h.1)

-- A pass that is not held back comes a period behind the last heartbeat.
unthrottled-IsRunning :
    (period now : ℕ) (s : Swarm) (sent : List ℕ)
    → throttled now s ≡ false
    → 0 < now
    → s.last_heartbeat ≤ now
    → IsRunning period s sent
    → IsRunning period (record s { last_heartbeat = now }) (now ∷ sent)
unthrottled-IsRunning period now s [] free positive after_it (same, last, spaced) =
    (same, (positive, refl), tt)
unthrottled-IsRunning period now s (newest ∷ sent) free positive after_it (same, last, spaced) =
    (same, (positive, refl), (ground (arith, free, same, last.0, last.1), spaced))

pass-IsRunning :
    (period : ℕ) (answers : Answers) (now : ℕ) (s : Swarm) (sent : List ℕ)
    → 0 < now
    → s.last_heartbeat ≤ now
    → IsRunning period s sent
    → IsRunning period
        (publish_coordination_heartbeat answers now s).state
        (if is_empty (publish_coordination_heartbeat answers now s).calls then sent else now ∷ sent)
unfolding publish_coordination_heartbeat
pass-IsRunning period answers now s sent positive after_it h =
    elim (Bool-cases s.application_ready) [
      | inr unready ↦ rw unready h
      | inl ready ↦ rw ready (elim (Bool-cases (throttled now s)) [
        | inl held ↦ rw held h
        | inr free ↦ rw free (unthrottled-IsRunning period now s sent free positive after_it h)
      ])
    ]

run-IsRunning :
    {s t : Swarm} {sent : List ℕ}
    → HeartbeatRun s t sent
    → IsRunning s.config.heartbeat_period t sent
run-IsRunning at_start = (refl, tt, tt)
run-IsRunning {s} (heartbeat_pass {t = t} {sent = sent} answers now before positive after_it) =
    pass-IsRunning s.config.heartbeat_period answers now t sent positive after_it
      (run-IsRunning before)
run-IsRunning (between_passes {t = t} {sent = sent} u before same_time same_period) =
    let (same, last, spaced) = run-IsRunning before in
    (same_period ∙ same, IsLast-same t u sent same_time last, spaced)

-- Over any number of heartbeat passes, with operations between them that leave the time of the last
-- heartbeat and the period as they are, so without joining or leaving a swarm, on a clock that does not
-- go back, two heartbeats one after the other are sent at least the configured period apart.
pub publish_spaced :
    {s t : Swarm} {sent : List ℕ} → HeartbeatRun s t sent → AreSpaced s.config.heartbeat_period sent
publish_spaced run = (run-IsRunning run).2

version_byte-IsByte : (b : Bool) → IsByte (version_byte b)
version_byte-IsByte true = omega arith
version_byte-IsByte false = omega arith

-- Whatever the state, the heartbeat is eleven bytes: the size of an unsegmented access message.
heartbeat_unsegmented :
    (s : Swarm) → (length (heartbeat_access s) ≡ 11) × All IsByte (heartbeat_access s)
unfolding heartbeat_access
heartbeat_unsegmented s =
    let flag = version_byte-IsByte s.swarm_participating in
    (
      refl,
      (
        omega arith,
        (omega arith, (omega arith, (omega arith, (omega arith, (flag, omega arith))))),
      ),
    )
