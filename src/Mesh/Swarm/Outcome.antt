-- ===== src/Mesh/Swarm/Outcome.antt =====
-- What an operation of the coordinator leaves behind, and how operations follow one another.
use mrs_uav_bluetooth.Prelude.{if◌then◌else◌, Bool, false, not, List, [], ◌∷◌, ◌++◌}
use mrs_uav_bluetooth.Mesh.Swarm.{Swarm}
use mrs_uav_bluetooth.Mesh.Application.{Call, Answers}

-- What a pass leaves: the state, the calls that it made in order, and whether an exception escaped.
pub record Outcome : Type 0 where
  pub state : Swarm
  pub calls : List Call
  pub raised : Bool

abbrev pub done : Swarm → Outcome
done s = record { state = s; calls = []; raised = false }

-- One call whose exception is not caught.
abbrev pub perform : Answers → Call → Swarm → Outcome
perform answers call s = record {
  state = s;
  calls = call ∷ [];
  raised = not (answers.accepts call);
}

abbrev pub continue_with : Outcome → Outcome → Outcome
continue_with first rest = record {
  state = rest.state;
  calls = first.calls ++ rest.calls;
  raised = rest.raised;
}

abbrev pub then_do : Outcome → (Swarm → Outcome) → Outcome
then_do first next = if first.raised then first else continue_with first (next first.state)
