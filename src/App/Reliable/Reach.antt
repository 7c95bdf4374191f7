-- ===== src/App/Reliable/Reach.antt =====
-- The states of `ServiceNode` (src/app/service_node_mesh.cpp) that its operations lead to, as a
-- relation: arrivals, samples and rounds of maintenance in any order, with any answers of Mesh.
use mrs_uav_bluetooth.Prelude.{ℕ, ◌≡◌, Bool, true, Option, List, [], arith}
use mrs_uav_bluetooth.Mesh.Swarm.{Swarm}
use mrs_uav_bluetooth.Mesh.Swarm.Frame.{ReceivedMessage}
use mrs_uav_bluetooth.Bridge.Transport.{SharedTopic, BridgeRuntime}
use mrs_uav_bluetooth.Bridge.Transport.Receive.{Manager}
use mrs_uav_bluetooth.App.Reliable.{clear_reliable_state, SendHandle, Reliable}
use mrs_uav_bluetooth.App.Reliable.Fits.{Fits}
use mrs_uav_bluetooth.App.Reliable.Receive.{publish_mesh_message, MeshNode}
use mrs_uav_bluetooth.App.Reliable.Maintain.{maintain_mesh_reliable}
use mrs_uav_bluetooth.App.Reliable.Send.{send_mesh_bridge_payload_impl}
use mrs_uav_bluetooth.App.Reliable.Fits.Rounds.{maintain_mesh_reliable-Fits}
use mrs_uav_bluetooth.App.Reliable.Fits.Sends.{send_mesh_bridge_payload_impl-Fits}
use mrs_uav_bluetooth.App.Reliable.Fits.Arrivals.{publish_mesh_message-Fits}
use mrs_uav_bluetooth.App.Reliable.Maintain.Sweep.{MeshCalls}
use mrs_uav_bluetooth.App.Reliable.Send.Choice.{MeshSide, Admission}

abbrev IsStarting : Reliable → Type 0
IsStarting r = (r.pending ≡ []) × (r.acks ≡ [])

pub data Reached : MeshNode → Type 0 where
  starts : (n : MeshNode) → IsStarting n.reliable → Reached n
  arrives :
      (runtime : BridgeRuntime) (m : ReceivedMessage) (element now : ℕ) (n : MeshNode)
      → Reached n
      → Reached (publish_mesh_message runtime m element now n).node
  sends :
      (resumed : Bool) (side : MeshSide) (b : SharedTopic) (payload : List ℕ)
      (answer : ℕ → Admission) (now : ℕ) (n : MeshNode)
      → Reached n
      → Reached (record n {
        reliable =
            (send_mesh_bridge_payload_impl resumed side b payload answer now n.reliable).state;
      })
  maintains :
      (side : MeshSide) (calls : MeshCalls) (now : ℕ) (n : MeshNode)
      → Reached n
      → Reached (record n { reliable = (maintain_mesh_reliable side calls now n.reliable).state })
  clears :
      (preserve_latest : Bool) (returns : SendHandle → Bool) (n : MeshNode)
      → Reached n
      → Reached (record n { reliable = clear_reliable_state returns preserve_latest n.reliable })
  asks_reset :
      (n : MeshNode)
      → Reached n
      → Reached (record n { reliable = record n.reliable { reset_requested = true } })
  changes_elsewhere :
      (n : MeshNode) (swarm : Option Swarm) (bridges : Manager) (addresses : Option (List ℕ))
      → Reached n
      → Reached
          (record n { mesh_swarm_coordinator = swarm; bridges = bridges; addresses = addresses })

-- In every state that the operations lead to, from empty tables on, the pending samples have different
-- sequences and are at most 32, and at most 128 receipts are queued.
pub Reached-Fits : (n : MeshNode) → Reached n → Fits n.reliable
unfolding clear_reliable_state
Reached-Fits n (starts m (no_pending, no_acks)) =
    rw (no_pending, no_acks) ((tt, omega arith), omega arith)
Reached-Fits n (arrives runtime m element now n' run) =
    publish_mesh_message-Fits runtime m element now n' (Reached-Fits n' run)
Reached-Fits n (sends resumed side b payload answer now n' run) =
    send_mesh_bridge_payload_impl-Fits resumed b payload answer side now n'.reliable
      (Reached-Fits n' run)
Reached-Fits n (maintains side calls now n' run) =
    maintain_mesh_reliable-Fits side calls now n'.reliable (Reached-Fits n' run)
Reached-Fits n (clears preserve_latest returns n' run) = ((tt, omega arith), omega arith)
Reached-Fits n (asks_reset n' run) = Reached-Fits n' run
Reached-Fits n (changes_elsewhere n' swarm bridges addresses run) = Reached-Fits n' run
