-- ===== src/App/Reliable/Frame.antt =====
-- The frames of src/app/service_node_mesh.cpp between the sender and the receiver.
use mrs_uav_bluetooth.Prelude.{ℕ, ◌<◌, ◌≡◌, refl, true, ◌&&◌, List, ◌∷◌, arith}
use mrs_uav_bluetooth.App.Reliable.{
  reliable_sequence, reliable_swarm_id, marker_of, is_reliable_frame, with_marker,
  make_reliable_data,
}
use mrs_uav_bluetooth.App.Reliable.Receive.{rebuilt_frame, is_data}
use mrs_uav_bluetooth.App.Reliable.Send.{turn_marker, has_channel_frame}

-- A receiver reads from a data frame, whichever marker its copy carries, what the sender put there: it
-- rebuilds the sample, reads the sequence and the swarm, and counts it as a data frame, where the
-- sample has the bridge's channel frame and the two numbers fit in 16 bits.
pub rebuild-make_reliable_data :
    (payload : List ℕ) (sequence swarm_id destination next : ℕ)
    → has_channel_frame payload ≡ true
    → sequence < 65536
    → swarm_id < 65536
    → let wire =
        with_marker (turn_marker destination next) (make_reliable_data payload sequence swarm_id) in
      (rebuilt_frame wire ≡ payload)
      × ((reliable_sequence wire ≡ sequence)
          × ((reliable_swarm_id wire ≡ swarm_id)
              × ((is_reliable_frame wire && is_data wire ≡ true)
                  × (marker_of wire ≡ turn_marker destination next))))
unfolding rebuilt_frame make_reliable_data is_reliable_frame
rebuild-make_reliable_data (a ∷ b ∷ c ∷ d ∷ e ∷ f ∷ g ∷ h ∷ rest) sequence swarm_id destination next
      frame fits fits' =
    let d_is : d ≡ 77 = ground arith in
    let e_is : e ≡ 66 = ground arith in
    let f_is : f ≡ 1 = ground arith in
    (rw (d_is, e_is, f_is) refl, (omega arith, (omega arith, (ground arith, refl))))
rebuild-make_reliable_data payload sequence swarm_id destination next frame fits fits' =
    ground arith
