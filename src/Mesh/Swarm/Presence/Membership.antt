-- ===== src/Mesh/Swarm/Presence/Membership.antt =====
-- What joining, leaving and a renewed presence mean for the queries.
use mrs_uav_bluetooth.Prelude.{
  leb, ==_iff, Bool-cases, sym, inl, inr, ◌==◌, ok, any, select, Text, ℕ, ◌+◌, ◌≤◌, ◌<◌, ◌≡◌, Bool,
  true, false, List, [], ◌∷◌, arith,
}
use mrs_uav_bluetooth.Mesh.Swarm.{refused, PeerPresence, Swarm}
use mrs_uav_bluetooth.Mesh.Swarm.Presence.{
  not_here, leave_swarm, is_member, swarm_member_addresses, swarm_probe_addresses,
  accepts_raw_payload, accepts_swarm_payload, member_numbers,
}
use mathlib.Core.Path.{subst}
use mrs_uav_bluetooth.Prelude.NatMap.{NatMap}
use mrs_uav_bluetooth.Prelude.NatMap

left :
    (persists : Text → Bool) (s t : Swarm)
    → leave_swarm persists s ≡ ok t
    → t.swarm_participating ≡ false
unfolding leave_swarm
left persists s t e = ground arith

-- Once a swarm is left, no peer is addressed or probed any more, no raw payload is accepted, and no
-- bridge frame is accepted or changes anything.
pub leave_swarm-isolates :
    (persists : Text → Bool) (s t : Swarm)
    → leave_swarm persists s ≡ ok t
    → (now : ℕ)
    → (swarm_member_addresses now t ≡ [])
      × (swarm_probe_addresses now t ≡ [])
      × ((source : ℕ) → accepts_raw_payload source now t ≡ false)
      × ((source id : ℕ) → accepts_swarm_payload source id now t ≡ (false, t))
unfolding swarm_member_addresses swarm_probe_addresses accepts_raw_payload accepts_swarm_payload
leave_swarm-isolates persists s t e now =
    let out = left persists s t e in
    (rw out, rw out, λ source. rw out, λ source id. ground (arith, out))

renewed_number :
    (id now n : ℕ) (p : PeerPresence) (m : NatMap PeerPresence)
    → is_member id now p ≡ true
    → any (λ k. k == n) (member_numbers id now (NatMap.assign n p m)) ≡ true
unfolding member_numbers NatMap.assign
renewed_number id now n p [] h = ground arith
renewed_number id now n p ((j, w) ∷ m) h = ground (arith, renewed_number id now n p m h)

any-select :
    (n : ℕ) (p : ℕ → Bool) (ns : List ℕ)
    → p n ≡ true
    → any (λ k. k == n) ns ≡ true
    → any (λ k. k == n) (select p ns) ≡ true
any-select n p [] h e = e
any-select n p (k ∷ ns) h e = elim (Bool-cases (k == n)) [
  | inl e' ↦
      let same : k ≡ n = (==_iff k n).0 e' in
      let pass : p k ≡ true = subst (λ x. p x ≡ true) (sym same) h in rw pass (ground arith)
  | inr e' ↦ ground (arith, any-select n p ns h)
]

module _ (source id now : ℕ) (s : Swarm) where
  accepted_guards :
      (accepts_swarm_payload source id now s).0 ≡ true
      → (refused s source id ≡ false) × (not_here s id ≡ false)
  unfolding accepts_swarm_payload
  accepted_guards e = ground arith

  -- A bridge frame that is accepted at `now` makes its source, if it is a unicast address, one of the
  -- addresses of the swarm until the lease that starts then runs out.
  pub accepts_swarm_payload-renews :
      (later : ℕ)
      → (accepts_swarm_payload source id now s).0 ≡ true
      → source ≤ 0x7fff
      → later < now + s.config.provisioner_timeout
      → any
          (λ k. k == source)
          (swarm_member_addresses later (accepts_swarm_payload source id now s).1)
        ≡ true
  unfolding accepts_swarm_payload swarm_member_addresses
  accepts_swarm_payload-renews later e fits in_time =
      let (admitted, here) = accepted_guards e in
      let taking_part : s.swarm_participating ≡ true = ground arith in
      rw (admitted, here, taking_part)
        (any-select source (λ n. leb n 0x7fff) _ (ground arith)
          (renewed_number s.swarm_id later source _ s.peer_presence (ground arith)))
