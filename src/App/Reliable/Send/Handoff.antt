-- ===== src/App/Reliable/Send/Handoff.antt =====
-- Whom a turn of src/app/service_node_mesh.cpp goes to: around the ring, in exactly one copy.
use mrs_uav_bluetooth.Prelude.{
  ltb, leb, ◌-◌, ap, sym, Bool, false, Option, none, some, ◌++◌, ◌≢◌, true, ◌||◌, ◌==◌,
  if◌then◌else◌, Bool-cases, length, get_or, ℕ, zero, suc, ◌+◌, ◌≤◌, ◌<◌, ◌≡◌, refl, ◌∙◌, inl, inr,
  List, [], ◌∷◌, arith,
}
use mrs_uav_bluetooth.App.Reliable.{
  Reliable, k_reliable_data, marker_of, make_reliable_data, sorted_unique, mesh_turn_members,
}
use mrs_uav_bluetooth.App.Reliable.Send.{transmit, turn_marker, copy_for, fan_out}
use mrs_uav_bluetooth.App.Reliable.Send.Turn.{
  has-sorted_unique, sorted_unique-Ascends, has_below, has, Ascends,
}
use mrs_uav_bluetooth.App.Reliable.Send.Choice.{
  add_probe, successor, Admission, next_after, Submission,
}
use mathlib.Core.Path.{subst}
use mrs_uav_bluetooth.Bridge.Transport.{SharedTopic}

get_or-Ascends :
    (bound i : ℕ) (ms : List ℕ) → Ascends bound ms → i < length ms → bound ≤ get_or ms i 0
get_or-Ascends bound i [] up fits = omega arith
get_or-Ascends bound zero (m ∷ ms) up fits = up.0
get_or-Ascends bound (suc i) (m ∷ ms) up fits =
    let later = get_or-Ascends (suc m) i ms up.1 (omega arith) in omega (arith, up.0)

get_or_end : (front i : ℕ) (ms : List ℕ) → length ms ≤ i → get_or ms i front ≡ front
get_or_end front i [] long = refl
get_or_end front zero (m ∷ ms) long = omega arith
get_or_end front (suc i) (m ∷ ms) long = get_or_end front i ms (omega arith)

get_or_fits : (c d i : ℕ) (ms : List ℕ) → i < length ms → get_or ms i c ≡ get_or ms i d
get_or_fits c d i [] fits = omega arith
get_or_fits c d zero (m ∷ ms) fits = refl
get_or_fits c d (suc i) (m ∷ ms) fits = get_or_fits c d i ms (omega arith)

next_after-get_or :
    (bound front i : ℕ) (ms : List ℕ)
    → Ascends bound ms
    → i < length ms
    → next_after (get_or ms i 0) front ms ≡ get_or ms (suc i) front
next_after-get_or bound front i [] up fits = omega arith
next_after-get_or bound front zero (m ∷ ms) up fits = ground arith
next_after-get_or bound front (suc i) (m ∷ ms) up fits =
    let later = get_or-Ascends (suc m) i ms up.1 (omega arith) in
    let rest = next_after-get_or (suc m) front i ms up.1 (omega arith) in ground arith

-- The place that a turn goes to from a place of the ring.
abbrev pub next_place : ℕ → ℕ → ℕ
next_place i n = if suc i == n then 0 else suc i

-- From each member the turn goes to the one behind it, from the last to the first.
successor-next_place :
    (own i : ℕ) (peers : List ℕ)
    → i < length (mesh_turn_members own peers)
    → successor (get_or (mesh_turn_members own peers) i 0) (mesh_turn_members own peers)
      ≡ get_or (mesh_turn_members own peers) (next_place i (length (mesh_turn_members own peers))) 0
unfolding successor mesh_turn_members
successor-next_place own i peers fits =
    let ms = sorted_unique (own ∷ peers) in
    let next =
      next_after-get_or 0 (get_or ms 0 0) i ms (sorted_unique-Ascends (own ∷ peers)) fits in
    elim (Bool-cases (suc i == length ms)) [
      | inl e ↦ rw e (next ∙ get_or_end (get_or ms 0 0) (suc i) ms (ground arith))
      | inr e ↦ rw e (next ∙ get_or_fits (get_or ms 0 0) 0 (suc i) ms (ground arith))
    ]

-- The member that holds the turn after so many of the ring's members passed it on.
abbrev pub passed_on : ℕ → ℕ → List ℕ → ℕ
passed_on zero member ring = member
passed_on (suc passes) member ring = successor (passed_on passes member ring) ring

-- A place that lies less than a round behind the ring's end, on the ring.
abbrev wrapped : ℕ → ℕ → ℕ
wrapped place n = if ltb place n then place else place - n

wrapped-next_place :
    (i k n : ℕ) → i < n → k < n → next_place (wrapped (i + k) n) n ≡ wrapped (i + suc k) n
wrapped-next_place i k n fits early = ground arith

wrapped_fits : (i k n : ℕ) → i < n → k ≤ n → wrapped (i + k) n < n
wrapped_fits i k n fits early = ground arith

module _ (own : ℕ) (peers : List ℕ) where
  abbrev ring : List ℕ
  ring = mesh_turn_members own peers

  passed_on-wrapped :
      (i k : ℕ)
      → i < length ring
      → k ≤ length ring
      → passed_on k (get_or ring i 0) ring ≡ get_or ring (wrapped (i + k) (length ring)) 0
  passed_on-wrapped i zero fits early =
      let here : wrapped (i + zero) (length ring) ≡ i = ground arith in
      ap (λ place. get_or ring place 0) (sym here)
  passed_on-wrapped i (suc k) fits early =
      ap (λ m. successor m ring) (passed_on-wrapped i k fits (omega arith))
      ∙ successor-next_place own (wrapped (i + k) (length ring)) peers
          (wrapped_fits i k (length ring) fits (omega arith))
      ∙ ap (λ place. get_or ring place 0) (wrapped-next_place i k (length ring) fits (omega arith))

  -- How often the turn is passed on from one place of the ring to another.
  abbrev passes_between : ℕ → ℕ → ℕ
  passes_between i j = if leb i j then j - i else j + length ring - i

  between_fits : (i j : ℕ) → i < length ring → j < length ring → passes_between i j < length ring
  between_fits i j fits fits' = ground arith

  between-wrapped :
      (i j : ℕ)
      → i < length ring
      → j < length ring
      → wrapped (i + passes_between i j) (length ring) ≡ j
  between-wrapped i j fits fits' = ground arith

  round-wrapped : (i : ℕ) → i < length ring → wrapped (i + length ring) (length ring) ≡ i
  round-wrapped i fits = ground arith

  -- If every member passes the turn on to its successor, the turn that one member of the ring holds
  -- reaches each member in fewer passes than the ring has members, and after as many passes as it has
  -- members the first holds it again.
  pub successor-cycles :
      (i j : ℕ)
      → i < length (mesh_turn_members own peers)
      → j < length (mesh_turn_members own peers)
      → ((passes : ℕ) × (passes < length (mesh_turn_members own peers))
          × (passed_on passes
                (get_or (mesh_turn_members own peers) i 0)
                (mesh_turn_members own peers)
              ≡ get_or (mesh_turn_members own peers) j 0))
        × (passed_on
              (length (mesh_turn_members own peers))
              (get_or (mesh_turn_members own peers) i 0)
              (mesh_turn_members own peers)
            ≡ get_or (mesh_turn_members own peers) i 0)
  successor-cycles i j fits fits' = (
    (
      passes_between i j,
      between_fits i j fits fits',
      passed_on-wrapped i (passes_between i j) fits (omega (arith, between_fits i j fits fits'))
          ∙ ap (λ place. get_or ring place 0) (between-wrapped i j fits fits'),
    ),
    passed_on-wrapped i (length ring) fits (omega arith)
        ∙ ap (λ place. get_or ring place 0) (round-wrapped i fits),
  )

-- The copies that hand the turn over.
abbrev pub handoffs : List Submission → ℕ
handoffs [] = 0
handoffs (m ∷ ms) = (if marker_of m.wire == k_reliable_data then 1 else 0) + handoffs ms

marker-copy_for :
    (b : SharedTopic) (payload : List ℕ) (sequence swarm_id next destination : ℕ)
    → marker_of (copy_for b (make_reliable_data payload sequence swarm_id) next destination).wire
      ≡ turn_marker destination next
unfolding make_reliable_data
marker-copy_for b [] sequence swarm_id next destination = refl
marker-copy_for b (x ∷ []) sequence swarm_id next destination = refl
marker-copy_for b (x ∷ y ∷ []) sequence swarm_id next destination = refl
marker-copy_for b (x ∷ y ∷ z ∷ rest) sequence swarm_id next destination = refl

module _ (b : SharedTopic) (payload : List ℕ) (sequence swarm_id next : ℕ) where
  abbrev copies : List ℕ → List Submission
  copies targets = fan_out b (make_reliable_data payload sequence swarm_id) next targets

  handoffs-fan_out :
      (bound : ℕ) (targets : List ℕ)
      → Ascends bound targets
      → handoffs (copies targets) ≡ (if has next targets then 1 else 0)
  handoffs-fan_out bound [] up = refl
  handoffs-fan_out bound (t ∷ ts) up =
      let rest = handoffs-fan_out (suc t) ts up.1 in
      let above = has_below next (suc t) ts in
      rw (marker-copy_for b payload sequence swarm_id next t, rest) (ground arith)

or_later :
    (x front m : ℕ) (ms : List ℕ)
    → ((x == front) || has x ms) ≡ true
    → ((x == front) || has x (m ∷ ms)) ≡ true
or_later x front m ms h = ground arith

-- The member behind one's own place is another one, and a member.
abbrev IsOther : ℕ → ℕ → List ℕ → ℕ → Type 0
IsOther own front ms x = (x ≢ own) × (((x == front) || has x ms) ≡ true)

next_after-IsOther :
    (bound own front : ℕ) (ms : List ℕ)
    → Ascends bound ms
    → has own ms ≡ true
    → front ≢ own
    → IsOther own front ms (next_after own front ms)
next_after-IsOther bound own front [] up mine other = cc
next_after-IsOther bound own front (m ∷ []) up mine other = ground arith
next_after-IsOther bound own front (m ∷ (k ∷ ks)) up mine other = elim (Bool-cases (m == own)) [
  | inl e ↦ rw e (ground arith)
  | inr e ↦
      let rest = next_after-IsOther (suc m) own front (k ∷ ks) up.1 (rw e at mine) other in
      let step : next_after own front (k ∷ ks) ≡ next_after own front (m ∷ k ∷ ks) = rw e refl in
      let later = or_later (next_after own front (k ∷ ks)) front m (k ∷ ks) rest.1 in
      subst (λ x. IsOther own front (m ∷ k ∷ ks) x) step (rest.0, later)
]

second_member :
    (own p m : ℕ) (ms : List ℕ)
    → Ascends 0 (m ∷ ms)
    → has p (m ∷ ms) ≡ true
    → p ≢ own
    → (m == own) ≡ true
    → (get_or ms 0 m ≢ own) × (has (get_or ms 0 m) (m ∷ ms) ≡ true)
second_member own p m [] up theirs other e = ground arith
second_member own p m (k ∷ ks) up theirs other e = ground arith

-- The successor in an ascending ring with another member is that member or another, not oneself.
successor-IsOther :
    (own p : ℕ) (ms : List ℕ)
    → Ascends 0 ms
    → has own ms ≡ true
    → has p ms ≡ true
    → p ≢ own
    → (successor own ms ≢ own) × (has (successor own ms) ms ≡ true)
unfolding successor
successor-IsOther own p [] up mine theirs other = cc
successor-IsOther own p (m ∷ ms) up mine theirs other = elim (Bool-cases (m == own)) [
  | inl e ↦
      let step : get_or ms 0 m ≡ successor own (m ∷ ms) = rw e refl in
      subst (λ x. (x ≢ own) × (has x (m ∷ ms) ≡ true)) step
        (second_member own p m ms up theirs other e)
  | inr e ↦
      let found = next_after-IsOther 0 own m (m ∷ ms) up mine (λ h. ground arith) in
      (found.0, ground (arith, found))
]

has-append : (k : ℕ) (ns ms : List ℕ) → has k ns ≡ true → has k (ns ++ ms) ≡ true
has-append k [] ms h = cc
has-append k (n ∷ ns) ms h = ground (arith, has-append k ns ms)

has-add_probe :
    (k : ℕ) (probe : Option ℕ) (peers : List ℕ)
    → has k peers ≡ true
    → has k (add_probe probe peers) ≡ true
has-add_probe k none peers h = h
has-add_probe k (some x) peers h = has-append k peers (x ∷ []) h

-- A node that has the turn hands it over in exactly one copy: where the node is not among its peers and
-- has one, one of the submitted frames carries the marker of the turn, whatever probe joins them.
pub transmit-handoffs :
    (resumed : Bool) (b : SharedTopic) (payload : List ℕ) (answer : ℕ → Admission)
    (swarm_id sequence own p : ℕ) (ps : List ℕ) (probe : Option ℕ) (now : ℕ) (r : Reliable)
    → has own (p ∷ ps) ≡ false
    → handoffs
        (transmit resumed b payload answer swarm_id
          (sorted_unique (add_probe probe (p ∷ ps)))
          sequence
          true
          (successor own (mesh_turn_members own (p ∷ ps)))
          now
          r).submitted
      ≡ 1
unfolding transmit mesh_turn_members
transmit-handoffs resumed b payload answer swarm_id sequence own p ps probe now r apart =
    let members = sorted_unique (own ∷ p ∷ ps) in
    let next = successor own members in
    let found =
      successor-IsOther own p members (sorted_unique-Ascends (own ∷ p ∷ ps))
        (has-sorted_unique own (own ∷ p ∷ ps) ∙ ground arith)
        (has-sorted_unique p (own ∷ p ∷ ps) ∙ ground arith) (λ h. ground arith) in
    let listed : has next (own ∷ p ∷ ps) ≡ true =
      sym (has-sorted_unique next (own ∷ p ∷ ps)) ∙ found.1 in
    let peer : has next (p ∷ ps) ≡ true = ground (arith, found.0) in
    handoffs-fan_out b payload sequence swarm_id next 0 (sorted_unique (add_probe probe (p ∷ ps)))
      (sorted_unique-Ascends (add_probe probe (p ∷ ps)))
    ∙ rw (has-sorted_unique next (add_probe probe (p ∷ ps)), has-add_probe next probe (p ∷ ps) peer)
        refl
