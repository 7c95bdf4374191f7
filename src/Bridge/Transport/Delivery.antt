-- ===== src/Bridge/Transport/Delivery.antt =====
-- The send side: samples that come in during a dispatch, and the deadline after an accepted value.
use mrs_uav_bluetooth.Prelude.{
  sym, leb, ◌==◌, if◌then◌else◌, Bool-cases, is_some, if_cases, set, zero, ◌∙◌, inl, inr, not, ◌&&◌,
  arith, ℕ, suc, ◌+◌, ◌*◌, ◌≤◌, ◌<◌, ◌≡◌, refl, ◌⊎◌, Bool, true, false, Option, none, some, List,
  [], ◌∷◌,
}
use mrs_uav_bluetooth.Bridge.Transport.{
  is_early, begin_with, step_deadline, buffer_payload, begin_flush, next_deadline, schedule,
  finish_flush, BridgeEntry, Dispatch,
}
use mathlib.Core.Path.{subst}

-- Samples that come while a value is with the sender: each is buffered.
abbrev pub buffer_all : List (List ℕ) → BridgeEntry → BridgeEntry
buffer_all [] entry = entry
buffer_all (payload ∷ payloads) entry = buffer_all payloads (buffer_payload payload entry)

abbrev pub newest : List ℕ → List (List ℕ) → List ℕ
newest payload [] = payload
newest payload (p ∷ payloads) = newest p payloads

-- What waits after the sender took the value or left it.
abbrev pub left_waiting : Bool → List ℕ → List (List ℕ) → Option (List ℕ)
left_waiting true payload [] = none
left_waiting false payload [] = some payload
left_waiting accepted payload (p ∷ payloads) = some (newest p payloads)

buffer_all-pending :
    (payloads : List (List ℕ)) (entry : BridgeEntry) (p : List ℕ)
    → entry.pending_payload ≡ some p
    → (buffer_all payloads entry).pending_payload ≡ some (newest p payloads)
unfolding buffer_payload
buffer_all-pending [] entry p h = h
buffer_all-pending (q ∷ payloads) entry p h =
    buffer_all-pending payloads (buffer_payload q entry) q refl

buffer_all-generation :
    (payloads : List (List ℕ)) (entry : BridgeEntry)
    → (buffer_all payloads entry).generation ≡ entry.generation
unfolding buffer_payload
buffer_all-generation [] entry = refl
buffer_all-generation (q ∷ payloads) entry = buffer_all-generation payloads (buffer_payload q entry)

module _ (taken : Dispatch) (now : ℕ) where
  schedule-pending :
      (period : Option ℕ) (entry : BridgeEntry)
      → (schedule period now entry).pending_payload ≡ entry.pending_payload
  schedule-pending none entry = refl
  schedule-pending (some period) entry = refl

  finish-keeps :
      (accepted : Bool) (entry : BridgeEntry) (p : List ℕ)
      → entry.pending_payload ≡ some p
      → (finish_flush accepted taken now entry).pending_payload ≡ some p
  unfolding finish_flush
  finish-keeps accepted entry p h =
      if_cases (λ (e : BridgeEntry). e.pending_payload ≡ some p)
        (not (entry.generation == taken.generation)) (λ other. h)
        (λ own.
          if_cases (λ (e : BridgeEntry). e.pending_payload ≡ some p) accepted
            (λ yes. schedule-pending taken.config.period entry ∙ h)
            (λ no.
              if_cases (λ (e : BridgeEntry). e.pending_payload ≡ some p)
                (entry.revision == taken.revision && not (is_some entry.pending_payload))
                (λ same. grind (arith, h, same)) (λ changed. h)))

-- A flush that takes a value takes the pending one, and remembers the entry as it was.
abbrev IsTaken : Dispatch → BridgeEntry → BridgeEntry → Type 0
IsTaken taken entry left =
    (left.pending_payload ≡ none)
    × (taken.revision ≡ left.revision)
    × (taken.generation ≡ left.generation)
    × (entry.pending_payload ≡ some taken.payload)

begin_with-IsTaken :
    (pending : Option (List ℕ)) (generation begun : ℕ) (entry : BridgeEntry) (taken : Dispatch)
    (left : BridgeEntry)
    → entry.pending_payload ≡ pending
    → entry.generation ≡ generation
    → begin_with pending generation begun entry ≡ (some taken, left)
    → IsTaken taken entry left
begin_with-IsTaken none generation begun entry taken left p g h = absurd (cc h)
begin_with-IsTaken (some payload) generation begun entry taken left p g h =
    elim (Bool-cases (is_early entry.config.period begun entry.next_dispatch_at)) [
      | inl early ↦ absurd (cc (h, early))
      | inr due ↦ (cc, cc, cc, cc)
    ]

begin_flush-IsTaken :
    (entry : BridgeEntry) (generation begun : ℕ) (taken : Dispatch) (left : BridgeEntry)
    → begin_flush generation begun entry ≡ (some taken, left)
    → IsTaken taken entry left
unfolding begin_flush
begin_flush-IsTaken entry generation begun taken left h =
    elim (Bool-cases (entry.generation == generation)) [
      | inl own ↦
          begin_with-IsTaken entry.pending_payload generation begun entry taken left refl
            (ground (arith, own))
            (subst
              (λ b.
                (if not b
                  then (none, entry)
                  else begin_with entry.pending_payload generation begun entry)
                ≡ (some taken, left))
              own h)
      | inr other ↦ absurd (cc (h, other))
    ]

equal_test : (a b : ℕ) → a ≡ b → (a == b) ≡ true
equal_test a b h = ground (arith, h)

finish_flush-left_waiting :
    (taken : Dispatch) (left : BridgeEntry) (finished : ℕ) (payloads : List (List ℕ))
    (accepted : Bool)
    → left.pending_payload ≡ none
    → taken.revision ≡ left.revision
    → taken.generation ≡ left.generation
    → (finish_flush accepted taken finished (buffer_all payloads left)).pending_payload
      ≡ left_waiting accepted taken.payload payloads
finish_flush-left_waiting taken left finished [] true empty same own =
    unfold finish_flush in
    rw (equal_test left.generation taken.generation (sym own))
      (schedule-pending taken finished taken.config.period left ∙ empty)
finish_flush-left_waiting taken left finished [] false empty same own =
    unfold finish_flush in
    rw
      (
        equal_test left.generation taken.generation (sym own),
        equal_test left.revision taken.revision (sym same),
        empty,
      )
      refl
finish_flush-left_waiting taken left finished (p ∷ payloads) true empty same own =
    finish-keeps taken finished true (buffer_all payloads (buffer_payload p left))
      (newest p payloads)
      (buffer_all-pending payloads (buffer_payload p left) p (unfold buffer_payload in refl))
finish_flush-left_waiting taken left finished (p ∷ payloads) false empty same own =
    finish-keeps taken finished false (buffer_all payloads (buffer_payload p left))
      (newest p payloads)
      (buffer_all-pending payloads (buffer_payload p left) p (unfold buffer_payload in refl))

-- A flush that takes a value out of an entry, and is finished after the sender accepted it or not,
-- leaves the newest of the samples buffered meanwhile; where there is none, it leaves the value if
-- the sender refused it and nothing if it accepted it.
pub finish_flush-newest :
    (entry : BridgeEntry) (generation begun finished : ℕ) (taken : Dispatch) (left : BridgeEntry)
    (payloads : List (List ℕ)) (accepted : Bool)
    → begin_flush generation begun entry ≡ (some taken, left)
    → (finish_flush accepted taken finished (buffer_all payloads left)).pending_payload
      ≡ left_waiting accepted taken.payload payloads
finish_flush-newest entry generation begun finished taken left payloads accepted h =
    let (empty, same, own, was) = begin_flush-IsTaken entry generation begun taken left h in
    finish_flush-left_waiting taken left finished payloads accepted empty same own

step_deadline_lem :
    (fuel spacing now deadline : ℕ)
    → 0 < spacing
    → deadline ≤ now
    → now < deadline + fuel
    → (now < step_deadline fuel spacing now deadline)
      × (step_deadline fuel spacing now deadline ≤ now + spacing)
      × ((k : ℕ) × (step_deadline fuel spacing now deadline ≡ deadline + suc k * spacing))
unfolding step_deadline
step_deadline_lem zero spacing now deadline positive due enough = absurd (omega arith)
step_deadline_lem (suc fuel) spacing now deadline positive due enough =
    elim (Bool-cases (leb (deadline + spacing) now)) [
      | inl again ↦
          let next : deadline + spacing ≤ now = ground (arith, again) in
          let (after, close, (k, grid)) =
            step_deadline_lem fuel spacing now (deadline + spacing) positive next (omega arith) in
          rw again (after, close, (suc k, grid ∙ omega arith))
      | inr reached ↦ rw reached (ground (arith, reached), omega arith, (0, omega arith))
    ]

-- The deadline behind an accepted value lies after the time of its acceptance, by one spacing at
-- most, and where there was a deadline, a positive number of spacings after it.
pub next_deadline_lem :
    (spacing now deadline : ℕ)
    → 0 < spacing
    → deadline ≤ now
    → (now < next_deadline spacing now deadline)
      × (next_deadline spacing now deadline ≤ now + spacing)
      × ((deadline ≡ 0)
          ⊎ ((k : ℕ) × (next_deadline spacing now deadline ≡ deadline + suc k * spacing)))
unfolding next_deadline
next_deadline_lem spacing now deadline positive due = elim (Bool-cases (deadline == 0)) [
  | inl unset ↦ rw unset (omega arith, omega arith, inl (ground (arith, unset)))
  | inr set ↦
      let (after, close, grid) =
        step_deadline_lem (suc now) spacing now deadline positive due (omega arith) in
      rw set (after, close, inr grid)
]
