-- ===== src/Mesh/Swarm/Selection/Vote.antt =====
-- What an election does: whom it makes the active provisioner, and what it purges.
use mrs_uav_bluetooth.Mesh.Swarm.Selection.Consistent.{
  activate-IsConsistent, activate-keeps, purge-IsConsistent, IsConsistent,
}
use mrs_uav_bluetooth.Mesh.Swarm.Selection.Agreement.{
  least_from_is, available_own, available_key, available_cases, least-le-available,
}
use mrs_uav_bluetooth.Prelude.{
  false, is_some, All, ◌<◌, ◌≢◌, Option, none, some, ◌++◌, refl, ◌==◌, if◌then◌else◌, ap,
  Bool-cases, is_empty, sym, ◌∙◌, ◌⊎◌, inl, inr, not, ℕ, ◌≤◌, ◌≡◌, Bool, true, List, [], ◌∷◌, arith,
}
use mrs_uav_bluetooth.Mesh.Swarm.Selection.{
  update_selection, outlives, purge_expired, available, selected_number, first_available,
  least_from,
}
use mathlib.Core.Path.{subst}
use mrs_uav_bluetooth.Mesh.Swarm.{Swarm, PeerPresence}
use mrs_uav_bluetooth.Mesh.Swarm.Presence.Admission.{IsAdmitted}
use mrs_uav_bluetooth.Prelude.NatMap.{NatMap}
use mrs_uav_bluetooth.Prelude.NatMap

-- A member takes part at `now`: it is the UAV itself, or its presence has not run out.
abbrev pub TakesPart : ℕ → Swarm → ℕ → Type 0
TakesPart now s n =
    (n ≡ s.local_number)
    ⊎ ((p : PeerPresence) × (NatMap.find n s.peer_presence ≡ some p) × (now < p.expires))

abbrev pub IsFirst : ℕ → Swarm → ℕ → Type 0
IsFirst now s n = (m : ℕ) → TakesPart now s m → n ≤ m

abbrev pub IsUnpreferred : ℕ → Swarm → Type 0
IsUnpreferred now s = (s.preferred_number ≡ 0) ⊎ (¬ TakesPart now s s.preferred_number)

-- What `now` makes of one entry of the presence table: it stays as long as its lease runs, it is gone
-- from its end on, and there is no other one.
pub data Purged (now : ℕ) : Option PeerPresence → Option PeerPresence → Type 0 where
  never_there : Purged now none none
  still_there : {p : PeerPresence} → now < p.expires → Purged now (some p) (some p)
  run_out : {p : PeerPresence} → p.expires ≤ now → Purged now (some p) none

-- Who is to be the active provisioner at `now`: the preferred member if it takes part; else, of the
-- whitelist, the first that takes part, or the UAV itself where none does; and without a whitelist the
-- least number that takes part.
pub data Elects (now : ℕ) (s : Swarm) : ℕ → Type 0 where
  elects_preferred :
      s.preferred_number ≢ 0 → TakesPart now s s.preferred_number → Elects now s s.preferred_number
  first_listed :
      {n : ℕ} (before rest : List ℕ)
      → IsUnpreferred now s
      → s.member_priority ≡ before ++ n ∷ rest
      → All (λ m. ¬ TakesPart now s m) before
      → TakesPart now s n
      → Elects now s n
  none_listed :
      (n : ℕ) (rest : List ℕ)
      → IsUnpreferred now s
      → s.member_priority ≡ n ∷ rest
      → All (λ m. ¬ TakesPart now s m) s.member_priority
      → Elects now s s.local_number
  least :
      {n : ℕ}
      → IsUnpreferred now s
      → s.member_priority ≡ []
      → TakesPart now s n
      → IsFirst now s n
      → Elects now s n

-- The first that passes stands behind some that do not, or there is none.
first_available-cases :
    (p : ℕ → Bool) (d : ℕ) (ns : List ℕ)
    → ((before : List ℕ) × (rest : List ℕ) × (ns ≡ before ++ first_available p d ns ∷ rest)
        × All (λ n. p n ≡ false) before
        × (p (first_available p d ns) ≡ true))
      ⊎ (All (λ n. p n ≡ false) ns × (first_available p d ns ≡ d))
first_available-cases p d [] = inr (tt, refl)
first_available-cases p d (n ∷ ns) = elim (Bool-cases (p n)) [
  | inl e ↦ inl ([], ns, rw e refl, tt, rw e e)
  | inr e ↦ elim (first_available-cases p d ns) [
    | inl (before, rest, split, skipped, there) ↦
        inl (n ∷ before, rest, rw e (ap (◌∷◌ n) split), (e, skipped), rw e there)
    | inr (nobody, default) ↦ inr ((e, nobody), rw e default)
  ]
]

Purged-keep_if :
    (now : ℕ) (entry : Option PeerPresence) → Purged now entry (NatMap.keep_if (outlives now) entry)
Purged-keep_if now none = never_there
Purged-keep_if now (some p) = elim (Bool-cases (outlives now p)) [
  | inl e ↦ rw e (still_there (ground (arith, e)))
  | inr e ↦ rw e (run_out (ground (arith, e)))
]

module _ (now : ℕ) (s : Swarm) (h : IsAdmitted s) where
  purge-Purged :
      (n : ℕ)
      → Purged now
          (NatMap.find n s.peer_presence)
          (NatMap.find n (purge_expired now s).peer_presence)
  unfolding purge_expired
  purge-Purged n =
      rw (NatMap.find-retain (outlives now) 1 n s.peer_presence h.ascends)
        (Purged-keep_if now (NatMap.find n s.peer_presence))

  entry-live :
      (n : ℕ) (before after : Option PeerPresence)
      → Purged now before after
      → NatMap.find n s.peer_presence ≡ before
      → is_some after ≡ true
      → TakesPart now s n
  entry-live n none none never_there e there = cc
  entry-live n none (some q) odd e there = elim odd [ ]
  entry-live n (some p) (some q) (still_there soon) e there = inr (p, e, soon)
  entry-live n (some p) none (run_out late) e there = cc

  live-entry :
      (n : ℕ) (before after : Option PeerPresence) {p : PeerPresence}
      → Purged now before after
      → before ≡ some p
      → now < p.expires
      → is_some after ≡ true
  live-entry n none none never_there e soon = cc
  live-entry n none (some r) odd e soon = elim odd [ ]
  live-entry n (some q) (some r) (still_there soon') e soon = refl
  live-entry n (some q) none (run_out late) e soon = ground arith

  purge-local : (purge_expired now s).local_number ≡ s.local_number
  unfolding purge_expired
  purge-local = refl

  -- The election sees exactly the members that take part.
  available-TakesPart : (n : ℕ) → available (purge_expired now s) n ≡ true → TakesPart now s n
  available-TakesPart n a = elim (available_cases (purge_expired now s) n a) [
    | inl own ↦ inl (own ∙ purge-local)
    | inr key ↦
        entry-live n (NatMap.find n s.peer_presence)
          (NatMap.find n (purge_expired now s).peer_presence) (purge-Purged n) refl key
  ]

  TakesPart-available : (n : ℕ) → TakesPart now s n → available (purge_expired now s) n ≡ true
  TakesPart-available n (inl own) =
      subst (λ m. available (purge_expired now s) m ≡ true) (purge-local ∙ sym own)
        (available_own (purge_expired now s))
  TakesPart-available n (inr (p, found, soon)) = available_key (purge_expired now s) n (
      live-entry n (NatMap.find n s.peer_presence)
        (NatMap.find n (purge_expired now s).peer_presence) (purge-Purged n) found soon)

  absent : (n : ℕ) → available (purge_expired now s) n ≡ false → ¬ TakesPart now s n
  absent n a part = let there = TakesPart-available n part in cc

  each_absent :
      (ns : List ℕ)
      → All (λ n. available (purge_expired now s) n ≡ false) ns
      → All (λ n. ¬ TakesPart now s n) ns
  each_absent [] h = tt
  each_absent (n ∷ ns) (one, more) = (absent n one, each_absent ns more)

  listed-Elects :
      (n : ℕ) (ns : List ℕ)
      → IsUnpreferred now s
      → s.member_priority ≡ n ∷ ns
      → Elects now s
          (first_available (available (purge_expired now s)) s.local_number s.member_priority)
  listed-Elects n ns unpreferred listed =
      elim (first_available-cases (available (purge_expired now s)) s.local_number
        s.member_priority) [
          | inl (before, rest, split, skipped, there) ↦
              first_listed before rest unpreferred split (each_absent before skipped)
                (available-TakesPart _ there)
          | inr (nobody, default) ↦
              subst (Elects now s) (sym default)
                (none_listed n ns unpreferred listed (each_absent s.member_priority nobody))
        ]

  least-Elects :
      IsUnpreferred now s
      → s.member_priority ≡ []
      → Elects now s (
          least_from
            (purge_expired now s).local_number
            (NatMap.keys (purge_expired now s).peer_presence))
  least-Elects unpreferred open_swarm =
      let purged = purge_expired now s in
      least unpreferred open_swarm
        (available-TakesPart (least_from purged.local_number (NatMap.keys purged.peer_presence)) (
          least_from_is (available purged) purged.local_number purged.peer_presence
            (available_own purged) (available_key purged)))
        (λ m part. least-le-available purged m (TakesPart-available m part))

  unpreferred-Elects :
      (ns : List ℕ)
      → IsUnpreferred now s
      → s.member_priority ≡ ns
      → Elects now s (
          if not (is_empty s.member_priority)
          then first_available (available (purge_expired now s)) s.local_number s.member_priority
          else least_from
              (purge_expired now s).local_number
              (NatMap.keys (purge_expired now s).peer_presence))
  unpreferred-Elects [] unpreferred listed =
      let given : not (is_empty s.member_priority) ≡ false = ap (λ ns. not (is_empty ns)) listed in
      rw given (least-Elects unpreferred listed)
  unpreferred-Elects (n ∷ ns) unpreferred listed =
      let given : not (is_empty s.member_priority) ≡ true = ap (λ ns. not (is_empty ns)) listed in
      rw given (listed-Elects n ns unpreferred listed)

  selected_number-Elects : Elects now s (selected_number (purge_expired now s))
  unfolding selected_number purge_expired
  selected_number-Elects =
      let there = available (purge_expired now s) s.preferred_number in
      elim (Bool-cases (not (s.preferred_number == 0))) [
        | inr none_given ↦
            rw none_given (unpreferred-Elects s.member_priority (inl (ground arith)) refl)
        | inl given ↦ rw given (elim (Bool-cases there) [
          | inl here ↦
              rw here
                (elects_preferred (λ e. ground arith) (available-TakesPart s.preferred_number here))
          | inr gone ↦
              rw gone
                (unpreferred-Elects s.member_priority (inr (absent s.preferred_number gone)) refl)
        ])
      ]

-- After an election at `now` in a consistent state the state is consistent again; the active provisioner
-- is the preferred member if that takes part, being the UAV itself or having a presence that has not run
-- out, else the first of the whitelist that takes part, the UAV itself where none of it does, or without
-- a whitelist the least number that takes part; and each entry of the presence table stays as long as
-- its lease runs and is gone from its end on.
pub update_selection-Elects :
    (now : ℕ) (s : Swarm) (n : ℕ)
    → IsConsistent s
    → IsAdmitted s
    → IsConsistent (update_selection now s)
      × Elects now s (update_selection now s).active_number
      × Purged now
          (NatMap.find n s.peer_presence)
          (NatMap.find n (update_selection now s).peer_presence)
unfolding update_selection
update_selection-Elects now s n c h =
    let purged = purge_expired now s in
    let (ok', chosen) =
      activate-IsConsistent (selected_number purged) now purged (purge-IsConsistent now s c) in
    (
      ok',
      subst (Elects now s) (sym chosen) (selected_number-Elects now s h),
      subst (λ table. Purged now (NatMap.find n s.peer_presence) (NatMap.find n table))
          (sym (activate-keeps (selected_number purged) now purged)) (purge-Purged now s h n),
    )
