-- ===== src/Config/SharedTopics/Validation.antt =====
-- What validation accepts, src/config/shared_topic_config.cpp.
use mrs_uav_bluetooth.Prelude.{
  any, text_eq→eq, sym, ap, ◌∙◌, Bool, ◌++◌, Bool-cases, refl, ◌⊎◌, inl, inr, is_some, length, All,
  Text, codes, text_eq, ℕ, suc, ◌+◌, ◌*◌, ◌≤◌, ◌≡◌, true, false, Option, none, some, List, [], ◌∷◌,
  arith,
}
use mrs_uav_bluetooth.Config.SharedTopics.{
  lookup, k_type_meta, size_in, wire_size_for, payload_wire_size, normalize_value_type,
  check_members, validate_shared_topics, normalize_members, TopicMember, UnsupportedType,
}
use mathlib.Core.Path.{subst}

-- Each member has a type of at least a byte, and the payload has as many bytes as members at least and
-- eight times as many at most.
abbrev pub IsSized : List TopicMember → Type 0
IsSized ms =
    All (λ m. 1 ≤ wire_size_for (normalize_value_type m.value_type)) ms
    × ((length ms ≤ payload_wire_size (normalize_members ms))
        × (payload_wire_size (normalize_members ms) ≤ 8 * length ms))

-- The six aliases and the eleven types.
abbrev pub k_spellings : List Text
k_spellings =
    codes "boolean"
    ∷ codes "byte"
    ∷ codes "octet"
    ∷ codes "char"
    ∷ codes "float"
    ∷ codes "double"
    ∷ codes "bool"
    ∷ codes "int8"
    ∷ codes "uint8"
    ∷ codes "int16"
    ∷ codes "uint16"
    ∷ codes "int32"
    ∷ codes "uint32"
    ∷ codes "int64"
    ∷ codes "uint64"
    ∷ codes "float32"
    ∷ codes "float64"
    ∷ []

abbrev pub is_spelled : Text → Bool
is_spelled raw = any (λ spelling. text_eq spelling raw) k_spellings

abbrev pub IsSupported : TopicMember → Type 0
IsSupported m = is_spelled m.value_type ≡ true

abbrev pub IsAccepted : List TopicMember → Type 0
IsAccepted ms = All IsSupported ms × IsSized ms

-- The error names the first member, of the first topic, whose type is none of the spellings.
abbrev pub IsFirstUnsupported : ℕ → List (List TopicMember) → UnsupportedType → Type 0
IsFirstUnsupported i topics e =
    (earlier : List (List TopicMember)) × (later : List (List TopicMember)) × (before : List
      TopicMember)
    × (rest : List TopicMember) × (topics ≡ earlier ++ (before ++ e.member ∷ rest) ∷ later)
    × (e.topic ≡ i + length earlier)
    × All IsAccepted earlier
    × All IsSupported before
    × (is_spelled e.member.value_type ≡ false)

abbrev IsSmall : Text × (ℕ × ℕ) → Type 0
IsSmall e = (1 ≤ e.1.1) × (e.1.1 ≤ 8)

size_in-lookup :
    (key : Text) (table : List (Text × (ℕ × ℕ)))
    → All IsSmall table
    → is_some (lookup key table) ≡ true
    → (1 ≤ size_in (lookup key table)) × (size_in (lookup key table) ≤ 8)
size_in-lookup key [] small known = cc
size_in-lookup key ((k, v) ∷ rest) small known = elim (Bool-cases (text_eq k key)) [
  | inl e ↦ rw e small.0
  | inr e ↦ rw e (size_in-lookup key rest small.1 (rw e at known))
]

size_in-none : (o : Option (ℕ × ℕ)) → is_some o ≡ false → size_in o ≡ 0
size_in-none none unknown = refl
size_in-none (some v) unknown = cc

k_type_meta-IsSmall : All IsSmall k_type_meta
k_type_meta-IsSmall = omega arith

lookup-any :
    (key : Text) (table : List (Text × (ℕ × ℕ)))
    → is_some (lookup key table) ≡ any (λ e. text_eq e.0 key) table
lookup-any key [] = refl
lookup-any key ((k, v) ∷ rest) = elim (Bool-cases (text_eq k key)) [
  | inl e ↦ rw e refl
  | inr e ↦ rw e (lookup-any key rest)
]

-- A type is in the table of sizes, behind the aliases, exactly if it is one of the spellings.
normalize_value_type-is_spelled :
    (raw : Text) → is_some (lookup (normalize_value_type raw) k_type_meta) ≡ is_spelled raw
unfolding normalize_value_type
normalize_value_type-is_spelled raw = elim (Bool-cases (text_eq (codes "boolean") raw)) [
  | inl e ↦ subst Same (text_eq→eq (codes "boolean") raw e) refl
  | inr e₁ ↦ elim (Bool-cases (text_eq (codes "byte") raw)) [
    | inl e ↦ subst Same (text_eq→eq (codes "byte") raw e) refl
    | inr e₂ ↦ elim (Bool-cases (text_eq (codes "octet") raw)) [
      | inl e ↦ subst Same (text_eq→eq (codes "octet") raw e) refl
      | inr e₃ ↦ elim (Bool-cases (text_eq (codes "char") raw)) [
        | inl e ↦ subst Same (text_eq→eq (codes "char") raw e) refl
        | inr e₄ ↦ elim (Bool-cases (text_eq (codes "float") raw)) [
          | inl e ↦ subst Same (text_eq→eq (codes "float") raw e) refl
          | inr e₅ ↦ elim (Bool-cases (text_eq (codes "double") raw)) [
            | inl e ↦ subst Same (text_eq→eq (codes "double") raw e) refl
            | inr e₆ ↦ rw (e₁, e₂, e₃, e₄, e₅, e₆) (lookup-any raw k_type_meta)
          ]
        ]
      ]
    ]
  ]
]
  where
    Same : Text → Type 0
    Same t = is_some (lookup (normalize_value_type t) k_type_meta) ≡ is_spelled t

check_members-cases :
    (i : ℕ) (ms : List TopicMember)
    → ((check_members i ms ≡ none) × IsAccepted ms)
      ⊎ ((e : UnsupportedType) × (before : List TopicMember) × (rest : List TopicMember)
          × (check_members i ms ≡ some e)
          × (e.topic ≡ i)
          × (ms ≡ before ++ e.member ∷ rest)
          × All IsSupported before
          × (is_spelled e.member.value_type ≡ false))
unfolding check_members
check_members-cases i [] = inl (refl, (tt, (tt, (omega arith, omega arith))))
check_members-cases i (m ∷ ms) =
    let value_type = normalize_value_type m.value_type in
    let spelled = normalize_value_type-is_spelled m.value_type in
    elim (Bool-cases (is_some (lookup value_type k_type_meta))) [
      | inl known ↦
          let small = size_in-lookup value_type k_type_meta k_type_meta-IsSmall known in
          elim (check_members-cases i ms) [
            | inl (fine, (all_spelled, (sizes, (low, high)))) ↦ inl (
              rw known fine,
              (
                (sym spelled ∙ known, all_spelled),
                ((small.0, sizes), (omega (arith, small.0, low), omega (arith, small.1, high))),
              ),
            )
            | inr (e, before, rest, found, at_i, split, all_spelled, unspelled) ↦ inr (
              e,
              m ∷ before,
              rest,
              rw known found,
              at_i,
              ap (◌∷◌ m) split,
              (sym spelled ∙ known, all_spelled),
              unspelled,
            )
          ]
      | inr unknown ↦ inr (
        record { topic = i; member = m },
        [],
        ms,
        rw unknown refl,
        refl,
        refl,
        tt,
        sym spelled ∙ unknown,
      )
    ]

-- Validation decides by the members' types alone: either it accepts, and every member's type is one of
-- the eleven names or the six aliases, so that every topic's payload has as many bytes as members at
-- least and eight times as many at most; or it names the first member, of the first topic, whose type
-- is none of them.
pub validate_shared_topics-cases :
    (i : ℕ) (topics : List (List TopicMember))
    → ((validate_shared_topics i topics ≡ none) × All IsAccepted topics)
      ⊎ ((e : UnsupportedType) × (validate_shared_topics i topics ≡ some e)
          × IsFirstUnsupported i topics e)
unfolding validate_shared_topics
validate_shared_topics-cases i [] = inl (refl, tt)
validate_shared_topics-cases i (t ∷ ts) = elim (check_members-cases i t) [
  | inl (fine, accepted) ↦ elim (validate_shared_topics-cases (suc i) ts) [
    | inl (all_fine, all_accepted) ↦ inl (rw (fine, all_fine) refl, (accepted, all_accepted))
    | inr (e, found, (earlier, later, before, rest, split, place, fits, spelled, unspelled)) ↦ inr (
      e,
      rw (fine, found) refl,
      (
        t ∷ earlier,
        later,
        before,
        rest,
        ap (◌∷◌ t) split,
        omega (arith, place),
        (accepted, fits),
        spelled,
        unspelled,
      ),
    )
  ]
  | inr (e, before, rest, found, at_i, split, spelled, unspelled) ↦ inr (
    e,
    rw found refl,
    ([], ts, before, rest, ap (λ ms. ms ∷ ts) split, omega (arith, at_i), tt, spelled, unspelled),
  )
]
