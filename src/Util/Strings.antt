-- ===== src/Util/Strings.antt =====
-- src/util/string_utils.cpp, and the searches of std::string that the topic utilities share.
-- `find_first_not_of` and `find_last_not_of` followed by `substr` cut a run off either end of a text;
-- `npos` is the case where nothing is left. The classes are those of the C locale.
use mrs_uav_bluetooth.Prelude.{
  ℕ, ◌+◌, ◌≡◌, refl, ap, ◌∙◌, inl, inr, Bool, true, false, ◌||◌, [], ◌∷◌, map, arith, Text, ◌==◌,
  if◌then◌else◌, All, is_upper, Bool-cases,
}

-- Cut the longest run of bytes in the class off the front.
abbrev pub drop_while : (ℕ → Bool) → Text → Text
drop_while p [] = []
drop_while p (c ∷ t) = if p c then drop_while p t else c ∷ t

-- The loop `while (!empty() && p(back())) pop_back()`.
unfoldable pub drop_end : (ℕ → Bool) → Text → Text
drop_end p [] = []
drop_end p (c ∷ t) = elim (drop_end p t) [ [] ↦ if p c then [] else c ∷ [] | d ∷ u ↦ c ∷ d ∷ u ]

abbrev pub is_space : ℕ → Bool
is_space c = c == b' ' || c == 10 || c == 13 || c == 9

unfoldable pub trim_ascii_copy : Text → Text
unfolding drop_end
trim_ascii_copy value = drop_while is_space (drop_end is_space value)

abbrev pub to_lower : ℕ → ℕ
to_lower c = if is_upper c then c + 32 else c

unfoldable pub lower_trim_copy : Text → Text
unfolding trim_ascii_copy
lower_trim_copy value = map to_lower (trim_ascii_copy value)

-- The text neither begins nor ends with a byte of the class.
abbrev pub StartsOutside : (ℕ → Bool) → Text → Type 0
StartsOutside p [] = Unit {0}
StartsOutside p (c ∷ t) = p c ≡ false

abbrev pub EndsOutside : (ℕ → Bool) → Text → Type 0
EndsOutside p [] = Unit {0}
EndsOutside p (c ∷ []) = p c ≡ false
EndsOutside p (c ∷ d ∷ t) = EndsOutside p (d ∷ t)

module _ (p : ℕ → Bool) where
  pub drop_while-StartsOutside : (t : Text) → StartsOutside p (drop_while p t)
  drop_while-StartsOutside [] = tt
  drop_while-StartsOutside (c ∷ t) = elim (Bool-cases (p c)) [
    | inl e ↦ rw e (drop_while-StartsOutside t)
    | inr e ↦ rw e e
  ]

  EndsOutside-cons : (c d : ℕ) (s t : Text) → s ≡ d ∷ t → EndsOutside p s → EndsOutside p (c ∷ s)
  EndsOutside-cons c d [] t e h = cc
  EndsOutside-cons c d (x ∷ s) t e h = h

  pub drop_end-EndsOutside : (t : Text) → EndsOutside p (drop_end p t)
  unfolding drop_end
  drop_end-EndsOutside [] = tt
  drop_end-EndsOutside (c ∷ t) = step (drop_end p t) (drop_end-EndsOutside t)
    where
      last : (b : Bool) → p c ≡ b → EndsOutside p (if b then [] else c ∷ [])
      last true e = tt
      last false e = e

      step :
          (s : Text)
          → EndsOutside p s
          → EndsOutside p (elim s [ [] ↦ if p c then [] else c ∷ [] | d ∷ u ↦ c ∷ d ∷ u ])
      step [] h = last (p c) refl
      step (d ∷ u) h = h

  pub drop_while_fixed : (t : Text) → StartsOutside p t → drop_while p t ≡ t
  drop_while_fixed [] h = refl
  drop_while_fixed (c ∷ t) h = rw h

  pub drop_end_fixed : (t : Text) → EndsOutside p t → drop_end p t ≡ t
  unfolding drop_end
  drop_end_fixed [] h = refl
  drop_end_fixed (c ∷ []) h = rw h
  drop_end_fixed (c ∷ d ∷ t) h = rw (drop_end_fixed (d ∷ t) h, drop_end)

  -- Cutting at the front keeps the end.
  pub drop_while-EndsOutside : (t : Text) → EndsOutside p t → EndsOutside p (drop_while p t)
  drop_while-EndsOutside [] h = tt
  drop_while-EndsOutside (c ∷ []) h = rw h h
  drop_while-EndsOutside (c ∷ d ∷ t) h = elim (Bool-cases (p c)) [
    | inl e ↦ rw e (drop_while-EndsOutside (d ∷ t) h)
    | inr e ↦ rw e h
  ]

  -- Cutting at the end keeps a start outside the class.
  pub drop_end-StartsOutside : (t : Text) → StartsOutside p t → StartsOutside p (drop_end p t)
  unfolding drop_end
  drop_end-StartsOutside [] h = tt
  drop_end-StartsOutside (c ∷ t) h = step (drop_end p t)
    where
      step :
          (s : Text)
          → StartsOutside p (elim s [ [] ↦ if p c then [] else c ∷ [] | d ∷ u ↦ c ∷ d ∷ u ])
      step [] = rw h h
      step (d ∷ u) = h

  pub drop_end-All {κ} : (P : ℕ → Type κ) (t : Text) → All P t → All P (drop_end p t)
  unfolding drop_end
  drop_end-All P [] h = h
  drop_end-All P (c ∷ t) h = step (drop_end p t) (drop_end-All P t h.1)
    where
      last : (b : Bool) → All P (if b then [] else c ∷ [])
      last true = tt
      last false = (h.0, tt)

      step :
          (s : Text)
          → All P s
          → All P (elim s [ [] ↦ if p c then [] else c ∷ [] | d ∷ u ↦ c ∷ d ∷ u ])
      step [] k = last (p c)
      step (d ∷ u) k = (h.0, k)

  pub drop_while-All {κ} : (P : ℕ → Type κ) (t : Text) → All P t → All P (drop_while p t)
  drop_while-All P [] h = h
  drop_while-All P (c ∷ t) h = elim (Bool-cases (p c)) [
    | inl e ↦ rw e (drop_while-All P t h.1)
    | inr e ↦ rw e h
  ]

-- The part between the first and the last byte outside the class.
abbrev pub strip : (ℕ → Bool) → Text → Text
strip p t = drop_end p (drop_while p t)

pub strip_fixed : (p : ℕ → Bool) (t : Text) → StartsOutside p t → EndsOutside p t → strip p t ≡ t
strip_fixed p t h k = ap (drop_end p) (drop_while_fixed p t h) ∙ drop_end_fixed p t k

-- Trimming is the identity exactly on texts with no space at either end, and its result is such a
-- text.
pub trim_ascii_copy_edges :
    (t : Text)
    → StartsOutside is_space (trim_ascii_copy t) × EndsOutside is_space (trim_ascii_copy t)
unfolding trim_ascii_copy
trim_ascii_copy_edges t = (
  drop_while-StartsOutside is_space (drop_end is_space t),
  drop_while-EndsOutside is_space (drop_end is_space t) (drop_end-EndsOutside is_space t),
)

pub trim_ascii_copy_fixed :
    (t : Text) → StartsOutside is_space t → EndsOutside is_space t → trim_ascii_copy t ≡ t
unfolding trim_ascii_copy
trim_ascii_copy_fixed t h k =
    ap (drop_while is_space) (drop_end_fixed is_space t k) ∙ drop_while_fixed is_space t h

to_lower-is_space : (c : ℕ) → is_space (to_lower c) ≡ is_space c
to_lower-is_space c = ground arith

to_lower_idem : (c : ℕ) → to_lower (to_lower c) ≡ to_lower c
to_lower_idem c = ground arith

map-to_lower_idem : (t : Text) → map to_lower (map to_lower t) ≡ map to_lower t
map-to_lower_idem [] = refl
map-to_lower_idem (c ∷ t) = cc (to_lower_idem c, map-to_lower_idem t)

lower-StartsOutside :
    (t : Text) → StartsOutside is_space t → StartsOutside is_space (map to_lower t)
lower-StartsOutside [] h = tt
lower-StartsOutside (c ∷ t) h = to_lower-is_space c ∙ h

lower-EndsOutside : (t : Text) → EndsOutside is_space t → EndsOutside is_space (map to_lower t)
lower-EndsOutside [] h = tt
lower-EndsOutside (c ∷ []) h = to_lower-is_space c ∙ h
lower-EndsOutside (c ∷ d ∷ t) h = lower-EndsOutside (d ∷ t) h

-- The normal form that names are compared in is stable: normalising a normalised name changes
-- nothing.
lower_trim_copy_idem : (t : Text) → lower_trim_copy (lower_trim_copy t) ≡ lower_trim_copy t
unfolding lower_trim_copy
lower_trim_copy_idem t =
    let (h, k) = trim_ascii_copy_edges t in
    ap (map to_lower) (
      trim_ascii_copy_fixed (map to_lower (trim_ascii_copy t))
        (lower-StartsOutside (trim_ascii_copy t) h) (lower-EndsOutside (trim_ascii_copy t) k))
    ∙ map-to_lower_idem (trim_ascii_copy t)
