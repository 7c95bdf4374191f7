-- ===== src/Util/Topics/Canonical.antt =====
-- The form of the topics that `normalize_ros_topic` makes.
use mrs_uav_bluetooth.Prelude.{
  Bool-cases, sym, ap, ◌∙◌, inl, inr, if◌then◌else◌, ℕ, refl, true, arith, ◌≡◌, Bool, false, [],
  ◌∷◌, Text, ◌&&◌,
}
use mrs_uav_bluetooth.Util.Topics.{
  lead_slash, strip_tail, or_root, normalize_trimmed, normalize_ros_topic, is_slash, collapse,
}
use mrs_uav_bluetooth.Util.Strings.{
  drop_end, is_space, StartsOutside, drop_end-EndsOutside, drop_end_fixed, strip, strip_fixed,
  EndsOutside,
}
use mathlib.Core.Path.{subst}

-- No two slashes stand side by side; the flag says whether a slash stands before the text.
abbrev pub SingleSlashes : Bool → Text → Type 0
SingleSlashes before [] = Unit {0}
SingleSlashes before (c ∷ t) = (is_slash c && before ≡ false) × SingleSlashes (is_slash c) t

-- The text begins with a slash.
abbrev pub IsAbsolute : Text → Type 0
IsAbsolute [] = ⊥
IsAbsolute (c ∷ t) = c ≡ b'/'

-- The text behind the first byte does not end with a slash.
abbrev pub TailEnds : Text → Type 0
TailEnds [] = Unit {0}
TailEnds (c ∷ t) = EndsOutside is_slash t

pub record IsCanonical (t : Text) : Type 0 where
  pub absolute : IsAbsolute t
  pub single : SingleSlashes false t
  pub tail_ends : TailEnds t

collapse_step :
    (c : ℕ) (s b : Bool) (rest : Text)
    → is_slash c ≡ s
    → SingleSlashes s rest
    → SingleSlashes b (if s && b then rest else c ∷ rest)
collapse_step c true true rest e h = h
collapse_step c true false rest e h = (ground arith, subst (λ x. SingleSlashes x rest) (sym e) h)
collapse_step c false b rest e h = (ground arith, subst (λ x. SingleSlashes x rest) (sym e) h)

collapse-SingleSlashes : (b : Bool) (t : Text) → SingleSlashes b (collapse b t)
unfolding collapse
collapse-SingleSlashes b [] = tt
collapse-SingleSlashes b (c ∷ t) =
    collapse_step c (is_slash c) b (collapse (is_slash c) t) refl
      (collapse-SingleSlashes (is_slash c) t)

lead_slash-SingleSlashes : (t : Text) → SingleSlashes false t → SingleSlashes false (lead_slash t)
lead_slash-SingleSlashes [] h = (refl, tt)
lead_slash-SingleSlashes (c ∷ t) h = elim (Bool-cases (is_slash c)) [
  | inl e ↦ rw e h
  | inr e ↦ rw e (refl, (rw e refl, h.1))
]

lead_slash-IsAbsolute : (t : Text) → IsAbsolute (lead_slash t)
lead_slash-IsAbsolute [] = refl
lead_slash-IsAbsolute (c ∷ t) = ground arith

drop_end-SingleSlashes :
    (p : ℕ → Bool) (b : Bool) (t : Text) → SingleSlashes b t → SingleSlashes b (drop_end p t)
unfolding drop_end
drop_end-SingleSlashes p b [] h = tt
drop_end-SingleSlashes p b (c ∷ t) h =
    step (drop_end p t) (drop_end-SingleSlashes p (is_slash c) t h.1)
  where
    last : (x : Bool) → SingleSlashes b (if x then [] else c ∷ [])
    last true = tt
    last false = (h.0, tt)

    step :
        (s : Text)
        → SingleSlashes (is_slash c) s
        → SingleSlashes b (elim s [ [] ↦ if p c then [] else c ∷ [] | d ∷ u ↦ c ∷ d ∷ u ])
    step [] k = last (p c)
    step (d ∷ u) k = (h.0, k)

strip_tail-IsCanonical :
    (t : Text) → IsAbsolute t → SingleSlashes false t → IsCanonical (or_root (strip_tail t))
strip_tail-IsCanonical [] a h = absurd a
strip_tail-IsCanonical (c ∷ t) a h = record {
  absolute = a;
  single = (h.0, drop_end-SingleSlashes is_slash (is_slash c) t h.1);
  tail_ends = drop_end-EndsOutside is_slash t;
}

normalize_trimmed-IsCanonical : (t : Text) → IsCanonical (normalize_trimmed t)
normalize_trimmed-IsCanonical [] = record { absolute = refl; single = (refl, tt); tail_ends = tt }
normalize_trimmed-IsCanonical (c ∷ t) =
    strip_tail-IsCanonical (lead_slash (collapse false (c ∷ t)))
      (lead_slash-IsAbsolute (collapse false (c ∷ t)))
      (lead_slash-SingleSlashes (collapse false (c ∷ t)) (collapse-SingleSlashes false (c ∷ t)))

-- Whatever the text, the result begins with a slash, has no two slashes side by side, and ends with
-- a slash only if it is the root.
pub normalize_ros_topic-IsCanonical : (value : Text) → IsCanonical (normalize_ros_topic value)
unfolding normalize_ros_topic
normalize_ros_topic-IsCanonical value = normalize_trimmed-IsCanonical (strip is_space value)

collapse_fixed : (b : Bool) (t : Text) → SingleSlashes b t → collapse b t ≡ t
unfolding collapse
collapse_fixed b [] h = refl
collapse_fixed b (c ∷ t) h = rw h.0 (ap (◌∷◌ c) (collapse_fixed (is_slash c) t h.1))

normalize_trimmed_fixed : (t : Text) → IsCanonical t → normalize_trimmed t ≡ t
normalize_trimmed_fixed [] h = absurd h.absolute
normalize_trimmed_fixed (c ∷ t) h =
    ap (λ u. or_root (strip_tail (lead_slash u))) (collapse_fixed false (c ∷ t) h.single)
    ∙ ap (λ u. or_root (strip_tail u)) lead
    ∙ ap (λ u. or_root (c ∷ u)) (drop_end_fixed is_slash t h.tail_ends)
  where
    lead : lead_slash (c ∷ t) ≡ c ∷ t
    lead = ground (arith, h.absolute)

-- A canonical topic with no space at its ends is left as it is.
normalize_ros_topic_fixed :
    (t : Text)
    → IsCanonical t
    → StartsOutside is_space t
    → EndsOutside is_space t
    → normalize_ros_topic t ≡ t
unfolding normalize_ros_topic
normalize_ros_topic_fixed t h s e =
    ap normalize_trimmed (strip_fixed is_space t s e) ∙ normalize_trimmed_fixed t h
