-- ===== src/Util/Topics/Component.antt =====
-- The form of the names that `sanitize_topic_suffix` makes.
use mrs_uav_bluetooth.Util.Strings.{
  strip, strip_fixed, is_space, StartsOutside, EndsOutside, drop_while-StartsOutside,
  drop_end-EndsOutside, drop_end-StartsOutside, drop_end-All, drop_while-All,
}
use mrs_uav_bluetooth.Prelude.{
  all→All, ap, ◌∙◌, ◌↔◌, ◌≡◌, refl, true, [], ◌∷◌, map, arith, Text, All, ◌≢◌,
}
use mathlib.Core.Path.{subst}
use mrs_uav_bluetooth.Util.Topics.{
  is_word, is_underscore, clean_byte, or_fallback, fallback_name, sanitize_trimmed,
  sanitize_topic_suffix,
}

-- A nonempty text of letters, digits and underscores that has no underscore at either end.
pub record IsComponent (t : Text) : Type 0 where
  pub nonempty : t ≢ []
  pub words : All (λ c. is_word c ≡ true) t
  pub starts : StartsOutside is_underscore t
  pub ends : EndsOutside is_underscore t

clean_words : (t : Text) → All (λ c. is_word c ≡ true) (map clean_byte t)
clean_words [] = tt
clean_words (c ∷ t) = (ground arith, clean_words t)

or_fallback-IsComponent :
    (t : Text)
    → All (λ c. is_word c ≡ true) t
    → StartsOutside is_underscore t
    → EndsOutside is_underscore t
    → IsComponent (or_fallback t)
or_fallback-IsComponent [] w s e = record {
  nonempty = λ p. cc;
  words = all→All is_word fallback_name refl;
  starts = refl;
  ends = refl;
}
or_fallback-IsComponent (c ∷ t) w s e = record {
  nonempty = λ p. cc;
  words = w;
  starts = s;
  ends = e;
}

strip-IsComponent :
    (t : Text) → All (λ c. is_word c ≡ true) t → IsComponent (or_fallback (strip is_underscore t))
strip-IsComponent t w =
    or_fallback-IsComponent (strip is_underscore t)
      (drop_end-All is_underscore _ _ (drop_while-All is_underscore _ t w))
      (drop_end-StartsOutside is_underscore _ (drop_while-StartsOutside is_underscore t))
      (drop_end-EndsOutside is_underscore _)

sanitize_trimmed-IsComponent : (t : Text) → IsComponent (sanitize_trimmed t)
sanitize_trimmed-IsComponent [] = or_fallback-IsComponent [] tt tt tt
sanitize_trimmed-IsComponent (c ∷ t) =
    strip-IsComponent (map clean_byte (c ∷ t)) (clean_words (c ∷ t))

-- Whatever the text, the result is a component: nonempty, made of letters, digits and underscores,
-- with no underscore at either end.
pub sanitize_topic_suffix-IsComponent : (value : Text) → IsComponent (sanitize_topic_suffix value)
unfolding sanitize_topic_suffix
sanitize_topic_suffix-IsComponent value = sanitize_trimmed-IsComponent (strip is_space value)

words-StartsOutside_space : (t : Text) → All (λ c. is_word c ≡ true) t → StartsOutside is_space t
words-StartsOutside_space [] h = tt
words-StartsOutside_space (c ∷ t) h = ground arith

words-EndsOutside_space : (t : Text) → All (λ c. is_word c ≡ true) t → EndsOutside is_space t
words-EndsOutside_space [] h = tt
words-EndsOutside_space (c ∷ []) h = ground arith
words-EndsOutside_space (c ∷ d ∷ t) h = words-EndsOutside_space (d ∷ t) h.1

map-clean_byte_fixed : (t : Text) → All (λ c. is_word c ≡ true) t → map clean_byte t ≡ t
map-clean_byte_fixed [] h = refl
map-clean_byte_fixed (c ∷ t) h = ground (arith, map-clean_byte_fixed t h.1)

sanitize_trimmed_fixed : (t : Text) → IsComponent t → sanitize_trimmed t ≡ t
sanitize_trimmed_fixed [] h = absurd (h.nonempty refl)
sanitize_trimmed_fixed (c ∷ t) h = ap or_fallback (
    ap (strip is_underscore) (map-clean_byte_fixed (c ∷ t) h.words)
    ∙ strip_fixed is_underscore (c ∷ t) h.starts h.ends)

-- A component is left as it is.
pub sanitize_topic_suffix_fixed : (t : Text) → IsComponent t → sanitize_topic_suffix t ≡ t
unfolding sanitize_topic_suffix
sanitize_topic_suffix_fixed t h =
    ap sanitize_trimmed (
      strip_fixed is_space t (words-StartsOutside_space t h.words)
        (words-EndsOutside_space t h.words))
    ∙ sanitize_trimmed_fixed t h

-- So the components are exactly the texts that sanitizing leaves alone, and sanitizing twice is
-- sanitizing once.
sanitize_topic_suffix_iff : (t : Text) → (sanitize_topic_suffix t ≡ t) ↔ IsComponent t
sanitize_topic_suffix_iff t =
    (λ e. subst IsComponent e (sanitize_topic_suffix-IsComponent t), sanitize_topic_suffix_fixed t)
