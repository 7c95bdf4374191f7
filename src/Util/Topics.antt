-- ===== src/Util/Topics.antt =====
-- src/util/topic_utils.cpp: names for ROS topics. An exception is the error of a `Result`.
pub mod Component
pub mod Canonical
use mrs_uav_bluetooth.Util.Strings.{strip, is_space, drop_end}
use mrs_uav_bluetooth.Prelude.{
  ℕ, zero, suc, ◌-◌, Bool, true, false, not, ◌&&◌, ◌||◌, [], ◌∷◌, ◌++◌, map, Text, ◌==◌,
  if◌then◌else◌, length, is_alnum, codes, Result, ok, err, is_empty,
}

abbrev pub fallback_name : Text
fallback_name = codes "ble_device"

abbrev pub is_underscore : ℕ → Bool
is_underscore c = c == b'_'

-- The bytes that a component may hold; every other becomes an underscore.
abbrev pub is_word : ℕ → Bool
is_word c = is_alnum c || is_underscore c

abbrev pub clean_byte : ℕ → ℕ
clean_byte c = if is_word c then c else b'_'

-- `npos` is an empty rest.
abbrev pub or_fallback : Text → Text
or_fallback [] = fallback_name
or_fallback (c ∷ t) = c ∷ t

abbrev pub sanitize_trimmed : Text → Text
sanitize_trimmed [] = fallback_name
sanitize_trimmed (c ∷ t) = or_fallback (strip is_underscore (map clean_byte (c ∷ t)))

unfoldable pub sanitize_topic_suffix : Text → Text
unfolding drop_end
sanitize_topic_suffix value = sanitize_trimmed (strip is_space value)

abbrev pub is_slash : ℕ → Bool
is_slash c = c == b'/'

-- The loop that drops repeated slashes; the flag is `last_was_slash`.
pub collapse : Bool → Text → Text
collapse last_was_slash [] = []
collapse last_was_slash (c ∷ t) =
    let rest = collapse (is_slash c) t in if is_slash c && last_was_slash then rest else c ∷ rest

abbrev pub lead_slash : Text → Text
lead_slash [] = b'/' ∷ []
lead_slash (c ∷ t) = if is_slash c then c ∷ t else b'/' ∷ c ∷ t

-- `while (size() > 1 && back() == '/') pop_back()`: the first byte stays.
abbrev pub strip_tail : Text → Text
strip_tail [] = []
strip_tail (c ∷ t) = c ∷ drop_end is_slash t

abbrev pub or_root : Text → Text
or_root [] = b'/' ∷ []
or_root (c ∷ t) = c ∷ t

abbrev pub normalize_trimmed : Text → Text
normalize_trimmed [] = b'/' ∷ []
normalize_trimmed (c ∷ t) = or_root (strip_tail (lead_slash (collapse false (c ∷ t))))

unfoldable pub normalize_ros_topic : Text → Text
unfolding drop_end collapse
normalize_ros_topic value = normalize_trimmed (strip is_space value)

pub data TopicError : Type 0 where
  hostname_missing tilde_misplaced : TopicError

unfoldable pub node_prefix : Text → Result TopicError Text
unfolding sanitize_topic_suffix
node_prefix hostname =
    if is_empty hostname
    then err hostname_missing
    else ok (b'/' ∷ sanitize_topic_suffix hostname ++ codes "/bluetooth")

abbrev placeholder : Text
placeholder = codes "{hostname}"

starts_with : Text → Text → Bool
starts_with [] t = true
starts_with (p ∷ ps) [] = false
starts_with (p ∷ ps) (c ∷ t) = p == c && starts_with ps t

-- The loop over `find` and `replace`, from the left; the search goes on behind the inserted name.
-- The number counts the bytes of a found placeholder that are still to be dropped.
replace_placeholder : Text → ℕ → Text → Text
unfolding starts_with
replace_placeholder name skipped [] = []
replace_placeholder name (suc skipped) (c ∷ t) = replace_placeholder name skipped t
replace_placeholder name zero (c ∷ t) =
    let found = starts_with placeholder (c ∷ t) in
    let rest = replace_placeholder name (if found then length placeholder - 1 else 0) t in
    if found then name ++ rest else c ∷ rest

is_tilde_path : Text → Bool
is_tilde_path [] = false
is_tilde_path (c ∷ t) = c == b'~'

-- Whether the byte behind the tilde is one other than a slash.
tilde_followed_badly : Text → Bool
tilde_followed_badly (c ∷ d ∷ t) = not (is_slash d)
tilde_followed_badly t = false

abbrev after_first : Text → Text
after_first [] = []
after_first (c ∷ t) = t

prefixed : Result TopicError Text → Text → Result TopicError Text
unfolding normalize_ros_topic
prefixed (ok prefix) rest = ok (normalize_ros_topic (prefix ++ rest))
prefixed (err e) rest = err e

abbrev resolve_replaced : Text → Text → Result TopicError Text
resolve_replaced hostname path =
    if is_tilde_path path
    then if tilde_followed_badly path
      then err tilde_misplaced
      else prefixed (node_prefix hostname) (after_first path)
    else ok (normalize_ros_topic path)

unfoldable pub resolve_topic_path : Text → Text → Result TopicError Text
unfolding replace_placeholder is_tilde_path tilde_followed_badly prefixed node_prefix
resolve_topic_path value hostname =
    resolve_replaced hostname (replace_placeholder (sanitize_topic_suffix hostname) 0 value)
