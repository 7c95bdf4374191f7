-- ===== src/Mesh/Uuid/Identity.antt =====
-- The device UUIDs of names, read back.
use mrs_uav_bluetooth.Prelude.{
  ◌>>=◌, ◌==◌, if◌then◌else◌, length, get_or, take, drop, codes, ◌≤◌, sym, All, Text, IsByte, ℕ,
  ◌/◌, ◌%◌, ◌<◌, ◌≡◌, refl, ap, ◌∙◌, Option, none, some, List, [], ◌∷◌, ◌++◌, arith,
}
use mrs_uav_bluetooth.Prelude.Bits.{bit_or_8, version_stamp, variant_stamp}
use mrs_uav_bluetooth.Mesh.Uuid.{
  stamp_version, mesh_uuid_from_name, stamp_number, mesh_auto_uuid_from_name, mesh_auto_uuid_number,
  mesh_uuid_from_string, lower_digits, hex_pairs,
}
use mrs_uav_bluetooth.Mesh.Number.{digit_suffix, number_up_to}
use mrs_uav_bluetooth.Util.Md5.{le_bytes, digest_of, md5, Words, hex_digit, hex_bytes}
use mrs_uav_bluetooth.Util.Md5.Shape.{digest_of-IsByte, md5-digest_of}
use mrs_uav_bluetooth.Util.Uuid.{uuid_from_name}
use mathlib.Core.Option

lower_digits_step :
    (n : ℕ) (t : Text)
    → n < 16
    → lower_digits (hex_digit n ∷ t) ≡ Option.map (◌∷◌ (hex_digit n)) (lower_digits t)
unfolding lower_digits
lower_digits_step n t h = ground arith

map-append_map :
    (a b : ℕ) (xs : Text) (o : Option Text)
    → Option.map (◌∷◌ a) (Option.map (◌∷◌ b) (Option.map (◌++◌ xs) o))
      ≡ Option.map (◌++◌ (a ∷ b ∷ xs)) o
map-append_map a b xs none = refl
map-append_map a b xs (some t) = refl

map-empty : (o : Option Text) → o ≡ Option.map (◌++◌ []) o
map-empty none = refl
map-empty (some t) = refl

lower_digits-hex_bytes :
    (xs : List ℕ) (t : Text)
    → All IsByte xs
    → lower_digits (hex_bytes xs ++ t) ≡ Option.map (◌++◌ (hex_bytes xs)) (lower_digits t)
lower_digits-hex_bytes [] t h = map-empty (lower_digits t)
lower_digits-hex_bytes (x ∷ xs) t h =
    lower_digits_step (x / 16) _ (omega arith)
    ∙ ap (Option.map (◌∷◌ (hex_digit (x / 16)))) (
        lower_digits_step (x % 16) _ (omega arith)
        ∙ ap (Option.map (◌∷◌ (hex_digit (x % 16)))) (lower_digits-hex_bytes xs t h.1))
    ∙ map-append_map (hex_digit (x / 16)) (hex_digit (x % 16)) (hex_bytes xs) (lower_digits t)

lower_digits_dash : (t : Text) → lower_digits (b'-' ∷ t) ≡ lower_digits t
unfolding lower_digits
lower_digits_dash t = refl

hex_pairs-hex_bytes : (xs : List ℕ) → All IsByte xs → hex_pairs (hex_bytes xs) ≡ xs
unfolding hex_pairs
hex_pairs-hex_bytes [] h = refl
hex_pairs-hex_bytes (x ∷ xs) h = ground (arith, hex_pairs-hex_bytes xs h.1)

one_group :
    (xs : List ℕ) (t : Text) {u : Text}
    → All IsByte xs
    → lower_digits t ≡ some u
    → lower_digits (hex_bytes xs ++ t) ≡ some (hex_bytes xs ++ u)
one_group xs t h e = lower_digits-hex_bytes xs t h ∙ ap (Option.map (◌++◌ (hex_bytes xs))) e

dashed_group :
    (xs : List ℕ) (t : Text) {u : Text}
    → All IsByte xs
    → lower_digits t ≡ some u
    → lower_digits (hex_bytes xs ++ b'-' ∷ t) ≡ some (hex_bytes xs ++ u)
dashed_group xs t h e = one_group xs (b'-' ∷ t) h (lower_digits_dash t ∙ e)

abbrev dashed : (a b c d e : List ℕ) → Text
dashed a b c d e =
    hex_bytes a
    ++ b'-'
      ∷ (hex_bytes b ++ b'-' ∷ (hex_bytes c ++ b'-' ∷ (hex_bytes d ++ b'-' ∷ (hex_bytes e ++ []))))

-- The separators between the groups of a textual UUID drop out.
lower_digits_groups :
    (a b c d e : List ℕ)
    → All IsByte a
    → All IsByte b
    → All IsByte c
    → All IsByte d
    → All IsByte e
    → lower_digits (dashed a b c d e)
      ≡ some (hex_bytes a ++ (hex_bytes b ++ (hex_bytes c ++ (hex_bytes d ++ (hex_bytes e ++ [])))))
lower_digits_groups a b c d e ha hb hc hd he = dashed_group a _ ha (
    dashed_group b _ hb
      (dashed_group c _ hc (dashed_group d _ hd (one_group e [] he (unfold lower_digits in refl)))))

abbrev checked : Text → Option Text
checked result = if length result == 32 then some result else none

from_words :
    (name : Text) (w : Words)
    → md5 name ≡ digest_of w
    → mesh_uuid_from_string (uuid_from_name name) ≡ some (digest_of w)
unfolding mesh_uuid_from_string uuid_from_name digest_of
from_words name w e = rw e (
    ap (λ o. Option.map hex_pairs (o >>= checked))
      (lower_digits_groups (le_bytes 4 w.a) (take 2 (le_bytes 4 w.b)) (drop 2 (le_bytes 4 w.b))
        (take 2 (le_bytes 4 w.c)) (drop 2 (le_bytes 4 w.c) ++ le_bytes 4 w.d) (omega arith)
        (omega arith) (omega arith) (omega arith) (omega arith))
    ∙ ap some (hex_pairs-hex_bytes (digest_of w) (digest_of-IsByte w)))

-- Parsing the textual UUID of a name gives back the bytes of the MD5 digest of the name alone, unchanged.
pub mesh_uuid_from_string-uuid_from_name :
    (name : Text) → mesh_uuid_from_string (uuid_from_name name) ≡ some (md5 name)
mesh_uuid_from_string-uuid_from_name name =
    let (w, e) = md5-digest_of name in from_words name w e ∙ ap some (sym e)

from_name_words :
    (name : Text) (w : Words)
    → md5 name ≡ digest_of w
    → mesh_uuid_from_name name ≡ some (stamp_version (digest_of w))
unfolding mesh_uuid_from_name
from_name_words name w e =
    ap (Option.map stamp_version) (mesh_uuid_from_string-uuid_from_name name ∙ ap some e)

-- A UUID that BlueZ's `l_uuid_is_valid` accepts: 16 bytes with the version 3 and the RFC variant.
pub record IsValidUuid (uuid : List ℕ) : Type 0 where
  pub sixteen : length uuid ≡ 16
  pub version : get_or uuid 6 0 / 16 ≡ 3
  pub variant : get_or uuid 8 0 / 64 ≡ 2

stamped-IsValidUuid :
    (n : ℕ) (w : Words) → IsValidUuid (stamp_number n (stamp_version (digest_of w)))
unfolding digest_of
stamped-IsValidUuid n w = record {
  sixteen = refl;
  version = version_stamp (w.b / 256 / 256 % 256) (omega arith);
  variant = variant_stamp (w.c % 256) (omega arith);
}

number_of_stamped :
    (n : ℕ) (w : Words)
    → 0 < n
    → n ≤ 0x7fff
    → mesh_auto_uuid_number (stamp_number n (stamp_version (digest_of w))) ≡ n
unfolding mesh_auto_uuid_number digest_of
number_of_stamped n w p q = ground (arith, bit_or_8 (n % 256) (n / 256 % 256))

number_up_to-bounds :
    (top : ℕ) (t : Text) (n : ℕ) → number_up_to top t ≡ some n → (0 < n) × (n ≤ top)
number_up_to-bounds top [] n e = cc
number_up_to-bounds top (c ∷ t) n e = ground arith

-- For a name that ends in a number n from 1 to 32767 the device UUID exists, BlueZ accepts it, and
-- `mesh_auto_uuid_number` reads n back from it.
pub mesh_auto_uuid_from_name-number :
    (hostname : Text) (n : ℕ)
    → number_up_to 0x7fff (digit_suffix hostname) ≡ some n
    → (uuid : List ℕ) × (mesh_auto_uuid_from_name hostname ≡ some uuid)
      × IsValidUuid uuid
      × (mesh_auto_uuid_number uuid ≡ n)
unfolding mesh_auto_uuid_from_name
mesh_auto_uuid_from_name-number hostname n e =
    let seed = codes "mrs-uav-bluetooth-mesh-auto:" ++ hostname in
    let (w, d) = md5-digest_of seed in
    let bounds = number_up_to-bounds 0x7fff (digit_suffix hostname) n e in
    (
      stamp_number n (stamp_version (digest_of w)),
      rw (e, from_name_words seed w d) refl,
      stamped-IsValidUuid n w,
      number_of_stamped n w bounds.0 bounds.1,
    )
