-- ===== src/Mesh/Uuid.antt =====
-- The Mesh device UUIDs of src/mesh/mesh_application.cpp (`mesh_uuid_from_string`,
-- `mesh_auto_uuid_from_name`, `mesh_auto_uuid_number`, `mesh_bytes_to_hex`). An exception is `none`.
use mathlib.Core.Option
pub mod Identity
use mrs_uav_bluetooth.Prelude.{
  ltb, leb, ◌==◌, if◌then◌else◌, ◌>>=◌, length, get_or, set, Text, codes, is_digit, ℕ, ◌+◌, ◌-◌,
  ◌*◌, ◌/◌, ◌%◌, bit_and, bit_or, Bool, not, ◌&&◌, ◌||◌, Option, none, some, List, [], ◌∷◌, ◌++◌,
}
use mrs_uav_bluetooth.Mesh.Number.{digit_suffix, number_up_to}
use mrs_uav_bluetooth.Util.Md5.{hex_bytes}
use mrs_uav_bluetooth.Util.Uuid.{uuid_from_name}
use mrs_uav_bluetooth.Util.Strings.{to_lower}

is_xdigit : ℕ → Bool
is_xdigit c = is_digit c || (leb b'A' c && leb c b'F') || (leb b'a' c && leb c b'f')

-- The digits in lower case, without the separators.
lower_digits : Text → Option Text
unfolding is_xdigit
lower_digits [] = some []
lower_digits (c ∷ t) =
    let rest = lower_digits t in
    if c == b'-' then rest else if is_xdigit c then Option.map (◌∷◌ (to_lower c)) rest else none

normalized_uuid_hex : Text → Option Text
unfolding lower_digits
normalized_uuid_hex value = do
  result ← lower_digits value
  if length result == 32 then some result else none

-- `std::stoul` with base 16 at one digit in lower case.
hex_value : ℕ → ℕ
hex_value c = if is_digit c then c - b'0' else c - b'a' + 10

hex_pairs : Text → List ℕ
unfolding hex_value
hex_pairs (a ∷ b ∷ t) = (hex_value a * 16 + hex_value b) ∷ hex_pairs t
hex_pairs t = []

unfoldable pub mesh_uuid_from_string : Text → Option (List ℕ)
unfolding normalized_uuid_hex hex_pairs
mesh_uuid_from_string value = Option.map hex_pairs (normalized_uuid_hex value)

abbrev pub stamp_version : List ℕ → List ℕ
stamp_version r =
    let r' = set r 6 (bit_or (bit_and (get_or r 6 0) 0x0f) 0x30) in
    set r' 8 (bit_or (bit_and (get_or r' 8 0) 0x3f) 0x80)

unfoldable pub mesh_uuid_from_name : Text → Option (List ℕ)
unfolding mesh_uuid_from_string uuid_from_name
mesh_uuid_from_name value = Option.map stamp_version (mesh_uuid_from_string (uuid_from_name value))

abbrev pub stamp_number : ℕ → List ℕ → List ℕ
stamp_number number r =
    set (set (set (set (set (set r 0 b'M') 1 b'R') 2 b'S') 3 b'B') 4 (number % 256)) 5
      (number / 256 % 256)

unfoldable pub mesh_auto_uuid_from_name : Text → Option (List ℕ)
unfolding mesh_uuid_from_name
mesh_auto_uuid_from_name hostname = do
  number ← number_up_to 0x7fff (digit_suffix hostname)
  uuid ← mesh_uuid_from_name (codes "mrs-uav-bluetooth-mesh-auto:" ++ hostname)
  some (stamp_number number uuid)

-- `uuid[4] | uuid[5] << 8`; the two bytes do not overlap.
unfoldable pub mesh_auto_uuid_number : List ℕ → ℕ
mesh_auto_uuid_number uuid =
    let number = bit_or (get_or uuid 4 0) (get_or uuid 5 0 * 256) % 65536 in
    if not (length uuid == 16)
      || not (get_or uuid 0 0 == b'M')
      || not (get_or uuid 1 0 == b'R')
      || not (get_or uuid 2 0 == b'S')
      || not (get_or uuid 3 0 == b'B')
    then 0
    else if ltb 0 number && leb number 0x7fff
    then number
    else 0

unfoldable pub mesh_bytes_to_hex : List ℕ → Text
mesh_bytes_to_hex value = hex_bytes value
