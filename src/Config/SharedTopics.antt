-- ===== src/Config/SharedTopics.antt =====
-- The value types of shared topics, src/config/shared_topic_config.cpp. A table is a list of entries with
-- different keys.
pub mod Validation
use mrs_uav_bluetooth.Prelude.{
  if◌then◌else◌, is_some, Text, codes, text_eq, ℕ, suc, ◌+◌, Option, none, some, List, [], ◌∷◌,
}
use mathlib.Core.Option

pub record TopicMember : Type 0 where
  pub value_type : Text
  pub target : Text

abbrev pub lookup {ℓ} : {V : Type ℓ} → Text → List (Text × V) → Option V
lookup key [] = none
lookup key ((k, v) ∷ rest) = if text_eq k key then some v else lookup key rest

abbrev pub k_type_aliases : List (Text × Text)
k_type_aliases =
    (codes "boolean", codes "bool")
    ∷ (codes "byte", codes "int8")
    ∷ (codes "octet", codes "uint8")
    ∷ (codes "char", codes "uint8")
    ∷ (codes "float", codes "float32")
    ∷ (codes "double", codes "float64")
    ∷ []

-- The format's byte and the size.
abbrev pub k_type_meta : List (Text × (ℕ × ℕ))
k_type_meta =
    (codes "bool", (b'?', 1))
    ∷ (codes "int8", (b'b', 1))
    ∷ (codes "uint8", (b'B', 1))
    ∷ (codes "int16", (b'h', 2))
    ∷ (codes "uint16", (b'H', 2))
    ∷ (codes "int32", (b'i', 4))
    ∷ (codes "uint32", (b'I', 4))
    ∷ (codes "int64", (b'q', 8))
    ∷ (codes "uint64", (b'Q', 8))
    ∷ (codes "float32", (b'f', 4))
    ∷ (codes "float64", (b'd', 8))
    ∷ []

abbrev pub format_in : Option (ℕ × ℕ) → ℕ
format_in none = 0
format_in (some (format, size)) = format

abbrev pub size_in : Option (ℕ × ℕ) → ℕ
size_in none = 0
size_in (some (format, size)) = size

abbrev pub struct_format_for : Text → ℕ
struct_format_for value_type = format_in (lookup value_type k_type_meta)

abbrev pub wire_size_for : Text → ℕ
wire_size_for value_type = size_in (lookup value_type k_type_meta)

abbrev pub payload_wire_size : List TopicMember → ℕ
payload_wire_size [] = 0
payload_wire_size (m ∷ ms) = wire_size_for m.value_type + payload_wire_size ms

unfoldable pub normalize_value_type : Text → Text
normalize_value_type raw = Option.get_or (lookup raw k_type_aliases) raw

-- What the error names.
pub record UnsupportedType : Type 0 where
  pub topic : ℕ
  pub member : TopicMember

unfoldable pub check_members : ℕ → List TopicMember → Option UnsupportedType
unfolding normalize_value_type
check_members i [] = none
check_members i (m ∷ ms) =
    let rest = check_members i ms in
    if is_some (lookup (normalize_value_type m.value_type) k_type_meta)
    then rest
    else some (record { topic = i; member = m })

abbrev pub first_error : Option UnsupportedType → Option UnsupportedType → Option UnsupportedType
first_error none rest = rest
first_error (some e) rest = some e

unfoldable pub validate_shared_topics : ℕ → List (List TopicMember) → Option UnsupportedType
unfolding check_members
validate_shared_topics i [] = none
validate_shared_topics i (t ∷ ts) =
    first_error (check_members i t) (validate_shared_topics (suc i) ts)

-- The members with their types normalized, as the bridges use them.
abbrev pub normalize_members : List TopicMember → List TopicMember
normalize_members [] = []
normalize_members (m ∷ ms) =
    record m { value_type = normalize_value_type m.value_type } ∷ normalize_members ms
