-- ===== src/Bridge/Runs.antt =====
-- The theorems on payloads at concrete values.
use mrs_uav_bluetooth.Bridge.Math.Within.{IsWithin, IsExactResolver}
use mrs_uav_bluetooth.Bridge.Math.Total.{evaluate-IsWithin}
use mrs_uav_bluetooth.Prelude.{
  if◌then◌else◌, Bool-cases, Text, text_eq, inl, inr, Option, none, ok, err, length, codes, ℕ, ◌^◌,
  ◌<◌, ◌≡◌, refl, ◌⊎◌, true, false, some, List, [], ◌∷◌, ◌++◌, arith,
}
use mrs_uav_bluetooth.Bridge.Math.Grammar.{
  IsFieldName, print_tree, Tree, adding, subtracting, multiplying, dividing, taking_remainder,
  whole_number, field_named, opposite, sum_of, product_of, in_sum,
}
use mrs_uav_bluetooth.Bridge.Math.{is_exact, evaluate, parsed}
use mrs_uav_bluetooth.Bridge.Math.Trees.{evaluate-print_tree}
use mrs_uav_bluetooth.Prelude.Int.{ℤ, pos, negsuc}
use mathlib.Core.Path.{subst}
use mrs_uav_bluetooth.Bridge.Scalar.{type_info, width, ScalarValue, bool, int16}
use mrs_uav_bluetooth.Bridge.Codec.{
  total_wire_size, encode_struct_payload, decode_struct_payload, MemberSpec, out_of_range,
}
use mrs_uav_bluetooth.Bridge.Codec.RoundTrip.{Matches, decode-encode}
use mrs_uav_bluetooth.Bridge.Codec.Integers.{
  in_range, coerce_outgoing_integer, coerce_incoming_integer, coerce_integer_lem, FloatCasts,
}

abbrev int16_member : MemberSpec
int16_member = record { value_type = codes "int16" }

abbrev bool_member : MemberSpec
bool_member = record { value_type = codes "bool" }

abbrev sample_values : List ScalarValue
sample_values = record { type = int16; bits = 0xfffe } ∷ record { type = bool; bits = 1 } ∷ []

sample-Matches : Matches sample_values (int16_member ∷ bool_member ∷ [])
unfolding type_info
sample-Matches = (refl, omega arith, (refl, omega arith, tt))

decode-encode_example :
    (payload : List ℕ) × (encode_struct_payload sample_values (int16_member ∷ bool_member ∷ [])
      ≡ ok payload)
    × (length payload ≡ total_wire_size (int16_member ∷ bool_member ∷ []))
    × ((rest : List ℕ)
        → decode_struct_payload (payload ++ rest) (int16_member ∷ bool_member ∷ [])
          ≡ ok sample_values)
decode-encode_example = decode-encode sample_values (int16_member ∷ bool_member ∷ []) sample-Matches

-- The integers' model needs no cast here; any function will do.
abbrev no_casts : FloatCasts
no_casts = record { to_float32 = λ value. 0; to_float64 = λ value. 0 }

is_int16 : type_info int16_member.value_type ≡ some int16
unfolding type_info
is_int16 = refl

coerce_integer_lem_example :
    ((in_range int16 (negsuc 1) ≡ false)
      × (coerce_outgoing_integer no_casts (negsuc 1) int16_member ≡ err out_of_range))
    ⊎ ((in_range int16 (negsuc 1) ≡ true)
        × ((s : ScalarValue) × (coerce_outgoing_integer no_casts (negsuc 1) int16_member ≡ ok s)
            × (s.type ≡ int16)
            × (s.bits < 256 ^ width int16)
            × (coerce_incoming_integer s ≡ some (negsuc 1))))
coerce_integer_lem_example = coerce_integer_lem no_casts (negsuc 1) int16_member int16 is_int16 refl

-- A clock's nanoseconds under the name `stamp.ns`.
abbrev clock_resolver : Text → Option ℤ
clock_resolver name =
    if text_eq name (codes "stamp.ns") then some (pos 1_700_000_000_123_456_789) else none

clock_resolver-exact : IsExactResolver clock_resolver
clock_resolver-exact name z found = elim (Bool-cases (text_eq name (codes "stamp.ns"))) [
  | inl e ↦
      let read = rw e at found in
      let same : pos 1_700_000_000_123_456_789 ≡ z = ground arith in
      subst (λ w. is_exact w ≡ true) same refl
  | inr e ↦ let read = rw e at found in ground arith
]

evaluate-IsWithin_example : IsWithin 0 (evaluate clock_resolver (codes " (stamp.ns/ 1000)%-7+ (2"))
evaluate-IsWithin_example =
    evaluate-IsWithin clock_resolver (codes " (stamp.ns/ 1000)%-7+ (2") clock_resolver-exact

abbrev seconds_tree : Tree
seconds_tree = sum_of subtracting (whole_number 5) (
    product_of multiplying
      (product_of taking_remainder
        (product_of dividing (field_named (codes "stamp.ns")) (whole_number 1_000_000_000))
        (whole_number 60))
      (opposite (sum_of adding (whole_number 2) (whole_number 3))))

stamp-IsFieldName : IsFieldName (codes "stamp.ns")
stamp-IsFieldName = (refl, ((refl, (refl, (refl, (refl, (refl, (refl, (refl, tt))))))), refl))

evaluate-print_tree_example :
    evaluate clock_resolver (print_tree in_sum seconds_tree []) ≡ parsed (pos 105) []
evaluate-print_tree_example =
    evaluate-print_tree clock_resolver seconds_tree (pos 105)
      (tt, (((stamp-IsFieldName, tt), tt), (tt, tt))) refl
