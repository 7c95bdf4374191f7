-- ===== src/Bridge/Codec/Integers.antt =====
-- The exact integers of src/bridge/payload_codec.cpp: `checked_exact`, `coerce_outgoing_integer` and
-- `coerce_incoming_integer`. The conversions of an integer to a float are the machine's: parameters.
use mrs_uav_bluetooth.Prelude.{
  Bool-cases, refl, ap, inl, inr, ◌⊎◌, ltb, leb, ◌==◌, if◌then◌else◌, Result, ok, err, ℕ, suc, ◌-◌,
  ◌^◌, ◌<◌, ◌≡◌, Bool, true, false, not, ◌&&◌, Option, none, some, arith,
}
use mrs_uav_bluetooth.Bridge.Scalar.{
  type_info, width, WireType, ScalarValue, bool, int8, uint8, int16, uint16, int32, uint32, int64,
  uint64, float32, float64,
}
use mrs_uav_bluetooth.Bridge.Codec.{CodecError, MemberSpec, unknown_type, out_of_range}
use mrs_uav_bluetooth.Prelude.Int.{ℤ, pos, negsuc}

abbrev pub value_bits : WireType → ℕ
value_bits bool = 1
value_bits int8 = 7
value_bits uint8 = 8
value_bits int16 = 15
value_bits uint16 = 16
value_bits int32 = 31
value_bits uint32 = 32
value_bits int64 = 63
value_bits uint64 = 64
value_bits float32 = 0
value_bits float64 = 0

abbrev pub is_signed : WireType → Bool
is_signed int8 = true
is_signed int16 = true
is_signed int32 = true
is_signed int64 = true
is_signed type = false

-- `numeric_limits<T>::min() <= value <= numeric_limits<T>::max()`.
abbrev pub in_range : WireType → ℤ → Bool
in_range t (pos n) = ltb n (2 ^ value_bits t)
in_range t (negsuc n) = is_signed t && ltb n (2 ^ value_bits t)

-- The bit pattern of the narrowed value: two's complement.
abbrev pub pattern_of : WireType → ℤ → ℕ
pattern_of t (pos n) = n
pattern_of t (negsuc n) = 256 ^ width t - suc n

unfoldable pub checked_exact : WireType → ℤ → Result CodecError ScalarValue
checked_exact t value =
    if in_range t value
    then ok (record { type = t; bits = pattern_of t value })
    else err out_of_range

abbrev is_nonzero : ℤ → Bool
is_nonzero (pos n) = not (n == 0)
is_nonzero (negsuc n) = true

-- The bit patterns of `static_cast<float>` and `static_cast<double>` of an integer.
pub record FloatCasts : Type 0 where
  pub to_float32 : ℤ → ℕ
  pub to_float64 : ℤ → ℕ

coerce_typed : FloatCasts → ℤ → Option WireType → Result CodecError ScalarValue
unfolding checked_exact
coerce_typed casts value none = err unknown_type
coerce_typed casts value (some bool) =
    ok (record { type = bool; bits = if is_nonzero value then 1 else 0 })
coerce_typed casts value (some float32) =
    ok (record { type = float32; bits = casts.to_float32 value })
coerce_typed casts value (some float64) =
    ok (record { type = float64; bits = casts.to_float64 value })
coerce_typed casts value (some t) = checked_exact t value

unfoldable pub coerce_outgoing_integer : FloatCasts → ℤ → MemberSpec → Result CodecError ScalarValue
unfolding coerce_typed type_info
coerce_outgoing_integer casts value spec = coerce_typed casts value (type_info spec.value_type)

abbrev pub is_float : WireType → Bool
is_float float32 = true
is_float float64 = true
is_float t = false

-- The integer that the alternative holds.
abbrev pub integer_of : WireType → ℕ → ℤ
integer_of t bits =
    if is_signed t && leb (2 ^ value_bits t) bits
    then negsuc (256 ^ width t - suc bits)
    else pos bits

unfoldable pub coerce_incoming_integer : ScalarValue → Option ℤ
coerce_incoming_integer v = if is_float v.type then none else some (integer_of v.type v.bits)

-- The integer types proper.
abbrev pub is_integer : WireType → Bool
is_integer bool = false
is_integer t = not (is_float t)

integer_of-pattern_of :
    (t : WireType) (value : ℤ)
    → is_integer t ≡ true
    → in_range t value ≡ true
    → (integer_of t (pattern_of t value) ≡ value) × (pattern_of t value < 256 ^ width t)
integer_of-pattern_of int8 (pos n) i r = (ground arith, ground arith)
integer_of-pattern_of int8 (negsuc n) i r = (ground arith, ground arith)
integer_of-pattern_of uint8 (pos n) i r = (ground arith, ground arith)
integer_of-pattern_of uint8 (negsuc n) i r = absurd (cc r)
integer_of-pattern_of int16 (pos n) i r = (ground arith, ground arith)
integer_of-pattern_of int16 (negsuc n) i r = (ground arith, ground arith)
integer_of-pattern_of uint16 (pos n) i r = (ground arith, ground arith)
integer_of-pattern_of uint16 (negsuc n) i r = absurd (cc r)
integer_of-pattern_of int32 (pos n) i r = (ground arith, ground arith)
integer_of-pattern_of int32 (negsuc n) i r = (ground arith, ground arith)
integer_of-pattern_of uint32 (pos n) i r = (ground arith, ground arith)
integer_of-pattern_of uint32 (negsuc n) i r = absurd (cc r)
integer_of-pattern_of int64 (pos n) i r = (ground arith, ground arith)
integer_of-pattern_of int64 (negsuc n) i r = (ground arith, ground arith)
integer_of-pattern_of uint64 (pos n) i r = (ground arith, ground arith)
integer_of-pattern_of uint64 (negsuc n) i r = absurd (cc r)
integer_of-pattern_of bool value i r = absurd (cc i)
integer_of-pattern_of float32 value i r = absurd (cc i)
integer_of-pattern_of float64 value i r = absurd (cc i)

coerce_typed-checked_exact :
    (casts : FloatCasts) (value : ℤ) (t : WireType)
    → is_integer t ≡ true
    → coerce_typed casts value (some t) ≡ checked_exact t value
unfolding coerce_typed
coerce_typed-checked_exact casts value int8 i = refl
coerce_typed-checked_exact casts value uint8 i = refl
coerce_typed-checked_exact casts value int16 i = refl
coerce_typed-checked_exact casts value uint16 i = refl
coerce_typed-checked_exact casts value int32 i = refl
coerce_typed-checked_exact casts value uint32 i = refl
coerce_typed-checked_exact casts value int64 i = refl
coerce_typed-checked_exact casts value uint64 i = refl
coerce_typed-checked_exact casts value bool i = absurd (cc i)
coerce_typed-checked_exact casts value float32 i = absurd (cc i)
coerce_typed-checked_exact casts value float64 i = absurd (cc i)

no_float : (t : WireType) → is_integer t ≡ true → is_float t ≡ false
no_float float32 i = absurd (cc i)
no_float float64 i = absurd (cc i)
no_float bool i = refl
no_float int8 i = refl
no_float uint8 i = refl
no_float int16 i = refl
no_float uint16 i = refl
no_float int32 i = refl
no_float uint32 i = refl
no_float int64 i = refl
no_float uint64 i = refl

exact_scalar : WireType → ℤ → ScalarValue
exact_scalar t value = record { type = t; bits = pattern_of t value }

-- For a specification of an integer type the exact encoder either refuses a value outside the type's
-- range, or gives a scalar of that type, whose pattern fits the type's bytes, from which the exact
-- decoder reads the value back.
pub coerce_integer_lem :
    (casts : FloatCasts) (value : ℤ) (spec : MemberSpec) (t : WireType)
    → type_info spec.value_type ≡ some t
    → is_integer t ≡ true
    → ((in_range t value ≡ false) × (coerce_outgoing_integer casts value spec ≡ err out_of_range))
      ⊎ ((in_range t value ≡ true)
          × ((s : ScalarValue) × (coerce_outgoing_integer casts value spec ≡ ok s)
              × (s.type ≡ t)
              × (s.bits < 256 ^ width t)
              × (coerce_incoming_integer s ≡ some value)))
unfolding coerce_outgoing_integer coerce_incoming_integer exact_scalar
coerce_integer_lem casts value spec t typed i = elim (Bool-cases (in_range t value)) [
  | inl inside ↦
      let both = integer_of-pattern_of t value i inside in
      inr (
        inside,
        (
          exact_scalar t value,
          rw (typed, coerce_typed-checked_exact casts value t i)
              (unfold checked_exact in rw inside refl),
          refl,
          both.1,
          rw (no_float t i) (ap some both.0),
        ),
      )
  | inr outside ↦ inl (
    outside,
    rw (typed, coerce_typed-checked_exact casts value t i)
        (unfold checked_exact in rw outside refl),
  )
]
