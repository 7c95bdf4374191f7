-- ===== src/Bridge/Codec.antt =====
-- src/bridge/payload_codec.cpp: packing scalars into a payload and reading them back.
pub mod RoundTrip
pub mod Integers
use mrs_uav_bluetooth.Prelude.{
  ltb, ◌==◌, if◌then◌else◌, Result, ok, err, length, take, drop, Text, ℕ, zero, suc, ◌+◌, ◌-◌, ◌*◌,
  Option, none, some, List, [], ◌∷◌, ◌++◌,
}
use mrs_uav_bluetooth.Util.Md5.{le_bytes}
use mrs_uav_bluetooth.Bridge.Scalar.{type_info, width, WireType, ScalarValue, bool}

-- `overrun` is no exception: the copy of a value wider than its specification would write behind the
-- buffer.
pub data CodecError : Type 0 where
  count_mismatch unknown_type too_short out_of_range overrun : CodecError
  -- `BridgeMemberSpec`; the paths and expressions are read elsewhere.

pub record MemberSpec : Type 0 where
  pub value_type : Text

abbrev pub wire_width : Option WireType → ℕ
wire_width none = 0
wire_width (some t) = width t

-- `wire_size`: 0 for an unknown type.
unfoldable pub wire_size : MemberSpec → ℕ
unfolding type_info
wire_size spec = wire_width (type_info spec.value_type)

unfoldable pub total_wire_size : List MemberSpec → ℕ
unfolding wire_size
total_wire_size [] = 0
total_wire_size (s ∷ specs) = wire_size s + total_wire_size specs

abbrev pub zero_bytes : ℕ → List ℕ
zero_bytes zero = []
zero_bytes (suc n) = 0 ∷ zero_bytes n

-- `resize` fills with zeros, and the copy overwrites the first bytes.
unfoldable pub pack_value : List ℕ → ScalarValue → MemberSpec → Result CodecError (List ℕ)
pack_value buf v spec =
    let size = wire_size spec in
    if size == 0
    then err unknown_type
    else if ltb size (width v.type)
    then err overrun
    else ok (buf ++ (le_bytes (width v.type) v.bits ++ zero_bytes (size - width v.type)))

-- The number that bytes stand for, least significant first.
abbrev pub of_le_bytes : List ℕ → ℕ
of_le_bytes [] = 0
of_le_bytes (b ∷ bs) = b + 256 * of_le_bytes bs

-- A byte other than 0 reads as `true`.
abbrev pub read_bits : WireType → List ℕ → ℕ
read_bits bool bytes = if of_le_bytes bytes == 0 then 0 else 1
read_bits type bytes = of_le_bytes bytes

unpack_typed : Option WireType → List ℕ → ℕ → Result CodecError ScalarValue
unpack_typed none buf off = err unknown_type
unpack_typed (some t) buf off =
    if ltb (length buf) (off + width t)
    then err too_short
    else ok (record { type = t; bits = read_bits t (take (width t) (drop off buf)) })

unfoldable pub unpack_value : List ℕ → ℕ → MemberSpec → Result CodecError ScalarValue
unfolding unpack_typed type_info
unpack_value buf off spec = unpack_typed (type_info spec.value_type) buf off

abbrev pub and_then {ℓ κ} :
    {A : Type ℓ} {B : Type κ}
    → Result CodecError A
    → (A → Result CodecError B)
    → Result CodecError B
and_then (ok a) f = f a
and_then (err e) f = err e

-- The loop over the specifications; the lists have one length.
pub encode_from : List ℕ → List ScalarValue → List MemberSpec → Result CodecError (List ℕ)
encode_from buf (v ∷ vs) (s ∷ specs) =
    and_then (pack_value buf v s) (λ next. encode_from next vs specs)
encode_from buf vs specs = ok buf

unfoldable pub encode_struct_payload :
    List ScalarValue → List MemberSpec → Result CodecError (List ℕ)
unfolding encode_from pack_value wire_size
encode_struct_payload values specs =
    if length values == length specs then encode_from [] values specs else err count_mismatch

pub decode_from : List ℕ → ℕ → List MemberSpec → Result CodecError (List ScalarValue)
decode_from payload off [] = ok []
decode_from payload off (s ∷ specs) =
    and_then (unpack_value payload off s)
      (λ v. and_then (decode_from payload (off + wire_size s) specs) (λ vs. ok (v ∷ vs)))

unfoldable pub decode_struct_payload :
    List ℕ → List MemberSpec → Result CodecError (List ScalarValue)
unfolding decode_from unpack_value wire_size
decode_struct_payload payload specs = decode_from payload 0 specs
