-- ===== src/Bridge/Codec/RoundTrip.antt =====
-- The encoder of payloads against the decoder.
use mrs_uav_bluetooth.Bridge.Codec.{
  and_then, total_wire_size, encode_struct_payload, decode_struct_payload, zero_bytes, encode_from,
  decode_from, wire_width, wire_size, pack_value, of_le_bytes, read_bits, unpack_value, MemberSpec,
}
use mrs_uav_bluetooth.Prelude.{
  true, ltb, take, drop, length-append, drop-append, take-append, ◌+◌, ◌-◌, sym, ◌∙◌, append-nil,
  append_assoc, ◌==◌, ok, length, ℕ, zero, suc, ◌/◌, ◌^◌, ◌<◌, ◌≡◌, refl, ap, false, some, List, [],
  ◌∷◌, ◌++◌, arith,
}
use mathlib.Core.Path.{subst}
use mrs_uav_bluetooth.Util.Md5.{le_bytes}
use mrs_uav_bluetooth.Bridge.Scalar.{
  type_info, width, ScalarFits, WireType, ScalarValue, bool, int8, uint8, int16, uint16, int32,
  uint32, int64, uint64, float32, float64,
}
use native.Mathlib.Nat.{pow-suc}

-- Each value is of the type that its specification names, and within it.
abbrev pub Matches : List ScalarValue → List MemberSpec → Type 0
Matches [] [] = Unit {0}
Matches [] (s ∷ specs) = ⊥
Matches (v ∷ vs) [] = ⊥
Matches (v ∷ vs) (s ∷ specs) =
    (type_info s.value_type ≡ some v.type) × ScalarFits v.type v.bits × Matches vs specs

of_le_bytes-le_bytes : (n x : ℕ) → x < 256 ^ n → of_le_bytes (le_bytes n x) ≡ x
of_le_bytes-le_bytes zero x h = omega arith
of_le_bytes-le_bytes (suc n) x h =
    omega (arith, of_le_bytes-le_bytes n (x / 256) (omega (arith, pow-suc 256 n)))

length-le_bytes : (n x : ℕ) → length (le_bytes n x) ≡ n
length-le_bytes zero x = refl
length-le_bytes (suc n) x = ap suc (length-le_bytes n (x / 256))

read_bits-le_bytes :
    (t : WireType) (x : ℕ) → ScalarFits t x → read_bits t (le_bytes (width t) x) ≡ x
read_bits-le_bytes bool x h = ground arith
read_bits-le_bytes int8 x h = of_le_bytes-le_bytes 1 x h
read_bits-le_bytes uint8 x h = of_le_bytes-le_bytes 1 x h
read_bits-le_bytes int16 x h = of_le_bytes-le_bytes 2 x h
read_bits-le_bytes uint16 x h = of_le_bytes-le_bytes 2 x h
read_bits-le_bytes int32 x h = of_le_bytes-le_bytes 4 x h
read_bits-le_bytes uint32 x h = of_le_bytes-le_bytes 4 x h
read_bits-le_bytes int64 x h = of_le_bytes-le_bytes 8 x h
read_bits-le_bytes uint64 x h = of_le_bytes-le_bytes 8 x h
read_bits-le_bytes float32 x h = of_le_bytes-le_bytes 4 x h
read_bits-le_bytes float64 x h = of_le_bytes-le_bytes 8 x h

width_positive : (t : WireType) → (width t == 0) ≡ false
width_positive bool = refl
width_positive int8 = refl
width_positive uint8 = refl
width_positive int16 = refl
width_positive uint16 = refl
width_positive int32 = refl
width_positive uint32 = refl
width_positive int64 = refl
width_positive uint64 = refl
width_positive float32 = refl
width_positive float64 = refl

packed : ScalarValue → List ℕ
packed v = le_bytes (width v.type) v.bits

payload_of : List ScalarValue → List ℕ
payload_of [] = []
payload_of (v ∷ vs) = packed v ++ payload_of vs

length-packed : (v : ScalarValue) → length (packed v) ≡ width v.type
unfolding packed
length-packed v = length-le_bytes (width v.type) v.bits

module _ (v : ScalarValue) (s : MemberSpec) (typed : type_info s.value_type ≡ some v.type) where
  wire_size-width : wire_size s ≡ width v.type
  unfolding wire_size
  wire_size-width = ap wire_width typed

  room : ltb (width v.type) (width v.type) ≡ false
  room = ground arith

  no_zeros : zero_bytes (width v.type - width v.type) ≡ []
  no_zeros =
      let none_left : width v.type - width v.type ≡ 0 = omega arith in ap zero_bytes none_left

  pack-packed : (buf : List ℕ) → pack_value buf v s ≡ ok (buf ++ packed v)
  unfolding pack_value packed
  pack-packed buf =
      rw (wire_size-width, width_positive v.type, room, no_zeros)
        (ap (λ l. ok (buf ++ l)) (append-nil (le_bytes (width v.type) v.bits)))

  module _ (before after : List ℕ) where
    long_enough :
        ltb (length (before ++ (packed v ++ after))) (length before + width v.type) ≡ false
    long_enough = ground (
      arith,
      length-append before (packed v ++ after),
      length-append (packed v) after,
      length-packed v,
    )

    the_bytes :
        take (width v.type) (drop (length before) (before ++ (packed v ++ after))) ≡ packed v
    the_bytes =
        ap (take (width v.type)) (drop-append before (packed v ++ after))
        ∙ ap (λ n. take n (packed v ++ after)) (sym (length-packed v))
        ∙ take-append (packed v) after

    read_back :
        ScalarFits v.type v.bits
        → read_bits v.type
            (take (width v.type) (drop (length before) (before ++ (packed v ++ after))))
          ≡ v.bits
    read_back fits =
        ap (read_bits v.type) the_bytes ∙ (unfold packed in read_bits-le_bytes v.type v.bits fits)

    unpack-packed :
        ScalarFits v.type v.bits
        → unpack_value (before ++ (packed v ++ after)) (length before) s ≡ ok v
    unfolding unpack_value
    unpack-packed fits = rw (typed, long_enough, read_back fits)

-- Encoding appends the payload of the values.
encode_from-payload_of :
    (vs : List ScalarValue) (specs : List MemberSpec) (buf : List ℕ)
    → Matches vs specs
    → encode_from buf vs specs ≡ ok (buf ++ payload_of vs)
unfolding encode_from payload_of
encode_from-payload_of [] [] buf m = ap ok (sym (append-nil buf))
encode_from-payload_of [] (s ∷ specs) buf m = absurd m
encode_from-payload_of (v ∷ vs) [] buf m = absurd m
encode_from-payload_of (v ∷ vs) (s ∷ specs) buf (typed, fits, m) = rw (pack-packed v s typed buf) (
    encode_from-payload_of vs specs (buf ++ packed v) m
    ∙ ap ok (append_assoc buf (packed v) (payload_of vs)))

module _ (v : ScalarValue) (s : MemberSpec) (vs : List ScalarValue) (specs : List MemberSpec)
    (before after : List ℕ) (typed : type_info s.value_type ≡ some v.type)
    (fits : ScalarFits v.type v.bits) where
  tail : List ℕ
  tail = payload_of vs ++ after

  regroup : before ++ (payload_of (v ∷ vs) ++ after) ≡ before ++ (packed v ++ tail)
  unfolding payload_of tail
  regroup = ap (◌++◌ before) (append_assoc (packed v) (payload_of vs) after)

  shifted : length (before ++ packed v) ≡ length before + wire_size s
  shifted =
      omega (arith, length-append before (packed v), length-packed v, wire_size-width v s typed)

  decode_step :
      decode_from ((before ++ packed v) ++ tail) (length (before ++ packed v)) specs ≡ ok vs
      → decode_from (before ++ (payload_of (v ∷ vs) ++ after)) (length before) (s ∷ specs)
        ≡ ok (v ∷ vs)
  unfolding decode_from
  decode_step ih =
      let moved : decode_from (before ++ (packed v ++ tail)) (length before + wire_size s) specs
          ≡ ok vs =
        subst (λ n. decode_from (before ++ (packed v ++ tail)) n specs ≡ ok vs) shifted
          (subst (λ l. decode_from l (length (before ++ packed v)) specs ≡ ok vs)
            (append_assoc before (packed v) tail) ih) in
      subst (λ l. decode_from l (length before) (s ∷ specs) ≡ ok (v ∷ vs)) (sym regroup)
        (rw (unpack-packed v s typed before tail fits)
          (ap (λ r. and_then r (λ us. ok (v ∷ us))) moved))

-- Decoding at an offset reads the values behind it, and looks at nothing further.
decode_from-payload_of :
    (vs : List ScalarValue) (specs : List MemberSpec) (before after : List ℕ)
    → Matches vs specs
    → decode_from (before ++ (payload_of vs ++ after)) (length before) specs ≡ ok vs
unfolding tail
decode_from-payload_of [] [] before after m = unfold decode_from in refl
decode_from-payload_of [] (s ∷ specs) before after m = absurd m
decode_from-payload_of (v ∷ vs) [] before after m = absurd m
decode_from-payload_of (v ∷ vs) (s ∷ specs) before after (typed, fits, m) =
    decode_step v s vs specs before after typed fits
      (decode_from-payload_of vs specs (before ++ packed v) after m)

length-payload_of :
    (vs : List ScalarValue) (specs : List MemberSpec)
    → Matches vs specs
    → length (payload_of vs) ≡ total_wire_size specs
unfolding payload_of total_wire_size
length-payload_of [] [] m = refl
length-payload_of [] (s ∷ specs) m = absurd m
length-payload_of (v ∷ vs) [] m = absurd m
length-payload_of (v ∷ vs) (s ∷ specs) (typed, fits, m) = omega (
  arith,
  length-append (packed v) (payload_of vs),
  length-packed v,
  wire_size-width v s typed,
  length-payload_of vs specs m,
)

same_count :
    (vs : List ScalarValue) (specs : List MemberSpec)
    → Matches vs specs
    → (length vs == length specs) ≡ true
same_count [] [] m = refl
same_count [] (s ∷ specs) m = absurd m
same_count (v ∷ vs) [] m = absurd m
same_count (v ∷ vs) (s ∷ specs) (typed, fits, m) = ground (arith, same_count vs specs m)

-- Values that match their specifications encode to a payload of exactly the configured size, and
-- decoding it gives the values back, whatever bytes follow it.
pub decode-encode :
    (values : List ScalarValue) (specs : List MemberSpec)
    → Matches values specs
    → (payload : List ℕ) × (encode_struct_payload values specs ≡ ok payload)
      × (length payload ≡ total_wire_size specs)
      × ((rest : List ℕ) → decode_struct_payload (payload ++ rest) specs ≡ ok values)
unfolding encode_struct_payload decode_struct_payload
decode-encode values specs m = (
  payload_of values,
  rw (same_count values specs m) (encode_from-payload_of values specs [] m),
  length-payload_of values specs m,
  λ rest. decode_from-payload_of values specs [] rest m,
)
