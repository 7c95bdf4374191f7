-- ===== src/Bridge/Scalar.antt =====
-- The wire types of src/bridge/payload_codec.cpp and the scalars that travel in them. A scalar is its
-- alternative of the variant and its bit pattern, which `memcpy` copies; the patterns of floats are
-- not interpreted.
use mrs_uav_bluetooth.Prelude.{if◌then◌else◌, Text, codes, text_eq, ℕ, ◌^◌, ◌<◌, Option, none, some}

pub data WireType : Type 0 where
  bool int8 uint8 int16 uint16 int32 uint32 int64 uint64 float32 float64 : WireType

pub record ScalarValue : Type 0 where
  pub type : WireType
  pub bits : ℕ

-- `kTypeInfo`.
unfoldable pub type_info : Text → Option WireType
type_info name =
    if text_eq name (codes "bool")
    then some bool
    else if text_eq name (codes "int8")
    then some int8
    else if text_eq name (codes "uint8")
    then some uint8
    else if text_eq name (codes "int16")
    then some int16
    else if text_eq name (codes "uint16")
    then some uint16
    else if text_eq name (codes "int32")
    then some int32
    else if text_eq name (codes "uint32")
    then some uint32
    else if text_eq name (codes "int64")
    then some int64
    else if text_eq name (codes "uint64")
    then some uint64
    else if text_eq name (codes "float32")
    then some float32
    else if text_eq name (codes "float64")
    then some float64
    else none

abbrev pub width : WireType → ℕ
width bool = 1
width int8 = 1
width uint8 = 1
width int16 = 2
width uint16 = 2
width int32 = 4
width uint32 = 4
width int64 = 8
width uint64 = 8
width float32 = 4
width float64 = 8

-- A bit pattern that the alternative can hold.
abbrev pub ScalarFits : WireType → ℕ → Type 0
ScalarFits bool bits = bits < 2
ScalarFits type bits = bits < 256 ^ width type
