-- ===== src/Util/Md5.antt =====
-- The MD5 digest of src/util/uuid_utils.cpp (`md5_init`, `md5_update`, `md5_finalize`, `md5_hex`).
-- Words are numbers below 2 ^ 32 with the wrap-around written out; `~x` is `2 ^ 32 - 1 - x`.
-- `memcpy` between words and bytes is little-endian, as on the targets that the sources name.
pub mod Shape
use mrs_uav_bluetooth.Prelude.{
  ℕ, zero, suc, ◌+◌, ◌-◌, ◌*◌, ◌/◌, ◌%◌, ◌^◌, bit_and, bit_or, bit_xor, List, [], ◌∷◌, ◌++◌, Text,
  ltb, leb, ◌==◌, if◌then◌else◌, length, take, drop, get_or,
}

abbrev word : ℕ
word = 2 ^ 32

pub record Words : Type 0 where
  pub a : ℕ
  pub b : ℕ
  pub c : ℕ
  pub d : ℕ

pub record Md5Context : Type 0 where
  pub state : Words
  pub count : ℕ
  pub buffer : List ℕ

zeros : ℕ → List ℕ
zeros zero = []
zeros (suc n) = 0 ∷ zeros n

pub md5_init : Md5Context
unfolding zeros
md5_init = record {
  state = record { a = 0x67452301; b = 0xefcdab89; c = 0x98badcfe; d = 0x10325476 };
  count = 0;
  buffer = zeros 64;
}

not32 : ℕ → ℕ
not32 x = word - 1 - x

md5_f : ℕ → ℕ → ℕ → ℕ
unfolding not32
md5_f x y z = bit_or (bit_and x y) (bit_and (not32 x) z)

md5_g : ℕ → ℕ → ℕ → ℕ
unfolding not32
md5_g x y z = bit_or (bit_and x z) (bit_and y (not32 z))

md5_h : ℕ → ℕ → ℕ → ℕ
md5_h x y z = bit_xor (bit_xor x y) z

md5_i : ℕ → ℕ → ℕ → ℕ
unfolding not32
md5_i x y z = bit_xor y (bit_or x (not32 z))

md5_rotl : ℕ → ℕ → ℕ
md5_rotl x n = bit_or (x * 2 ^ n % word) (x / 2 ^ (32 - n))

shifts : List ℕ
shifts =
    7 ∷ 12 ∷ 17 ∷ 22 ∷ 7 ∷ 12 ∷ 17 ∷ 22 ∷ 7 ∷ 12 ∷ 17 ∷ 22 ∷ 7 ∷ 12 ∷ 17 ∷ 22 ∷ 5 ∷ 9 ∷ 14 ∷ 20 ∷ 5
    ∷ 9 ∷ 14 ∷ 20 ∷ 5 ∷ 9 ∷ 14 ∷ 20 ∷ 5 ∷ 9 ∷ 14 ∷ 20 ∷ 4 ∷ 11 ∷ 16 ∷ 23 ∷ 4 ∷ 11 ∷ 16 ∷ 23 ∷ 4 ∷ 11
    ∷ 16 ∷ 23 ∷ 4 ∷ 11 ∷ 16 ∷ 23 ∷ 6 ∷ 10 ∷ 15 ∷ 21 ∷ 6 ∷ 10 ∷ 15 ∷ 21 ∷ 6 ∷ 10 ∷ 15 ∷ 21 ∷ 6 ∷ 10
    ∷ 15 ∷ 21 ∷ []

constants : List ℕ
constants =
    0xd76aa478 ∷ 0xe8c7b756 ∷ 0x242070db ∷ 0xc1bdceee ∷ 0xf57c0faf ∷ 0x4787c62a ∷ 0xa8304613
    ∷ 0xfd469501 ∷ 0x698098d8 ∷ 0x8b44f7af ∷ 0xffff5bb1 ∷ 0x895cd7be ∷ 0x6b901122 ∷ 0xfd987193
    ∷ 0xa679438e ∷ 0x49b40821 ∷ 0xf61e2562 ∷ 0xc040b340 ∷ 0x265e5a51 ∷ 0xe9b6c7aa ∷ 0xd62f105d
    ∷ 0x02441453 ∷ 0xd8a1e681 ∷ 0xe7d3fbc8 ∷ 0x21e1cde6 ∷ 0xc33707d6 ∷ 0xf4d50d87 ∷ 0x455a14ed
    ∷ 0xa9e3e905 ∷ 0xfcefa3f8 ∷ 0x676f02d9 ∷ 0x8d2a4c8a ∷ 0xfffa3942 ∷ 0x8771f681 ∷ 0x6d9d6122
    ∷ 0xfde5380c ∷ 0xa4beea44 ∷ 0x4bdecfa9 ∷ 0xf6bb4b60 ∷ 0xbebfbc70 ∷ 0x289b7ec6 ∷ 0xeaa127fa
    ∷ 0xd4ef3085 ∷ 0x04881d05 ∷ 0xd9d4d039 ∷ 0xe6db99e5 ∷ 0x1fa27cf8 ∷ 0xc4ac5665 ∷ 0xf4292244
    ∷ 0x432aff97 ∷ 0xab9423a7 ∷ 0xfc93a039 ∷ 0x655b59c3 ∷ 0x8f0ccc92 ∷ 0xffeff47d ∷ 0x85845dd1
    ∷ 0x6fa87e4f ∷ 0xfe2ce6e0 ∷ 0xa3014314 ∷ 0x4e0811a1 ∷ 0xf7537e82 ∷ 0xbd3af235 ∷ 0x2ad7d2bb
    ∷ 0xeb86d391 ∷ []

-- The nonlinear function and the index of the message word in round `i`.
round_mix : ℕ → Words → ℕ
unfolding md5_f md5_g md5_h md5_i
round_mix i w =
    if ltb i 16
    then md5_f w.b w.c w.d
    else if ltb i 32
    then md5_g w.b w.c w.d
    else if ltb i 48
    then md5_h w.b w.c w.d
    else md5_i w.b w.c w.d

round_index : ℕ → ℕ
round_index i =
    if ltb i 16
    then i
    else if ltb i 32
    then (5 * i + 1) % 16
    else if ltb i 48
    then (3 * i + 5) % 16
    else 7 * i % 16

round_step : List ℕ → ℕ → Words → Words
unfolding round_mix round_index md5_rotl shifts constants
round_step m i w = record {
  a = w.d;
  b =
      (w.b
        + md5_rotl
            ((w.a + round_mix i w + get_or constants i 0 + get_or m (round_index i) 0) % word)
            (get_or shifts i 0))
      % word;
  c = w.b;
  d = w.c;
}

-- The rounds that are left, from round `i` on.
rounds : ℕ → ℕ → List ℕ → Words → Words
unfolding round_step
rounds zero i m w = w
rounds (suc n) i m w = rounds n (i + 1) m (round_step m i w)

-- The little-endian words of a list of bytes.
words_of : ℕ → List ℕ → List ℕ
words_of zero bytes = []
words_of (suc n) bytes =
    (get_or bytes 0 0
      + 256 * get_or bytes 1 0
      + 65536 * get_or bytes 2 0
      + 16777216 * get_or bytes 3 0)
    ∷ words_of n (drop 4 bytes)

pub md5_transform : Words → List ℕ → Words
unfolding rounds words_of
md5_transform s block =
    let w = rounds 64 0 (words_of 16 block) s in
    record {
      a = (s.a + w.a) % word;
      b = (s.b + w.b) % word;
      c = (s.c + w.c) % word;
      d = (s.d + w.d) % word;
    }

-- `memcpy(buffer + index, src, n)` for the bytes `src`.
overwrite : List ℕ → ℕ → List ℕ → List ℕ
overwrite buffer index src = take index buffer ++ src ++ drop (index + length src) buffer

-- The loop over whole blocks and the copy of the rest. The fuel is the number of bytes, and each
-- round takes 64 of them.
update_blocks : ℕ → Words → List ℕ → List ℕ → Words × List ℕ
unfolding md5_transform overwrite
update_blocks zero s buffer src = (s, overwrite buffer 0 src)
update_blocks (suc fuel) s buffer src =
    let rest = update_blocks fuel (md5_transform s (take 64 src)) buffer (drop 64 src) in
    if leb 64 (length src) then rest else (s, overwrite buffer 0 src)

resume : Md5Context → ℕ → Words × List ℕ → Md5Context
resume ctx len (s, buffer) = record { state = s; count = ctx.count + len; buffer = buffer }

pub md5_update : Md5Context → List ℕ → Md5Context
unfolding update_blocks resume
md5_update ctx src =
    let index = ctx.count % 64 in
    let space = 64 - index in
    let len = length src in
    let filled = overwrite ctx.buffer index (take space src) in
    if index == 0
    then resume ctx len (update_blocks len ctx.state ctx.buffer src)
    else if ltb (index + len) 64
    then record ctx { count = ctx.count + len; buffer = filled }
    else resume ctx len (update_blocks len (md5_transform ctx.state filled) filled (drop space src))

-- `while (count % 64 != 56) md5_update(ctx, &zero, 1)`; 64 rounds are enough.
pad : ℕ → Md5Context → Md5Context
unfolding md5_update
pad zero ctx = ctx
pad (suc fuel) ctx =
    let rest = pad fuel (md5_update ctx (0 ∷ [])) in if ctx.count % 64 == 56 then ctx else rest

-- The low `n` bytes of a number, least significant first.
abbrev pub le_bytes : ℕ → ℕ → List ℕ
le_bytes zero x = []
le_bytes (suc n) x = (x % 256) ∷ le_bytes n (x / 256)

unfoldable pub digest_of : Words → List ℕ
digest_of w = le_bytes 4 w.a ++ le_bytes 4 w.b ++ le_bytes 4 w.c ++ le_bytes 4 w.d

pub md5_finalize : Md5Context → List ℕ
unfolding md5_update pad digest_of
md5_finalize ctx =
    let bits = le_bytes 8 (ctx.count * 8) in
    digest_of (md5_update (pad 64 (md5_update ctx (0x80 ∷ []))) bits).state

abbrev pub hex_digit : ℕ → ℕ
hex_digit n = if ltb n 10 then b'0' + n else b'a' + (n - 10)

abbrev pub hex_bytes : List ℕ → Text
hex_bytes [] = []
hex_bytes (x ∷ xs) = hex_digit (x / 16) ∷ hex_digit (x % 16) ∷ hex_bytes xs

unfoldable pub md5 : List ℕ → List ℕ
unfolding md5_init md5_update md5_finalize
md5 src = md5_finalize (md5_update md5_init src)

unfoldable pub md5_hex : List ℕ → Text
md5_hex src = hex_bytes (md5 src)
