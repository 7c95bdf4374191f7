-- ===== src/Util/Md5/Shape.antt =====
-- The shape of a digest, and the digests of RFC 1321's test suite that cross a block.
use mrs_uav_bluetooth.Prelude.{All, IsByte, codes, ℕ, zero, suc, ◌/◌, ◌<◌, ◌≡◌, refl, List, arith}
use mrs_uav_bluetooth.Util.Md5.{le_bytes, Words, md5, md5_hex, digest_of}

abbrev pub IsHex : ℕ → Type 0
IsHex n = n < 16

-- A digest is the bytes of four words.
pub md5-digest_of : (src : List ℕ) → (w : Words) × (md5 src ≡ digest_of w)
unfolding md5
md5-digest_of src = (_, refl)

pub le_bytes-IsByte : (n x : ℕ) → All IsByte (le_bytes n x)
le_bytes-IsByte zero x = tt
le_bytes-IsByte (suc n) x = (omega arith, le_bytes-IsByte n (x / 256))

pub digest_of-IsByte : (w : Words) → All IsByte (digest_of w)
unfolding digest_of
digest_of-IsByte w = omega arith

md5_abc : md5_hex (codes "abc") ≡ codes "900150983cd24fb0d6963f7d28e17f72"
unfolding md5_hex md5
md5_abc = refl

md5_eighty :
    md5_hex
      (codes "12345678901234567890123456789012345678901234567890123456789012345678901234567890")
    ≡ codes "57edf4a22be3c955ac49da2e2107b67a"
unfolding md5_hex md5
md5_eighty = refl
