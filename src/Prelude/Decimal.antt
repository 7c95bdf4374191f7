-- ===== src/Prelude/Decimal.antt =====
-- `std::to_string` of an unsigned integer, and reading it back.
use Prim.Native.Nat.{ℕ, zero, suc, ◌+◌, ◌-◌, ◌*◌, ◌/◌, ◌%◌, ◌<◌}
use mathlib.Core.Path.{◌≡◌, refl}
use mathlib.Core.Bool.{true}
use mathlib.Core.List.{[], ◌∷◌, ◌++◌}
use mathlib.Core.Logic.{◌≢◌}
use native.Mathlib.Omega.{arith}
use mrs_uav_bluetooth.Prelude.Tests.{ltb, if◌then◌else◌}
use mrs_uav_bluetooth.Prelude.Bytes.{Text, is_digit}
use mrs_uav_bluetooth.Prelude.Lists.{All}

-- The fuel bounds the number of digits; `n + 1` is always enough.
abbrev pub decimal : ℕ → ℕ → Text
decimal zero n = []
decimal (suc fuel) n =
    let high = decimal fuel (n / 10) in
    if ltb n 10 then (b'0' + n) ∷ [] else high ++ (b'0' + n % 10) ∷ []

unfoldable pub to_string : ℕ → Text
to_string n = decimal (suc n) n

-- The number that a text of digits stands for, continuing from an accumulator.
abbrev pub decimal_from : ℕ → Text → ℕ
decimal_from acc [] = acc
decimal_from acc (c ∷ t) = decimal_from (acc * 10 + (c - b'0')) t

pub decimal_from-append :
    (acc : ℕ) (s t : Text) → decimal_from acc (s ++ t) ≡ decimal_from (decimal_from acc s) t
decimal_from-append acc [] t = refl
decimal_from-append acc (c ∷ s) t = decimal_from-append (acc * 10 + (c - b'0')) s t

decimal_value : (fuel n : ℕ) → n < fuel → decimal_from 0 (decimal fuel n) ≡ n
decimal_value zero n h = elim h [ ]
decimal_value (suc fuel) n h = ground (
  arith,
  decimal_value fuel (n / 10),
  decimal_from-append 0 (decimal fuel (n / 10)) ((b'0' + n % 10) ∷ []),
)

-- Reading back what was printed gives the number.
pub decimal_from-to_string : (n : ℕ) → decimal_from 0 (to_string n) ≡ n
unfolding to_string
decimal_from-to_string n = decimal_value (suc n) n (omega arith)

All-digit-append :
    (s : Text) (c : ℕ)
    → All (λ c. is_digit c ≡ true) s
    → is_digit c ≡ true
    → All (λ c. is_digit c ≡ true) (s ++ c ∷ [])
All-digit-append [] c h e = (e, tt)
All-digit-append (d ∷ s) c h e = (h.0, All-digit-append s c h.1 e)

decimal-digits : (fuel n : ℕ) → All (λ c. is_digit c ≡ true) (decimal fuel n)
decimal-digits zero n = tt
decimal-digits (suc fuel) n =
    ground (
      arith,
      All-digit-append (decimal fuel (n / 10)) (b'0' + n % 10) (decimal-digits fuel (n / 10)),
    )

pub to_string-digits : (n : ℕ) → All (λ c. is_digit c ≡ true) (to_string n)
unfolding to_string
to_string-digits n = decimal-digits (suc n) n

append_cons-ne-nil : (s : Text) (c : ℕ) → s ++ c ∷ [] ≢ []
append_cons-ne-nil [] c = λ e. cc
append_cons-ne-nil (d ∷ s) c = λ e. cc

pub to_string-ne-nil : (n : ℕ) → to_string n ≢ []
unfolding to_string
to_string-ne-nil n = ground (arith, append_cons-ne-nil (decimal n (n / 10)) (b'0' + n % 10))
