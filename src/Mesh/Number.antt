-- ===== src/Mesh/Number.antt =====
-- The number at the end of a UAV's name, which is its Mesh address: `uav_number` of
-- src/mesh/swarm_coordinator.cpp. An exception is `none`; `std::stoul` throws beyond 64 bits, where
-- the range test of its callers would refuse the value too.
use mrs_uav_bluetooth.Prelude.Decimal.{decimal_from}
use mrs_uav_bluetooth.Prelude.{
  ltb, ◌==◌, if◌then◌else◌, all, Text, is_digit, ℕ, ◌||◌, Option, none, some, [], ◌∷◌,
}

-- The text behind the last byte that is no digit.
abbrev pub digit_suffix : Text → Text
digit_suffix [] = []
digit_suffix (c ∷ t) = if all is_digit (c ∷ t) then c ∷ t else digit_suffix t

abbrev pub number_up_to : ℕ → Text → Option ℕ
number_up_to top [] = none
number_up_to top (c ∷ t) =
    let value = decimal_from 0 (c ∷ t) in if value == 0 || ltb top value then none else some value

unfoldable pub uav_number : Text → Option ℕ
uav_number hostname = number_up_to 0xffff (digit_suffix hostname)
