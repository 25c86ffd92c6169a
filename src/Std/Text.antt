-- ===== src/Std/Text.antt =====
-- `std::string` as the native text, and `std::to_string` of an unsigned number.
pub use Prim.Native.String.{String, ◌++◌}
use protocore.Base.{ℕ, zero, suc, ◌+◌, ◌/◌, ◌%◌, true, false, ltb, ◌==◌, if◌then◌else◌}

digit : ℕ → String
digit n =
    if n == 0
    then "0"
    else if n == 1
    then "1"
    else if n == 2
    then "2"
    else if n == 3
    then "3"
    else if n == 4
    then "4"
    else if n == 5
    then "5"
    else if n == 6
    then "6"
    else if n == 7
    then "7"
    else if n == 8
    then "8"
    else "9"

-- The decimal digits of `n`; the fuel `n + 1` is more than the number of digits.
print_decimal : ℕ → ℕ → String
print_decimal zero n = ""
print_decimal (suc fuel) n = elim (ltb n 10) [
  | true ↦ digit n
  | false ↦ print_decimal fuel (n / 10) ++ digit (n % 10)
]

unfoldable pub to_string : ℕ → String
unfolding print_decimal digit
to_string n = print_decimal (n + 1) n
