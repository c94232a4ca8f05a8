-- ===== src/Prelude/Decimal.antt =====
-- Numbers as `format!` prints them: decimal digits, with no sign and no leading zero.
use Prim.Native.Nat.{ℕ, zero, suc, ◌+◌, ◌*◌, ◌/◌, ◌%◌, ◌<◌}
use Prim.Native.String.{String, ◌++◌ as ◌<>◌}
use mathlib.Core.Path.{◌≡◌, refl}
use mathlib.Core.List.{List, [], ◌∷◌}
use native.Mathlib.Omega.{arith}
use web_transport_quinn_py.Prelude.Tests.{ltb, if◌then◌else◌}

-- The digits of `n`, most significant first, in front of `rest`.
unfoldable pub digits_onto : ℕ → ℕ → List ℕ → List ℕ
digits_onto zero n rest = rest
digits_onto (suc f) n rest =
    let more = digits_onto f (n / 10) (n % 10 ∷ rest) in if ltb n 10 then n ∷ rest else more

abbrev pub digit : ℕ → String
digit zero = "0"
digit (suc zero) = "1"
digit (suc (suc zero)) = "2"
digit (suc (suc (suc zero))) = "3"
digit (suc (suc (suc (suc zero)))) = "4"
digit (suc (suc (suc (suc (suc zero))))) = "5"
digit (suc (suc (suc (suc (suc (suc zero)))))) = "6"
digit (suc (suc (suc (suc (suc (suc (suc zero))))))) = "7"
digit (suc (suc (suc (suc (suc (suc (suc (suc zero)))))))) = "8"
digit _ = "9"

unfoldable pub digit_text : List ℕ → String
digit_text [] = ""
digit_text (d ∷ ds) = digit d <> digit_text ds

-- `n + 1` rounds are more than `n` has digits.
unfoldable pub decimal : ℕ → String
unfolding digits_onto digit_text
decimal n = digit_text (digits_onto (suc n) n [])

decimal_4070 : decimal 4070 ≡ "4070"
unfolding decimal
decimal_4070 = refl

-- The number that a list of digits stands for, after the digits read so far.
value_from : ℕ → List ℕ → ℕ
value_from acc [] = acc
value_from acc (d ∷ ds) = value_from (acc * 10 + d) ds

-- Printing loses nothing: the digits read back as the number.
digits_onto_value :
    (f n : ℕ) (rest : List ℕ) → n < f → value_from 0 (digits_onto f n rest) ≡ value_from n rest
unfolding digits_onto value_from
digits_onto_value zero n rest h = elim h [ ]
digits_onto_value (suc f) n rest h =
    ground (arith, digits_onto_value f (n / 10) (n % 10 ∷ rest), split)
  where
    split : n / 10 * 10 + n % 10 ≡ n
    split = omega arith
