-- ===== src/Base/Decimal.antt =====
-- `%d` of Go's `fmt` for a number that is not negative.
use Prim.Native.Nat.{ℕ, zero, suc, ◌/◌, ◌%◌}
use Prim.Native.Char.{Char}
use Prim.Native.String.{String, ◌∷◌}
use mathlib.Core.Path.{◌≡◌, refl}

digit : ℕ → Char
digit zero = "0"
digit (suc zero) = "1"
digit (suc (suc zero)) = "2"
digit (suc (suc (suc zero))) = "3"
digit (suc (suc (suc (suc zero)))) = "4"
digit (suc (suc (suc (suc (suc zero))))) = "5"
digit (suc (suc (suc (suc (suc (suc zero)))))) = "6"
digit (suc (suc (suc (suc (suc (suc (suc zero))))))) = "7"
digit (suc (suc (suc (suc (suc (suc (suc (suc zero)))))))) = "8"
digit _ = "9"

-- The digits of `n` in front of `rest`. The fuel `n + 1` is enough, since `n / 10 < n` for `0 < n`.
decimal_before : ℕ → ℕ → String → String
unfolding digit
decimal_before zero n rest = rest
decimal_before (suc f) n rest = elim (n / 10) [
  | zero ↦ digit (n % 10) ∷ rest
  | suc m ↦ decimal_before f (suc m) (digit (n % 10) ∷ rest)
]

unfoldable pub decimal : ℕ → String
unfolding decimal_before
decimal n = decimal_before (suc n) n ""

decimal_runs : decimal 1700000000123 ≡ "1700000000123"
unfolding decimal
decimal_runs = refl
