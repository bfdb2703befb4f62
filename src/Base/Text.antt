-- ===== src/Base/Text.antt =====
-- Decimal numbers as texts: `str(n)` and the format `:.3f` of an amount in millimes.
use Prim.Native.Nat.{ℕ, zero, suc, ◌/◌, ◌%◌}
use Prim.Native.String.{String, ◌++◌}
use mathlib.Core.Path.{◌≡◌, refl}
use mathlib.Core.Bool.{true, false}
use livekit_agent.Base.Tests.{ltb, ◌==◌, if◌then◌else◌}
use livekit_agent.Base.Int.{ℤ, pos, negsuc}

digit_text : ℕ → String
digit_text d =
    if d == 0
    then "0"
    else if d == 1
    then "1"
    else if d == 2
    then "2"
    else if d == 3
    then "3"
    else if d == 4
    then "4"
    else if d == 5
    then "5"
    else if d == 6
    then "6"
    else if d == 7
    then "7"
    else if d == 8
    then "8"
    else "9"

-- The fuel is above the number, and each round divides it by ten.
digits : ℕ → ℕ → String → String
digits zero n out = out
digits (suc f) n out = elim (ltb n 10) [
  | true ↦ digit_text n ++ out
  | false ↦ digits f (n / 10) (digit_text (n % 10) ++ out)
]

unfoldable pub show_ℕ : ℕ → String
unfolding digits digit_text
show_ℕ n = digits (suc n) n ""

-- `str(n)` of an int
unfoldable pub show_ℤ : ℤ → String
unfolding show_ℕ
show_ℤ (pos n) = show_ℕ n
show_ℤ (negsuc n) = "-" ++ show_ℕ (suc n)

-- `f"{x:.3f}"` of an amount that is a whole number of millimes
millimes : ℕ → String
millimes n =
    show_ℕ (n / 1000)
    ++ ("." ++ (digit_text (n / 100 % 10) ++ (digit_text (n / 10 % 10) ++ digit_text (n % 10))))

unfoldable pub fixed3 : ℤ → String
unfolding millimes show_ℕ
fixed3 (pos n) = millimes n
fixed3 (negsuc n) = "-" ++ millimes (suc n)

-- `str(x)` of a float that is a whole number of thousandths, below 10^16
float_text : ℕ → String
float_text n =
    show_ℕ (n / 1000)
    ++ ("."
        ++ (digit_text (n / 100 % 10)
            ++ (if n % 100 == 0
                then ""
                else (digit_text (n / 10 % 10)
                    ++ (if n % 10 == 0 then "" else digit_text (n % 10))))))

unfoldable pub show_float : ℤ → String
unfolding float_text show_ℕ
show_float (pos n) = float_text n
show_float (negsuc n) = "-" ++ float_text (suc n)

fixed3-cap : fixed3 (pos 200050) ≡ "200.050"
unfolding fixed3
fixed3-cap = refl

show_ℤ-days : show_ℤ (negsuc 179) ≡ "-180"
unfolding show_ℤ
show_ℤ-days = refl

show_float-amount : show_float (pos 42500) ≡ "42.5"
unfolding show_float
show_float-amount = refl
