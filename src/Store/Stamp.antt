-- ===== src/Store/Stamp.antt =====
-- How the store writes and orders its timestamps: `Format(time.RFC3339Nano)` in UTC, compared as
-- text. Two times of the years 0 to 9999 whose seconds differ compare as the seconds do; within one
-- second the texts differ in what follows the seconds, and that text is compared.
use claw.Prelude.{
  ℕ, zero, suc, ◌+◌, ◌/◌, ◌%◌, ◌^◌, ◌<◌, ◌≡◌, Bool, true, false, ◌&&◌, ◌||◌, [], ◌∷◌, ◌++◌, arith,
  ltb, ◌==◌, if◌then◌else◌,
}
use claw.Prelude.Text.{Text}
use claw.Types.{Time}

-- Text order, as SQLite's BINARY collation: is the first text strictly before the second?
unfoldable pub text_lt : Text → Text → Bool
text_lt s [] = false
text_lt [] (d ∷ t) = true
text_lt (c ∷ s) (d ∷ t) = ltb c d || (c == d && text_lt s t)

abbrev pub second : ℕ
second = 1000000000

-- The digits of a fraction below 10 ^ k of a second, with no zeros at the end.
unfoldable pub fraction_digits : ℕ → ℕ → Text
fraction_digits zero n = []
fraction_digits (suc k) n =
    let rest = fraction_digits k (n % 10 ^ k) in if n == 0 then [] else (48 + n / 10 ^ k) ∷ rest

-- What follows the seconds: `Z`, or `.`, the fraction and `Z`.
unfoldable pub suffix : ℕ → Text
unfolding fraction_digits
suffix n = if n == 0 then b'Z' ∷ [] else b'.' ∷ (fraction_digits 9 n ++ b'Z' ∷ [])

-- Is the text of the first time strictly before the text of the second?
unfoldable pub stamp_lt : Time → Time → Bool
unfolding suffix text_lt
stamp_lt a b =
    ltb (a / second) (b / second)
    || (a / second == b / second && text_lt (suffix (a % second)) (suffix (b % second)))

-- Of two times in one second, a fraction that is not zero is written before no fraction.
pub stamp_lt-fraction :
    (a b : Time)
    → a / second ≡ b / second
    → a % second ≡ 0
    → 0 < b % second
    → (stamp_lt b a ≡ true) × (stamp_lt a b ≡ false)
unfolding stamp_lt
stamp_lt-fraction a b s z f = ground arith
