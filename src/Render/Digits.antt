-- ===== src/Render/Digits.antt =====
-- The texts that the screens print: snprintf's numbers, and the time of day.
-- Numbers are read off with `%d`, or `%02d` for an hour and a minute, which localtime_r gives.
use bustaferl.Prelude.{ℕ, zero, suc, ◌+◌, ◌/◌, ◌%◌, [], ◌∷◌, ◌++◌, ltb, if◌then◌else◌}
use bustaferl.Prelude.Int.{ℤ, pos, negsuc}
use bustaferl.Parse.{Text}

-- The digits of `n`, of which there are at most `fuel`.
unfoldable pub digits : ℕ → ℕ → Text
digits zero n = []
digits (suc fuel) n =
    let rest = digits fuel (n / 10) in
    if ltb n 10 then (48 + n) ∷ [] else rest ++ ((48 + n % 10) ∷ [])

-- %d and %u: a number has no more digits than its value, and one more.
unfoldable pub decimal : ℕ → Text
unfolding digits
decimal n = digits (n + 1) n

unfoldable pub decimal_int : ℤ → Text
unfolding decimal
decimal_int (pos n) = decimal n
decimal_int (negsuc n) = 45 ∷ decimal (n + 1)

-- %02d
unfoldable pub two_digits : ℕ → Text
unfolding decimal
two_digits n = if ltb n 10 then 48 ∷ decimal n else decimal n

-- The hour and the minute of localtime_r.
abbrev pub Clock : Type 0
Clock = ℕ → ℕ × ℕ

unfoldable pub format_hhmm : Clock → ℕ → Text
unfolding two_digits
format_hhmm local t = two_digits (local t).0 ++ (58 ∷ two_digits (local t).1)
