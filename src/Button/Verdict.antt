-- ===== src/Button/Verdict.antt =====
-- The verdicts of the button classifier, and that its loops end.
use bustaferl.Prelude.{
  ℕ, zero, suc, ◌+◌, ◌-◌, ◌*◌, ◌^◌, ◌≤◌, ◌<◌, ◌≡◌, refl, Option, none, some, arith, if◌then◌else◌,
}
use bustaferl.Button.{
  ButtonPress, press_none, short, long, double, Line, button_poll_ms, button_debounce_ms, hold_loop,
  classify_held, double_click_loop, after_first, classify_press, as_double,
}

-- The specification counts samples and reads no clock: of the sample at `now` and `n` more, one each
-- poll period, the first released one is a short press; if all are held the last one makes it long.
abbrev pub samples : ℕ → Line → ℕ → ButtonPress × ℕ
samples zero line now = if line now then (long, now) else (short, now)
samples (suc n) line now =
    let rest = samples n line (now + button_poll_ms) in if line now then rest else (short, now)

-- `n` is the number of poll periods that reach the threshold, far from the wrap of the counter.
pub record Polls (n : ℕ) (threshold_ms : ℕ) : Type 0 where
  pub reached : threshold_ms ≤ button_poll_ms * n
  pub needed : button_poll_ms * n < threshold_ms + button_poll_ms
  pub no_wrap : threshold_ms + button_poll_ms < 2 ^ 32

hold_loop-samples :
    (n : ℕ) (fuel : ℕ) (line : Line) (long_ms t0 now : ℕ)
    → n ≤ fuel
    → t0 ≤ now
    → long_ms ≤ (now - t0) + button_poll_ms * n
    → (now - t0) + button_poll_ms * n < long_ms + button_poll_ms
    → long_ms + button_poll_ms < 2 ^ 32
    → hold_loop (suc fuel) line long_ms t0 now ≡ some (samples n line now)
unfolding hold_loop
hold_loop-samples zero fuel line long_ms t0 now enough h lo hi w = ground arith
hold_loop-samples (suc n) zero line long_ms t0 now enough h lo hi w = absurd (omega arith)
hold_loop-samples (suc n) (suc fuel) line long_ms t0 now enough h lo hi w =
    ground (arith, hold_loop-samples n fuel line long_ms t0 (now + button_poll_ms))

-- The time-driven hold loop is the sample count: after the debounce, with `n` the number of poll
-- periods that reach the threshold, the loop ends within n + 1 rounds and gives the verdict of the
-- samples. The threshold is positive and far from the wrap of the millisecond counter.
pub classify_held-samples :
    (n fuel : ℕ) (line : Line) (long_ms now : ℕ)
    → n ≤ fuel
    → 0 < n
    → Polls n long_ms
    → classify_held (suc fuel) line long_ms now ≡ some (samples n line (now + button_debounce_ms))
unfolding classify_held
classify_held-samples zero fuel line long_ms now enough pos p = absurd (omega arith)
classify_held-samples (suc n) fuel line long_ms now enough pos p = ground (
  arith,
  hold_loop-samples (suc n) fuel line long_ms (now + button_debounce_ms) (now + button_debounce_ms),
)

-- The first of `m` samples from `now` on at which the line is held.
abbrev pub first_held : ℕ → Line → ℕ → Option ℕ
first_held zero line now = none
first_held (suc m) line now =
    let rest = first_held m line (now + button_poll_ms) in if line now then some now else rest

-- What becomes of a short press: a double click if a second press starts at a sample `u` of the
-- window, given when that press ends or turns long; else it is short, given when the window closes.
abbrev pub upgrade : ℕ → Line → ℕ → Option ℕ → ButtonPress × ℕ
upgrade n line close none = (short, close)
upgrade n line close (some u) = (double, (samples n line (u + button_debounce_ms)).1)

-- The specification of the whole classification, by samples: `n` of the hold, `m` of the window.
abbrev pub resolve : ℕ → ℕ → Line → ButtonPress × ℕ → ButtonPress × ℕ
resolve n m line (short, t) = upgrade n line (t + button_poll_ms * m) (first_held m line t)
resolve n m line (p, t) = (p, t)

as_double-samples :
    (n hold : ℕ) (line : Line) (long_ms now : ℕ)
    → n ≤ hold
    → 0 < n
    → Polls n long_ms
    → as_double (classify_held (suc hold) line long_ms now)
      ≡ some (double, (samples n line (now + button_debounce_ms)).1)
as_double-samples n hold line long_ms now enough pos p =
    rw (classify_held-samples n hold line long_ms now enough pos p)

double_click_loop-upgrade :
    (m n fuel hold : ℕ) (line : Line) (long_ms double_ms t0 now : ℕ)
    → m ≤ fuel
    → n ≤ hold
    → 0 < n
    → Polls n long_ms
    → t0 ≤ now
    → double_ms ≤ (now - t0) + button_poll_ms * m
    → (now - t0) + button_poll_ms * m < double_ms + button_poll_ms
    → double_ms + button_poll_ms < 2 ^ 32
    → double_click_loop (suc hold) (suc fuel) line long_ms double_ms t0 now
      ≡ some (upgrade n line (now + button_poll_ms * m) (first_held m line now))
unfolding double_click_loop
double_click_loop-upgrade zero n fuel hold line long_ms double_ms t0 now a b c d e f g h =
    ground arith
double_click_loop-upgrade (suc m) n zero hold line long_ms double_ms t0 now a b c d e f g h =
    absurd (omega arith)
double_click_loop-upgrade (suc m) n (suc fuel) hold line long_ms double_ms t0 now a b c d e f g h =
    ground (
      arith,
      as_double-samples n hold line long_ms now b c d,
      double_click_loop-upgrade m n fuel hold line long_ms double_ms t0 (now + button_poll_ms),
    )

-- The classification ends and is what the samples say: a first hold of `n` poll periods is long at
-- once; a shorter one is a double click if one of the `m` samples of the window after it is held, and
-- else short. The second press of a double click may be of any length: one that is held for `n` poll
-- periods still counts, and the verdict then comes while the line is held. The fuel covers both loops,
-- and the thresholds are far from the counter's wrap.
pub classify_press-resolve :
    (m n fuel : ℕ) (line : Line) (long_ms double_ms now : ℕ)
    → m ≤ fuel
    → n ≤ fuel
    → 0 < n
    → Polls n long_ms
    → Polls m double_ms
    → classify_press (suc fuel) line long_ms double_ms now
      ≡ some (resolve n m line (samples n line (now + button_debounce_ms)))
unfolding classify_press
classify_press-resolve m n fuel line long_ms double_ms now a b c p q =
    rw (classify_held-samples n fuel line long_ms now b c p, after_first)
      (by_first (samples n line (now + button_debounce_ms)))
  where
    by_first :
        (first : ButtonPress × ℕ)
        → after_first (suc fuel) line long_ms double_ms (some first) ≡ some (resolve n m line first)
    by_first (press_none, t) = refl
    by_first (long, t) = refl
    by_first (double, t) = refl
    by_first (short, t) =
        double_click_loop-upgrade m n fuel fuel line long_ms double_ms t t a b c p (omega arith)
          (omega arith) (omega arith) q.no_wrap
