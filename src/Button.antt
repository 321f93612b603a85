-- ===== src/Button.antt =====
-- src/logic/button_classifier.cpp: the verdict on a press of the boot button.
-- The button of src/hal/IButton.h is a line that the user holds and releases as time goes on: `line t`
-- says whether it is held at millisecond `t`. `isPressed` and `nowMs` read at the present time, and
-- only `sleepMs` lets time pass. A loop takes fuel; `none` means that the fuel ran out.
pub mod Verdict
use bustaferl.Prelude.{
  ℕ, zero, suc, ◌+◌, ◌-◌, ◌*◌, ◌%◌, ◌^◌, ◌≤◌, ◌<◌, ◌≡◌, refl, Bool, true, false, Option, none, some,
  arith, leb, ltb, if◌then◌else◌, ◌⊎◌, ◌↔◌,
}

pub data ButtonPress : Type 0 where
  press_none short long double : ButtonPress

abbrev pub button_debounce_ms : ℕ
button_debounce_ms = 20

abbrev pub button_poll_ms : ℕ
button_poll_ms = 10

abbrev pub Line : Type 0
Line = ℕ → Bool

-- `nowMs() - t0` of two uint32_t readings of the millisecond counter, which wraps.
abbrev pub elapsed_ms : ℕ → ℕ → ℕ
elapsed_ms now t0 = (now - t0) % 2 ^ 32

-- while (isPressed()) { if (nowMs() - t0 >= long_press_ms) return Long; sleepMs(POLL); } return Short;
-- The result is the verdict with the time at which it is given.
unfoldable pub hold_loop : ℕ → Line → ℕ → ℕ → ℕ → Option (ButtonPress × ℕ)
hold_loop zero line long_press_ms t0 now = none
hold_loop (suc fuel) line long_press_ms t0 now =
    let rest = hold_loop fuel line long_press_ms t0 (now + button_poll_ms) in
    if line now
    then if leb long_press_ms (elapsed_ms now t0) then some (long, now) else rest
    else some (short, now)

unfoldable pub classify_held : ℕ → Line → ℕ → ℕ → Option (ButtonPress × ℕ)
classify_held fuel line long_press_ms now =
    let settled = now + button_debounce_ms in
    if line settled
    then hold_loop fuel line long_press_ms settled settled
    else some (short, settled)

unfoldable pub wait_for_release : ℕ → Line → ℕ → Option ℕ
wait_for_release zero line now = none
wait_for_release (suc fuel) line now =
    let rest = wait_for_release fuel line (now + button_poll_ms) in
    if line now then rest else some now

-- The second press is drained by `classifyHeld`, whose verdict is dropped.
abbrev as_double : Option (ButtonPress × ℕ) → Option (ButtonPress × ℕ)
as_double none = none
as_double (some (p, t)) = some (double, t)

unfoldable pub double_click_loop : ℕ → ℕ → Line → ℕ → ℕ → ℕ → ℕ → Option (ButtonPress × ℕ)
double_click_loop hold zero line long_press_ms double_click_ms t0 now = none
double_click_loop hold (suc fuel) line long_press_ms double_click_ms t0 now =
    let rest =
      double_click_loop hold fuel line long_press_ms double_click_ms t0 (now + button_poll_ms) in
    if ltb (elapsed_ms now t0) double_click_ms
    then if line now then as_double (classify_held hold line long_press_ms now) else rest
    else some (short, now)

unfoldable pub after_first : ℕ → Line → ℕ → ℕ → Option (ButtonPress × ℕ) → Option (ButtonPress × ℕ)
unfolding double_click_loop
after_first fuel line long_press_ms double_click_ms none = none
after_first fuel line long_press_ms double_click_ms (some (short, t)) =
    double_click_loop fuel fuel line long_press_ms double_click_ms t t
after_first fuel line long_press_ms double_click_ms (some (p, t)) = some (p, t)

unfoldable pub classify_press : ℕ → Line → ℕ → ℕ → ℕ → Option (ButtonPress × ℕ)
unfolding after_first
classify_press fuel line long_press_ms double_click_ms now =
    after_first fuel line long_press_ms double_click_ms (classify_held fuel line long_press_ms now)
