-- ===== src/Cycle/Press.antt =====
-- src/logic/cycle_runner.cpp: what a press of the boot button starts, the diagnostic mode, and the
-- overlay after an unplanned reset.
-- The button's line is read at the millisecond counter, which depends on the log like every clock. The
-- loops take fuel; `none` means that it ran out.
use bustaferl.Prelude.{
  ℕ, zero, suc, ◌+◌, ◌-◌, Bool, true, false, List, [], Option, none, some, leb, ◌==◌, ◌||◌,
  if◌then◌else◌,
}
use bustaferl.Button.{
  ButtonPress, press_none, long, double, classify_held, classify_press, wait_for_release,
}
use bustaferl.Policy.Pager.{show_page, exit, diag_next}
use bustaferl.Refresh.Apply.{light_full_of, deep_clean_of}
use bustaferl.Trace.{CycleTrigger, timer, button}
use bustaferl.Cycle.Gather.{do_fetch_cycle}
use bustaferl.Cycle.Warm.{run_warm_cycle}
use bustaferl.Cycle.Cold.{run_bw_reset}
use bustaferl.Parse.{key}
use bustaferl.Cycle.{
  ResetReason, normal, brownout, watchdog_or_panic, other, World, Env, connected, painted, paused,
  rested, emit, set_curr,
}

abbrev pub reset_reason_text : ResetReason → List ℕ
reset_reason_text brownout = key "BROWNOUT"
reset_reason_text watchdog_or_panic = key "WATCHDOG/PANIC"
reset_reason_text other = key "RESET"
reset_reason_text normal = []

abbrev pub is_normal : ResetReason → Bool
is_normal normal = true
is_normal _ = false

unfoldable pub show_brownout_screen : Env → ResetReason → World → World
show_brownout_screen env reason w =
    let drawn = set_curr (env.render_brownout (reset_reason_text reason)) w in
    if is_normal reason || env.cfg.brownout_show_s == 0
    then w
    else emit (paused env.cfg.brownout_show_s) (emit (painted (deep_clean_of drawn.curr)) drawn)

-- The button's own sleeps, up to the millisecond `t`, in one event.
abbrev pub rest_until : Env → ℕ → World → World
rest_until env t w = emit (rested (t - env.now_ms w.log)) w

abbrev pub timed : Env → World → Option (ButtonPress × ℕ) → Option (ButtonPress × World)
timed env w none = none
timed env w (some (p, t)) = some (p, rest_until env t w)

abbrev pub diag_wait_poll_ms : ℕ
diag_wait_poll_ms = 50

-- The page is drawn and refreshed in full; the slot of the saved frame is left alone.
abbrev pub draw_diag : Env → ℕ → World → World
draw_diag env page w =
    let fb = env.render_diag w.log page in emit (painted (light_full_of fb)) (set_curr fb w)

abbrev pub is_none : ButtonPress → Bool
is_none press_none = true
is_none _ = false

-- Both loops in one: a round looks at the button once. What it does with a press, and `go` on.
abbrev pub diag_step :
    Env → ℕ → (ℕ → World → Option World) → Option (ButtonPress × World) → Option World
diag_step env page go none = none
diag_step env page go (some (p, w)) =
    let step = diag_next page p false in
    if is_none p
    then go page w
    else elim step.action [ exit ↦ some w | show_page ↦ go step.page (draw_diag env step.page w) ]

unfoldable pub diag_loop : Env → ℕ → ℕ → ℕ → ℕ → World → Option World
unfolding diag_next
diag_loop env hold zero start page w = none
diag_loop env hold (suc fuel) start page w =
    let now_ms = env.now_ms w.log in
    let pressed =
      diag_step env page (diag_loop env hold fuel start)
        (timed env w (classify_held hold env.button env.cfg.btn_long_press_ms now_ms)) in
    let waiting = diag_loop env hold fuel start page (emit (rested diag_wait_poll_ms) w) in
    if env.button now_ms
    then pressed
    else if leb (start + env.cfg.diag_max_s) (env.now w.log)
    then elim (diag_next page press_none true).action [ exit ↦ some w | show_page ↦ waiting ]
    else waiting

-- The best-effort fetch before the first page.
unfoldable pub diag_fetched : Env → World → World
diag_fetched env w =
    let asked = emit connected w in
    if env.connect w.log env.cfg.wifi_connect_ms
    then (do_fetch_cycle env w.saved_schedule asked).1
    else asked

unfoldable pub run_diag_mode : Env → ℕ → ℕ → World → Option World
unfolding diag_loop
run_diag_mode env hold fuel w =
    let fetched = diag_fetched env w in
    diag_loop env hold fuel (env.now fetched.log) 0 (draw_diag env 0 fetched)

abbrev pub reset_after : Env → World → Option ℕ → Option World
reset_after env w none = none
reset_after env w (some t) = some (run_bw_reset env (rest_until env t w))

-- What a verdict asks for before the update.
unfoldable pub after_press : Env → ℕ → ℕ → Option (ButtonPress × World) → Option World
unfolding run_diag_mode
after_press env hold fuel none = none
after_press env hold fuel (some (long, w)) =
    reset_after env w (wait_for_release fuel env.button (env.now_ms w.log))
after_press env hold fuel (some (double, w)) = run_diag_mode env hold fuel w
after_press env hold fuel (some (p, w)) = some w

abbrev pub then_warm : Env → CycleTrigger → Option World → Option World
then_warm env trigger none = none
then_warm env trigger (some w) = some (run_warm_cycle env trigger w)

unfoldable pub press : Env → ℕ → ℕ → World → Option World
unfolding after_press
press env hold fuel w = after_press env hold fuel (
    timed env w (
      classify_press hold env.button env.cfg.btn_long_press_ms env.cfg.btn_double_click_ms
        (env.now_ms w.log)))

unfoldable pub run_button_wake : Env → ℕ → ℕ → World → Option World
unfolding press
run_button_wake env hold fuel w = then_warm env button (press env hold fuel w)

abbrev settle_ms : ℕ
settle_ms = 5

unfoldable pub poll_button_and_run_warm : Env → ℕ → ℕ → World → Option World
unfolding press
poll_button_and_run_warm env hold fuel w =
    let settled = emit (rested settle_ms) w in
    if env.button (env.now_ms settled.log)
    then then_warm env button (press env hold fuel settled)
    else some (run_warm_cycle env timer settled)
