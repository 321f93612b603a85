-- ===== src/Examples/Presses.antt =====
-- The diagnostic mode, the overlay after a brownout and a press, on a device without a network.
use bustaferl.Prelude.{
  ℕ, ◌+◌, ◌*◌, ◌<◌, ◌≤◌, ◌≡◌, refl, true, false, some, arith, get_or, length, inl, zero, suc,
}
use bustaferl.Data.{empty_schedule, empty_snapshot}
use bustaferl.Screen.{normal}
use bustaferl.Button.Verdict.{Polls}
use bustaferl.Cycle.{brownout, World, Env, connected, emit}
use bustaferl.Cycle.Glass.{panel}
use bustaferl.Cycle.Push.{prev_frame, render_and_push}
use bustaferl.Cycle.Press.{
  run_diag_mode, diag_fetched, draw_diag, show_brownout_screen, run_button_wake,
}
use bustaferl.Cycle.Session.{waits, diag_times_out, run_button_wake_sleeps, Asleep}
use bustaferl.Cycle.Ends.{Returns}
use bustaferl.Cycle.Power.{make_deps}
use bustaferl.Cycle.Overlay.{run_diag_mode_stays, brownout_stays}
use bustaferl.Examples.Cycles.{device, world, meta}
use bustaferl.Examples.Blank.{blank_frame, blank_code, prev_frame-blank}

-- Each event takes five minutes.
abbrev slow_device : Env
slow_device = record device {
  now = λ log. 1800000000 + 300 * length log;
  connect = λ log timeout. false;
  render = λ log input. blank_frame;
}

abbrev first_page : World
first_page = draw_diag slow_device 0 (emit connected world)

untouched : (k : ℕ) → k ≤ 1 → false ≡ false
untouched k h = refl

still_early : (k : ℕ) → k < 1 → slow_device.now (waits k first_page).log < 1800000900
still_early zero h = omega arith
still_early (suc k) h = absurd (omega arith)

diag_times_out_example : run_diag_mode slow_device 5 5 world ≡ some (waits 1 first_page)
unfolding diag_fetched
diag_times_out_example =
    diag_times_out slow_device 5 5 1 world (omega arith) untouched still_early (omega arith)

abbrev after_diag : World
after_diag = waits 1 first_page

entered : run_diag_mode slow_device 5 5 world ≡ some after_diag
unfolding diag_fetched
entered = diag_times_out slow_device 5 5 1 world (omega arith) untouched still_early (omega arith)

run_diag_mode_stays_example :
    (prev_frame after_diag ≡ prev_frame world)
    × (panel 0 0 0 after_diag.log ≡ get_or after_diag.curr 0 0)
run_diag_mode_stays_example = run_diag_mode_stays slow_device 0 0 0 5 5 world after_diag entered

hold_polls : Polls 300 3000
hold_polls = record { reached = omega arith; needed = omega arith; no_wrap = omega arith }

window_polls : Polls 40 400
window_polls = record { reached = omega arith; needed = omega arith; no_wrap = omega arith }

run_button_wake_sleeps_example :
    Returns (Asleep slow_device) (run_button_wake slow_device 301 301 world)
run_button_wake_sleeps_example =
    run_button_wake_sleeps slow_device 40 300 300 0 world (omega arith) (omega arith) (omega arith)
      hold_polls window_polls tt (omega arith) refl (inl refl)

-- The blank board, on the panel and in the slot.
abbrev board : World
board = record world {
  meta = record meta { framebuffer_valid = true };
  saved_meta = record meta { framebuffer_valid = true };
  saved_code = blank_code;
}

board_found : prev_frame (show_brownout_screen slow_device brownout board) ≡ (true, blank_frame)
unfolding show_brownout_screen
board_found = prev_frame-blank (show_brownout_screen slow_device brownout board) refl refl refl

brownout_stays_example :
    panel 0 0 0
      (render_and_push slow_device normal empty_snapshot empty_schedule false
        (show_brownout_screen slow_device brownout board)).log
    ≡ 66
brownout_stays_example =
    brownout_stays slow_device 0 0 0 brownout normal empty_snapshot empty_schedule board refl refl
      board_found

abbrev deps : Env
deps = make_deps true slow_device
