-- ===== src/Cycle/Session.antt =====
-- The diagnostic mode ends by itself, and a press of the button ends with the device asleep.
use bustaferl.Prelude.{
  both, ℕ, zero, suc, ◌+◌, ◌<◌, ◌≤◌, ◌≡◌, refl, Bool, true, false, Option, none, some, arith,
  Bool-cases, inl, inr, ◌⊎◌, ◌*◌, if◌then◌else◌, subst, sym,
}
use bustaferl.Button.{ButtonPress, press_none, short, long, double, wait_for_release}
use bustaferl.Policy.Pager.{diag_next}
use bustaferl.Cycle.Awake.{IsAwake, Awake, do_fetch_cycle-Awake}
use bustaferl.Cycle.Asleep.{EndsAsleep, run_warm_cycle-EndsAsleep}
use bustaferl.Cycle.Cold.{run_bw_reset}
use bustaferl.Cycle.Store.{save_framebuffer}
use bustaferl.Trace.{CycleTrigger, button}
use bustaferl.Button.{Line, button_poll_ms, button_debounce_ms}
use bustaferl.Button.Verdict.{Polls, samples, resolve, classify_press-resolve}
use bustaferl.Cycle.Ends.{Ends, unfinished, ends, Returns, returns, Done, Ends-Done}
use bustaferl.Cycle.Press.{
  diag_step, diag_loop, draw_diag, diag_fetched, run_diag_mode, reset_after, timed, rest_until,
  diag_wait_poll_ms, after_press, then_warm, press, run_button_wake,
}
use bustaferl.Cycle.{World, Env, connected, rested, emit}

-- `n` waits of the diagnostic mode in a row.
abbrev pub waits : ℕ → World → World
waits zero w = w
waits (suc n) w = waits n (emit (rested diag_wait_poll_ms) w)

diag_loop_times_out :
    (env : Env) (hold fuel start page n : ℕ) (w : World)
    → n < fuel
    → ((k : ℕ) → k ≤ n → env.button (env.now_ms (waits k w).log) ≡ false)
    → ((k : ℕ) → k < n → env.now (waits k w).log < start + env.cfg.diag_max_s)
    → start + env.cfg.diag_max_s ≤ env.now (waits n w).log
    → diag_loop env hold fuel start page w ≡ some (waits n w)
unfolding diag_loop diag_next
diag_loop_times_out env hold zero start page n w h up early late = absurd (omega arith)
diag_loop_times_out env hold (suc fuel) start page zero w h up early late =
    ground (arith, up 0 (omega arith))
diag_loop_times_out env hold (suc fuel) start page (suc n) w h up early late = ground (
  arith,
  up 0 (omega arith),
  early 0 (omega arith),
  diag_loop_times_out env hold fuel start page n (emit (rested diag_wait_poll_ms) w) (omega arith)
      (λ k l. up (suc k) (omega arith)) (λ k l. early (suc k) (omega arith)) late,
)

-- If nobody touches the button and the deadline is first passed after `n` waits, then the diagnostic mode
-- ends there by itself, on its first page, for any fuel beyond `n`.
pub diag_times_out :
    (env : Env) (hold fuel n : ℕ) (w : World)
    → let shown = draw_diag env 0 (diag_fetched env w) in
      let deadline = env.now (diag_fetched env w).log + env.cfg.diag_max_s in
      n < fuel
      → ((k : ℕ) → k ≤ n → env.button (env.now_ms (waits k shown).log) ≡ false)
      → ((k : ℕ) → k < n → env.now (waits k shown).log < deadline)
      → deadline ≤ env.now (waits n shown).log
      → run_diag_mode env hold fuel w ≡ some (waits n shown)
unfolding run_diag_mode
diag_times_out env hold fuel n w h up early late =
    diag_loop_times_out env hold fuel (env.now (diag_fetched env w).log) 0 n
      (draw_diag env 0 (diag_fetched env w)) h up early late

module _ (env : Env) where
  abbrev StaysAwake : Option World → Type 0
  StaysAwake = Ends Awake

  abbrev TimedAwake : Option (ButtonPress × World) → Type 0
  TimedAwake = Ends (λ (r : ButtonPress × World). Awake r.1)

  timed-Awake : (w : World) (o : Option (ButtonPress × ℕ)) → Awake w → TimedAwake (timed env w o)
  timed-Awake w none h = unfinished
  timed-Awake w (some (p, t)) h = ends (refl, h)

  diag_step-Awake :
      (page : ℕ) (go : ℕ → World → Option World) (o : Option (ButtonPress × World))
      → ((next : ℕ) (v : World) → Awake v → StaysAwake (go next v))
      → TimedAwake o
      → StaysAwake (diag_step env page go o)
  unfolding diag_next
  diag_step-Awake page go none more h = unfinished
  diag_step-Awake page go (some (press_none, v)) more (ends h) = more page v h
  diag_step-Awake page go (some (long, v)) more (ends h) = ends h
  diag_step-Awake page go (some (short, v)) more (ends h) = more _ _ (refl, h)
  diag_step-Awake page go (some (double, v)) more (ends h) = more _ _ (refl, h)

  diag_loop-Awake :
      (hold fuel start page : ℕ) (w : World)
      → Awake w
      → StaysAwake (diag_loop env hold fuel start page w)
  unfolding diag_loop
  diag_loop-Awake hold zero start page w h = unfinished
  diag_loop-Awake hold (suc fuel) start page w h =
      both StaysAwake _ _ _
        (diag_step-Awake page _ _ (λ next u k. diag_loop-Awake hold fuel start next u k)
          (timed-Awake w _ h))
        (both StaysAwake _ _ _ (ends h) (diag_loop-Awake hold fuel start page _ (refl, h)))

  diag_fetched-Awake : (w : World) → Awake w → Awake (diag_fetched env w)
  unfolding diag_fetched
  diag_fetched-Awake w h =
      both Awake (env.connect w.log env.cfg.wifi_connect_ms) _ _
        (do_fetch_cycle-Awake env w.saved_schedule (emit connected w) (refl, h)) (refl, h)

  run_diag_mode-Awake :
      (hold fuel : ℕ) (w : World) → Awake w → StaysAwake (run_diag_mode env hold fuel w)
  unfolding run_diag_mode
  run_diag_mode-Awake hold fuel w h = diag_loop-Awake hold fuel _ 0 _ (refl, diag_fetched-Awake w h)

  run_bw_reset-Awake : (w : World) → Awake w → Awake (run_bw_reset env w)
  unfolding run_bw_reset save_framebuffer
  run_bw_reset-Awake w h = ground arith

true_ne_false : true ≡ false → ⊥
true_ne_false e = cc

abbrev is_double : ButtonPress → Bool
is_double double = true
is_double _ = false

later : (now j : ℕ) → now + button_poll_ms * suc j ≡ now + button_poll_ms + button_poll_ms * j
later now j = omega arith

Done-if : (b : Bool) (o : Option ℕ) (t : ℕ) → Done o → Done (if b then o else some t)
Done-if true o t h = h
Done-if false o t h = returns refl

wait_for_release_returns :
    (j fuel : ℕ) (line : Line) (now : ℕ)
    → j < fuel
    → line (now + button_poll_ms * j) ≡ false
    → Done (wait_for_release fuel line now)
unfolding wait_for_release
wait_for_release_returns j zero line now h e = absurd (omega arith)
wait_for_release_returns zero (suc fuel) line now h e = elim (Bool-cases (line now)) [
  | inl t ↦ absurd (ground arith)
  | inr f ↦ rw (f, wait_for_release) (returns refl)
]
wait_for_release_returns (suc j) (suc fuel) line now h e = Done-if (line now) _ _ (
    wait_for_release_returns j fuel line (now + button_poll_ms) (omega arith)
      (subst (λ t. line t ≡ false) (later now j) e))

module _ (env : Env) where
  abbrev pub Asleep : World → Type 0
  Asleep w = EndsAsleep w.log

  then_warm-Asleep :
      (trigger : CycleTrigger) (o : Option World)
      → Returns Awake o
      → Returns Asleep (then_warm env trigger o)
  then_warm-Asleep trigger none x = elim x [ ]
  then_warm-Asleep trigger (some w) (returns h) =
      returns (run_warm_cycle-EndsAsleep env trigger w h)

  reset_after-Awake :
      (w : World) (o : Option ℕ) → Awake w → Done o → Returns Awake (reset_after env w o)
  reset_after-Awake w none h x = elim x [ ]
  reset_after-Awake w (some t) h (returns r) = returns (run_bw_reset-Awake env _ (refl, h))

  after_press-Awake :
      (hold fuel j : ℕ) (p : ButtonPress) (w : World)
      → Awake w
      → j < fuel
      → env.button (env.now_ms w.log + button_poll_ms * j) ≡ false
      → (is_double p ≡ false) ⊎ Done (run_diag_mode env hold fuel w)
      → Returns Awake (after_press env hold fuel (some (p, w)))
  unfolding after_press
  after_press-Awake hold fuel j press_none w h l r d = returns h
  after_press-Awake hold fuel j short w h l r d = returns h
  after_press-Awake hold fuel j long w h l r d =
      reset_after-Awake w _ h (wait_for_release_returns j fuel env.button (env.now_ms w.log) l r)
  after_press-Awake hold fuel j double w h l r (inl e) = absurd (true_ne_false e)
  after_press-Awake hold fuel j double w h l r (inr k) =
      Ends-Done _ (run_diag_mode-Awake env hold fuel w h) k

  -- A press that wakes the device ends with it asleep, after a warm cycle of a button: the classification
  -- gives the verdict of the samples, a long hold is released within the fuel, and a double click is
  -- followed by a diagnostic mode that ends.
  pub run_button_wake_sleeps :
      (m n fuel j : ℕ) (w : World)
      → m ≤ fuel
      → n ≤ fuel
      → 0 < n
      → Polls n env.cfg.btn_long_press_ms
      → Polls m env.cfg.btn_double_click_ms
      → IsAwake w.log
      → let verdict =
          resolve n m env.button (samples n env.button (env.now_ms w.log + button_debounce_ms)) in
        let pressed = rest_until env verdict.1 w in
        j ≤ fuel
        → env.button (env.now_ms pressed.log + button_poll_ms * j) ≡ false
        → (is_double verdict.0 ≡ false) ⊎ Done (run_diag_mode env (suc fuel) (suc fuel) pressed)
        → Returns Asleep (run_button_wake env (suc fuel) (suc fuel) w)
  unfolding run_button_wake press
  run_button_wake_sleeps m n fuel j w a b c p q h l r d =
      let verdict =
        resolve n m env.button (samples n env.button (env.now_ms w.log + button_debounce_ms)) in
      then_warm-Asleep button _ (
        subst (λ o. Returns Awake (after_press env (suc fuel) (suc fuel) (timed env w o)))
          (sym (
            classify_press-resolve m n fuel env.button env.cfg.btn_long_press_ms
              env.cfg.btn_double_click_ms (env.now_ms w.log) a b c p q))
          (after_press-Awake (suc fuel) (suc fuel) j verdict.0 (rest_until env verdict.1 w)
            (refl, h) (omega arith) r d))
