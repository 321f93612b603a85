-- ===== src/Examples/Cycles.antt =====
-- Cycles on a device whose services answer with nothing but a status, and the frame slot.
use bustaferl.Prelude.{◌+◌, ◌≡◌, refl, true, false, [], ◌∷◌, none, arith, get_or, inl}
use bustaferl.Data.{empty_schedule, empty_snapshot}
use bustaferl.Trace.{timer, button, empty_trace}
use bustaferl.Fetch.{Answer}
use bustaferl.Cycle.{PersistedMeta, World, Env, CycleConfig, no_failure, other}
use bustaferl.Cycle.Store.{save_framebuffer, load_framebuffer, load-save_framebuffer}
use bustaferl.Cycle.Warm.{run_warm_cycle, ensure_clock_synced, clock_drifted_ahead}
use bustaferl.Cycle.Cold.{run_cold_cycle}
use bustaferl.Cycle.Asleep.{EndsAsleep, run_warm_cycle-EndsAsleep, run_warm_cycle_saves}
use bustaferl.Cycle.Glass.{panel, render_and_push_shows}
use bustaferl.Cycle.Push.{prev_frame, render_and_push}
use bustaferl.Screen.{normal}
use bustaferl.Cycle.Settled.{run_cold_cycle-EndsAsleep}
use bustaferl.Rle.{take_run, delta}

abbrev pub config : CycleConfig
config = record {
  wifi_connect_ms = 10000;
  wifi_timeout_ms = 10000;
  cold_boot_retry_s = 60;
  no_wifi_repaint_every = 5;
  wifi_auth_sleep_s = 3600;
  cold_boot_max_retries = 5;
  poll_interval_s = 30;
  ntp_interval_s = 86400;
  max_wake_overshoot_s = 1800;
  filter_health_dead_after = 3;
  sleep = record {
    wake_before_bus_s = 900;
    boot_margin_s = 30;
    active_threshold_s = 120;
    no_data_sleep_s = 1800;
    api_failure_retry_s = 60;
  };
  long_sleep_for_nightly_clean_s = 14400;
  nightly_deep_clean_interval_s = 72000;
  boot_info_show_s = 15;
  rescue = record { window_start_s = 20; window_end_s = 40; retry_pause_s = 5 };
  rescue_max_attempts = 3;
  btn_long_press_ms = 3000;
  btn_double_click_ms = 400;
  diag_max_s = 600;
  brownout_show_s = 5;
  update_stamp_enabled = true;
  deep_wake = true;
}

abbrev nothing : Answer
nothing = record { result = record { ok = true; http_status = 204 }; body = [] }

abbrev pub device : Env
device = record {
  now = λ log. 1800000000;
  ntp_sync = λ log. true;
  last_sync = λ log. 1799990000;
  connect = λ log timeout. true;
  is_connected = λ log. true;
  last_failure = λ log. no_failure;
  ogd = λ log batch i. nothing;
  hafas = λ log i. nothing;
  parse_ogd = λ body. none;
  parse_oebb = λ now body. none;
  mgate = true;
  efa = λ log. record { answers = λ call i. nothing; parse = λ call body hints. (false, hints) };
  divas = [];
  midnight = λ now. 1799971200;
  local_at = λ now days hour minute. now + 1;
  render = λ log input. 255 ∷ [];
  render_boot_check = λ log. [];
  render_diag = λ log page. page ∷ [];
  render_brownout = λ text. text;
  button = λ t. false;
  now_ms = λ log. 0;
  stamp = λ frame now. frame;
  version = [];
  cfg = config;
}

abbrev pub meta : PersistedMeta
meta = record {
  last_ntp_sync = 1799990000;
  last_api_success = 0;
  counters = record { partial_count = 0; last_light_full = 0; last_deep_clean = 0 };
  filter_miss_streak = 0;
  cold_boot_retries = 0;
  no_wifi_cycles = 0;
  framebuffer_valid = false;
  has_any_data = false;
  last_success_at = 0;
  auth = record { auth_error_seen = false; ogd_auth_streak = 0 };
  last_display_update = 0;
  expected_wake_at = 0;
  last_reset_reason = other;
}

abbrev pub world : World
world = record {
  log = [];
  meta = meta;
  curr = 255 ∷ 255 ∷ 0 ∷ [];
  saved_meta = meta;
  saved_code = [];
  saved_schedule = empty_schedule;
  saved_trace = empty_trace;
}

run_warm_cycle-EndsAsleep_example : EndsAsleep (run_warm_cycle device timer world).log
run_warm_cycle-EndsAsleep_example = run_warm_cycle-EndsAsleep device timer world tt

run_warm_cycle_saves_example :
    (run_warm_cycle device button world).saved_meta ≡ (run_warm_cycle device button world).meta
unfolding ensure_clock_synced clock_drifted_ahead
run_warm_cycle_saves_example = run_warm_cycle_saves device button world refl refl

load-save_framebuffer_example :
    ((save_framebuffer world).0 ≡ true)
    × (load_framebuffer (save_framebuffer world).1 15000 ≡ 255 ∷ 255 ∷ 0 ∷ [])
unfolding take_run delta
load-save_framebuffer_example =
    load-save_framebuffer world 15000 (omega arith) (omega arith) (omega arith)

run_cold_cycle-EndsAsleep_example : EndsAsleep (run_cold_cycle device world).log
run_cold_cycle-EndsAsleep_example = run_cold_cycle-EndsAsleep device world tt

render_and_push_shows_example :
    panel 0 3 7 (render_and_push device normal empty_snapshot empty_schedule true world).log
    ≡ get_or (render_and_push device normal empty_snapshot empty_schedule true world).curr 353 0
unfolding prev_frame
render_and_push_shows_example =
    render_and_push_shows 0 3 7 device normal empty_snapshot empty_schedule true world (omega arith)
      (omega arith) (inl refl)
