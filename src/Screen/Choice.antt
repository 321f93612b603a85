-- ===== src/Screen/Choice.antt =====
-- When each screen is chosen, and what the chosen screen shows.
use bustaferl.Prelude.{ℕ, ◌+◌, ◌^◌, ◌<◌, ◌≤◌, ◌≡◌, Bool, true, false, List, arith, ◌↔◌, ◌⊎◌}
use bustaferl.Data.{StreamSnapshot, ScheduleSnapshot}
use bustaferl.Screen.{
  normal, offline, SelectorSignals, select_display_state, offline_threshold_s, compose_render_input,
  BootConfig, run_cold_boot, booted, give_up,
}

-- The board is shown exactly if no auth error is up, there was data or this is not the first render,
-- and the network is up or the last success is at most the threshold ago.
pub select_display_state-normal_iff :
    (has_any_data : Bool) (sig : SelectorSignals)
    → (select_display_state has_any_data sig ≡ normal) ↔ (
        (sig.auth_error_seen ≡ false)
        × ((has_any_data ≡ true) ⊎ (sig.first_render_ever ≡ false))
        × ((sig.wifi_up ≡ true) ⊎ (sig.now ≤ sig.last_success + offline_threshold_s)))
unfolding select_display_state
select_display_state-normal_iff has_any_data sig =
    (λ e. (ground arith, ground arith, ground arith), λ h. ground arith)

-- The offline screen that the selector chooses announces no retry: at that time or later the
-- remaining seconds are 0, since it is chosen only once the threshold has passed. The last success is
-- less than 2 ^ 31 seconds ago; beyond that the int wraps.
pub compose-select_offline :
    (version : List ℕ) (has_any_data : Bool) (sig : SelectorSignals) (snap : StreamSnapshot)
    (schedule : ScheduleSnapshot) (now : ℕ)
    → select_display_state has_any_data sig ≡ offline
    → sig.now ≤ now
    → now < sig.last_success + 2 ^ 31
    → (compose_render_input version offline snap schedule sig.last_success now).retry_in_s ≡ 0
unfolding select_display_state compose_render_input
compose-select_offline version has_any_data sig snap schedule now e later soon = ground arith

-- A cold boot fails exactly if the connection or the clock does, and gives up exactly at the last of
-- the allowed tries.
pub run_cold_boot_lem :
    (connects : ℕ → Bool) (syncs : Bool) (retries : ℕ) (cfg : BootConfig)
    → ((run_cold_boot connects syncs retries cfg ≡ booted)
        ↔ ((connects cfg.wifi_timeout_ms ≡ true) × (syncs ≡ true)))
      × ((run_cold_boot connects syncs retries cfg ≡ give_up) ↔ (
          ((connects cfg.wifi_timeout_ms ≡ false) ⊎ (syncs ≡ false))
          × (cfg.max_retries ≤ retries + 1)))
unfolding run_cold_boot
run_cold_boot_lem connects syncs retries cfg = (
  (λ e. (ground arith, ground arith), λ h. ground arith),
  (λ e. (ground arith, ground arith), λ h. ground arith),
)
