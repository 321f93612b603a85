-- ===== src/Policy/Rescue.antt =====
-- src/logic/rescue_policy.cpp: the window in which an incomplete snapshot is fetched again.
use bustaferl.Prelude.{ℕ, ◌+◌, ◌-◌, ◌%◌, ◌^◌, ◌≤◌, ◌<◌, ◌≡◌, arith, ltb, if◌then◌else◌, ◌↔◌}

pub record RescueConfig : Type 0 where
  pub window_start_s : ℕ
  pub window_end_s : ℕ
  pub retry_pause_s : ℕ

pub data RescueStep : Type 0 where
  wait retry stop : RescueStep

-- The result and the out-parameter `wait_s`.
unfoldable pub next_rescue_step : ℕ → ℕ → RescueConfig → RescueStep × ℕ
next_rescue_step now anchored_at cfg =
    if ltb now anchored_at
    then (stop, 0)
    else let elapsed = now - anchored_at in
      if ltb cfg.window_end_s elapsed
      then (stop, 0)
      else if ltb elapsed cfg.window_start_s
      then (wait, (cfg.window_start_s - elapsed) % 2 ^ 32)
      else (retry, 0)

-- A fetch is attempted exactly inside the window that the configuration opens after the anchor.
pub next_rescue_step-retry_iff :
    (now anchored_at : ℕ) (cfg : RescueConfig)
    → ((next_rescue_step now anchored_at cfg).0 ≡ retry)
      ↔ ((anchored_at + cfg.window_start_s ≤ now) × (now ≤ anchored_at + cfg.window_end_s))
unfolding next_rescue_step
next_rescue_step-retry_iff now anchored_at cfg = (ground arith, ground arith)

-- Sleeping for the seconds that a `wait` asks for leads into the window: at that time the answer is
-- `retry`. The window's bounds are in order, and its start fits an unsigned.
pub next_rescue_step_wait_opens :
    (now anchored_at : ℕ) (cfg : RescueConfig)
    → cfg.window_start_s ≤ cfg.window_end_s
    → cfg.window_start_s < 2 ^ 32
    → (next_rescue_step now anchored_at cfg).0 ≡ wait
    → (0 < (next_rescue_step now anchored_at cfg).1)
      × ((next_rescue_step (now + (next_rescue_step now anchored_at cfg).1) anchored_at cfg).0
          ≡ retry)
unfolding next_rescue_step
next_rescue_step_wait_opens now anchored_at cfg ordered fits w = (ground arith, ground arith)
