-- ===== src/Cycle.antt =====
-- src/logic/cycle_runner.cpp: the state that a cycle works on, and the hardware that it asks.
-- The world is the log of the calls that act on the hardware, the newest first, with the persisted
-- slots of src/hal/Esp32PersistentStore.cpp, the meta data in memory, and the current frame. Whatever the
-- hardware answers may depend on the log.
pub mod Store
pub mod Push
pub mod Gather
pub mod Trail
pub mod Warm
pub mod Cold
pub mod Awake
pub mod Asleep
pub mod Settled
pub mod Glass
pub mod Press
pub mod Ends
pub mod Session
pub mod Power
pub mod Overlay
use bustaferl.Prelude.{ℕ, Bool, true, false, List, [], ◌∷◌, ◌++◌, map, Option, none, some}
use bustaferl.Data.{StreamSnapshot, ScheduleSnapshot}
use bustaferl.Trace.{CycleTrace}
use bustaferl.Refresh.Apply.{Paint, Counters}
use bustaferl.Fetch.{Answer}
use bustaferl.Fetch.Snapshot.{AuthMeta, OebbParsed}
use bustaferl.Schedule.{Efa}
use bustaferl.Button.{Line}
use bustaferl.Screen.{RenderInput}
use bustaferl.Policy.Rescue.{RescueConfig}
use bustaferl.Policy.Sleep.{SleepConfig}

pub data ResetReason : Type 0 where
  normal brownout watchdog_or_panic other : ResetReason

pub record PersistedMeta : Type 0 where
  pub last_ntp_sync : ℕ
  pub last_api_success : ℕ
  pub counters : Counters  -- last_light_full, last_deep_clean, partial_count
  pub filter_miss_streak : ℕ  -- uint8_t
  pub cold_boot_retries : ℕ  -- uint8_t
  pub no_wifi_cycles : ℕ  -- uint8_t
  pub framebuffer_valid : Bool
  pub has_any_data : Bool
  pub last_success_at : ℕ
  pub auth : AuthMeta  -- auth_error_seen, ogd_auth_streak
  pub last_display_update : ℕ
  pub expected_wake_at : ℕ
  pub last_reset_reason : ResetReason

pub data Event : Type 0 where
  connected ntp_asked fetched efa_asked : Event
  painted : Paint → Event
  meta_saved frame_saved schedule_saved trace_saved : Event
  paused : ℕ → Event
  rested : ℕ → Event  -- the button's sleepMs
  deep_slept : ℕ → Event

abbrev pub History : Type 0
History = List Event

pub data WifiFailure : Type 0 where
  no_failure not_found auth_failed : WifiFailure

pub record World : Type 0 where
  pub log : History
  pub meta : PersistedMeta
  pub curr : List ℕ
  pub saved_meta : PersistedMeta
  pub saved_code : List ℕ  -- g_rle, up to g_rle_len
  pub saved_schedule : ScheduleSnapshot
  pub saved_trace : CycleTrace

-- The fields of CycleConfig that the cycles read; the end points are part of the network.
pub record CycleConfig : Type 0 where
  pub wifi_connect_ms : ℕ
  pub wifi_timeout_ms : ℕ  -- of BootConfig
  pub cold_boot_retry_s : ℕ
  pub no_wifi_repaint_every : ℕ  -- uint8_t
  pub wifi_auth_sleep_s : ℕ
  pub cold_boot_max_retries : ℕ  -- uint8_t
  pub poll_interval_s : ℕ
  pub ntp_interval_s : ℕ
  pub max_wake_overshoot_s : ℕ
  pub filter_health_dead_after : ℕ  -- uint8_t
  pub sleep : SleepConfig
  pub long_sleep_for_nightly_clean_s : ℕ
  pub nightly_deep_clean_interval_s : ℕ
  pub boot_info_show_s : ℕ
  pub rescue : RescueConfig
  pub rescue_max_attempts : ℕ
  pub btn_long_press_ms : ℕ
  pub btn_double_click_ms : ℕ
  pub diag_max_s : ℕ
  pub brownout_show_s : ℕ
  pub update_stamp_enabled : Bool  -- UPDATE_STAMP_ENABLED
  pub deep_wake : Bool  -- of CycleDeps

-- The hardware and the services. A cycle reaches them through these answers alone.
pub record Env : Type 0 where
  pub now : History → ℕ
  pub ntp_sync : History → Bool
  pub last_sync : History → ℕ
  pub connect : History → ℕ → Bool
  pub is_connected : History → Bool
  pub last_failure : History → WifiFailure
  pub ogd : History → ℕ → ℕ → Answer
  pub hafas : History → ℕ → Answer
  pub parse_ogd : List ℕ → Option StreamSnapshot
  pub parse_oebb : ℕ → List ℕ → Option OebbParsed
  pub mgate : Bool
  pub efa : History → Efa
  pub divas : List ℕ
  pub midnight : ℕ → ℕ
  pub local_at : ℕ → ℕ → ℕ → ℕ → ℕ
  pub render : History → RenderInput → List ℕ
  pub render_boot_check : History → List ℕ
  pub render_diag : History → ℕ → List ℕ
  pub render_brownout : List ℕ → List ℕ
  pub button : Line
  pub now_ms : History → ℕ
  pub stamp : List ℕ → ℕ → List ℕ
  pub version : List ℕ
  pub cfg : CycleConfig

abbrev pub min_plausible_epoch : ℕ
min_plausible_epoch = 1700000000

abbrev pub emit : Event → World → World
emit e w = record w { log = e ∷ w.log }

abbrev pub emit_paints : List Paint → World → World
emit_paints ps w = record w { log = map painted ps ++ w.log }

abbrev pub save_meta : World → World
save_meta w = record w { log = meta_saved ∷ w.log; saved_meta = w.meta }

abbrev pub set_meta : PersistedMeta → World → World
set_meta m w = record w { meta = m }

abbrev pub set_curr : List ℕ → World → World
set_curr fb w = record w { curr = fb }
