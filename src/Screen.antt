-- ===== src/Screen.antt =====
-- src/logic/render_input.cpp, and src/logic/boot_sequencer.cpp: which screen is shown, what it is
-- given, and how a cold boot ends.
pub mod Choice
use bustaferl.Prelude.{
  ℕ, ◌+◌, ◌-◌, ◌%◌, ◌^◌, Bool, true, false, List, [], ◌∷◌, leb, ltb, ◌&&◌, not, if◌then◌else◌,
}
use bustaferl.Data.{StreamSnapshot, ScheduleSnapshot, empty_snapshot}
use bustaferl.Slots.{merge_slots}

pub data DisplayState : Type 0 where
  boot normal offline auth wifi_auth : DisplayState

pub record SelectorSignals : Type 0 where
  pub first_render_ever : Bool
  pub auth_error_seen : Bool
  pub wifi_up : Bool
  pub now : ℕ
  pub last_success : ℕ

abbrev pub offline_threshold_s : ℕ
offline_threshold_s = 300

-- Of the meta data it reads `has_any_data` alone; the snapshots it does not read. The signed
-- `now - last_success > threshold` is a comparison of sums.
unfoldable pub select_display_state : Bool → SelectorSignals → DisplayState
select_display_state has_any_data sig =
    if sig.auth_error_seen
    then auth
    else if sig.first_render_ever && not has_any_data
    then boot
    else if not sig.wifi_up && ltb (sig.last_success + offline_threshold_s) sig.now
    then offline
    else normal

-- The fields that `composeRenderInput` writes.
pub record RenderInput : Type 0 where
  pub state : DisplayState
  pub snapshot : StreamSnapshot
  pub last_fetch_at : ℕ
  pub retry_in_s : ℕ
  pub auth_aid_short : List ℕ
  pub auth_http_code : ℕ
  pub firmware_version : List ℕ

abbrev pub no_input : DisplayState → RenderInput
no_input state = record {
  state = state;
  snapshot = empty_snapshot;
  last_fetch_at = 0;
  retry_in_s = 0;
  auth_aid_short = [];
  auth_http_code = 0;
  firmware_version = [];
}

-- "AID:----"
abbrev pub aid_placeholder : List ℕ
aid_placeholder = 65 ∷ 73 ∷ 68 ∷ 58 ∷ 45 ∷ 45 ∷ 45 ∷ 45 ∷ []

-- OFFLINE_THRESHOLD_S less the seconds since the last success as an int of 32 bits; below 0 it is 0.
abbrev remainder : ℕ → ℕ
remainder elapsed =
    let rem = (offline_threshold_s + 2 ^ 32 - elapsed % 2 ^ 32) % 2 ^ 32 in
    if ltb rem (2 ^ 31) then rem else 0

-- Of the meta data it reads `last_success_at`; `version` is DISPLAY_VERSION_STR.
unfoldable pub compose_render_input :
    List ℕ → DisplayState → StreamSnapshot → ScheduleSnapshot → ℕ → ℕ → RenderInput
compose_render_input version boot snap schedule last_success_at now = record (no_input boot) {
  firmware_version = version;
}
compose_render_input version auth snap schedule last_success_at now = record (no_input auth) {
  auth_aid_short = aid_placeholder;
  auth_http_code = 0;
}
compose_render_input version offline snap schedule last_success_at now =
    let elapsed = if ltb last_success_at now then now - last_success_at else 0 in
    record (no_input offline) { last_fetch_at = last_success_at; retry_in_s = remainder elapsed }
compose_render_input version normal snap schedule last_success_at now = record (no_input normal) {
  snapshot = merge_slots snap schedule now;
}
compose_render_input version wifi_auth snap schedule last_success_at now = no_input wifi_auth

pub data BootResult : Type 0 where
  booted retry_later give_up : BootResult

pub record BootConfig : Type 0 where
  pub wifi_timeout_ms : ℕ
  pub max_retries : ℕ  -- uint8_t

abbrev pub after_failure : ℕ → BootConfig → BootResult
after_failure retries_so_far cfg =
    if leb cfg.max_retries (retries_so_far + 1) then give_up else retry_later

-- `connects` answers `connect` with a time-out, `syncs` answers `ntpSync`, asked after a connection.
unfoldable pub run_cold_boot : (ℕ → Bool) → Bool → ℕ → BootConfig → BootResult
run_cold_boot connects syncs retries_so_far cfg =
    if connects cfg.wifi_timeout_ms
    then if syncs then booted else after_failure retries_so_far cfg
    else after_failure retries_so_far cfg
