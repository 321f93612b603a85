-- ===== src/Examples/Screens.antt =====
-- The screens, the SSID search and the timetable at concrete inputs.
use bustaferl.Prelude.{
  ℕ, ◌+◌, ◌*◌, ◌/◌, ◌<◌, ◌≡◌, ◌≢◌, refl, Bool, true, false, List, [], ◌∷◌, arith, ◌↔◌, Any, length,
  get_or,
}
use bustaferl.Data.{ScheduleHint, ScheduleSnapshot, empty_hint, empty_schedule, empty_snapshot}
use bustaferl.Slots.{schedule_usable}
use bustaferl.Ssid.{find_case_mismatch}
use bustaferl.Ssid.Match.{IsCaseOnly, find_case_mismatch_iff}
use bustaferl.Screen.{
  SelectorSignals, select_display_state, offline, compose_render_input, BootConfig,
}
use bustaferl.Screen.Choice.{compose-select_offline}
use bustaferl.Schedule.{
  need_schedule_refresh, ScheduleFetchResult, carries_data, apply_schedule_fetch_result, Efa,
  ScheduleFetchConfig, fetch_schedule, query_anchor, compute_cutoff, no_result,
}
use bustaferl.Schedule.Keep.{apply_each, apply_lasts}
use bustaferl.Schedule.Calls.{IsIn, IsDistinct, outcome_of, replay, calls_for, fetch_schedule_calls}

-- "A-n" is wanted, "b" and "a-N" are visible.
abbrev wanted : List (List ℕ)
wanted = (65 ∷ 45 ∷ 110 ∷ []) ∷ []

abbrev visible_aps : List (List ℕ)
visible_aps = (98 ∷ []) ∷ (97 ∷ 45 ∷ 78 ∷ []) ∷ []

find_case_mismatch_iff_example :
    ((find_case_mismatch wanted visible_aps).found ≡ true)
    ↔ Any (λ w. Any (IsCaseOnly w) visible_aps) wanted
find_case_mismatch_iff_example = find_case_mismatch_iff wanted visible_aps

-- The network is down, and the last success was ten minutes ago.
abbrev down : SelectorSignals
down = record {
  first_render_ever = false;
  auth_error_seen = false;
  wifi_up = false;
  now = 1600;
  last_success = 1000;
}

compose-select_offline_example :
    (compose_render_input [] offline empty_snapshot empty_schedule 1000 1605).retry_in_s ≡ 0
unfolding select_display_state
compose-select_offline_example =
    compose-select_offline [] true down empty_snapshot empty_schedule 1605 refl (omega arith)
      (omega arith)

abbrev boot_config : BootConfig
boot_config = record { wifi_timeout_ms = 10000; max_retries = 5 }

abbrev connects : ℕ → Bool
connects timeout_ms = true

-- A result that carries data for its first stream only, over a timetable of last week.
abbrev evening : ScheduleHint
evening = record empty_hint { last_today = 900000 }

abbrev result : ScheduleFetchResult
result = record {
  hint = evening ∷ empty_hint ∷ [];
  calls_attempted = 2;
  calls_failed = 1;
  ok = true;
}

abbrev morning : ScheduleHint
morning = record empty_hint { first_tomorrow = 300000 ∷ 301000 ∷ [] }

abbrev old : ScheduleSnapshot
old = record { hint = morning ∷ morning ∷ []; fetched_at = 200000 }

apply_each_example :
    ((apply_schedule_fetch_result result 864000 old).0 ≡ true)
    × ((apply_schedule_fetch_result result 864000 old).1.fetched_at ≡ 864000)
    × (get_or (apply_schedule_fetch_result result 864000 old).1.hint 1 empty_hint ≡ morning)
unfolding carries_data
apply_each_example = apply_each result 864000 old 1 refl

-- Midnights of a zone without an offset.
abbrev midnight : ℕ → ℕ
midnight now = now / 86400 * 86400

apply_lasts_example :
    (schedule_usable (apply_schedule_fetch_result result 864000 old).1 900100 ≡ true)
    × (need_schedule_refresh midnight (apply_schedule_fetch_result result 864000 old).1 900100
        ≡ false)
apply_lasts_example =
    apply_lasts result 864000 old midnight 900100 refl (λ e. ground (arith, e)) (omega arith)
      (omega arith)

abbrev local_at : ℕ → ℕ → ℕ → ℕ → ℕ
local_at now days hour minute = midnight now + days * 86400 + hour * 3600 + minute * 60

abbrev efa : Efa
efa = record {
  answers = λ call i. record { result = record { ok = true; http_status = 200 }; body = [] };
  parse = λ call body hints. (true, hints);
}

abbrev fetch_config : ScheduleFetchConfig
fetch_config = record { query_hour = 22; query_minute = 0; cutoff_hour = 3 }

-- The stops of the four streams: the first two share one, and the last has none.
abbrev divas : List ℕ
divas = 60201320 ∷ 60201320 ∷ 60200289 ∷ 0 ∷ []

fetch_schedule_calls_example :
    let out = fetch_schedule efa local_at 864100 divas fetch_config in
    (stops : List ℕ) × IsDistinct stops
    × ((d : ℕ) → IsIn d stops ↔ ((d ≢ 0) × IsIn d divas))
    × (out.calls_attempted ≡ length stops)
    × (outcome_of out
        ≡ replay efa
            (calls_for (query_anchor local_at 864100 22 0) (compute_cutoff local_at 864100 3) stops)
            no_result.hint)
    × ((out.ok ≡ true) ↔ (out.calls_failed < out.calls_attempted))
fetch_schedule_calls_example = fetch_schedule_calls efa local_at 864100 divas fetch_config
