-- ===== src/Schedule.antt =====
-- src/logic/schedule_refresh.cpp and src/logic/schedule_fetcher.cpp: when the timetable is fetched
-- again, the fetch over the stops, and what its result changes.
-- `midnight now` is the local midnight of the day of `now`, and `local_at now days hour minute` the
-- time at that hour `days` after the day of `now`: the answers of localtime_r and mktime.
pub mod Keep
pub mod Calls
use bustaferl.Prelude.{
  ℕ, zero, suc, ◌+◌, Bool, true, false, List, [], ◌∷◌, leb, ltb, ◌==◌, ◌&&◌, ◌||◌, not, any, get_or,
  if◌then◌else◌, replicate,
}
use bustaferl.Data.{ScheduleHint, ScheduleSnapshot, empty_hint, stream_count}
use bustaferl.Slots.{schedule_hint_max_age_s}
use bustaferl.Fetch.{Answer, default_fetch_config, run_retry_loop}

abbrev pub last_has_passed : ℕ → ScheduleHint → Bool
last_has_passed now h = not (h.last_today == 0) && ltb h.last_today now

-- `now - fetched_at >= max_age` is over signed times.
unfoldable pub need_schedule_refresh : (ℕ → ℕ) → ScheduleSnapshot → ℕ → Bool
need_schedule_refresh midnight s now =
    if s.fetched_at == 0
    then true
    else if leb (s.fetched_at + schedule_hint_max_age_s) now
    then true
    else if leb (midnight now) s.fetched_at
    then false
    else any (last_has_passed now) s.hint

pub record ScheduleFetchResult : Type 0 where
  pub hint : List ScheduleHint
  pub calls_attempted : ℕ
  pub calls_failed : ℕ
  pub ok : Bool

unfoldable pub carries_data : ScheduleHint → Bool
carries_data h =
    not (get_or h.first_tomorrow 0 0 == 0)
    || not (h.last_today == 0)
    || not (get_or h.next_today 0 0 == 0)
    || not (get_or h.next_today 1 0 == 0)

-- for (i = 0; i < STREAM_COUNT; ++i) over the two arrays.
unfoldable pub take_hints : List ScheduleHint → List ScheduleHint → List ScheduleHint
take_hints [] old = old
take_hints (r ∷ rs) [] = []
take_hints (r ∷ rs) (o ∷ os) = (if carries_data r then r else o) ∷ take_hints rs os

-- The result, and the snapshot after it.
unfoldable pub apply_schedule_fetch_result :
    ScheduleFetchResult → ℕ → ScheduleSnapshot → Bool × ScheduleSnapshot
apply_schedule_fetch_result r now out =
    if r.ok
    then (true, record { hint = take_hints r.hint out.hint; fetched_at = now })
    else (false, out)

-- The next `cutoff_hour` after `now`.
unfoldable pub compute_cutoff : (ℕ → ℕ → ℕ → ℕ → ℕ) → ℕ → ℕ → ℕ
compute_cutoff local_at now cutoff_hour =
    let today_cutoff = local_at now 0 cutoff_hour 0 in
    if ltb now today_cutoff then today_cutoff else local_at now 1 cutoff_hour 0

-- The anchor of the query is never in the future.
unfoldable pub query_anchor : (ℕ → ℕ → ℕ → ℕ → ℕ) → ℕ → ℕ → ℕ → ℕ
query_anchor local_at now query_hour query_minute =
    let query_time = local_at now 0 query_hour query_minute in
    if ltb now query_time then now else query_time

-- Of a stream's filter the loop reads the stop alone; `earlier` are the stops before it, the last one
-- first.
unfoldable pub is_duplicate_diva : List ℕ → ℕ → Bool
is_duplicate_diva earlier d = any (λ e. e == d) earlier

-- What a call is asked with, beside the stop: the anchor of the query and the cutoff.
pub record EfaCall : Type 0 where
  pub diva : ℕ
  pub query_time : ℕ
  pub cutoff : ℕ

-- The service: its answers to the attempts of a call, and the parser, which writes the hints.
pub record Efa : Type 0 where
  pub answers : EfaCall → ℕ → Answer
  pub parse : EfaCall → List ℕ → List ScheduleHint → Bool × List ScheduleHint

abbrev pub no_result : ScheduleFetchResult
no_result = record {
  hint = replicate stream_count empty_hint;
  calls_attempted = 0;
  calls_failed = 0;
  ok = false;
}

abbrev count_failed : ScheduleFetchResult → ScheduleFetchResult
count_failed r = record r { calls_failed = r.calls_failed + 1 }

abbrev after_parse : ScheduleFetchResult → Bool × List ScheduleHint → ScheduleFetchResult
after_parse r (parsed, hints) =
    let written = record r { hint = hints } in if parsed then written else count_failed written

-- The body of the loop for a stop that is asked.
unfoldable pub ask : Efa → EfaCall → ScheduleFetchResult → ScheduleFetchResult
ask efa call r =
    let attempted = record r { calls_attempted = r.calls_attempted + 1 } in
    let fo = run_retry_loop default_fetch_config (efa.answers call) in
    let parsed = efa.parse call fo.body attempted.hint in
    if fo.out.ok then after_parse attempted parsed else count_failed attempted

-- for (i = 0; i < STREAM_COUNT; ++i) over the stops of the filters.
unfoldable pub ask_all : Efa → ℕ → ℕ → List ℕ → List ℕ → ScheduleFetchResult → ScheduleFetchResult
ask_all efa query_time cutoff earlier [] r = r
ask_all efa query_time cutoff earlier (diva ∷ divas) r =
    let call : EfaCall = record { diva = diva; query_time = query_time; cutoff = cutoff } in
    ask_all efa query_time cutoff (diva ∷ earlier) divas
      (if diva == 0 || is_duplicate_diva earlier diva then r else ask efa call r)

pub record ScheduleFetchConfig : Type 0 where
  pub query_hour : ℕ
  pub query_minute : ℕ
  pub cutoff_hour : ℕ

unfoldable pub fetch_schedule :
    Efa → (ℕ → ℕ → ℕ → ℕ → ℕ) → ℕ → List ℕ → ScheduleFetchConfig → ScheduleFetchResult
fetch_schedule efa local_at now divas cfg =
    let out =
      ask_all efa (query_anchor local_at now cfg.query_hour cfg.query_minute)
        (compute_cutoff local_at now cfg.cutoff_hour) [] divas no_result in
    record out { ok = ltb 0 out.calls_attempted && ltb out.calls_failed out.calls_attempted }
