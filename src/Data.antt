-- ===== src/Data.antt =====
-- The data that the components exchange: src/data/time_constants.h, src/data/Departure.h,
-- src/data/StreamSnapshot.h and src/data/ScheduleHint.h.
-- A `time_t` is a native number, the seconds since the epoch; a C string is the list of its bytes.
use bustaferl.Prelude.{ℕ, Bool, false, List, [], ◌∷◌, replicate}

abbrev pub seconds_per_minute : ℕ
seconds_per_minute = 60

abbrev pub seconds_per_hour : ℕ
seconds_per_hour = 3600

abbrev pub seconds_per_day : ℕ
seconds_per_day = 86400

pub data DepartureSource : Type 0 where
  unknown realtime plan hint : DepartureSource

pub record Departure : Type 0 where
  pub when : ℕ
  pub source : DepartureSource
  pub valid : Bool
  pub line_label : List ℕ
  pub planned : ℕ

abbrev pub no_departure : Departure
no_departure = record { when = 0; source = unknown; valid = false; line_label = []; planned = 0 }

abbrev pub stream_count : ℕ
stream_count = 4

abbrev pub slots_per_stream : ℕ
slots_per_stream = 3

abbrev pub stream_58a_atz : ℕ
stream_58a_atz = 0

abbrev pub stream_58a_hietzing : ℕ
stream_58a_hietzing = 1

abbrev pub stream_58b_atz : ℕ
stream_58b_atz = 2

abbrev pub stream_sbahn_hbf : ℕ
stream_sbahn_hbf = 3

pub record StreamData : Type 0 where
  pub slot : List Departure
  pub endpoint_responded : Bool
  pub filter_matched : Bool

abbrev pub empty_slots : List Departure
empty_slots = replicate slots_per_stream no_departure

abbrev pub empty_stream : StreamData
empty_stream = record { slot = empty_slots; endpoint_responded = false; filter_matched = false }

pub record StreamSnapshot : Type 0 where
  pub stream : List StreamData
  pub api_ok : Bool

abbrev pub empty_snapshot : StreamSnapshot
empty_snapshot = record { stream = replicate stream_count empty_stream; api_ok = false }

pub record ScheduleHint : Type 0 where
  pub last_today : ℕ
  pub next_today : List ℕ
  pub first_tomorrow : List ℕ

abbrev pub empty_hint : ScheduleHint
empty_hint = record { last_today = 0; next_today = 0 ∷ 0 ∷ []; first_tomorrow = 0 ∷ 0 ∷ [] }

pub record ScheduleSnapshot : Type 0 where
  pub hint : List ScheduleHint
  pub fetched_at : ℕ

abbrev pub empty_schedule : ScheduleSnapshot
empty_schedule = record { hint = replicate stream_count empty_hint; fetched_at = 0 }
