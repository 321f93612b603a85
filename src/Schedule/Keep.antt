-- ===== src/Schedule/Keep.antt =====
-- What a fetch of the timetable keeps and changes, and how long no other is needed.
use bustaferl.Prelude.{
  ℕ, zero, suc, ◌+◌, ◌≤◌, ◌<◌, ◌≡◌, ◌≢◌, refl, true, false, List, [], ◌∷◌, arith, ◌&&◌, length,
  get_or, if◌then◌else◌,
}
use bustaferl.Data.{ScheduleHint, ScheduleSnapshot, empty_hint}
use bustaferl.Slots.{schedule_hint_max_age_s, schedule_usable}
use bustaferl.Schedule.{
  need_schedule_refresh, ScheduleFetchResult, carries_data, take_hints, apply_schedule_fetch_result,
  compute_cutoff, query_anchor,
}

take_hints_each :
    (rs os : List ScheduleHint) (i : ℕ)
    → length rs ≡ length os
    → get_or (take_hints rs os) i empty_hint ≡ (
        if carries_data (get_or rs i empty_hint)
        then get_or rs i empty_hint
        else get_or os i empty_hint)
unfolding take_hints
take_hints_each [] [] i e = ground arith
take_hints_each [] (o ∷ os) i e = absurd (omega arith)
take_hints_each (r ∷ rs) [] i e = absurd (omega arith)
take_hints_each (r ∷ rs) (o ∷ os) zero e = refl
take_hints_each (r ∷ rs) (o ∷ os) (suc i) e = take_hints_each rs os i (omega arith)

module _ (r : ScheduleFetchResult) (now : ℕ) (out : ScheduleSnapshot) where
  abbrev applied : ScheduleSnapshot
  applied = (apply_schedule_fetch_result r now out).1

  -- A failed fetch leaves the timetable as it was, its time included. A successful one replaces the
  -- hints of exactly the streams for which it carries data, and is stamped with its time. The result
  -- tells which of the two it was.
  pub apply_each :
      (i : ℕ)
      → length r.hint ≡ length out.hint
      → ((apply_schedule_fetch_result r now out).0 ≡ r.ok)
        × (applied.fetched_at ≡ (if r.ok then now else out.fetched_at))
        × (get_or applied.hint i empty_hint ≡ (
            if r.ok && carries_data (get_or r.hint i empty_hint)
            then get_or r.hint i empty_hint
            else get_or out.hint i empty_hint))
  unfolding apply_schedule_fetch_result
  apply_each i e = (ground arith, ground arith, ground (arith, take_hints_each r.hint out.hint i e))

  -- After a successful fetch the timetable is used, and not fetched again, for as long as it is younger
  -- than the greatest age and no local midnight has passed since.
  pub apply_lasts :
      (midnight : ℕ → ℕ) (later : ℕ)
      → r.ok ≡ true
      → now ≢ 0
      → midnight later ≤ now
      → later < now + schedule_hint_max_age_s
      → (schedule_usable applied later ≡ true)
        × (need_schedule_refresh midnight applied later ≡ false)
  unfolding apply_schedule_fetch_result schedule_usable need_schedule_refresh
  apply_lasts midnight later ok set m young = (ground arith, ground arith)

-- A timetable that the board does not use is due for a refresh.
pub need_refresh-usable :
    (midnight : ℕ → ℕ) (s : ScheduleSnapshot) (now : ℕ)
    → schedule_usable s now ≡ false
    → need_schedule_refresh midnight s now ≡ true
unfolding schedule_usable need_schedule_refresh
need_refresh-usable midnight s now e = ground arith

-- The cutoff lies ahead and the anchor of the query does not, whatever the hour, if the next day's time
-- at the cutoff hour lies ahead of `now`.
pub compute_cutoff_ahead :
    (local_at : ℕ → ℕ → ℕ → ℕ → ℕ) (now cutoff_hour query_hour query_minute : ℕ)
    → now < local_at now 1 cutoff_hour 0
    → (now < compute_cutoff local_at now cutoff_hour)
      × (query_anchor local_at now query_hour query_minute ≤ now)
unfolding compute_cutoff query_anchor
compute_cutoff_ahead local_at now cutoff_hour query_hour query_minute h =
    (ground arith, ground arith)
