-- ===== src/Parse/Monitor/Merged.antt =====
-- A parsed monitor response on the merged board.
use bustaferl.Prelude.{ℕ, ◌≡◌, ◌≢◌, ap, ◌⊎◌, inl, inr, Bool, List, All, All-map}
use bustaferl.Data.{
  Departure, DepartureSource, unknown, realtime, plan, hint, ScheduleHint, StreamData,
}
use bustaferl.Slots.{merge_stream}
use bustaferl.Slots.Merge.{IsUpcoming}
use bustaferl.Slots.Board.{Won, merge_stream_realtime_wins}
use bustaferl.Parse.{Text, Reader}
use bustaferl.Parse.Monitor.{StreamFilter, parse_monitor_response}
use bustaferl.Parse.Monitor.Shape.{IsRead, IsParsed, parse_monitor_response-IsParsed}

hint_differs : (s : DepartureSource) → (s ≡ unknown) ⊎ ((s ≡ realtime) ⊎ (s ≡ plan)) → s ≢ hint
hint_differs s (inl e) f = cc
hint_differs s (inr (inl e)) f = cc
hint_differs s (inr (inr e)) f = cc

IsRead-source : (d : Departure) → IsRead d → d.source ≢ hint
IsRead-source d (inl e) = hint_differs d.source (inl (ap (λ (x : Departure). x.source) e))
IsRead-source d (inr h) = hint_differs d.source (inr (elim h.2 [ inl e ↦ inl e | inr e ↦ inr e.0 ]))

module _ {V : Type 0} (r : Reader V) where
  -- Of every stream of a parsed response, merged with any hint, each upcoming departure has its minute
  -- on the board, or the board is full of earlier minutes; and no hint is shown in its minute.
  pub merge-parse_monitor_response :
      (json : Text) (filters : List StreamFilter) (use_schedule : Bool) (now : ℕ) (h : ScheduleHint)
      → All
          (λ (sd : StreamData).
            All
              (λ d. IsUpcoming now d → Won d.when (merge_stream use_schedule now sd.slot h))
              sd.slot)
          (parse_monitor_response r json filters).1.stream
  merge-parse_monitor_response json filters use_schedule now h =
      All-map
        (λ (sd : StreamData) (p : IsParsed sd).
          merge_stream_realtime_wins use_schedule now sd.slot h
            (All-map IsRead-source sd.slot p.read))
        (parse_monitor_response r json filters).1.stream
        (parse_monitor_response-IsParsed r json filters)
