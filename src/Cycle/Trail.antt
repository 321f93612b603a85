-- ===== src/Cycle/Trail.antt =====
-- src/logic/cycle_runner.cpp: the record of a cycle in the diagnostic trace.
use bustaferl.Prelude.{ℕ, ◌+◌, ◌%◌, ◌^◌, Bool, true, false, leb, min, get_or, if◌then◌else◌}
use bustaferl.Data.{
  StreamSnapshot, no_departure, empty_stream, stream_58a_atz, stream_58a_hietzing, stream_58b_atz,
  stream_sbahn_hbf,
}
use bustaferl.Trace.{
  CycleTrace, CycleTrigger, TraceError, wifi_fail, trace_push_cycle, trace_push_error,
}
use bustaferl.Policy.Sleep.{SleepDecision, Mode, deep_sleep, active}
use bustaferl.Cycle.Push.{sleep_seconds}
use bustaferl.Cycle.Gather.{FetchCycleResult}
use bustaferl.Cycle.{World, Env, trace_saved, emit, min_plausible_epoch}

abbrev pub trace_epoch : ℕ → ℕ
trace_epoch now = if leb min_plausible_epoch now then now % 2 ^ 32 else 0

-- A flag with its weight; the flags of a cycle are distinct, so the sum is their disjunction.
abbrev pub flag : ℕ → Bool → ℕ
flag weight b = if b then weight else 0

abbrev stream_flag : ℕ → ℕ → StreamSnapshot → ℕ
stream_flag weight i snap =
    flag weight (get_or (get_or snap.stream i empty_stream).slot 0 no_departure).valid

unfoldable pub stream_ok_flags : StreamSnapshot → ℕ
stream_ok_flags snap =
    stream_flag 1 stream_58a_atz snap
    + stream_flag 2 stream_58a_hietzing snap
    + stream_flag 4 stream_58b_atz snap
    + stream_flag 8 stream_sbahn_hbf snap

pub record CycleOutcome : Type 0 where
  pub trigger : CycleTrigger
  pub rendered : Bool
  pub rescue_tried : Bool
  pub rescue_ok : Bool
  pub wifi_failed : Bool

abbrev pub no_cycle_outcome : CycleTrigger → CycleOutcome
no_cycle_outcome t = record {
  trigger = t;
  rendered = false;
  rescue_tried = false;
  rescue_ok = false;
  wifi_failed = false;
}

unfoldable pub push_error : CycleTrace → TraceError → ℕ → CycleTrace
push_error t code now =
    trace_push_error t (record { at = trace_epoch now; code = code; detail = 0 })

abbrev pub is_deep : Mode → Bool
is_deep deep_sleep = true
is_deep active = false

unfoldable pub trace_cycle :
    Env → FetchCycleResult → SleepDecision → CycleOutcome → ℕ → World → World
trace_cycle env fc sd oc now w =
    let t = if oc.wifi_failed then push_error w.saved_trace wifi_fail now else w.saved_trace in
    record (emit trace_saved w) {
      saved_trace = trace_push_cycle t (record {
        at = trace_epoch now;
        flags =
            stream_ok_flags fc.snap
            + flag 16 oc.rendered
            + flag 32 oc.rescue_tried
            + flag 64 oc.rescue_ok
            + flag 128 (is_deep sd.mode);
        sleep_s = min (sleep_seconds env sd) 65535;
        trigger = oc.trigger;
        failed_batches = fc.summary.failed_batches % 256;
        retried_batches = fc.summary.retried_batches % 256;
        heap_free_kb = 0;
      });
    }
