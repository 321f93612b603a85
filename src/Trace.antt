-- ===== src/Trace.antt =====
-- src/logic/cycle_trace.cpp and src/data/CycleTrace.h: the two rings of the diagnostic memory.
pub mod Ring
pub mod History
use bustaferl.Prelude.{ℕ, zero, suc, List, Option, none, some, replicate}
use Ring.{ring_push, ring_at}

pub data CycleTrigger : Type 0 where
  timer button cold_boot : CycleTrigger

pub record CycleRecord : Type 0 where
  pub at : ℕ  -- uint32_t
  pub flags : ℕ  -- uint16_t
  pub sleep_s : ℕ  -- uint16_t
  pub trigger : CycleTrigger
  pub failed_batches : ℕ  -- uint8_t
  pub retried_batches : ℕ  -- uint8_t
  pub heap_free_kb : ℕ  -- uint8_t

pub data TraceError : Type 0 where
  wifi_fail http_ogd http_oebb parse_fail oebb_auth efa_fail ntp_fail : TraceError
  filter58b_dead rle_overflow : TraceError

pub record ErrorRecord : Type 0 where
  pub at : ℕ  -- uint32_t
  pub code : TraceError
  pub detail : ℕ  -- uint8_t

abbrev pub cycle_trace_cap : ℕ
cycle_trace_cap = 16

abbrev pub error_trace_cap : ℕ
error_trace_cap = 16

pub record CycleTrace : Type 0 where
  pub cycles : List CycleRecord
  pub errors : List ErrorRecord
  pub cycle_head : ℕ
  pub cycle_count : ℕ
  pub error_head : ℕ
  pub error_count : ℕ

abbrev no_cycle : CycleRecord
no_cycle = record {
  at = 0;
  flags = 0;
  sleep_s = 0;
  trigger = timer;
  failed_batches = 0;
  retried_batches = 0;
  heap_free_kb = 0;
}

abbrev no_error : ErrorRecord
no_error = record { at = 0; code = wifi_fail; detail = 0 }

abbrev pub empty_trace : CycleTrace
empty_trace = record {
  cycles = replicate cycle_trace_cap no_cycle;
  errors = replicate error_trace_cap no_error;
  cycle_head = 0;
  cycle_count = 0;
  error_head = 0;
  error_count = 0;
}

unfoldable pub trace_push_cycle : CycleTrace → CycleRecord → CycleTrace
trace_push_cycle t rec =
    let r =
      ring_push cycle_trace_cap
        (record { buf = t.cycles; head = t.cycle_head; count = t.cycle_count }) rec in
    record t { cycles = r.buf; cycle_head = r.head; cycle_count = r.count }

unfoldable pub trace_push_error : CycleTrace → ErrorRecord → CycleTrace
trace_push_error t rec =
    let r =
      ring_push error_trace_cap
        (record { buf = t.errors; head = t.error_head; count = t.error_count }) rec in
    record t { errors = r.buf; error_head = r.head; error_count = r.count }

unfoldable pub trace_cycle_at : CycleTrace → ℕ → Option CycleRecord
trace_cycle_at t idx =
    ring_at cycle_trace_cap (record { buf = t.cycles; head = t.cycle_head; count = t.cycle_count })
      idx

unfoldable pub trace_error_at : CycleTrace → ℕ → Option ErrorRecord
trace_error_at t idx =
    ring_at error_trace_cap (record { buf = t.errors; head = t.error_head; count = t.error_count })
      idx
