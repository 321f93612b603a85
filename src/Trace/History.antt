-- ===== src/Trace/History.antt =====
-- The rings as a history: what is read back, newest first, is the list of the last 16 records pushed.
use bustaferl.Prelude.{
  ℕ, zero, suc, ◌+◌, ◌≡◌, List, [], ◌∷◌, Option, none, some, arith, ltb, if◌then◌else◌, get_elem?,
  length-set, get_elem?-set_self, get_elem?-set_ne,
}
use bustaferl.Trace.Ring.{Ring, IsRing, ring_push, ring_at, wrap_index}
use bustaferl.Trace.{
  CycleRecord, ErrorRecord, CycleTrace, empty_trace, trace_push_cycle, trace_cycle_at,
  trace_push_error, trace_error_at,
}

module _ {A : Type 0} where
  pub ring_push-IsRing : (r : Ring A) (rec : A) → IsRing 16 r → IsRing 16 (ring_push 16 r rec)
  unfolding ring_push
  ring_push-IsRing r rec v = ground (arith, length-set r.buf r.head rec)

  -- The record pushed last is the newest.
  ring_at-ring_push_new :
      (r : Ring A) (rec : A) → IsRing 16 r → ring_at 16 (ring_push 16 r rec) 0 ≡ some rec
  unfolding ring_push ring_at
  ring_at-ring_push_new r rec v = ground (arith, get_elem?-set_self r.buf r.head rec)

  -- The others move back by one place, and the sixteenth is lost.
  ring_at-ring_push_old :
      (r : Ring A) (rec : A) (i : ℕ)
      → IsRing 16 r
      → ring_at 16 (ring_push 16 r rec) (suc i) ≡ (if ltb (suc i) 16 then ring_at 16 r i else none)
  unfolding ring_push ring_at
  ring_at-ring_push_old r rec i v =
      ground (arith, get_elem?-set_ne r.buf r.head (wrap_index 16 r.head (1 + i)) rec)

-- What is pushed onto the trace, the newest first.
pub data Pushed : Type 0 where
  a_cycle : CycleRecord → Pushed
  an_error : ErrorRecord → Pushed

abbrev pub push : CycleTrace → Pushed → CycleTrace
push t (a_cycle c) = trace_push_cycle t c
push t (an_error e) = trace_push_error t e

pub trace_of : List Pushed → CycleTrace
trace_of [] = empty_trace
trace_of (p ∷ ps) = push (trace_of ps) p

abbrev pub cycles_of : List Pushed → List CycleRecord
cycles_of [] = []
cycles_of (a_cycle c ∷ ps) = c ∷ cycles_of ps
cycles_of (an_error e ∷ ps) = cycles_of ps

abbrev pub errors_of : List Pushed → List ErrorRecord
errors_of [] = []
errors_of (a_cycle c ∷ ps) = errors_of ps
errors_of (an_error e ∷ ps) = e ∷ errors_of ps

abbrev cycle_ring : CycleTrace → Ring CycleRecord
cycle_ring t = record { buf = t.cycles; head = t.cycle_head; count = t.cycle_count }

abbrev error_ring : CycleTrace → Ring ErrorRecord
error_ring t = record { buf = t.errors; head = t.error_head; count = t.error_count }

record IsTrace (t : CycleTrace) : Type 0 where
  cycles_ok : IsRing 16 (cycle_ring t)
  errors_ok : IsRing 16 (error_ring t)

trace_of-IsTrace : (ps : List Pushed) → IsTrace (trace_of ps)
unfolding trace_of trace_push_cycle trace_push_error
trace_of-IsTrace [] = omega arith
trace_of-IsTrace (a_cycle c ∷ ps) =
    let v = trace_of-IsTrace ps in
    record {
      cycles_ok = ring_push-IsRing (cycle_ring (trace_of ps)) c v.cycles_ok;
      errors_ok = v.errors_ok;
    }
trace_of-IsTrace (an_error e ∷ ps) =
    let v = trace_of-IsTrace ps in
    record {
      cycles_ok = v.cycles_ok;
      errors_ok = ring_push-IsRing (error_ring (trace_of ps)) e v.errors_ok;
    }

-- The specification: the `i`th of the last 16.
abbrev pub recent {ℓ} : {A : Type ℓ} → List A → ℕ → Option A
recent xs i = if ltb i 16 then get_elem? xs i else none

ring_at-recent :
    {A : Type 0} (r : Ring A) (x : A) (xs : List A) (i : ℕ)
    → IsRing 16 r
    → ((j : ℕ) → ring_at 16 r j ≡ recent xs j)
    → ring_at 16 (ring_push 16 r x) i ≡ recent (x ∷ xs) i
ring_at-recent r x xs zero v h = ring_at-ring_push_new r x v
ring_at-recent r x xs (suc i) v h = rw (ring_at-ring_push_old r x i v) (ground (arith, h i))

-- Whatever was pushed, in whatever order, reading the trace newest first gives the last 16 cycle
-- records and the last 16 error records, each ring undisturbed by the other.
pub trace_at-recent :
    (ps : List Pushed) (i : ℕ)
    → (trace_cycle_at (trace_of ps) i ≡ recent (cycles_of ps) i)
      × (trace_error_at (trace_of ps) i ≡ recent (errors_of ps) i)
unfolding trace_of trace_cycle_at trace_error_at trace_push_cycle trace_push_error
trace_at-recent [] i = (unfold ring_at in ground arith, unfold ring_at in ground arith)
trace_at-recent (a_cycle c ∷ ps) i = (
  ring_at-recent (cycle_ring (trace_of ps)) c (cycles_of ps) i (trace_of-IsTrace ps).cycles_ok
      (λ j. (trace_at-recent ps j).0),
  (trace_at-recent ps i).1,
)
trace_at-recent (an_error e ∷ ps) i = (
  (trace_at-recent ps i).0,
  ring_at-recent (error_ring (trace_of ps)) e (errors_of ps) i (trace_of-IsTrace ps).errors_ok
      (λ j. (trace_at-recent ps j).1),
)
