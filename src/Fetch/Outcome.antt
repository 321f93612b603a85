-- ===== src/Fetch/Outcome.antt =====
-- The retry policy: when the loop stops, and what it reports.
use native.Mathlib.Decide.{ℕ_discrete}
use bustaferl.Prelude.{
  ℕ, zero, suc, ◌+◌, ◌*◌, ◌≤◌, ◌<◌, ◌≡◌, ◌≢◌, refl, Bool, true, false, List, [], ◌∷◌, arith, ltb,
  lt→ltb, ◌&&◌, ◌⊎◌, inl, inr, ◌↔◌,
}
use bustaferl.Fetch.{
  HttpResult, Answer, FetchConfig, Disposition, return_now, retry, classify, is_success, Retry,
  retry_rounds, run_retry_loop, after_call,
}

-- A final answer: a 2xx, a 4xx other than 408 and 429, or a status outside 400 to 599, over a
-- transport that worked.
abbrev pub IsFinal : HttpResult → Type 0
IsFinal r =
    (r.ok ≡ true)
    × (r.http_status ≢ 408)
    × (r.http_status ≢ 429)
    × ((r.http_status < 500) ⊎ (600 ≤ r.http_status))

-- An answer ends the retries exactly if its transport worked and its status is not a 408, a 429 or
-- a 5xx.
pub classify_iff : (r : HttpResult) → (classify r ≡ return_now) ↔ IsFinal r
unfolding classify
classify_iff r =
    (λ e. (ground arith, λ h. ground arith, λ h. ground arith, ground arith), λ h. ground arith)

-- What the loop reports if it started at attempt `first` with at least one round left.
pub record Reported (cfg : FetchConfig) (answers : ℕ → Answer) (first : ℕ) (r : Retry)
    : Type 0 where
  pub attempts_from : first ≤ r.out.attempts_taken
  pub attempts_to : r.out.attempts_taken ≤ cfg.max_attempts
  pub earlier_retried :
      (i : ℕ) → first ≤ i → i < r.out.attempts_taken → classify (answers i).result ≡ retry
  pub stopped :
      (classify (answers r.out.attempts_taken).result ≡ return_now)
      ⊎ (r.out.attempts_taken ≡ cfg.max_attempts)
  pub status : r.out.http_status ≡ (answers r.out.attempts_taken).result.http_status
  pub payload : r.body ≡ (answers r.out.attempts_taken).body
  pub success : (r.out.ok ≡ true) ↔ (
      ((answers r.out.attempts_taken).result.ok ≡ true)
      × (is_success (answers r.out.attempts_taken).result.http_status ≡ true))

Disposition-cases : (d : Disposition) → (d ≡ return_now) ⊎ (d ≡ retry)
Disposition-cases return_now = inl refl
Disposition-cases retry = inr refl

retry_not_success :
    (r : HttpResult) → classify r ≡ retry → (r.ok ≡ true) × (is_success r.http_status ≡ true) → ⊥
unfolding classify is_success
retry_not_success r c s = ground arith

and_iff : (a b : Bool) → ((a && b) ≡ true) ↔ ((a ≡ true) × (b ≡ true))
and_iff a b = (λ e. (ground arith, ground arith), λ h. ground arith)

stop_here :
    (cfg : FetchConfig) (answers : ℕ → Answer) (first : ℕ) (r : Retry)
    → r.out.attempts_taken ≡ first
    → first ≤ cfg.max_attempts
    → (classify (answers first).result ≡ return_now) ⊎ (first ≡ cfg.max_attempts)
    → r.out.http_status ≡ (answers first).result.http_status
    → r.body ≡ (answers first).body
    → (r.out.ok ≡ true) ↔ (
        ((answers first).result.ok ≡ true) × (is_success (answers first).result.http_status ≡ true))
    → Reported cfg answers first r
stop_here cfg answers first r taken le why st bd ok = record {
  attempts_from = omega arith;
  attempts_to = omega arith;
  earlier_retried = λ i p q. absurd (omega arith);
  stopped = rw taken why;
  status = rw taken st;
  payload = rw taken bd;
  success = rw taken ok;
}

-- One more retried attempt in front.
one_more :
    (cfg : FetchConfig) (answers : ℕ → Answer) (first : ℕ) (r : Retry)
    → classify (answers first).result ≡ retry
    → Reported cfg answers (suc first) r
    → Reported cfg answers first r
one_more cfg answers first r again v = record {
  attempts_from = omega arith;
  attempts_to = v.attempts_to;
  earlier_retried = λ i p q. elim (ℕ_discrete i first) [
    | yes here ↦ rw here again
    | no later ↦ v.earlier_retried i (omega arith) q
  ];
  stopped = v.stopped;
  status = v.status;
  payload = v.payload;
  success = v.success;
}

le→not_ltb : (a b : ℕ) → b ≤ a → ltb a b ≡ false
le→not_ltb a b h = ground arith

retry_rounds-Reported :
    (cfg : FetchConfig) (answers : ℕ → Answer) (rounds first : ℕ) (pauses : List ℕ)
    → first + rounds ≡ cfg.max_attempts
    → Reported cfg answers first (retry_rounds cfg answers (suc rounds) first pauses)
unfolding retry_rounds
retry_rounds-Reported cfg answers zero first pauses e =
    elim (Disposition-cases (classify (answers first).result)) [
      | inl done ↦
          rw (done, after_call)
            (stop_here cfg answers first _ refl (omega arith) (inl done) refl refl (and_iff _ _))
      | inr again ↦
          rw (again, after_call, le→not_ltb first cfg.max_attempts (omega arith))
            (stop_here cfg answers first _ refl (omega arith) (inr (omega arith)) refl refl
              (λ f. cc, λ s. absurd (retry_not_success (answers first).result again s)))
    ]
retry_rounds-Reported cfg answers (suc rounds) first pauses e =
    elim (Disposition-cases (classify (answers first).result)) [
      | inl done ↦
          rw (done, after_call)
            (stop_here cfg answers first _ refl (omega arith) (inl done) refl refl (and_iff _ _))
      | inr again ↦
          rw (again, after_call, lt→ltb first cfg.max_attempts (omega arith))
            (one_more cfg answers first _ again (
              retry_rounds-Reported cfg answers rounds (suc first)
                ((cfg.backoff_ms_base * first) ∷ pauses) (omega arith)))
    ]

-- With at least one attempt allowed the loop ends within them: it stops at the first answer that is
-- final and else at the last attempt; status and body are those of that attempt; and `ok` is true
-- exactly if that attempt's transport worked with a 2xx status. Every earlier answer was to be retried.
pub run_retry_loop-Reported :
    (cfg : FetchConfig) (answers : ℕ → Answer)
    → 1 ≤ cfg.max_attempts
    → Reported cfg answers 1 (run_retry_loop cfg answers)
unfolding run_retry_loop
run_retry_loop-Reported cfg answers h = from_rounds cfg.max_attempts refl
  where
    from_rounds :
        (n : ℕ) → cfg.max_attempts ≡ n → Reported cfg answers 1 (retry_rounds cfg answers n 1 [])
    from_rounds zero e = absurd (omega arith)
    from_rounds (suc n) e = retry_rounds-Reported cfg answers n 1 [] (omega arith)
