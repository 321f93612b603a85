-- ===== src/Fetch.antt =====
-- src/logic/api_fetcher.cpp: one HTTP call with retries. The network of src/hal/INetwork.h answers the
-- n-th call of a loop with `answers n`; the pauses of the loop are listed, in milliseconds.
pub mod Outcome
pub mod Snapshot
use bustaferl.Prelude.{
  ℕ, zero, suc, ◌+◌, ◌*◌, Bool, true, false, List, [], ◌∷◌, ltb, leb, ◌==◌, ◌&&◌, ◌||◌,
  if◌then◌else◌,
}

pub record HttpResult : Type 0 where
  pub ok : Bool
  pub http_status : ℕ

-- What a call returns, with the body that it writes.
pub record Answer : Type 0 where
  pub result : HttpResult
  pub body : List ℕ

pub record FetchConfig : Type 0 where
  pub max_attempts : ℕ
  pub backoff_ms_base : ℕ

abbrev pub default_fetch_config : FetchConfig
default_fetch_config = record { max_attempts = 5; backoff_ms_base = 500 }

pub record FetchOutcome : Type 0 where
  pub ok : Bool
  pub attempts_taken : ℕ
  pub http_status : ℕ

pub data Disposition : Type 0 where
  return_now retry : Disposition

unfoldable pub classify : HttpResult → Disposition
classify r =
    let s = r.http_status in
    if r.ok
    then if leb 200 s && ltb s 300
      then return_now
      else if s == 401 || s == 403
      then return_now
      else if (s == 408 || s == 429) || (leb 500 s && ltb s 600)
      then retry
      else if leb 400 s && ltb s 500
      then return_now
      else return_now
    else retry

unfoldable pub is_success : ℕ → Bool
is_success status = leb 200 status && ltb status 300

-- The state of the loop: the outcome, the body and the pauses so far, the last one first.
pub record Retry : Type 0 where
  pub out : FetchOutcome
  pub body : List ℕ
  pub pauses : List ℕ

abbrev pub no_outcome : FetchOutcome
no_outcome = record { ok = false; attempts_taken = 0; http_status = 0 }

-- After the call of round `attempt`; `go_on` is the rest of the loop.
unfoldable pub after_call :
    FetchConfig → ℕ → Answer → List ℕ → (List ℕ → Retry) → Disposition → Retry
unfolding is_success
after_call cfg attempt a pauses go_on return_now = record {
  out = record {
    ok = a.result.ok && is_success a.result.http_status;
    attempts_taken = attempt;
    http_status = a.result.http_status;
  };
  body = a.body;
  pauses = pauses;
}
after_call cfg attempt a pauses go_on retry =
    if ltb attempt cfg.max_attempts
    then go_on ((cfg.backoff_ms_base * attempt) ∷ pauses)
    else record {
      out = record { ok = false; attempts_taken = attempt; http_status = a.result.http_status };
      body = a.body;
      pauses = pauses;
    }

-- for (attempt = 1; attempt <= max_attempts; ++attempt); `rounds` are left.
unfoldable pub retry_rounds : FetchConfig → (ℕ → Answer) → ℕ → ℕ → List ℕ → Retry
unfolding after_call classify
retry_rounds cfg answers zero attempt pauses = record {
  out = no_outcome;
  body = [];
  pauses = pauses;
}
retry_rounds cfg answers (suc rounds) attempt pauses =
    let a = answers attempt in
    let go_on = λ (ps : List ℕ). retry_rounds cfg answers rounds (suc attempt) ps in
    after_call cfg attempt a pauses go_on (classify a.result)

unfoldable pub run_retry_loop : FetchConfig → (ℕ → Answer) → Retry
unfolding retry_rounds
run_retry_loop cfg answers = retry_rounds cfg answers cfg.max_attempts 1 []
