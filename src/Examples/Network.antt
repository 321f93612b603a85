-- ===== src/Examples/Network.antt =====
-- Fetches at concrete answers.
use bustaferl.Prelude.{
  ◌+◌, ◌||◌, ℕ, ◌≡◌, refl, true, false, List, [], Option, none, some, inr, arith, if◌then◌else◌,
  ◌==◌,
}
use bustaferl.Data.{StreamSnapshot, empty_stream}
use bustaferl.Fetch.{
  Answer, default_fetch_config, run_retry_loop, retry_rounds, after_call, classify, is_success,
}
use bustaferl.Fetch.Outcome.{Reported, run_retry_loop-Reported}
use bustaferl.Fetch.Snapshot.{AuthMeta, OebbParsed, Progress, fetch_snapshot}
use bustaferl.Fetch.Snapshot.Auth.{
  delivers, lost, fetch_snapshot_tally, fetch_snapshot_hafas_decides,
}

abbrev answer : ℕ → Answer
answer status = record { result = record { ok = true; http_status = status }; body = [] }

-- One server error, and then a success.
abbrev flaky : ℕ → Answer
flaky i = if i == 1 then answer 500 else answer 200

run_retry_loop-Reported_example :
    Reported default_fetch_config flaky 1 (run_retry_loop default_fetch_config flaky)
run_retry_loop-Reported_example = run_retry_loop-Reported default_fetch_config flaky (omega arith)

abbrev clear : AuthMeta
clear = record { auth_error_seen = false; ogd_auth_streak = 0 }

abbrev no_ogd : List ℕ → Option StreamSnapshot
no_ogd body = none

abbrev quiet : OebbParsed
quiet = record {
  stream = empty_stream;
  result = record { endpoint_responded = true; filter_matched = false; auth_error_seen = false };
}

abbrev parse_quiet : List ℕ → Option OebbParsed
parse_quiet body = some quiet

abbrev refused : ℕ → ℕ → Answer
refused batch i = answer 403

abbrev granted : ℕ → Answer
granted i = answer 200

abbrev fetched : Progress
fetched = fetch_snapshot no_ogd parse_quiet refused granted true clear

fetch_snapshot_tally_example :
    (fetched.summary.total_batches ≡ 3)
    × (fetched.summary.failed_batches
        ≡ (lost no_ogd (refused 0) + lost no_ogd (refused 2) + lost parse_quiet granted))
    × (fetched.out.api_ok ≡ (
        delivers no_ogd (refused 0) || delivers no_ogd (refused 2) || delivers parse_quiet granted))
fetch_snapshot_tally_example = fetch_snapshot_tally no_ogd parse_quiet refused granted clear true

-- Two refused OGD batches on a streak of two: the tripwire fires, and the HAFAS success clears it.
abbrev tripped : AuthMeta
tripped = record { auth_error_seen = true; ogd_auth_streak = 2 }

fetch_snapshot_hafas_decides_example :
    (fetch_snapshot no_ogd parse_quiet refused granted true tripped).meta.auth_error_seen ≡ false
unfolding run_retry_loop retry_rounds after_call classify is_success
fetch_snapshot_hafas_decides_example =
    fetch_snapshot_hafas_decides no_ogd parse_quiet refused granted tripped quiet refl refl
      (inr refl)
