-- ===== src/Fetch/Snapshot.antt =====
-- src/logic/snapshot_fetcher.cpp: the OGD batches, the HAFAS call and the auth tripwire.
-- The two parsers are arguments, as is the network: `ogd` answers the attempts of a batch, given by the
-- position of its first stream in the fetch order, and `hafas` those of the HAFAS call.
use bustaferl.Prelude.{
  ℕ, zero, suc, ◌+◌, ◌-◌, ◌%◌, Bool, true, false, List, [], ◌∷◌, Option, none, some, ltb, leb, ◌==◌,
  ◌&&◌, ◌||◌, not, if◌then◌else◌, get_or, set, min, drop,
}
use bustaferl.Data.{
  StreamData, StreamSnapshot, empty_stream, empty_snapshot, stream_58a_atz, stream_58a_hietzing,
  stream_58b_atz, stream_sbahn_hbf,
}
use bustaferl.Fetch.{Answer, FetchConfig, FetchOutcome, Retry, default_fetch_config, run_retry_loop}
pub mod Auth
pub mod Streams

abbrev pub stopids_per_query : ℕ
stopids_per_query = 2

abbrev pub ogd_fetch_count : ℕ
ogd_fetch_count = 3

abbrev pub fetch_order : List ℕ
fetch_order = stream_58b_atz ∷ stream_58a_hietzing ∷ stream_58a_atz ∷ []

abbrev pub ogd_auth_streak_tripwire : ℕ
ogd_auth_streak_tripwire = 3

pub record FetchSummary : Type 0 where
  pub total_batches : ℕ
  pub failed_batches : ℕ
  pub retried_batches : ℕ

-- The fields of PersistedMeta that the fetcher maintains.
pub record AuthMeta : Type 0 where
  pub auth_error_seen : Bool
  pub ogd_auth_streak : ℕ  -- uint8_t

-- OebbParseResult
pub record OebbParseResult : Type 0 where
  pub endpoint_responded : Bool
  pub filter_matched : Bool
  pub auth_error_seen : Bool

pub record OebbParsed : Type 0 where
  pub stream : StreamData
  pub result : OebbParseResult

-- What the fetch writes: the snapshot, the summary and the meta.
pub record Progress : Type 0 where
  pub out : StreamSnapshot
  pub summary : FetchSummary
  pub meta : AuthMeta

unfoldable pub is_auth_code : ℕ → Bool
is_auth_code status = status == 401 || status == 403

-- The tripwire on a failed batch.
unfoldable pub trip : ℕ → AuthMeta → AuthMeta
unfolding is_auth_code
trip status meta =
    let streak =
      if ltb meta.ogd_auth_streak ogd_auth_streak_tripwire
      then (meta.ogd_auth_streak + 1) % 256
      else meta.ogd_auth_streak in
    if is_auth_code status
    then record {
      ogd_auth_streak = streak;
      auth_error_seen = leb ogd_auth_streak_tripwire streak || meta.auth_error_seen;
    }
    else meta

abbrev count_total : FetchSummary → FetchSummary
count_total s = record s { total_batches = s.total_batches + 1 }

abbrev count_failed : FetchSummary → FetchSummary
count_failed s = record s { failed_batches = s.failed_batches + 1 }

abbrev count_retried : FetchOutcome → FetchSummary → FetchSummary
count_retried fo s =
    if ltb 1 fo.attempts_taken then record s { retried_batches = s.retried_batches + 1 } else s

-- for (j = 0; j < batch_size; ++j) out.stream[idx] = partial.stream[idx]; `n` are left.
unfoldable pub copy_out : ℕ → ℕ → StreamSnapshot → StreamSnapshot → StreamSnapshot
copy_out zero place partial out = out
copy_out (suc n) place partial out =
    let idx = get_or fetch_order place 0 in
    copy_out n (suc place) partial
      (record out { stream = set out.stream idx (get_or partial.stream idx empty_stream) })

-- One round of the batch loop, from the call's outcome on; the parser sees the body.
unfoldable pub after_batch :
    (List ℕ → Option StreamSnapshot) → ℕ → ℕ → Progress → FetchOutcome → List ℕ → Progress
after_batch parse start batch_size p fo body =
    let total = count_total p.summary in
    let retried = count_retried fo total in
    let cleared = record p.meta { ogd_auth_streak = 0 } in
    if fo.ok
    then elim (parse body) [
      | none ↦ record { out = p.out; summary = count_failed retried; meta = cleared }
      | some partial ↦ record {
        out = copy_out batch_size start partial p.out;
        summary = retried;
        meta = cleared;
      }
    ]
    else record { out = p.out; summary = count_failed total; meta = trip fo.http_status p.meta }

unfoldable pub ogd_batch :
    (List ℕ → Option StreamSnapshot) → (ℕ → ℕ → Answer) → ℕ → Progress → Progress
ogd_batch parse ogd start p =
    let r = run_retry_loop default_fetch_config (ogd start) in
    after_batch parse start (min stopids_per_query (ogd_fetch_count - start)) p r.out r.body

-- for (start = 0; start < OGD_FETCH_COUNT; start += STOPIDS_PER_QUERY): two rounds, at 0 and 2.
unfoldable pub run_ogd_batch_loop :
    (List ℕ → Option StreamSnapshot) → (ℕ → ℕ → Answer) → Progress → Progress
run_ogd_batch_loop parse ogd p = ogd_batch parse ogd stopids_per_query (ogd_batch parse ogd 0 p)

-- fetchOebbStream, from the outcome of the call and of its parse on.
unfoldable pub after_oebb : Progress → FetchOutcome → Option OebbParsed → Progress
after_oebb p fo none = record p { summary = count_failed (count_total p.summary) }
after_oebb p fo (some h) =
    if fo.ok
    then record {
      out = record p.out {
        stream = set p.out.stream stream_sbahn_hbf (record h.stream {
          endpoint_responded = h.result.endpoint_responded;
          filter_matched = h.result.filter_matched;
        });
      };
      summary = count_retried fo (count_total p.summary);
      meta = record p.meta {
        auth_error_seen =
            if h.result.auth_error_seen
            then true
            else if h.result.endpoint_responded
            then false
            else p.meta.auth_error_seen;
      };
    }
    else record p { summary = count_failed (count_total p.summary) }

unfoldable pub fetch_oebb_stream : (List ℕ → Option OebbParsed) → (ℕ → Answer) → Progress → Progress
fetch_oebb_stream parse hafas p =
    let r = run_retry_loop default_fetch_config hafas in after_oebb p r.out (parse r.body)

abbrev pub no_summary : FetchSummary
no_summary = record { total_batches = 0; failed_batches = 0; retried_batches = 0 }

abbrev pub set_api_ok : Progress → Progress
set_api_ok p = record p {
  out = record p.out { api_ok = ltb p.summary.failed_batches p.summary.total_batches };
}

-- The result of `fetchSnapshot` is the field `api_ok`. `mgate` says whether a HAFAS URL is configured.
unfoldable pub fetch_snapshot :
    (List ℕ → Option StreamSnapshot)
    → (List ℕ → Option OebbParsed)
    → (ℕ → ℕ → Answer)
    → (ℕ → Answer)
    → Bool
    → AuthMeta
    → Progress
fetch_snapshot parse_ogd parse_oebb ogd hafas mgate meta =
    let p =
      run_ogd_batch_loop parse_ogd ogd
        (record { out = empty_snapshot; summary = no_summary; meta = meta }) in
    set_api_ok (if mgate then fetch_oebb_stream parse_oebb hafas p else p)
