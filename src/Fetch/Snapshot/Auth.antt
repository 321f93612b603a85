-- ===== src/Fetch/Snapshot/Auth.antt =====
-- The auth tripwire, the tally of the calls, and what the HAFAS call does to the auth flag.
use bustaferl.Prelude.{
  ℕ, zero, suc, ◌+◌, ◌-◌, ◌≤◌, ◌≡◌, ◌∙◌, Bool, true, false, List, Option, none, some, arith,
  if◌then◌else◌, min, ◌↔◌, ◌⊎◌, inl, inr, ◌&&◌, ◌||◌, ltb, Option-cases,
}
use bustaferl.Data.{StreamSnapshot, empty_snapshot}
use bustaferl.Fetch.{Answer, FetchOutcome, run_retry_loop, default_fetch_config}
use bustaferl.Fetch.Snapshot.{
  AuthMeta, FetchSummary, OebbParsed, Progress, trip, after_batch, ogd_batch, run_ogd_batch_loop,
  after_oebb, fetch_oebb_stream, fetch_snapshot, no_summary, is_auth_code, ogd_auth_streak_tripwire,
}

-- `n` failed batches in a row, all with an auth status.
pub trips : ℕ → ℕ → AuthMeta → AuthMeta
trips zero status meta = meta
trips (suc n) status meta = trips n status (trip status meta)

-- Auth failures in a row, one or more, raise the error flag exactly when the streak before and their
-- number reach three, or it was up already; the streak stops at three.
pub trips_lem :
    (n status : ℕ) (meta : AuthMeta)
    → is_auth_code status ≡ true
    → meta.ogd_auth_streak ≤ ogd_auth_streak_tripwire
    → ((trips n status meta).ogd_auth_streak
        ≡ min ogd_auth_streak_tripwire (meta.ogd_auth_streak + n))
      × (((trips n status meta).auth_error_seen ≡ true) ↔ (
          (meta.auth_error_seen ≡ true)
          ⊎ ((1 ≤ n) × (ogd_auth_streak_tripwire ≤ meta.ogd_auth_streak + n))))
unfolding trips trip
trips_lem zero status meta a h = (omega arith, (λ e. inl e, λ h. ground arith))
trips_lem (suc n) status meta a h =
    let (s, (up, down)) = trips_lem n status (trip status meta) a (ground arith) in
    (ground (arith, s), (λ e. ground (arith, up e), λ d. down (ground arith)))

abbrev is_parsed : {A : Type 0} → Option A → Bool
is_parsed none = false
is_parsed (some a) = true

-- Whether a call delivers, that is its transport and status are fine and its body parses.
abbrev pub delivers : {A : Type 0} → (List ℕ → Option A) → (ℕ → Answer) → Bool
delivers parse answers =
    let r = run_retry_loop default_fetch_config answers in r.out.ok && is_parsed (parse r.body)

abbrev pub lost : {A : Type 0} → (List ℕ → Option A) → (ℕ → Answer) → ℕ
lost parse answers = if delivers parse answers then 0 else 1

-- The tally after `n` calls, of which `failed` did not deliver.
pub record Tally (n failed : ℕ) (s : FetchSummary) : Type 0 where
  pub total : s.total_batches ≡ n
  pub lost_ones : s.failed_batches ≡ failed

after_batch-Tally :
    (parse : List ℕ → Option StreamSnapshot) (start size n failed : ℕ) (p : Progress)
    (fo : FetchOutcome) (body : List ℕ)
    → Tally n failed p.summary
    → Tally
        (n + 1)
        (failed + (if fo.ok && is_parsed (parse body) then 0 else 1))
        (after_batch parse start size p fo body).summary
unfolding after_batch
after_batch-Tally parse start size n failed p fo body t = elim (Option-cases (parse body)) [
  | inl bad ↦ rw (bad, after_batch) (ground (arith, t.total, t.lost_ones))
  | inr (partial, e) ↦ rw (e, after_batch) (ground (arith, t.total, t.lost_ones))
]

ogd_batch-Tally :
    (parse : List ℕ → Option StreamSnapshot) (ogd : ℕ → ℕ → Answer) (start n failed : ℕ)
    (p : Progress)
    → Tally n failed p.summary
    → Tally (n + 1) (failed + lost parse (ogd start)) (ogd_batch parse ogd start p).summary
unfolding ogd_batch
ogd_batch-Tally parse ogd start n failed p t =
    let r = run_retry_loop default_fetch_config (ogd start) in
    after_batch-Tally parse start (min 2 (3 - start)) n failed p r.out r.body t

run_ogd_batch_loop-Tally :
    (parse : List ℕ → Option StreamSnapshot) (ogd : ℕ → ℕ → Answer) (p : Progress)
    → Tally 0 0 p.summary
    → Tally 2 (lost parse (ogd 0) + lost parse (ogd 2)) (run_ogd_batch_loop parse ogd p).summary
unfolding run_ogd_batch_loop
run_ogd_batch_loop-Tally parse ogd p t =
    let first = ogd_batch-Tally parse ogd 0 0 0 p t in
    let both = ogd_batch-Tally parse ogd 2 1 _ (ogd_batch parse ogd 0 p) first in
    record { total = both.total; lost_ones = both.lost_ones ∙ omega arith }

after_oebb-Tally :
    (n failed : ℕ) (p : Progress) (fo : FetchOutcome) (h : Option OebbParsed)
    → Tally n failed p.summary
    → Tally (n + 1) (failed + (if fo.ok && is_parsed h then 0 else 1)) (after_oebb p fo h).summary
unfolding after_oebb
after_oebb-Tally n failed p fo none t = ground (arith, t.total, t.lost_ones)
after_oebb-Tally n failed p fo (some h) t = ground (arith, t.total, t.lost_ones)

fetch_oebb_stream-Tally :
    (parse : List ℕ → Option OebbParsed) (hafas : ℕ → Answer) (failed : ℕ) (p : Progress)
    → Tally 2 failed p.summary
    → Tally 3 (failed + lost parse hafas) (fetch_oebb_stream parse hafas p).summary
unfolding fetch_oebb_stream
fetch_oebb_stream-Tally parse hafas failed p t =
    let r = run_retry_loop default_fetch_config hafas in
    after_oebb-Tally 2 failed p r.out (parse r.body) t

-- What the HAFAS call makes of the auth flag once its body is parsed.
pub after_oebb_auth :
    (p : Progress) (fo : FetchOutcome) (h : OebbParsed)
    → fo.ok ≡ true
    → (after_oebb p fo (some h)).meta.auth_error_seen ≡ (
        if h.result.auth_error_seen
        then true
        else if h.result.endpoint_responded
        then false
        else p.meta.auth_error_seen)
unfolding after_oebb
after_oebb_auth p fo h ok = ground arith

abbrev fails : Bool → ℕ
fails b = if b then 0 else 1

success :
    (a b c : Bool) (f t : ℕ) → t ≡ 3 → f ≡ (fails a + fails b + fails c) → ltb f t ≡ (a || b || c)
success a b c f t h k = ground arith

success_two : (a b : Bool) (f t : ℕ) → t ≡ 2 → f ≡ (fails a + fails b) → ltb f t ≡ (a || b || false)
success_two a b f t h k = ground arith

module _ (parse_ogd : List ℕ → Option StreamSnapshot) (parse_oebb : List ℕ → Option OebbParsed)
    (ogd : ℕ → ℕ → Answer) (hafas : ℕ → Answer) (meta : AuthMeta) where
  abbrev outcome : Bool → Progress
  outcome mgate = fetch_snapshot parse_ogd parse_oebb ogd hafas mgate meta

  abbrev start : Progress
  start = record { out = empty_snapshot; summary = no_summary; meta = meta }

  -- A fetch makes two OGD batches, and the HAFAS call if its URL is configured. The failed ones are
  -- those whose last answer is no success or whose body does not parse, and the fetch is a success
  -- exactly if one of them delivers.
  pub fetch_snapshot_tally :
      (mgate : Bool)
      → ((outcome mgate).summary.total_batches ≡ (if mgate then 3 else 2))
        × ((outcome mgate).summary.failed_batches ≡ (
            lost parse_ogd (ogd 0)
            + lost parse_ogd (ogd 2)
            + (if mgate then lost parse_oebb hafas else 0)))
        × ((outcome mgate).out.api_ok ≡ (
            delivers parse_ogd (ogd 0)
            || delivers parse_ogd (ogd 2)
            || (mgate && delivers parse_oebb hafas)))
  unfolding fetch_snapshot
  fetch_snapshot_tally true =
      let t =
        fetch_oebb_stream-Tally parse_oebb hafas _ _
          (run_ogd_batch_loop-Tally parse_ogd ogd start (omega arith)) in
      (t.total, t.lost_ones, success _ _ _ _ _ t.total t.lost_ones)
  fetch_snapshot_tally false =
      let t = run_ogd_batch_loop-Tally parse_ogd ogd start (omega arith) in
      (t.total, omega (arith, t.lost_ones), success_two _ _ _ _ t.total t.lost_ones)

  -- If the HAFAS call succeeds, its body deserializes, and the parser saw an auth error or a normal
  -- response, then that alone decides the auth flag, whatever the OGD batches of the same fetch answered.
  pub fetch_snapshot_hafas_decides :
      (h : OebbParsed)
      → (run_retry_loop default_fetch_config hafas).out.ok ≡ true
      → parse_oebb (run_retry_loop default_fetch_config hafas).body ≡ some h
      → (h.result.auth_error_seen ≡ true) ⊎ (h.result.endpoint_responded ≡ true)
      → (outcome true).meta.auth_error_seen ≡ h.result.auth_error_seen
  unfolding fetch_snapshot fetch_oebb_stream
  fetch_snapshot_hafas_decides h ok parsed seen =
      let r = run_retry_loop default_fetch_config hafas in
      let e = after_oebb_auth (run_ogd_batch_loop parse_ogd ogd start) r.out h ok in
      rw parsed (ground (arith, e, seen))
