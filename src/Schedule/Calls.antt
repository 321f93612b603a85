-- ===== src/Schedule/Calls.antt =====
-- Which stops the service is asked for, and what comes of the calls.
use bustaferl.Prelude.{
  ℕ, ◌+◌, ◌<◌, Bool, if◌then◌else◌, ◌≡◌, ◌≢◌, refl, sym, subst, ◌∙◌, true, false, List, [], ◌∷◌,
  arith, ◌↔◌, ◌⊎◌, inl, inr, length, Any, ◌==◌, ◌||◌, ==_iff, Bool-cases,
}
use bustaferl.Data.{ScheduleHint}
use bustaferl.Fetch.{run_retry_loop, default_fetch_config}
use bustaferl.Schedule.{
  Efa, EfaCall, ScheduleFetchResult, ScheduleFetchConfig, is_duplicate_diva, ask, ask_all,
  fetch_schedule, no_result, compute_cutoff, query_anchor,
}

abbrev pub IsIn : ℕ → List ℕ → Type 0
IsIn d = Any (λ e. e ≡ d)

-- No stop stands in the list twice.
abbrev pub IsDistinct : List ℕ → Type 0
IsDistinct [] = Unit
IsDistinct (d ∷ ds) = (IsIn d ds → ⊥) × IsDistinct ds

is_duplicate_diva_iff :
    (earlier : List ℕ) (d : ℕ) → (is_duplicate_diva earlier d ≡ true) ↔ IsIn d earlier
unfolding is_duplicate_diva
is_duplicate_diva_iff [] d = (λ e. absurd (ground arith), λ h. absurd h)
is_duplicate_diva_iff (e ∷ es) d =
    let h = is_duplicate_diva_iff es d in (λ x. ground (arith, h.0), λ x. ground (arith, h.1))

abbrev pub calls_for : ℕ → ℕ → List ℕ → List EfaCall
calls_for query_time cutoff [] = []
calls_for query_time cutoff (d ∷ ds) =
    record { diva = d; query_time = query_time; cutoff = cutoff } ∷ calls_for query_time cutoff ds

abbrev if_lost : Bool → ℕ
if_lost parsed = if parsed then 0 else 1

-- The calls one after the other: how many of them are lost, and the hints that the parser has written.
abbrev pub replay : Efa → List EfaCall → List ScheduleHint → ℕ × List ScheduleHint
replay efa [] hints = (0, hints)
replay efa (call ∷ calls) hints =
    let a = run_retry_loop default_fetch_config (efa.answers call) in
    let (parsed, written) = efa.parse call a.body hints in
    let (lost, last) = replay efa calls written in
    let (lost_after, last_after) = replay efa calls hints in
    if a.out.ok then (if_lost parsed + lost, last) else (1 + lost_after, last_after)

abbrev pub outcome_of : ScheduleFetchResult → ℕ × List ScheduleHint
outcome_of r = (r.calls_failed, r.hint)

-- One call more, and those after it.
ask-replay :
    (efa : Efa) (call : EfaCall) (calls : List EfaCall) (r : ScheduleFetchResult)
    → let asked = ask efa call r in
      (asked.calls_attempted ≡ r.calls_attempted + 1)
      × (asked.calls_failed + (replay efa calls asked.hint).0
          ≡ r.calls_failed + (replay efa (call ∷ calls) r.hint).0)
      × ((replay efa calls asked.hint).1 ≡ (replay efa (call ∷ calls) r.hint).1)
unfolding ask
ask-replay efa call calls r =
    let a = run_retry_loop default_fetch_config (efa.answers call) in
    elim (Bool-cases a.out.ok) [
      | inr down ↦ rw (down, ask) (refl, omega arith, refl)
      | inl ok ↦ elim (Bool-cases (efa.parse call a.body r.hint).0) [
        | inl good ↦ rw (ok, good, ask) (refl, omega arith, refl)
        | inr bad ↦ rw (ok, bad, ask) (refl, omega arith, refl)
      ]
    ]

-- `stops` are the stops of `divas`, without 0 and without those that stand in `earlier`, each once.
record Asked (earlier divas stops : List ℕ) : Type 0 where
  distinct : IsDistinct stops
  only : (d : ℕ) → IsIn d stops → (d ≢ 0) × IsIn d divas × (IsIn d earlier → ⊥)
  each : (d : ℕ) → d ≢ 0 → IsIn d divas → (IsIn d earlier → ⊥) → IsIn d stops

skipped :
    (earlier : List ℕ) (diva : ℕ)
    → (diva == 0 || is_duplicate_diva earlier diva) ≡ true
    → (diva ≡ 0) ⊎ IsIn diva earlier
skipped earlier diva e = let h = is_duplicate_diva_iff earlier diva in ground (arith, e, h.0)

not_skipped :
    (earlier : List ℕ) (diva : ℕ)
    → (diva == 0 || is_duplicate_diva earlier diva) ≡ false
    → (diva ≢ 0) × (IsIn diva earlier → ⊥)
not_skipped earlier diva e =
    let h = is_duplicate_diva_iff earlier diva in
    (λ z. ground (arith, e, z), λ i. ground (arith, e, h.1 i))

-- A stop that is passed over, and one that is asked.
skip-Asked :
    (diva : ℕ) (earlier divas stops : List ℕ)
    → (diva ≡ 0) ⊎ IsIn diva earlier
    → Asked (diva ∷ earlier) divas stops
    → Asked earlier (diva ∷ divas) stops
skip-Asked diva earlier divas stops why a = record {
  distinct = a.distinct;
  only = λ d i. let (nz, j, out) = a.only d i in (nz, inr j, λ k. out (inr k));
  each = λ d nz i out. elim i [
    | inl p ↦ absurd (other d nz out p)
    | inr j ↦ a.each d nz j (λ k. elim k [ inl p ↦ other d nz out p | inr l ↦ out l ])
  ];
}
  where
    other : (d : ℕ) → d ≢ 0 → (IsIn d earlier → ⊥) → diva ≡ d → ⊥
    other d nz out p = elim why [
      | inl z ↦ nz (sym p ∙ z)
      | inr i ↦ out (subst (λ x. IsIn x earlier) p i)
    ]

fresh-Asked :
    (diva : ℕ) (earlier divas stops : List ℕ)
    → diva ≢ 0
    → (IsIn diva earlier → ⊥)
    → Asked (diva ∷ earlier) divas stops
    → Asked earlier (diva ∷ divas) (diva ∷ stops)
fresh-Asked diva earlier divas stops set new a = record {
  distinct = (λ i. (a.only diva i).2 (inl refl), a.distinct);
  only = λ d i. elim i [
    | inl p ↦ (λ z. set (p ∙ z), inl p, λ k. new (subst (λ x. IsIn x earlier) (sym p) k))
    | inr j ↦ let (nz, k, out) = a.only d j in (nz, inr k, λ l. out (inr l))
  ];
  each = λ d nz i out. elim (Bool-cases (diva == d)) [
    | inl e ↦ inl ((==_iff diva d).0 e)
    | inr e ↦ elim i [
      | inl p ↦ inl p
      | inr j ↦
          inr
            (a.each d nz j (λ k. elim k [ inl p ↦ absurd (ground (arith, e, p)) | inr l ↦ out l ]))
    ]
  ];
}

-- What the loop has made of `r` once it has asked `stops`.
record Replayed (efa : Efa) (query_time cutoff : ℕ) (stops : List ℕ) (r out : ScheduleFetchResult)
    : Type 0 where
  attempted : out.calls_attempted ≡ r.calls_attempted + length stops
  failed :
      out.calls_failed ≡ r.calls_failed + (replay efa (calls_for query_time cutoff stops) r.hint).0
  written : out.hint ≡ (replay efa (calls_for query_time cutoff stops) r.hint).1

ask_all-Asked :
    (efa : Efa) (query_time cutoff : ℕ) (earlier divas : List ℕ) (r : ScheduleFetchResult)
    → (stops : List ℕ) × Asked earlier divas stops
      × Replayed efa query_time cutoff stops r (ask_all efa query_time cutoff earlier divas r)
unfolding ask_all
ask_all-Asked efa query_time cutoff earlier [] r = (
  [],
  record { distinct = tt; only = λ d i. absurd i; each = λ d nz i o. absurd i },
  record { attempted = omega arith; failed = omega arith; written = refl },
)
ask_all-Asked efa query_time cutoff earlier (diva ∷ divas) r =
    let call : EfaCall = record { diva = diva; query_time = query_time; cutoff = cutoff } in
    elim (Bool-cases (diva == 0 || is_duplicate_diva earlier diva)) [
      | inl e ↦
          let (stops, a, done) = ask_all-Asked efa query_time cutoff (diva ∷ earlier) divas r in
          rw (e, ask_all)
            (stops, skip-Asked diva earlier divas stops (skipped earlier diva e) a, done)
      | inr e ↦
          let (stops, a, done) =
            ask_all-Asked efa query_time cutoff (diva ∷ earlier) divas (ask efa call r) in
          let (set, new) = not_skipped earlier diva e in
          let (one, lost, last) = ask-replay efa call (calls_for query_time cutoff stops) r in
          rw (e, ask_all)
            (
              diva ∷ stops,
              fresh-Asked diva earlier divas stops set new a,
              record {
                attempted = omega (arith, done.attempted, one);
                failed = done.failed ∙ lost;
                written = done.written ∙ last;
              },
            )
    ]

-- Every stop of the filters but 0 is asked exactly once, and nothing else: the fetch is the run of the
-- calls for these stops, each with the anchor and the cutoff. Its hints are those that the parser has
-- written in turn, the failed calls are those whose last answer is no success or whose body does not
-- parse, and the fetch is a success exactly if one did not fail.
pub fetch_schedule_calls :
    (efa : Efa) (local_at : ℕ → ℕ → ℕ → ℕ → ℕ) (now : ℕ) (divas : List ℕ)
    (cfg : ScheduleFetchConfig)
    → let out = fetch_schedule efa local_at now divas cfg in
      (stops : List ℕ) × IsDistinct stops
      × ((d : ℕ) → IsIn d stops ↔ ((d ≢ 0) × IsIn d divas))
      × (out.calls_attempted ≡ length stops)
      × (outcome_of out
          ≡ replay efa
              (calls_for
                (query_anchor local_at now cfg.query_hour cfg.query_minute)
                (compute_cutoff local_at now cfg.cutoff_hour)
                stops)
              no_result.hint)
      × ((out.ok ≡ true) ↔ (out.calls_failed < out.calls_attempted))
unfolding fetch_schedule
fetch_schedule_calls efa local_at now divas cfg =
    let (stops, a, done) =
      ask_all-Asked efa (query_anchor local_at now cfg.query_hour cfg.query_minute)
        (compute_cutoff local_at now cfg.cutoff_hour) [] divas no_result in
    (
      stops,
      a.distinct,
      λ d. (λ i. let (nz, j, o) = a.only d i in (nz, j), λ h. a.each d h.0 h.1 (λ k. absurd k)),
      omega (arith, done.attempted),
      pair_of (fetch_schedule efa local_at now divas cfg) _ (omega (arith, done.failed))
          done.written,
      (λ e. ground arith, λ l. ground arith),
    )
  where
    pair_of :
        (r : ScheduleFetchResult) (p : ℕ × List ScheduleHint)
        → r.calls_failed ≡ p.0
        → r.hint ≡ p.1
        → outcome_of r ≡ p
    pair_of r (a, x) e f = cc
