-- ===== src/Fetch/Snapshot/Streams.antt =====
-- The S-Bahn stream is written by the HAFAS call alone.
use bustaferl.Prelude.{
  ℕ, zero, suc, ◌≡◌, ◌≢◌, refl, ◌∙◌, Bool, true, false, List, Option, none, some, arith, get_or,
  get_elem?, get_elem?-set_ne, ◌⊎◌, Bool-cases, Option-cases, inl, inr,
}
use bustaferl.Data.{StreamData, StreamSnapshot, empty_stream, empty_snapshot, stream_sbahn_hbf}
use bustaferl.Fetch.{Answer, FetchOutcome, run_retry_loop, default_fetch_config}
use bustaferl.Fetch.Snapshot.{
  AuthMeta, OebbParsed, Progress, copy_out, after_batch, ogd_batch, run_ogd_batch_loop, after_oebb,
  fetch_oebb_stream, fetch_snapshot, no_summary, fetch_order,
}

abbrev pub sbahn : StreamSnapshot → Option StreamData
sbahn s = get_elem? s.stream stream_sbahn_hbf

fetch_order-ne : (place : ℕ) → get_or fetch_order place 0 ≢ stream_sbahn_hbf
fetch_order-ne zero = omega arith
fetch_order-ne (suc zero) = omega arith
fetch_order-ne (suc (suc zero)) = omega arith
fetch_order-ne (suc (suc (suc place))) = omega arith

sbahn-copy_out :
    (n place : ℕ) (partial out : StreamSnapshot) → sbahn (copy_out n place partial out) ≡ sbahn out
unfolding copy_out
sbahn-copy_out zero place partial out = refl
sbahn-copy_out (suc n) place partial out =
    sbahn-copy_out n (suc place) partial _
    ∙ get_elem?-set_ne out.stream (get_or fetch_order place 0) stream_sbahn_hbf
        (get_or partial.stream (get_or fetch_order place 0) empty_stream) (fetch_order-ne place)

sbahn-after_batch :
    (parse : List ℕ → Option StreamSnapshot) (start size : ℕ) (p : Progress) (fo : FetchOutcome)
    (body : List ℕ)
    → sbahn (after_batch parse start size p fo body).out ≡ sbahn p.out
unfolding after_batch
sbahn-after_batch parse start size p fo body = elim (Bool-cases fo.ok) [
  | inr failed ↦ rw failed
  | inl ok ↦ elim (Option-cases (parse body)) [
    | inl bad ↦ rw (ok, bad, after_batch)
    | inr (partial, e) ↦ rw (ok, e, after_batch) (sbahn-copy_out size start partial p.out)
  ]
]

sbahn-run_ogd_batch_loop :
    (parse : List ℕ → Option StreamSnapshot) (ogd : ℕ → ℕ → Answer) (p : Progress)
    → sbahn (run_ogd_batch_loop parse ogd p).out ≡ sbahn p.out
unfolding run_ogd_batch_loop ogd_batch
sbahn-run_ogd_batch_loop parse ogd p =
    let r = run_retry_loop default_fetch_config (ogd 0) in
    let q = run_retry_loop default_fetch_config (ogd 2) in
    sbahn-after_batch parse 2 1 (ogd_batch parse ogd 0 p) q.out q.body
    ∙ sbahn-after_batch parse 0 2 p r.out r.body

-- A HAFAS call that fails, by its transport, its status or its body, leaves the S-Bahn stream empty,
-- whatever the parser of the OGD responses writes to that stream.
pub sbahn-fetch_snapshot :
    (parse_ogd : List ℕ → Option StreamSnapshot) (parse_oebb : List ℕ → Option OebbParsed)
    (ogd : ℕ → ℕ → Answer) (hafas : ℕ → Answer) (mgate : Bool) (meta : AuthMeta)
    → ((run_retry_loop default_fetch_config hafas).out.ok ≡ false)
      ⊎ (parse_oebb (run_retry_loop default_fetch_config hafas).body ≡ none)
    → sbahn (fetch_snapshot parse_ogd parse_oebb ogd hafas mgate meta).out ≡ some empty_stream
unfolding fetch_snapshot fetch_oebb_stream after_oebb
sbahn-fetch_snapshot parse_ogd parse_oebb ogd hafas false meta h =
    sbahn-run_ogd_batch_loop parse_ogd ogd _
sbahn-fetch_snapshot parse_ogd parse_oebb ogd hafas true meta h =
    kept (parse_oebb (run_retry_loop default_fetch_config hafas).body) h
    ∙ sbahn-run_ogd_batch_loop parse_ogd ogd start
  where
    start : Progress
    start = record { out = empty_snapshot; summary = no_summary; meta = meta }

    kept :
        (o : Option OebbParsed)
        → ((run_retry_loop default_fetch_config hafas).out.ok ≡ false) ⊎ (o ≡ none)
        → sbahn
            (after_oebb
              (run_ogd_batch_loop parse_ogd ogd start)
              (run_retry_loop default_fetch_config hafas).out
              o).out
          ≡ sbahn (run_ogd_batch_loop parse_ogd ogd start).out
    kept none f = refl
    kept (some parsed) (inl f) = rw f
    kept (some parsed) (inr e) = cc
