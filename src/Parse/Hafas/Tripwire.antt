-- ===== src/Parse/Hafas/Tripwire.antt =====
-- What a HAFAS response does to the auth flag.
use bustaferl.Prelude.{
  ℕ, ◌≡◌, refl, sym, ◌∙◌, Bool, true, false, List, Option, none, some, ◌↔◌, ◌⊎◌, inl, inr, not,
  ◌&&◌, if◌then◌else◌, arith,
}
use bustaferl.Data.{StreamSnapshot, empty_snapshot}
use bustaferl.Fetch.{Answer, run_retry_loop, default_fetch_config}
use bustaferl.Fetch.Snapshot.{
  AuthMeta, Progress, OebbParsed, fetch_snapshot, fetch_oebb_stream, run_ogd_batch_loop, no_summary,
}
use bustaferl.Fetch.Snapshot.Auth.{after_oebb_auth}
use bustaferl.Parse.{Reader, LocalTime, key, same_text}
use bustaferl.Parse.Hafas.{
  by_answer, is_auth_error, err_of, res_of, take_board, consume_oebb_doc, parse_oebb_station_board,
}
use bustaferl.Parse.Hafas.Codes.{IsRefused, IsAnswer, ok_iff, IsRefused-iff, answer_not_refused}

false_ne_true : false ≡ true → ⊥
false_ne_true e = cc

module _ {V : Type 0} (r : Reader V) (mktime : LocalTime → Option ℕ) (now : ℕ) where
  take_board_flags :
      (res : V) (o : Option (List V))
      → let p = (take_board r mktime now res o).result in
        (p.auth_error_seen ≡ false) × (p.endpoint_responded ≡ true)
  take_board_flags res none = (refl, refl)
  take_board_flags res (some jnys) = (refl, refl)

  by_flags :
      (auth ok object : Bool) (board : OebbParsed)
      → (board.result.auth_error_seen ≡ false) × (board.result.endpoint_responded ≡ true)
      → let p = (by_answer auth ok object board).result in
        (p.auth_error_seen ≡ auth) × (p.endpoint_responded ≡ (not auth && ok && object))
  by_flags true ok object board h = (refl, refl)
  by_flags false false object board h = (refl, refl)
  by_flags false true false board h = (refl, refl)
  by_flags false true true board h = h

  consume_oebb_doc_flags :
      (doc : V)
      → let p = (consume_oebb_doc r mktime now doc).result in
        ((p.auth_error_seen ≡ true) ↔ IsRefused r mktime doc)
        × ((p.endpoint_responded ≡ true) ↔ IsAnswer r mktime doc)
  unfolding consume_oebb_doc
  consume_oebb_doc_flags doc =
      let res = res_of r mktime doc in
      let jnys = r.items (r.member res (key "jnyL")) in
      let (auth, responded) =
        by_flags (is_auth_error r mktime (err_of r mktime doc))
          (same_text (err_of r mktime doc) (key "OK")) (r.is_object res)
          (take_board r mktime now res jnys) (take_board_flags res jnys) in
      let (raised, refused) = IsRefused-iff r mktime doc in
      let (fine, ok) = ok_iff r mktime doc in
      (
        (λ e. raised (sym auth ∙ e), λ h. auth ∙ refused h),
        (
          λ e. (fine (ground (arith, responded, e)), ground (arith, responded, e)),
          λ a. let free = not_auth doc a in ground (arith, responded, ok a.0, a.1, free),
        ),
      )
    where
      not_auth :
          (doc : V) → IsAnswer r mktime doc → is_auth_error r mktime (err_of r mktime doc) ≡ false
      not_auth doc a =
          by_auth _ (λ e. answer_not_refused r mktime doc a ((IsRefused-iff r mktime doc).0 e))
        where
          by_auth : (b : Bool) → (b ≡ true → ⊥) → b ≡ false
          by_auth true h = absurd (h refl)
          by_auth false h = refl

  flag_of :
      (auth responded before : Bool)
      → ((if auth then true else if responded then false else before) ≡ true)
        ↔ ((auth ≡ true) ⊎ ((responded ≡ false) × (before ≡ true)))
  flag_of true responded before = (λ e. inl refl, λ h. refl)
  flag_of false true before = (λ e. cc, λ h. elim h [ inl e ↦ cc | inr e ↦ cc ])
  flag_of false false before = (λ e. inr (refl, e), λ h. elim h [ inl e ↦ cc | inr e ↦ e.1 ])

  not_answered :
      (doc : V)
      → ((consume_oebb_doc r mktime now doc).result.endpoint_responded ≡ false)
        ↔ (IsAnswer r mktime doc → ⊥)
  not_answered doc = let (f, g) = (consume_oebb_doc_flags doc).1 in by_flag _ f g
    where
      by_flag :
          (b : Bool)
          → (b ≡ true → IsAnswer r mktime doc)
          → (IsAnswer r mktime doc → b ≡ true)
          → (b ≡ false) ↔ (IsAnswer r mktime doc → ⊥)
      by_flag true f g = (λ e. cc, λ h. absurd (h (f refl)))
      by_flag false f g = (λ e a. false_ne_true (g a), λ h. refl)

  -- After a fetch whose HAFAS call succeeds with a document, the auth flag is up exactly if the
  -- response has the error code AID or AUTH, or it has not the code OK with a result and the flag was up
  -- after the OGD batches.
  pub fetch_snapshot_code :
      (parse_ogd : List ℕ → Option StreamSnapshot) (ogd : ℕ → ℕ → Answer) (hafas : ℕ → Answer)
      (meta : AuthMeta) (doc : V)
      → (run_retry_loop default_fetch_config hafas).out.ok ≡ true
      → r.deserialize (run_retry_loop default_fetch_config hafas).body ≡ some doc
      → let start : Progress = record { out = empty_snapshot; summary = no_summary; meta = meta } in
        let before = (run_ogd_batch_loop parse_ogd ogd start).meta in
        let after =
          (fetch_snapshot parse_ogd
            (parse_oebb_station_board r mktime now)
            ogd
            hafas
            true
            meta).meta in
        (after.auth_error_seen ≡ true)
        ↔ (IsRefused r mktime doc ⊎ ((IsAnswer r mktime doc → ⊥) × (before.auth_error_seen ≡ true)))
  unfolding fetch_snapshot fetch_oebb_stream parse_oebb_station_board
  fetch_snapshot_code parse_ogd ogd hafas meta doc ok e =
      let p = consume_oebb_doc r mktime now doc in
      let start : Progress = record { out = empty_snapshot; summary = no_summary; meta = meta } in
      let before = run_ogd_batch_loop parse_ogd ogd start in
      let flag = after_oebb_auth before (run_retry_loop default_fetch_config hafas).out p ok in
      let (raised, refused) = (consume_oebb_doc_flags doc).0 in
      let (mute, silent) = not_answered doc in
      let (f, g) =
        flag_of p.result.auth_error_seen p.result.endpoint_responded before.meta.auth_error_seen in
      rw (e, parse_oebb_station_board)
        (
          λ up. elim (f (sym flag ∙ up)) [ inl a ↦ inl (raised a) | inr b ↦ inr (mute b.0, b.1) ],
          λ h. flag ∙ g (elim h [ inl a ↦ inl (refused a) | inr b ↦ inr (silent b.0, b.1) ]),
        )
