-- ===== src/Parse/Hafas/Answer.antt =====
-- What a HAFAS response amounts to.
use bustaferl.Prelude.{
  ℕ, ◌≡◌, refl, sym, ◌∙◌, Bool, true, false, List, [], Option, none, some, All, Any, arith, ltb,
  ◌↔◌, ◌⊎◌, inl, inr,
}
use bustaferl.Data.{empty_stream}
use bustaferl.Parse.{LocalTime, Text, Reader, key, get_some, same_text}
use bustaferl.Fetch.Snapshot.{OebbParsed}
use bustaferl.Parse.Hafas.{
  by_answer, is_auth_error, err_of, res_of, take_board, consume_oebb_doc, parse_oebb_station_board,
  take_journeys,
}
use bustaferl.Parse.Hafas.Board.{HasMinute, Holds}
use bustaferl.Parse.Hafas.Codes.{HasCode, IsAnswer, ok_iff, IsRefused-iff, answer_not_refused}
use bustaferl.Parse.Hafas.Journeys.{Covered, IsOf, Grown, take_journeys-Grown}

false_ne_true : false ≡ true → ⊥
false_ne_true e = cc

module _ {V : Type 0} (r : Reader V) (mktime : LocalTime → Option ℕ) (now : ℕ) where
  -- The slots and the flag of a board that shows the journeys.
  abbrev pub IsBoard : List V → OebbParsed → Type 0
  IsBoard jnys p =
      (n : ℕ) × Holds now n p.stream.slot
      × (p.result.filter_matched ≡ ltb 0 n)
      × All (Covered r mktime now n p.stream.slot) jnys
      × ((k : ℕ) → HasMinute n p.stream.slot k → Any (IsOf r mktime now k) jnys)

  -- Nothing is shown.
  abbrev pub IsBlank : OebbParsed → Type 0
  IsBlank p = (p.stream ≡ empty_stream) × (p.result.filter_matched ≡ false)

  abbrev pub journeys_of : V → List V
  journeys_of doc = get_some (r.items (r.member (res_of r mktime doc) (key "jnyL"))) []

  abbrev pub Shows : V → OebbParsed → Type 0
  Shows doc p =
      (IsAnswer r mktime doc × IsBoard (journeys_of doc) p)
      ⊎ ((IsAnswer r mktime doc → ⊥) × IsBlank p)

  take_board-IsBoard :
      (res : V) (o : Option (List V)) → IsBoard (get_some o []) (take_board r mktime now res o)
  take_board-IsBoard res none = (0, (refl, (refl, (refl, tt))), refl, tt, λ k h. absurd h)
  take_board-IsBoard res (some jnys) =
      let prods = r.items (r.member (r.member res (key "common")) (key "prodL")) in
      let (m, final) = take_journeys r mktime now prods jnys 0 empty_stream.slot in
      let g : Grown r mktime now 0 empty_stream.slot jnys m final =
        take_journeys-Grown r mktime now prods jnys 0 empty_stream.slot
          (record { three = refl; holds = (refl, (refl, (refl, tt))); bounded = omega arith }) in
      (m, g.taken.holds, refl, g.covered, λ k h. elim (g.only k h) [ inl i ↦ absurd i | inr i ↦ i ])

  consume_oebb_doc-Shows : (doc : V) → Shows doc (consume_oebb_doc r mktime now doc)
  unfolding consume_oebb_doc
  consume_oebb_doc-Shows doc =
      by_err (is_auth_error r mktime (err_of r mktime doc))
        (same_text (err_of r mktime doc) (key "OK")) (r.is_object (res_of r mktime doc))
        (λ e a. answer_not_refused r mktime doc a ((IsRefused-iff r mktime doc).0 e))
        (ok_iff r mktime doc) refl
    where
      res : V
      res = res_of r mktime doc

      jnys : Option (List V)
      jnys = r.items (r.member res (key "jnyL"))

      by_err :
          (auth ok object : Bool)
          → (auth ≡ true → IsAnswer r mktime doc → ⊥)
          → (ok ≡ true) ↔ HasCode r mktime (key "OK") doc
          → r.is_object res ≡ object
          → Shows doc (by_answer auth ok object (take_board r mktime now res jnys))
      by_err true ok object h k l = inr (h refl, (refl, refl))
      by_err false false object h k l = inr (λ a. false_ne_true (k.1 a.0), (refl, refl))
      by_err false true false h k l = inr (λ a. false_ne_true (sym l ∙ a.1), (refl, refl))
      by_err false true true h k l = inl ((k.0 refl, l), take_board-IsBoard res jnys)

  -- Of a response with the code OK and a result, the first slots of the board show journeys of different
  -- minutes, each that of a journey that can be read and is not over, with a label that fits and holds no
  -- blank, and the other slots are free;
  -- the filter is matched exactly if there is one. Every journey that can be read and is not over has its
  -- minute on the board, or the board is full. Another response shows nothing and matches nothing.
  pub parse_oebb_station_board-Shows :
      (json : Text) (doc : V)
      → r.deserialize json ≡ some doc
      → (p : OebbParsed) × (parse_oebb_station_board r mktime now json ≡ some p) × Shows doc p
  unfolding parse_oebb_station_board
  parse_oebb_station_board-Shows json doc e = (
    consume_oebb_doc r mktime now doc,
    rw (e, parse_oebb_station_board) refl,
    consume_oebb_doc-Shows doc,
  )
