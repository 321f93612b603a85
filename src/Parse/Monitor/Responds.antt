-- ===== src/Parse/Monitor/Responds.antt =====
-- Which streams of a monitor response are marked as answered.
use bustaferl.Prelude.{
  ℕ, zero, suc, ◌<◌, ◌≡◌, ◌≢◌, refl, ap, sym, ◌∙◌, ◌⊎◌, inl, inr, ◌↔◌, Bool, true, List, [], ◌∷◌,
  none, some, get_or, set, length, length-set, Any, arith, Bool-cases, Option-cases, ==_iff, ◌==◌,
}
use bustaferl.Prelude.Int.{ℤ}
use bustaferl.Data.{StreamData, empty_stream, empty_snapshot, stream_count}
use bustaferl.Parse.{Text, Reader}
use bustaferl.Parse.Monitor.{
  StreamFilter, same_int, default_filter, find_filter_for_rbl, rbl_of, monitors_of, line_matches,
  read_stream, take_line, read_lines, read_monitor, read_monitors, parse_monitor_response,
}

module _ {ℓ} {A : Type ℓ} where
  get_or-set_self : (xs : List A) (i : ℕ) (v d : A) → i < length xs → get_or (set xs i v) i d ≡ v
  get_or-set_self [] i v d h = absurd (omega arith)
  get_or-set_self (x ∷ xs) zero v d h = refl
  get_or-set_self (x ∷ xs) (suc i) v d h = get_or-set_self xs i v d (omega arith)

  get_or-set_ne :
      (xs : List A) (i j : ℕ) (v d : A) → i ≢ j → get_or (set xs i v) j d ≡ get_or xs j d
  get_or-set_ne [] i j v d h = refl
  get_or-set_ne (x ∷ xs) zero zero v d h = absurd (h refl)
  get_or-set_ne (x ∷ xs) zero (suc j) v d h = refl
  get_or-set_ne (x ∷ xs) (suc i) zero v d h = refl
  get_or-set_ne (x ∷ xs) (suc i) (suc j) v d h = get_or-set_ne xs i j v d (λ e. h (ap suc e))

abbrev pub responded : ℕ → List StreamData → Bool
responded i streams = (get_or streams i empty_stream).endpoint_responded

responded-set_self :
    (streams : List StreamData) (fi i : ℕ) (sd : StreamData)
    → fi ≡ i
    → i < length streams
    → responded i (set streams fi sd) ≡ sd.endpoint_responded
responded-set_self streams fi i sd e h =
    rw e
      (ap (λ (x : StreamData). x.endpoint_responded) (get_or-set_self streams i sd empty_stream h))

responded-set_ne :
    (streams : List StreamData) (fi i : ℕ) (sd : StreamData)
    → fi ≢ i
    → responded i (set streams fi sd) ≡ responded i streams
responded-set_ne streams fi i sd n =
    ap (λ (x : StreamData). x.endpoint_responded) (get_or-set_ne streams fi i sd empty_stream n)

none_responded : (i : ℕ) → i < stream_count → responded i empty_snapshot.stream ≡ true → ⊥
none_responded zero h e = cc
none_responded (suc zero) h e = cc
none_responded (suc (suc zero)) h e = cc
none_responded (suc (suc (suc zero))) h e = cc
none_responded (suc (suc (suc (suc n)))) h e = absurd (omega arith)

none-ne-some : (a : ℕ) → none ≡ some a → ⊥
none-ne-some a e = cc

some_inj : (a b : ℕ) → some a ≡ some b → a ≡ b
some_inj a b e = cc

-- The i-th filter has the number, and none before it does.
abbrev pub FirstWith : ℤ → List StreamFilter → ℕ → Type 0
FirstWith rbl [] i = ⊥
FirstWith rbl (f ∷ fs) zero = f.rbl ≡ rbl
FirstWith rbl (f ∷ fs) (suc i) = (f.rbl ≢ rbl) × FirstWith rbl fs i

same_int_iff : (a b : ℤ) → (same_int a b ≡ true) ↔ (a ≡ b)
same_int_iff a b = ground arith

find_filter-FirstWith :
    (rbl : ℤ) (fs : List StreamFilter) (i : ℕ)
    → find_filter_for_rbl rbl fs ≡ some i
    → FirstWith rbl fs i
unfolding find_filter_for_rbl
find_filter-FirstWith rbl [] i e = cc
find_filter-FirstWith rbl (f ∷ fs) zero e = ground (arith, same_int_iff f.rbl rbl)
find_filter-FirstWith rbl (f ∷ fs) (suc i) e =
    (ground (arith, same_int_iff f.rbl rbl), find_filter-FirstWith rbl fs i (ground arith))

FirstWith-find_filter :
    (rbl : ℤ) (fs : List StreamFilter) (i : ℕ)
    → FirstWith rbl fs i
    → find_filter_for_rbl rbl fs ≡ some i
unfolding find_filter_for_rbl
FirstWith-find_filter rbl [] i h = elim h [ ]
FirstWith-find_filter rbl (f ∷ fs) zero h = rw ((same_int_iff f.rbl rbl).1 h) refl
FirstWith-find_filter rbl (f ∷ fs) (suc i) h =
    ground (arith, same_int_iff f.rbl rbl, FirstWith-find_filter rbl fs i)

module _ {V : Type 0} (r : Reader V) (filters : List StreamFilter) where
  -- The monitor is that of the i-th stream.
  abbrev pub AnswersFor : ℕ → V → Type 0
  AnswersFor i mon = FirstWith (rbl_of r mon) filters i

  responded-read_lines :
      (f : StreamFilter) (lines : List V) (sd : StreamData)
      → (read_lines r f lines sd).endpoint_responded ≡ sd.endpoint_responded
  unfolding read_lines take_line
  responded-read_lines f [] sd = refl
  responded-read_lines f (line ∷ lines) sd = elim (Bool-cases (line_matches r f line)) [
    | inl m ↦ rw (m, read_lines) refl
    | inr m ↦ rw (m, read_lines) (responded-read_lines f lines sd)
  ]

  responded-read_monitor :
      (i : ℕ) (mon : V) (streams : List StreamData)
      → i < length streams
      → (responded i (read_monitor r filters mon streams) ≡ true)
        ↔ ((responded i streams ≡ true) ⊎ AnswersFor i mon)
  unfolding read_monitor
  responded-read_monitor i mon streams h =
      elim (Option-cases (find_filter_for_rbl (rbl_of r mon) filters)) [
        | inl e ↦
            rw (e, read_monitor)
              (
                (λ p. inl p),
                λ q. elim q [
                  | inl p ↦ p
                  | inr p ↦ absurd (none-ne-some _ (sym e ∙ FirstWith-find_filter _ _ i p))
                ],
              )
        | inr (fi, e) ↦
            let sd =
              read_stream r (get_or filters fi default_filter) mon
                (get_or streams fi empty_stream) in
            let answered : sd.endpoint_responded ≡ true = responded-read_lines _ _ _ in
            rw (e, read_monitor)
              (elim (Bool-cases (fi == i)) [
                | inl f ↦
                    let same = (==_iff fi i).0 f in
                    (
                      (λ p. inr (find_filter-FirstWith _ _ i (e ∙ ap some same))),
                      λ q. responded-set_self streams fi i sd same h ∙ answered,
                    )
                | inr f ↦
                    let other : fi ≢ i = ground arith in
                    let kept = responded-set_ne streams fi i sd other in
                    (
                      (λ p. inl (sym kept ∙ p)),
                      λ q. elim q [
                        | inl p ↦ kept ∙ p
                        | inr p ↦
                            absurd (other (some_inj fi i (sym e ∙ FirstWith-find_filter _ _ i p)))
                      ],
                    )
              ])
      ]

  length-read_monitor :
      (mon : V) (streams : List StreamData)
      → length (read_monitor r filters mon streams) ≡ length streams
  unfolding read_monitor
  length-read_monitor mon streams =
      elim (Option-cases (find_filter_for_rbl (rbl_of r mon) filters)) [
        | inl e ↦ rw (e, read_monitor) refl
        | inr (fi, e) ↦ rw (e, read_monitor) (length-set streams fi _)
      ]

  responded-read_monitors :
      (i : ℕ) (monitors : List V) (streams : List StreamData)
      → i < length streams
      → (responded i (read_monitors r filters monitors streams) ≡ true)
        ↔ ((responded i streams ≡ true) ⊎ Any (AnswersFor i) monitors)
  unfolding read_monitors
  responded-read_monitors i [] streams h =
      ((λ p. inl p), λ q. elim q [ inl p ↦ p | inr p ↦ elim p [ ] ])
  responded-read_monitors i (mon ∷ monitors) streams h =
      let (here, back) = responded-read_monitor i mon streams h in
      let (rest, back_rest) =
        responded-read_monitors i monitors (read_monitor r filters mon streams)
          (rw (length-read_monitor mon streams) h) in
      (
        (λ p. elim (rest p) [
          | inl q ↦ elim (here q) [ inl a ↦ inl a | inr b ↦ inr (inl b) ]
          | inr q ↦ inr (inr q)
        ]),
        λ q. back_rest (elim q [
          | inl a ↦ inl (back (inl a))
          | inr b ↦ elim b [ inl c ↦ inl (back (inr c)) | inr d ↦ inr d ]
        ]),
      )

  -- On a document that deserializes, a stream is marked as answered exactly if some monitor carries
  -- the number of the stream's filter, and no earlier filter has that number.
  pub responds_iff :
      (i : ℕ) (json : Text) (doc : V)
      → i < stream_count
      → r.deserialize json ≡ some doc
      → (responded i (parse_monitor_response r json filters).1.stream ≡ true)
        ↔ Any (AnswersFor i) (monitors_of r doc)
  unfolding parse_monitor_response
  responds_iff i json doc h e =
      let (there, back) = responded-read_monitors i (monitors_of r doc) empty_snapshot.stream h in
      rw (e, parse_monitor_response)
        (
          (λ p. elim (there p) [ inl q ↦ absurd (none_responded i h q) | inr q ↦ q ]),
          λ q. back (inr q),
        )
