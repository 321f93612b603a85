-- ===== src/Parse/Monitor/Shape.antt =====
-- What a parsed monitor response looks like, stream by stream.
use bustaferl.Prelude.{
  ℕ, zero, suc, ◌<◌, ◌≡◌, refl, ap, sym, ◌∙◌, ◌⊎◌, inl, inr, Bool, true, List, [], ◌∷◌, Option,
  some, ltb, leb, if◌then◌else◌, get_or, set, length, All, arith, ltb→lt, Bool-cases, Option-cases,
  length-set,
}
use bustaferl.Data.{
  Departure, realtime, plan, no_departure, StreamData, empty_stream, slots_per_stream,
}
use bustaferl.Parse.{Text, Reader}
use bustaferl.Parse.Monitor.{
  find_filter_for_rbl, rbl_of, monitors_of, line_matches, read_stream, StreamFilter, Times,
  read_times, time_bits, fill_slots, times_of, take_line, read_lines, read_monitor, read_monitors,
  parse_monitor_response, store,
}

-- A slot is free, or it holds a departure with a live or with its scheduled time.
abbrev pub IsRead : Departure → Type 0
IsRead d =
    (d ≡ no_departure)
    ⊎ ((d.valid ≡ true)
        × (d.line_label ≡ [])
        × ((d.source ≡ realtime) ⊎ ((d.source ≡ plan) × (d.when ≡ d.planned))))

-- The departures come first.
abbrev pub Packed : Bool → List Departure → Type 0
Packed before [] = Unit
Packed before (d ∷ ds) = (d.valid ≡ true → before ≡ true) × Packed d.valid ds

abbrev FilledTo : ℕ → List Departure → Type 0
FilledTo zero ds = Unit
FilledTo (suc n) [] = ⊥
FilledTo (suc n) (d ∷ ds) = (d.valid ≡ true) × FilledTo n ds

Packed-true : (b c : Bool) (ds : List Departure) → Packed b ds → c ≡ true → Packed c ds
Packed-true b c [] p e = tt
Packed-true b c (d ∷ ds) p e = ((λ _. e), p.1)

set-Packed :
    (before : Bool) (ds : List Departure) (n : ℕ) (d : Departure)
    → Packed before ds
    → FilledTo n ds
    → (before ≡ true) ⊎ (0 < n)
    → d.valid ≡ true
    → Packed before (set ds n d)
set-Packed before [] n d p f b v = tt
set-Packed before (x ∷ ds) zero d p f (inl b) v = ((λ _. b), Packed-true x.valid d.valid ds p.1 v)
set-Packed before (x ∷ ds) zero d p f (inr h) v = absurd (omega arith)
set-Packed before (x ∷ ds) (suc n) d p f b v = (p.0, set-Packed x.valid ds n d p.1 f.1 (inl f.0) v)

set-FilledTo :
    (ds : List Departure) (n : ℕ) (d : Departure)
    → FilledTo n ds
    → n < length ds
    → d.valid ≡ true
    → FilledTo (suc n) (set ds n d)
set-FilledTo [] n d f h v = absurd (omega arith)
set-FilledTo (x ∷ ds) zero d f h v = (v, tt)
set-FilledTo (x ∷ ds) (suc n) d f h v = (f.0, set-FilledTo ds n d f.1 (omega arith) v)

set-All {ℓ κ} :
    {A : Type ℓ} (P : A → Type κ) (xs : List A) (n : ℕ) (x : A)
    → All P xs
    → P x
    → All P (set xs n x)
set-All P [] n x h k = tt
set-All P (y ∷ xs) zero x h k = (k, h.1)
set-All P (y ∷ xs) (suc n) x h k = (h.0, set-All P xs n x h.1 k)

get_or-All {ℓ κ} :
    {A : Type ℓ} (P : A → Type κ) (xs : List A) (n : ℕ) (d : A) → All P xs → P d → P (get_or xs n d)
get_or-All P [] n d h k = k
get_or-All P (y ∷ xs) zero d h k = h.0
get_or-All P (y ∷ xs) (suc n) d h k = get_or-All P xs n d h.1 k

abbrev IsTimes : Times → Type 0
IsTimes t = (t.source ≡ realtime) ⊎ ((t.source ≡ plan) × (t.when ≡ t.planned))

read_times-IsTimes : (a b : Option Text) (t : Times) → read_times a b ≡ some t → IsTimes t
unfolding read_times
read_times-IsTimes a b t e = ground arith

line_label-IsRead : (d : Departure) → IsRead d → d.line_label ≡ []
line_label-IsRead d (inl e) = ap (λ (x : Departure). x.line_label) e
line_label-IsRead d (inr h) = h.1

store-IsRead : (t : Times) (d : Departure) → IsTimes t → IsRead d → IsRead (store t d)
store-IsRead t d h k = inr (refl, line_label-IsRead d k, by_source h)
  where
    by_source :
        IsTimes t
        → (t.source ≡ realtime) ⊎ ((t.source ≡ plan) × (time_bits t.when ≡ time_bits t.planned))
    by_source (inl e) = inl e
    by_source (inr (e, f)) = inr (e, ap time_bits f)

-- The slots come packed, and the two flags say what is there.
pub record IsParsed (sd : StreamData) : Type 0 where
  pub three : length sd.slot ≡ slots_per_stream
  pub packed : Packed true sd.slot
  pub read : All IsRead sd.slot
  pub matched : sd.filter_matched ≡ (get_or sd.slot 0 no_departure).valid
  pub responded : sd.filter_matched ≡ true → sd.endpoint_responded ≡ true

first-FilledTo :
    (n : ℕ) (ds : List Departure) → FilledTo n ds → 0 < n → (get_or ds 0 no_departure).valid ≡ true
first-FilledTo zero ds f h = absurd (omega arith)
first-FilledTo (suc n) [] f h = elim f [ ]
first-FilledTo (suc n) (d ∷ ds) f h = f.0

record Filled (start : List Departure) (n : ℕ) (slots : List Departure) : Type 0 where
  three : length slots ≡ slots_per_stream
  packed : Packed true slots
  read : All IsRead slots
  filled : FilledTo n slots
  same : n ≡ 0 → slots ≡ start

Filled-step :
    (start : List Departure) (n : ℕ) (slots : List Departure) (t : Times)
    → n < slots_per_stream
    → IsTimes t
    → Filled start n slots
    → Filled start (suc n) (set slots n (store t (get_or slots n no_departure)))
Filled-step start n slots t lt ok h =
    let d = store t (get_or slots n no_departure) in
    record {
      three = length-set slots n d ∙ h.three;
      packed = set-Packed true slots n d h.packed h.filled (inl refl) refl;
      read =
          set-All IsRead slots n d h.read
            (store-IsRead t _ ok (get_or-All IsRead slots n no_departure h.read (inl refl)));
      filled = set-FilledTo slots n d h.filled (omega (arith, h.three)) refl;
      same = λ e. absurd (omega arith);
    }

module _ {V : Type 0} (r : Reader V) where
  fill_slots-Filled :
      (start : List Departure) (deps : List V) (n : ℕ) (slots : List Departure)
      → Filled start n slots
      → let (m, filled) = fill_slots r deps n slots in Filled start m filled
  unfolding fill_slots
  fill_slots-Filled start [] n slots h = h
  fill_slots-Filled start (dep ∷ deps) n slots h = elim (Bool-cases (leb slots_per_stream n)) [
    | inl e ↦ rw (e, fill_slots) h
    | inr e ↦ elim (Option-cases (times_of r dep)) [
      | inl f ↦ rw (e, f, fill_slots) (fill_slots-Filled start deps n slots h)
      | inr (t, f) ↦
          rw (e, f, fill_slots)
            (fill_slots-Filled start deps (suc n)
              (set slots n (store t (get_or slots n no_departure)))
              (Filled-step start n slots t (ground arith) (read_times-IsTimes _ _ t f) h))
    ]
  ]

  take_line-IsParsed :
      (line : V) (sd : StreamData)
      → IsParsed sd
      → sd.endpoint_responded ≡ true
      → IsParsed (take_line r line sd)
  unfolding take_line
  take_line-IsParsed line sd h e = finish (fill_slots-Filled sd.slot _ 0 sd.slot start)
    where
      start : Filled sd.slot 0 sd.slot
      start = record {
        three = h.three;
        packed = h.packed;
        read = h.read;
        filled = tt;
        same = λ _. refl;
      }

      finish :
          {n : ℕ} {slots : List Departure}
          → Filled sd.slot n slots
          → IsParsed (record sd {
            slot = slots;
            filter_matched = if ltb 0 n then true else sd.filter_matched;
          })
      finish {n} {slots} f = record {
        three = f.three;
        packed = f.packed;
        read = f.read;
        matched = elim (Bool-cases (ltb 0 n)) [
          | inl g ↦ rw g (sym (first-FilledTo n slots f.filled (ltb→lt 0 n g)))
          | inr g ↦ rw g (
              h.matched
              ∙ ap (λ (ds : List Departure). (get_or ds 0 no_departure).valid)
                  (sym (f.same (ground arith))))
        ];
        responded = λ _. e;
      }

  read_lines-IsParsed :
      (f : StreamFilter) (lines : List V) (sd : StreamData)
      → IsParsed sd
      → sd.endpoint_responded ≡ true
      → IsParsed (read_lines r f lines sd)
  unfolding read_lines
  read_lines-IsParsed f [] sd h e = h
  read_lines-IsParsed f (line ∷ lines) sd h e = elim (Bool-cases (line_matches r f line)) [
    | inl m ↦ rw (m, read_lines) (take_line-IsParsed line sd h e)
    | inr m ↦ rw (m, read_lines) (read_lines-IsParsed f lines sd h e)
  ]

  read_stream-IsParsed :
      (f : StreamFilter) (mon : V) (sd : StreamData)
      → IsParsed sd
      → IsParsed (read_stream r f mon sd)
  read_stream-IsParsed f mon sd h =
      read_lines-IsParsed f _ _
        (record {
          three = h.three;
          packed = h.packed;
          read = h.read;
          matched = h.matched;
          responded = λ _. refl;
        })
        refl

  empty-IsParsed : IsParsed empty_stream
  empty-IsParsed = record {
    three = refl;
    packed = ground arith;
    read = (inl refl, (inl refl, (inl refl, tt)));
    matched = refl;
    responded = λ e. cc;
  }

  read_monitor-IsParsed :
      (filters : List StreamFilter) (mon : V) (streams : List StreamData)
      → All IsParsed streams
      → All IsParsed (read_monitor r filters mon streams)
  unfolding read_monitor
  read_monitor-IsParsed filters mon streams h =
      elim (Option-cases (find_filter_for_rbl (rbl_of r mon) filters)) [
        | inl e ↦ rw (e, read_monitor) h
        | inr (fi, e) ↦
            rw (e, read_monitor)
              (set-All IsParsed streams fi _ h (
                read_stream-IsParsed _ mon _
                  (get_or-All IsParsed streams fi empty_stream h empty-IsParsed)))
      ]

  read_monitors-IsParsed :
      (filters : List StreamFilter) (monitors : List V) (streams : List StreamData)
      → All IsParsed streams
      → All IsParsed (read_monitors r filters monitors streams)
  unfolding read_monitors
  read_monitors-IsParsed filters [] streams h = h
  read_monitors-IsParsed filters (mon ∷ monitors) streams h =
      read_monitors-IsParsed filters monitors _ (read_monitor-IsParsed filters mon streams h)

  -- Whatever the document holds, in every stream of the snapshot the departures come first, a slot is
  -- either free or holds a departure with a live time or with its scheduled one, and a stream matches
  -- its filter exactly if it has a departure, which only a stream that responded has.
  pub parse_monitor_response-IsParsed :
      (json : Text) (filters : List StreamFilter)
      → All IsParsed (parse_monitor_response r json filters).1.stream
  unfolding parse_monitor_response
  parse_monitor_response-IsParsed json filters = elim (Option-cases (r.deserialize json)) [
    | inl e ↦
        rw (e, parse_monitor_response)
          (empty-IsParsed, (empty-IsParsed, (empty-IsParsed, (empty-IsParsed, tt))))
    | inr (doc, e) ↦
        rw (e, parse_monitor_response)
          (read_monitors-IsParsed filters (monitors_of r doc) _
            (empty-IsParsed, (empty-IsParsed, (empty-IsParsed, (empty-IsParsed, tt)))))
  ]
