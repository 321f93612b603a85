-- ===== src/Parse/Hafas/Journeys.antt =====
-- The journeys that the parser keeps: they fit the board, and cover what is ahead.
use bustaferl.Prelude.{
  ℕ, zero, suc, ◌/◌, ◌<◌, ◌≤◌, ◌≡◌, refl, subst, ap, sym, ◌∙◌, ◌⊎◌, inl, inr, Bool, true, false,
  List, [], ◌∷◌, Option, none, some, get_or, set, length, length-set, All, Any, arith, Bool-cases,
  Option-cases, ltb, leb,
}
use bustaferl.Data.{Departure, realtime, plan, no_departure, slots_per_stream, seconds_per_minute}
use bustaferl.Prelude.Int.{negsuc}
use bustaferl.Parse.{LocalTime, Text, Reader, key, get_some}
use bustaferl.Parse.Hafas.{
  Journey, store, is_blank, count_label, copy_label, copy_line_label_stripped, choose_time,
  read_stop, read_journey, label_of, product_name, is_wanted, take_journeys, line_label_cap,
}
use bustaferl.Parse.Hafas.Board.{
  minute_of, IsLabel, IsJourney, NewMinute, HasMinute, Holds, is_dup-HasMinute, is_dup-NewMinute,
  set-HasMinute, set-HasMinute_self, set-HasMinute_inv, set-Holds,
}

-- The label of six bytes.
copy_label-IsLabel :
    (room : ℕ) (s : Text)
    → (length (copy_label room s) ≤ room) × All (λ c. is_blank c ≡ false) (copy_label room s)
unfolding copy_label
copy_label-IsLabel zero s = (omega arith, tt)
copy_label-IsLabel (suc room) [] = (omega arith, tt)
copy_label-IsLabel (suc room) (c ∷ s) = elim (Bool-cases (is_blank c)) [
  | inl e ↦ rw (e, copy_label) (copy_label-IsLabel (suc room) s)
  | inr e ↦
      let (short, blanks) = copy_label-IsLabel room s in
      rw (e, copy_label) (omega (arith, short), (e, blanks))
]

copy_line_label_stripped-IsLabel :
    (src : Option Text) → IsLabel (copy_line_label_stripped src line_label_cap)
unfolding copy_line_label_stripped
copy_line_label_stripped-IsLabel none = (omega arith, tt)
copy_line_label_stripped-IsLabel (some s) = elim (Bool-cases (ltb 5 (count_label s))) [
  | inl e ↦ rw e (omega arith, (refl, (refl, tt)))
  | inr e ↦ let (short, blanks) = copy_label-IsLabel 5 s in rw e (omega (arith, short), blanks)
]

choose_time-source :
    (a : Bool) (x : ℕ) (b : Bool) (y : ℕ) (j : Journey)
    → choose_time a x b y ≡ some j
    → (j.source ≡ realtime) ⊎ (j.source ≡ plan)
unfolding choose_time
choose_time-source a x b y j e = ground arith

-- After a loop that started with `n` slots taken and went over `jnys`.
pub record Taken (now n : ℕ) (slots : List Departure) : Type 0 where
  pub three : length slots ≡ slots_per_stream
  pub holds : Holds now n slots
  pub bounded : n ≤ slots_per_stream

none-ne-some : (j : Journey) → none ≡ some j → ⊥
none-ne-some j e = cc

module _ {V : Type 0} (r : Reader V) (mktime : LocalTime → Option ℕ) (now : ℕ) where
  -- A journey that can be read and is not over has its minute on the board, or the board is full.
  abbrev pub Covered : ℕ → List Departure → V → Type 0
  Covered m final jny =
      (j : Journey)
      → read_journey r mktime jny ≡ some j
      → now ≤ j.when
      → (m ≡ slots_per_stream) ⊎ HasMinute m final (j.when / seconds_per_minute)

  -- The journey can be read, is not over, and leaves in the minute.
  abbrev pub IsOf : ℕ → V → Type 0
  IsOf k jny =
      (j : Journey) × (read_journey r mktime jny ≡ some j)
      × (now ≤ j.when)
      × (j.when / seconds_per_minute ≡ k)

  pub record Grown (n : ℕ) (slots : List Departure) (jnys : List V) (m : ℕ) (final : List Departure)
      : Type 0 where
    pub taken : Taken now m final
    pub kept : (k : ℕ) → HasMinute n slots k → HasMinute m final k
    pub full : n ≡ slots_per_stream → m ≡ slots_per_stream
    pub covered : All (Covered m final) jnys
    pub only : (k : ℕ) → HasMinute m final k → HasMinute n slots k ⊎ Any (IsOf k) jnys

  full-Covered :
      (m : ℕ) (final : List Departure) (jnys : List V)
      → m ≡ slots_per_stream
      → All (Covered m final) jnys
  full-Covered m final [] e = tt
  full-Covered m final (jny ∷ jnys) e = ((λ j f h. inl e), full-Covered m final jnys e)

  read_stop-source :
      (date : Option Text) (stop : V) (j : Journey)
      → read_stop r mktime date stop ≡ some j
      → (j.source ≡ realtime) ⊎ (j.source ≡ plan)
  unfolding read_stop
  read_stop-source date stop j e = search choose_time-source

  read_journey-source :
      (jny : V) (j : Journey)
      → read_journey r mktime jny ≡ some j
      → (j.source ≡ realtime) ⊎ (j.source ≡ plan)
  unfolding read_journey
  read_journey-source jny j e = ground (
    arith,
    read_stop-source (r.text (r.member jny (key "date"))) (r.member jny (key "stbStop")) j,
  )

  label_of-IsLabel : (prods : Option (List V)) (jny : V) → IsLabel (label_of r mktime prods jny)
  unfolding label_of
  label_of-IsLabel prods jny =
      copy_line_label_stripped-IsLabel
        (product_name r mktime prods (get_some (r.int (r.member jny (key "prodX"))) (negsuc 0)))

  store-IsJourney :
      (prods : Option (List V)) (jny : V) (j : Journey) (old : Departure)
      → read_journey r mktime jny ≡ some j
      → now ≤ j.when
      → IsJourney now (store j (label_of r mktime prods jny) old)
  store-IsJourney prods jny j old e h =
      (refl, h, read_journey-source jny j e, label_of-IsLabel prods jny)

  Grown-skip :
      {n : ℕ} {slots : List Departure} (jny : V) {jnys : List V} {m : ℕ} {final : List Departure}
      → Grown n slots jnys m final
      → Covered m final jny
      → Grown n slots (jny ∷ jnys) m final
  Grown-skip jny g c = record {
    taken = g.taken;
    kept = g.kept;
    full = g.full;
    covered = (c, g.covered);
    only = λ k h. elim (g.only k h) [ inl p ↦ inl p | inr i ↦ inr (inr i) ];
  }

  unwanted-HasMinute :
      (n : ℕ) (slots : List Departure) (j : Journey)
      → is_wanted r mktime now n slots j ≡ false
      → now ≤ j.when
      → HasMinute n slots (j.when / seconds_per_minute)
  unfolding is_wanted
  unwanted-HasMinute n slots j e h = is_dup-HasMinute n slots _ (ground arith)

  wanted-NewMinute :
      (n : ℕ) (slots : List Departure) (j : Journey)
      → is_wanted r mktime now n slots j ≡ true
      → (now ≤ j.when) × NewMinute n slots (j.when / seconds_per_minute)
  unfolding is_wanted
  wanted-NewMinute n slots j e = (ground arith, is_dup-NewMinute n slots _ (ground arith))

  the_journey : (o : Option Journey) (i j : Journey) → o ≡ some i → o ≡ some j → j ≡ i
  the_journey o i j e f = cc

  Taken-store :
      (n : ℕ) (slots : List Departure) (prods : Option (List V)) (jny : V) (j : Journey)
      → Taken now n slots
      → n < slots_per_stream
      → read_journey r mktime jny ≡ some j
      → is_wanted r mktime now n slots j ≡ true
      → Taken now
          (suc n)
          (set slots n (store j (label_of r mktime prods jny) (get_or slots n no_departure)))
  Taken-store n slots prods jny j h lt f w =
      let (ahead, new) = wanted-NewMinute n slots j w in
      let old = get_or slots n no_departure in
      let d = store j (label_of r mktime prods jny) old in
      record {
        three = length-set slots n d ∙ h.three;
        holds =
            set-Holds now n slots d h.holds (omega (arith, h.three))
              (store-IsJourney prods jny j old f ahead) new;
        bounded = omega arith;
      }

  Grown-store :
      (n : ℕ) (slots : List Departure) (d : Departure) (jny : V) (jnys : List V) (j : Journey)
      {m : ℕ} {final : List Departure}
      → Taken now n slots
      → n < slots_per_stream
      → read_journey r mktime jny ≡ some j
      → minute_of d ≡ j.when / seconds_per_minute
      → now ≤ j.when
      → Grown (suc n) (set slots n d) jnys m final
      → Grown n slots (jny ∷ jnys) m final
  Grown-store n slots d jny jnys j {m} {final} h lt f same ahead g = record {
    taken = g.taken;
    kept = λ k p. g.kept k (set-HasMinute n slots k d p);
    full = λ e. absurd (omega arith);
    covered = (
      λ i e l. inr (
          subst (HasMinute m final)
            (same
              ∙ ap (λ (x : Journey). x.when / seconds_per_minute)
                  (the_journey (read_journey r mktime jny) i j e f))
            (g.kept (minute_of d) (set-HasMinute_self n slots d (omega (arith, h.three))))),
      g.covered,
    );
    only = λ k p. elim (g.only k p) [
      | inr later ↦ inr (inr later)
      | inl there ↦ elim (set-HasMinute_inv n slots k d there) [
        | inl before ↦ inl before
        | inr e ↦ inr (inl (j, f, ahead, sym same ∙ e))
      ]
    ];
  }

  pub take_journeys-Grown :
      (prods : Option (List V)) (jnys : List V) (n : ℕ) (slots : List Departure)
      → Taken now n slots
      → let (m, final) = take_journeys r mktime now prods jnys n slots in Grown n slots jnys m final
  unfolding take_journeys
  take_journeys-Grown prods [] n slots h = record {
    taken = h;
    kept = λ k p. p;
    full = λ e. e;
    covered = tt;
    only = λ k p. inl p;
  }
  take_journeys-Grown prods (jny ∷ jnys) n slots h = elim (Bool-cases (leb slots_per_stream n)) [
    | inl e ↦
        rw (e, take_journeys)
          (record {
            taken = h;
            kept = λ k p. p;
            full = λ f. f;
            covered = full-Covered n slots (jny ∷ jnys) (ground (arith, h.bounded));
            only = λ k p. inl p;
          })
    | inr e ↦ elim (Option-cases (read_journey r mktime jny)) [
      | inl f ↦
          rw (e, f, take_journeys)
            (Grown-skip jny (take_journeys-Grown prods jnys n slots h)
              (λ j g. absurd (none-ne-some j (sym f ∙ g))))
      | inr (j, f) ↦ elim (Bool-cases (is_wanted r mktime now n slots j)) [
        | inl w ↦
            rw (e, f, w, take_journeys)
              (let lt : n < slots_per_stream = ground arith in
                Grown-store n slots
                  (store j (label_of r mktime prods jny) (get_or slots n no_departure)) jny jnys j h
                  lt f refl (wanted-NewMinute n slots j w).0
                  (take_journeys-Grown prods jnys (suc n) _
                    (Taken-store n slots prods jny j h lt f w)))
        | inr w ↦
            rw (e, f, w, take_journeys)
              (let g = take_journeys-Grown prods jnys n slots h in
                Grown-skip jny g (λ i e ahead. inr (
                  g.kept _ (
                    unwanted-HasMinute n slots i
                      (subst (λ k. is_wanted r mktime now n slots k ≡ false)
                        (the_journey (read_journey r mktime jny) i j e f) w)
                      ahead))))
      ]
    ]
  ]
