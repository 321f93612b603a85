-- ===== src/Parse/Efa/Streams.antt =====
-- Each stream's hint is that of its own departures.
use bustaferl.Prelude.{
  ℕ, zero, suc, ◌<◌, ◌≡◌, refl, ap, ◌∙◌, ◌⊎◌, Bool, true, false, List, [], ◌∷◌, Option, ◌==◌, ◌&&◌,
  not, if◌then◌else◌, get_or, map, length, arith, Bool-cases, inl, inr,
}
use bustaferl.Data.{ScheduleHint, empty_hint}
use bustaferl.Parse.{LocalTime, Text, Reader, get_some, key}
use bustaferl.Parse.Efa.{
  ScheduleStreamFilter, Filling, add_time, filter_matches, add_to_first, reset_hints, time_of,
  matches, add_departures, departures_of, consume_efa_doc,
}
use bustaferl.Parse.Efa.Hint.{
  hint_of, add_times, add_times_lem, default_filter, is_first, no_filling, get_or-add_to_first,
  length-add_to_first, get_or-reset_hints,
}

-- A filter of another stop matches nothing.
other_stop :
    (call_diva : ℕ) (number direction : Text) (f : ScheduleStreamFilter)
    → (f.diva == call_diva) ≡ false
    → filter_matches call_diva number direction f ≡ false
unfolding filter_matches
other_stop call_diva number direction f e = rw (e, filter_matches) refl

is_first_other :
    (matches : ScheduleStreamFilter → Bool) (fs : List ScheduleStreamFilter) (i : ℕ)
    → matches (get_or fs i default_filter) ≡ false
    → is_first matches fs i ≡ false
is_first_other matches [] i e = refl
is_first_other matches (f ∷ fs) zero e = e
is_first_other matches (f ∷ fs) (suc i) e = ground (arith, is_first_other matches fs i)

add_times-if :
    (b : Bool) (cutoff t : ℕ) (ts : List ℕ) (x : Filling)
    → add_times cutoff ts (if b then add_time cutoff t x else x)
      ≡ add_times cutoff (if b then t ∷ ts else ts) x
add_times-if true cutoff t ts x = refl
add_times-if false cutoff t ts x = refl

get_or-map_hint :
    (xs : List Filling) (i : ℕ)
    → get_or (map (λ (x : Filling). x.hint) xs) i empty_hint ≡ (get_or xs i no_filling).hint
get_or-map_hint [] i = refl
get_or-map_hint (x ∷ xs) zero = refl
get_or-map_hint (x ∷ xs) (suc i) = get_or-map_hint xs i

length-reset_hints :
    (call_diva : ℕ) (fs : List ScheduleStreamFilter) (hs : List ScheduleHint)
    → length (reset_hints call_diva fs hs) ≡ length hs
unfolding reset_hints
length-reset_hints call_diva fs [] = refl
length-reset_hints call_diva [] (h ∷ hs) = ap suc (length-reset_hints call_diva [] hs)
length-reset_hints call_diva (f ∷ fs) (h ∷ hs) = ap suc (length-reset_hints call_diva fs hs)

module _ {V : Type 0} (r : Reader V) (mktime : LocalTime → Option ℕ) where
  -- The times of the departures that are the i-th stream's, in the order of the document.
  abbrev pub times_for : ℕ → List ScheduleStreamFilter → ℕ → List V → List ℕ
  times_for call_diva fs i [] = []
  times_for call_diva fs i (dep ∷ deps) =
      let rest = times_for call_diva fs i deps in
      if not (time_of r mktime dep == 0) && is_first (matches r mktime call_diva dep) fs i
      then time_of r mktime dep ∷ rest
      else rest

  get_or-add_departures :
      (call_diva cutoff : ℕ) (fs : List ScheduleStreamFilter) (deps : List V) (xs : List Filling)
      (i : ℕ)
      → i < length xs
      → get_or (add_departures r mktime call_diva cutoff fs deps xs) i no_filling
        ≡ add_times cutoff (times_for call_diva fs i deps) (get_or xs i no_filling)
  unfolding add_departures
  get_or-add_departures call_diva cutoff fs [] xs i h = refl
  get_or-add_departures call_diva cutoff fs (dep ∷ deps) xs i h =
      let t = time_of r mktime dep in
      let m = matches r mktime call_diva dep in
      elim (Bool-cases (t == 0)) [
        | inl e ↦ rw e (get_or-add_departures call_diva cutoff fs deps xs i h)
        | inr e ↦ rw e (
            get_or-add_departures call_diva cutoff fs deps (add_to_first m cutoff t fs xs) i
              (rw (length-add_to_first m cutoff t fs xs) h)
            ∙ rw (get_or-add_to_first m cutoff t fs xs i h) (
                add_times-if (is_first m fs i) cutoff t (times_for call_diva fs i deps)
                  (get_or xs i no_filling)))
      ]

  others_for :
      (call_diva : ℕ) (fs : List ScheduleStreamFilter) (i : ℕ) (deps : List V)
      → ((get_or fs i default_filter).diva == call_diva) ≡ false
      → times_for call_diva fs i deps ≡ []
  others_for call_diva fs i [] e = refl
  others_for call_diva fs i (dep ∷ deps) e =
      let t = time_of r mktime dep in
      let m = matches r mktime call_diva dep in
      let other : is_first m fs i ≡ false = is_first_other m fs i (
        other_stop call_diva
          (get_some (r.text (r.member (r.member dep (key "servingLine")) (key "number"))) [])
          (get_some (r.text (r.member (r.member dep (key "servingLine")) (key "direction"))) [])
          (get_or fs i default_filter) e) in
      let none_left = others_for call_diva fs i deps e in
      elim (Bool-cases (t == 0)) [
        | inl f ↦ rw (f, none_left) refl
        | inr f ↦ rw (f, other, none_left) refl
      ]

  -- Of a stream at the stop of the call the hint is that of its departures in the order of the document:
  -- the last two before the cutoff and the first two from the cutoff on, whatever stood there before; of
  -- three or more before the cutoff, next_today so has not the next two.
  -- A departure is a stream's if its time can be read and the stream's filter is the first that matches.
  -- A stream at another stop keeps its hint.
  pub consume_efa_doc-hint_of :
      (call_diva cutoff i : ℕ) (fs : List ScheduleStreamFilter) (doc : V)
      (hints : List ScheduleHint)
      → i < length hints
      → i < length fs
      → get_or (consume_efa_doc r mktime call_diva fs cutoff doc hints) i empty_hint ≡ (
          if (get_or fs i default_filter).diva == call_diva
          then hint_of cutoff (times_for call_diva fs i (departures_of r mktime doc))
          else get_or hints i empty_hint)
  unfolding consume_efa_doc
  consume_efa_doc-hint_of call_diva cutoff i fs doc hints h k =
      let deps = departures_of r mktime doc in
      let start = reset_hints call_diva fs hints in
      get_or-map_hint (add_departures r mktime call_diva cutoff fs deps start) i
      ∙ ap (λ (x : Filling). x.hint)
          (get_or-add_departures call_diva cutoff fs deps start i
              (rw (length-reset_hints call_diva fs hints) h)
            ∙ ap (add_times cutoff (times_for call_diva fs i deps))
                (get_or-reset_hints call_diva fs hints i h k))
      ∙ by_stop (Bool-cases ((get_or fs i default_filter).diva == call_diva))
    where
      deps : List V
      deps = departures_of r mktime doc

      by_stop :
          (((get_or fs i default_filter).diva == call_diva) ≡ true)
            ⊎ (((get_or fs i default_filter).diva == call_diva) ≡ false)
          → (add_times cutoff (times_for call_diva fs i deps) (record {
            hint =
                if (get_or fs i default_filter).diva == call_diva
                then empty_hint
                else get_or hints i empty_hint;
            tomorrow_fill = 0;
          })).hint
            ≡ (if (get_or fs i default_filter).diva == call_diva
                then hint_of cutoff (times_for call_diva fs i deps)
                else get_or hints i empty_hint)
      by_stop (inl e) = rw e (
          ap (λ (x : Filling). x.hint) (add_times_lem cutoff (times_for call_diva fs i deps) [] []))
      by_stop (inr e) = rw (e, others_for call_diva fs i deps e) refl
