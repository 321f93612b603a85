-- ===== src/Parse/Efa/Hint.antt =====
-- The hints that an EFA response gives are those of the stream's departures, in order.
use bustaferl.Prelude.{
  ℕ, zero, suc, ◌<◌, ◌≡◌, refl, ap, ◌∙◌, Bool, true, false, List, [], ◌∷◌, ◌++◌, ltb, ◌==◌, ◌&&◌,
  not, if◌then◌else◌, get_or, length, length-append, min, arith, Bool-cases, inl, inr,
}
use mathlib.Core.List.{append-nil, append_assoc}
use bustaferl.Data.{ScheduleHint, empty_hint}
use bustaferl.Parse.Efa.{
  ScheduleStreamFilter, Filling, add_time, add_to_first, reset_hints, matches,
}

-- Of the times in order: those before the cutoff, the latest first, and the others.
abbrev pub today : ℕ → List ℕ → List ℕ → List ℕ
today cutoff [] acc = acc
today cutoff (t ∷ ts) acc = today cutoff ts (if ltb t cutoff then t ∷ acc else acc)

abbrev pub tomorrow : ℕ → List ℕ → List ℕ
tomorrow cutoff [] = []
tomorrow cutoff (t ∷ ts) = let rest = tomorrow cutoff ts in if ltb t cutoff then rest else t ∷ rest

-- The last two of today and the first two of tomorrow; 0 where there is none.
abbrev hint_from : List ℕ → List ℕ → ScheduleHint
hint_from earlier later = record {
  last_today = get_or earlier 0 0;
  next_today = get_or earlier 1 0 ∷ get_or earlier 0 0 ∷ [];
  first_tomorrow = get_or later 0 0 ∷ get_or later 1 0 ∷ [];
}

abbrev pub hint_of : ℕ → List ℕ → ScheduleHint
hint_of cutoff ts = hint_from (today cutoff ts []) (tomorrow cutoff ts)

abbrev filling : List ℕ → List ℕ → Filling
filling earlier later = record {
  hint = hint_from earlier later;
  tomorrow_fill = min 2 (length later);
}

add_time-today :
    (cutoff t : ℕ) (earlier later : List ℕ)
    → ltb t cutoff ≡ true
    → add_time cutoff t (filling earlier later) ≡ filling (t ∷ earlier) later
unfolding add_time
add_time-today cutoff t earlier later e = rw (e, add_time) refl

add_time-tomorrow :
    (cutoff t : ℕ) (earlier later : List ℕ)
    → ltb t cutoff ≡ false
    → add_time cutoff t (filling earlier later) ≡ filling earlier (later ++ t ∷ [])
unfolding add_time
add_time-tomorrow cutoff t earlier [] e = rw (e, add_time) refl
add_time-tomorrow cutoff t earlier (a ∷ []) e = rw (e, add_time) refl
add_time-tomorrow cutoff t earlier (a ∷ b ∷ later) e = ground (arith, length-append later (t ∷ []))

abbrev pub add_times : ℕ → List ℕ → Filling → Filling
add_times cutoff [] x = x
add_times cutoff (t ∷ ts) x = add_times cutoff ts (add_time cutoff t x)

pub add_times_lem :
    (cutoff : ℕ) (ts earlier later : List ℕ)
    → add_times cutoff ts (filling earlier later)
      ≡ filling (today cutoff ts earlier) (later ++ tomorrow cutoff ts)
add_times_lem cutoff [] earlier later = rw (append-nil later) refl
add_times_lem cutoff (t ∷ ts) earlier later = elim (Bool-cases (ltb t cutoff)) [
  | inl e ↦
      rw (add_time-today cutoff t earlier later e, e) (add_times_lem cutoff ts (t ∷ earlier) later)
  | inr e ↦
      rw (add_time-tomorrow cutoff t earlier later e, e)
        (add_times_lem cutoff ts earlier (later ++ t ∷ [])
          ∙ ap (filling (today cutoff ts earlier))
              (append_assoc later (t ∷ []) (tomorrow cutoff ts)))
]

abbrev pub default_filter : ScheduleStreamFilter
default_filter = record { diva = 0; line = []; direction_prefix = []; direction_prefix_alt = [] }

-- The i-th filter matches, and none before it does.
abbrev pub is_first : (ScheduleStreamFilter → Bool) → List ScheduleStreamFilter → ℕ → Bool
is_first matches [] i = false
is_first matches (f ∷ fs) zero = matches f
is_first matches (f ∷ fs) (suc i) = not (matches f) && is_first matches fs i

abbrev pub no_filling : Filling
no_filling = record { hint = empty_hint; tomorrow_fill = 0 }

pub get_or-add_to_first :
    (matches : ScheduleStreamFilter → Bool) (cutoff t : ℕ) (fs : List ScheduleStreamFilter)
    (xs : List Filling) (i : ℕ)
    → i < length xs
    → get_or (add_to_first matches cutoff t fs xs) i no_filling ≡ (
        if is_first matches fs i
        then add_time cutoff t (get_or xs i no_filling)
        else get_or xs i no_filling)
unfolding add_to_first
get_or-add_to_first matches cutoff t [] xs i h = refl
get_or-add_to_first matches cutoff t (f ∷ fs) [] i h = absurd (omega arith)
get_or-add_to_first matches cutoff t (f ∷ fs) (x ∷ xs) zero h = elim (Bool-cases (matches f)) [
  | inl e ↦ rw e refl
  | inr e ↦ rw e refl
]
get_or-add_to_first matches cutoff t (f ∷ fs) (x ∷ xs) (suc i) h = elim (Bool-cases (matches f)) [
  | inl e ↦ rw e refl
  | inr e ↦ rw e (get_or-add_to_first matches cutoff t fs xs i (omega arith))
]

pub length-add_to_first :
    (matches : ScheduleStreamFilter → Bool) (cutoff t : ℕ) (fs : List ScheduleStreamFilter)
    (xs : List Filling)
    → length (add_to_first matches cutoff t fs xs) ≡ length xs
unfolding add_to_first
length-add_to_first matches cutoff t [] xs = refl
length-add_to_first matches cutoff t (f ∷ fs) [] = refl
length-add_to_first matches cutoff t (f ∷ fs) (x ∷ xs) =
    ground (arith, length-add_to_first matches cutoff t fs xs)

pub get_or-reset_hints :
    (call_diva : ℕ) (fs : List ScheduleStreamFilter) (hs : List ScheduleHint) (i : ℕ)
    → i < length hs
    → i < length fs
    → get_or (reset_hints call_diva fs hs) i no_filling ≡ record {
      hint =
          if (get_or fs i default_filter).diva == call_diva
          then empty_hint
          else get_or hs i empty_hint;
      tomorrow_fill = 0;
    }
unfolding reset_hints
get_or-reset_hints call_diva fs [] i h k = absurd (omega arith)
get_or-reset_hints call_diva [] (x ∷ hs) i h k = absurd (omega arith)
get_or-reset_hints call_diva (f ∷ fs) (x ∷ hs) zero h k = refl
get_or-reset_hints call_diva (f ∷ fs) (x ∷ hs) (suc i) h k =
    get_or-reset_hints call_diva fs hs i (omega arith) (omega arith)
