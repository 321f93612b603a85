-- ===== src/Slots/Insert.antt =====
-- src/logic/slot_merger.cpp, `insertSorted`: one candidate goes into the slot array.
use bustaferl.Prelude.{
  ℕ, zero, suc, ◌/◌, Bool, List, ltb, ◌==◌, ◌&&◌, if◌then◌else◌, any, get_or, set, ◌-◌,
}
use bustaferl.Data.{Departure, no_departure, seconds_per_minute, slots_per_stream}

abbrev pub minute : ℕ → ℕ
minute t = t / seconds_per_minute

unfoldable pub same_minute : ℕ → Departure → Bool
same_minute t slot = slot.valid && (minute slot.when == minute t)

-- Departure tmp = out[j - 1]; out[j - 1] = out[j]; out[j] = tmp;
abbrev swap_back : ℕ → List Departure → List Departure
swap_back j out =
    set (set out j (get_or out (suc j) no_departure)) (suc j) (get_or out j no_departure)

-- for (j = …; j > 0 && out[j].when < out[j - 1].when; --j) swap
unfoldable pub bubble : ℕ → List Departure → List Departure
bubble zero out = out
bubble (suc j) out =
    let rest = bubble j (swap_back j out) in
    if ltb (get_or out (suc j) no_departure).when (get_or out j no_departure).when
    then rest
    else out

-- All slots are occupied: the candidate replaces the last one if it is earlier.
unfoldable pub replace_last : List Departure → Departure → List Departure
unfolding bubble
replace_last out cand =
    let last : ℕ = slots_per_stream - 1 in
    if ltb cand.when (get_or out last no_departure).when
    then bubble last (set out last cand)
    else out

-- for (i = 0; i < SLOTS_PER_STREAM; ++i) if (!out[i].valid) …; `n` rounds are left.
unfoldable pub first_free : ℕ → ℕ → List Departure → Departure → List Departure
unfolding replace_last bubble
first_free zero i out cand = replace_last out cand
first_free (suc n) i out cand =
    let rest = first_free n (suc i) out cand in
    if (get_or out i no_departure).valid then rest else bubble i (set out i cand)

unfoldable pub insert_sorted : List Departure → Departure → List Departure
unfolding first_free same_minute
insert_sorted out cand =
    if cand.valid
    then if any (same_minute cand.when) out then out else first_free slots_per_stream 0 out cand
    else out
