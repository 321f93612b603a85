-- ===== src/Policy/Health.antt =====
-- src/logic/stale_policy.cpp and src/logic/filter_health.cpp.
use bustaferl.Prelude.{
  ℕ, ◌+◌, ◌-◌, ◌≤◌, ◌≡◌, refl, Bool, true, false, List, [], ◌∷◌, ◌↔◌, ◌⊎◌, arith, ltb, leb, ◌==◌,
  if◌then◌else◌, min,
}

-- A clock before the last success is an anomaly and does not blank the board.
pub is_stale : ℕ → ℕ → ℕ → Bool
is_stale last_success now threshold_s =
    if last_success == 0
    then true
    else if ltb now last_success
    then false
    else leb threshold_s (now - last_success)

pub record FilterHealth : Type 0 where
  pub streak : ℕ  -- uint8_t
  pub dead_after : ℕ  -- uint8_t

abbrev uint8_max : ℕ
uint8_max = 255

unfoldable pub record_call : FilterHealth → Bool → Bool → FilterHealth
record_call f endpoint_responded filter_matched =
    if endpoint_responded
    then if filter_matched
      then record f { streak = 0 }
      else if ltb f.streak uint8_max
      then record f { streak = f.streak + 1 }
      else f
    else f

unfoldable pub is_dead : FilterHealth → Bool
is_dead f = leb f.dead_after f.streak

unfoldable pub set_streak : FilterHealth → ℕ → FilterHealth
set_streak f s = record f { streak = s }

-- A call of a cycle, as the two flags of `recordCall`.
pub record Call : Type 0 where
  pub endpoint_responded : Bool
  pub filter_matched : Bool

pub record_calls : FilterHealth → List Call → FilterHealth
record_calls f [] = f
record_calls f (c ∷ cs) = record_calls (record_call f c.endpoint_responded c.filter_matched) cs

-- The specification: the calls since the last match that responded, counted from `n`.
abbrev misses : ℕ → List Call → ℕ
misses n [] = n
misses n (c ∷ cs) =
    misses (if c.endpoint_responded then if c.filter_matched then 0 else n + 1 else n) cs

-- The saturating counter is the number of misses, cut off at the largest uint8_t.
record_calls-misses :
    (f : FilterHealth) (n : ℕ) (cs : List Call)
    → f.streak ≡ min uint8_max n
    → (record_calls f cs).streak ≡ min uint8_max (misses n cs)
unfolding record_calls record_call
record_calls-misses f n [] h = h
record_calls-misses f n (c ∷ cs) h =
    record_calls-misses (record_call f c.endpoint_responded c.filter_matched) _ cs (ground arith)

record_calls-dead_after :
    (f : FilterHealth) (cs : List Call) → (record_calls f cs).dead_after ≡ f.dead_after
unfolding record_calls record_call
record_calls-dead_after f [] = refl
record_calls-dead_after f (c ∷ cs) =
    ground (arith, record_calls-dead_after (record_call f c.endpoint_responded c.filter_matched) cs)

-- After any calls, from a streak that fits a uint8_t, the filter is dead exactly when at least
-- `dead_after` calls responded without a match since the last match. The threshold fits a uint8_t.
pub is_dead-record_calls :
    (f : FilterHealth) (cs : List Call)
    → f.streak ≤ uint8_max
    → f.dead_after ≤ uint8_max
    → (is_dead (record_calls f cs) ≡ true) ↔ (f.dead_after ≤ misses f.streak cs)
unfolding is_dead
is_dead-record_calls f cs fits small =
    let counted = record_calls-misses f f.streak cs (omega arith) in
    let kept = record_calls-dead_after f cs in
    (ground (arith, counted, kept), ground (arith, counted, kept))

-- The board is stale exactly when there was never a success or the last one is at least the threshold
-- ago; so a clock that runs before the last success does not make it stale.
pub is_stale_iff :
    (last now threshold : ℕ)
    → (is_stale last now threshold ≡ true) ↔ ((last ≡ 0) ⊎ (last + threshold ≤ now))
unfolding is_stale
is_stale_iff last now threshold = (ground arith, ground arith)
