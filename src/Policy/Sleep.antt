-- ===== src/Policy/Sleep.antt =====
-- src/logic/sleep_planner.cpp, and `shouldPromoteToNightlyClean` of src/logic/cycle_runner.cpp.
use bustaferl.Prelude.{
  ℕ, ◌+◌, ◌-◌, ◌%◌, ◌^◌, ◌≤◌, ◌<◌, ◌≡◌, Bool, true, false, List, [], ◌∷◌, Option, none, some, arith,
  ltb, leb, ◌==◌, ◌&&◌, ◌↔◌, All-map, Option-cases, if◌then◌else◌, All, ◌⊎◌, inl, inr,
}
use bustaferl.Data.{Departure, StreamData, StreamSnapshot}

pub data Mode : Type 0 where
  deep_sleep active : Mode

pub record SleepDecision : Type 0 where
  pub mode : Mode
  pub seconds : ℕ

pub record SleepConfig : Type 0 where
  pub wake_before_bus_s : ℕ
  pub boot_margin_s : ℕ
  pub active_threshold_s : ℕ
  pub no_data_sleep_s : ℕ
  pub api_failure_retry_s : ℕ

-- `have` and `t_ref`: none until a valid slot was seen.
unfoldable pub earlier : Option ℕ → Departure → Option ℕ
earlier none d = if d.valid then some d.when else none
earlier (some t_ref) d = if d.valid && ltb d.when t_ref then some d.when else some t_ref

unfoldable pub earliest_slot : Option ℕ → List Departure → Option ℕ
earliest_slot t_ref [] = t_ref
earliest_slot t_ref (d ∷ ds) = earliest_slot (earlier t_ref d) ds

unfoldable pub earliest : Option ℕ → List StreamData → Option ℕ
earliest t_ref [] = t_ref
earliest t_ref (s ∷ ss) = earliest (earliest_slot t_ref s.slot) ss

abbrev sleep_for : ℕ → SleepDecision
sleep_for s = record { mode = deep_sleep; seconds = s % 2 ^ 32 }

-- `delta >= active_threshold_s`, where `delta` is the signed t_ref - wake_before - margin - now: in
-- that branch `delta` is not negative.
unfoldable pub plan_until : ℕ → ℕ → SleepConfig → SleepDecision
plan_until t_ref now cfg =
    let lead = cfg.wake_before_bus_s + cfg.boot_margin_s in
    if leb (now + cfg.active_threshold_s + lead) t_ref
    then sleep_for (t_ref - lead - now)
    else record { mode = active; seconds = 0 }

unfoldable pub plan_sleep : StreamSnapshot → ℕ → SleepConfig → SleepDecision
unfolding plan_until
plan_sleep snap now cfg =
    if snap.api_ok
    then elim (earliest none snap.stream) [
      | none ↦ sleep_for cfg.no_data_sleep_s
      | some t_ref ↦ plan_until t_ref now cfg
    ]
    else sleep_for cfg.api_failure_retry_s

unfoldable pub needs_nightly_deep_clean : ℕ → ℕ → ℕ → Bool
needs_nightly_deep_clean now last_deep_clean min_interval_s =
    if last_deep_clean == 0
    then true
    else if ltb now last_deep_clean
    then false
    else leb min_interval_s (now - last_deep_clean)

-- The two thresholds of `CycleConfig` that it reads.
unfoldable pub should_promote_to_nightly_clean : ℕ → ℕ → ℕ → ℕ → ℕ → Bool
unfolding needs_nightly_deep_clean
should_promote_to_nightly_clean next_sleep_s now last_deep_clean long_sleep_s interval_s =
    if leb next_sleep_s long_sleep_s
    then false
    else needs_nightly_deep_clean now last_deep_clean interval_s

-- No valid departure is earlier than the minimum found.
abbrev pub Below : Option ℕ → Departure → Type 0
Below none d = d.valid ≡ false
Below (some t) d = d.valid ≡ true → t ≤ d.when

abbrev Under : Option ℕ → Option ℕ → Type 0
Under r none = Unit
Under none (some t) = ⊥
Under (some r) (some t) = r ≤ t

Under-refl : (o : Option ℕ) → Under o o
Under-refl none = tt
Under-refl (some t) = omega arith

Under-trans : (a b c : Option ℕ) → Under a b → Under b c → Under a c
Under-trans a b none p q = tt
Under-trans a none (some t) p q = absurd q
Under-trans none (some u) (some t) p q = absurd p
Under-trans (some v) (some u) (some t) p q = omega arith

Under-Below : (a b : Option ℕ) (d : Departure) → Under a b → Below b d → Below a d
Under-Below none none d p q = q
Under-Below none (some t) d p q = absurd p
Under-Below (some t) none d p q = λ e. cc
Under-Below (some u) (some t) d p q = ground arith

earlier-Under : (o : Option ℕ) (d : Departure) → Under (earlier o d) o
unfolding earlier
earlier-Under none d = tt
earlier-Under (some t) d = ground arith

earlier-Below : (o : Option ℕ) (d : Departure) → Below (earlier o d) d
unfolding earlier
earlier-Below none d = ground arith
earlier-Below (some t) d = ground arith

earliest_slot-Under : (o : Option ℕ) (ds : List Departure) → Under (earliest_slot o ds) o
unfolding earliest_slot
earliest_slot-Under o [] = Under-refl o
earliest_slot-Under o (d ∷ ds) =
    Under-trans _ (earlier o d) o (earliest_slot-Under (earlier o d) ds) (earlier-Under o d)

earliest_slot-Below : (o : Option ℕ) (ds : List Departure) → All (Below (earliest_slot o ds)) ds
unfolding earliest_slot
earliest_slot-Below o [] = tt
earliest_slot-Below o (d ∷ ds) = (
  Under-Below _ (earlier o d) d (earliest_slot-Under (earlier o d) ds) (earlier-Below o d),
  earliest_slot-Below (earlier o d) ds,
)

earliest-Under : (o : Option ℕ) (ss : List StreamData) → Under (earliest o ss) o
unfolding earliest
earliest-Under o [] = Under-refl o
earliest-Under o (s ∷ ss) =
    Under-trans _ (earliest_slot o s.slot) o (earliest-Under (earliest_slot o s.slot) ss)
      (earliest_slot-Under o s.slot)

earliest-Below :
    (o : Option ℕ) (ss : List StreamData) → All (λ s. All (Below (earliest o ss)) s.slot) ss
unfolding earliest
earliest-Below o [] = tt
earliest-Below o (s ∷ ss) = (
  All-map
      (λ d. Under-Below _ (earliest_slot o s.slot) d (earliest-Under (earliest_slot o s.slot) ss))
      s.slot (earliest_slot-Below o s.slot),
  earliest-Below (earliest_slot o s.slot) ss,
)

-- The wake-up of `decision` at `now` comes early enough for a departure at `t`.
abbrev InTime : ℕ → SleepConfig → SleepDecision → ℕ → Type 0
InTime now cfg decision t =
    decision.mode ≡ deep_sleep
    → now + decision.seconds + cfg.wake_before_bus_s + cfg.boot_margin_s ≤ t

plan_until-InTime :
    (t_ref now : ℕ) (cfg : SleepConfig) (d : Departure)
    → Below (some t_ref) d
    → d.valid ≡ true
    → InTime now cfg (plan_until t_ref now cfg) d.when
unfolding plan_until
plan_until-InTime t_ref now cfg d b v e = ground arith

plan_sleep_wakes :
    (snap : StreamSnapshot) (now : ℕ) (cfg : SleepConfig)
    → snap.api_ok ≡ true
    → All
        (λ s. All (λ d. d.valid ≡ true → InTime now cfg (plan_sleep snap now cfg) d.when) s.slot)
        snap.stream
unfolding plan_sleep
plan_sleep_wakes snap now cfg ok = elim (Option-cases (earliest none snap.stream)) [
  | inl e ↦
      All-map (λ s. All-map (λ d b v. absurd (no_slot d (rw e at b) v)) s.slot) snap.stream
        (earliest-Below none snap.stream)
  | inr (t, e) ↦
      All-map
        (λ s.
          All-map (λ d b v. rw (ok, e, plan_sleep) (plan_until-InTime t now cfg d (rw e at b) v))
            s.slot)
        snap.stream (earliest-Below none snap.stream)
]
  where
    no_slot : (d : Departure) → d.valid ≡ false → d.valid ≡ true → ⊥
    no_slot d p q = cc

-- After a successful fetch the device never sleeps into the lead time of a departure on the board: if
-- it goes to deep sleep at `now`, it wakes at least the configured lead and boot margin before every
-- valid departure of every stream.
pub plan_sleep-InTime :
    (snap : StreamSnapshot) (now : ℕ) (cfg : SleepConfig)
    → snap.api_ok ≡ true
    → (plan_sleep snap now cfg).mode ≡ deep_sleep
    → All
        (λ s.
          All
            (λ d.
              d.valid ≡ true
              → now + (plan_sleep snap now cfg).seconds + cfg.wake_before_bus_s + cfg.boot_margin_s
                ≤ d.when)
            s.slot)
        snap.stream
plan_sleep-InTime snap now cfg ok deep =
    All-map (λ s. All-map (λ d f v. f v deep) s.slot) snap.stream (plan_sleep_wakes snap now cfg ok)

-- The panel is cleaned at night exactly if the sleep is longer than the threshold and the last clean
-- was never or at least the interval ago.
pub should_promote_iff :
    (next_sleep_s now last long_sleep_s interval_s : ℕ)
    → (should_promote_to_nightly_clean next_sleep_s now last long_sleep_s interval_s ≡ true)
      ↔ ((long_sleep_s < next_sleep_s) × ((last ≡ 0) ⊎ (last + interval_s ≤ now)))
unfolding should_promote_to_nightly_clean
should_promote_iff next_sleep_s now last long_sleep_s interval_s = (ground arith, ground arith)
