-- ===== src/Refresh/Apply.antt =====
-- src/logic/display_apply.cpp: a decision is carried out on the panel and counted.
use bustaferl.Prelude.{ℕ, ◌+◌, ◌%◌, ◌^◌, ◌≤◌, ◌<◌, Bool, List, [], ◌∷◌, arith}
use bustaferl.Refresh.{
  Bbox, RefreshKind, no_refresh, partial, light_full, deep_clean, RefreshDecision, RefreshConfig,
  plan_refresh,
}

-- The calls of src/hal/IDisplay.h, with the framebuffer.
pub data Paint : Type 0 where
  draw_partial : List ℕ → Bbox → Paint
  light_full_of : List ℕ → Paint
  deep_clean_of : List ℕ → Paint

-- The fields of PersistedMeta that count refreshes.
pub record Counters : Type 0 where
  pub partial_count : ℕ  -- uint16_t
  pub last_light_full : ℕ
  pub last_deep_clean : ℕ

unfoldable pub apply_kind : RefreshKind → Bbox → List ℕ → Counters → ℕ → List Paint × Counters
apply_kind no_refresh bbox fb meta now = ([], meta)
apply_kind partial bbox fb meta now =
    (draw_partial fb bbox ∷ [], record meta { partial_count = (meta.partial_count + 1) % 2 ^ 16 })
apply_kind light_full bbox fb meta now =
    (light_full_of fb ∷ [], record meta { last_light_full = now; partial_count = 0 })
apply_kind deep_clean bbox fb meta now = (
  deep_clean_of fb ∷ [],
  record meta { last_deep_clean = now; last_light_full = now; partial_count = 0 },
)

unfoldable pub apply_display_decision :
    RefreshDecision → List ℕ → Counters → ℕ → List Paint × Counters
unfolding apply_kind
apply_display_decision d fb meta now = apply_kind d.kind d.bbox fb meta now

-- The counter of partial refreshes never passes the cap: planning with it and applying the plan keeps
-- it at or below the cap, which fits a uint16_t.
pub apply-plan_capped :
    (prev curr : List ℕ) (prev_valid : Bool) (now : ℕ) (meta : Counters) (cfg : RefreshConfig)
    (untrusted : Bool)
    → cfg.partial_hardcap < 2 ^ 16
    → meta.partial_count ≤ cfg.partial_hardcap
    → (apply_display_decision
        (plan_refresh prev curr prev_valid now meta.last_light_full meta.partial_count cfg
          untrusted)
        curr
        meta
        now).1.partial_count
      ≤ cfg.partial_hardcap
unfolding apply_display_decision plan_refresh
apply-plan_capped prev curr prev_valid now meta cfg untrusted fits h = ground arith
