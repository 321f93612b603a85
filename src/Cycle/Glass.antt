-- ===== src/Cycle/Glass.antt =====
-- What the panel shows after a push: the frame that the push left, which is the frame that it saved.
use bustaferl.Prelude.{
  ℕ, ◌+◌, ◌*◌, ◌<◌, ◌≡◌, refl, sym, ap, subst, ◌∙◌, Bool, true, false, List, [], ◌∷◌, ◌++◌, map,
  arith, Bool-cases, inl, inr, ◌⊎◌, if◌then◌else◌, ◌&&◌, not, get_or,
}
use bustaferl.Refresh.{
  RefreshKind, no_refresh, partial, light_full, deep_clean, RefreshDecision, plan_refresh,
  default_refresh_config,
}
use bustaferl.Refresh.Plan.{inside, refreshed, glass-plan_refresh}
use bustaferl.Refresh.Apply.{
  Paint, draw_partial, light_full_of, deep_clean_of, apply_kind, apply_display_decision,
}
use bustaferl.Cycle.Store.{fb_stride, save_framebuffer, load_framebuffer}
use bustaferl.Cycle.Push.{
  is_refresh, prev_frame, plan_push, restamp, apply_decision, keep_frame, push_frame,
  render_and_push, stamped, set_updated,
}
use bustaferl.Screen.{DisplayState, compose_render_input}
use bustaferl.Data.{StreamSnapshot, ScheduleSnapshot}
use bustaferl.Cycle.{set_curr, World, Env, History, painted}

-- A byte of the panel after the paints of a log, if it was `blank` at first: a partial refresh writes
-- inside its box, a full one everywhere.
abbrev paint_byte : Paint → ℕ → ℕ → ℕ → ℕ
paint_byte (draw_partial fb box) xb y before =
    if inside xb y box then get_or fb (y * fb_stride + xb) 0 else before
paint_byte (light_full_of fb) xb y before = get_or fb (y * fb_stride + xb) 0
paint_byte (deep_clean_of fb) xb y before = get_or fb (y * fb_stride + xb) 0

abbrev pub panel : ℕ → ℕ → ℕ → History → ℕ
panel blank xb y [] = blank
panel blank xb y (painted p ∷ es) = paint_byte p xb y (panel blank xb y es)
panel blank xb y (_ ∷ es) = panel blank xb y es

-- Without a previous frame the whole panel is refreshed.
plan_push_first :
    (env : Env) (now : ℕ) (prev : List ℕ) (w : World)
    → (plan_push env now (false, prev) w).kind ≡ light_full
unfolding plan_refresh
plan_push_first env now prev w = refl

true_not_false : true ≡ false → ⊥
true_not_false e = cc

-- What is pushed was planned for the world in which it is applied, whose log is that of before.
pub restamp-plan_push :
    (env : Env) (now : ℕ) (force : Bool) (prev : Bool × List ℕ) (w : World)
    → let r = restamp env now force prev (plan_push env now prev w) w in
      (r.0 ≡ plan_push env now prev r.1) × (r.1.log ≡ w.log)
unfolding restamp
restamp-plan_push env now force prev w =
    elim (Bool-cases
      (env.cfg.update_stamp_enabled && not force && is_refresh (plan_push env now prev w).kind)) [
        | inl e ↦ rw (e, restamp) (refl, ground arith)
        | inr e ↦ rw (e, restamp) (refl, refl)
      ]

-- The previous frame depends on the slot and the flag alone.
pub prev_frame_ext :
    (v w : World)
    → v.meta.framebuffer_valid ≡ w.meta.framebuffer_valid
    → v.saved_meta ≡ w.saved_meta
    → v.saved_code ≡ w.saved_code
    → prev_frame v ≡ prev_frame w
unfolding prev_frame load_framebuffer
prev_frame_ext v w a b c = rw (a, b, c) refl

-- The first stamp changes neither the log nor the slot.
abbrev pub stamped_first : Env → ℕ → Bool → World → World
stamped_first env now force w =
    let first = stamped env (if force then now else w.meta.last_display_update) w in
    if force then set_updated env now first else first

pub log-stamped_first :
    (env : Env) (now : ℕ) (force : Bool) (w : World) → (stamped_first env now force w).log ≡ w.log
log-stamped_first env now force w = ground arith

pub prev_frame-stamped_first :
    (env : Env) (now : ℕ) (force : Bool) (w : World)
    → prev_frame (stamped_first env now force w) ≡ prev_frame w
prev_frame-stamped_first env now force w =
    prev_frame_ext (stamped_first env now force w) w (ground arith) (ground arith) (ground arith)

module _ (blank xb y : ℕ) where
  abbrev shown : World → ℕ
  shown w = panel blank xb y w.log

  abbrev wanted : World → ℕ
  wanted w = get_or w.curr (y * fb_stride + xb) 0

  -- A decision that is applied shows what `refreshed` says.
  shown-apply_decision :
      (d : RefreshDecision) (now : ℕ) (w : World)
      → shown (apply_decision d now w) ≡ refreshed d.kind (inside xb y d.bbox) (shown w) (wanted w)
  unfolding apply_decision apply_display_decision apply_kind
  shown-apply_decision d now w = by_kind d.kind
    where
      by_kind :
          (k : RefreshKind)
          → panel blank xb y
              (map painted (apply_kind k d.bbox w.curr w.meta.counters now).0 ++ w.log)
            ≡ refreshed k (inside xb y d.bbox) (shown w) (wanted w)
      by_kind no_refresh = refl
      by_kind partial = refl
      by_kind light_full = refl
      by_kind deep_clean = refl

  -- The previous frame, if there is one, is on the panel.
  abbrev OnPanel : Bool × List ℕ → World → Type 0
  OnPanel prev w = prev.0 ≡ true → shown w ≡ get_or prev.1 (y * fb_stride + xb) 0

  shown-plan :
      (env : Env) (now : ℕ) (prev : Bool × List ℕ) (w : World)
      → xb < 50
      → y < 300
      → OnPanel prev w
      → shown (apply_decision (plan_push env now prev w) now w) ≡ wanted w
  shown-plan env now (false, prev) w x h on =
      let d = plan_push env now (false, prev) w in
      shown-apply_decision d now w
      ∙ ap (λ k. refreshed k (inside xb y d.bbox) (shown w) (wanted w))
          (plan_push_first env now prev w)
  shown-plan env now (true, prev) w x h on =
      let d = plan_push env now (true, prev) w in
      shown-apply_decision d now w
      ∙ ap (λ b. refreshed d.kind (inside xb y d.bbox) b (wanted w)) (on refl)
      ∙ glass-plan_refresh prev w.curr true now w.meta.counters.last_light_full
          w.meta.counters.partial_count default_refresh_config env.cfg.deep_wake fb_stride xb y refl
          x h

  shown-keep_frame : (w : World) → shown (keep_frame w) ≡ shown w
  unfolding keep_frame save_framebuffer
  shown-keep_frame w = refl

  wanted-keep_frame :
      (d : RefreshDecision) (now : ℕ) (w : World)
      → wanted (keep_frame (apply_decision d now w)) ≡ wanted w
  unfolding keep_frame save_framebuffer apply_decision
  wanted-keep_frame d now w = refl

  push_frame_shows :
      (env : Env) (now : ℕ) (force : Bool) (w : World)
      → xb < 50
      → y < 300
      → OnPanel (prev_frame w) w
      → shown (push_frame env now force w) ≡ wanted (push_frame env now force w)
  unfolding push_frame
  push_frame_shows env now force w x h on =
      let forced = stamped_first env now force w in
      let prev = prev_frame forced in
      let (same_plan, same_log) = restamp-plan_push env now force prev forced in
      let (d, planned) = restamp env now force prev (plan_push env now prev forced) forced in
      let known = subst (λ p. OnPanel p w) (sym (prev_frame-stamped_first env now force w)) on in
      let logs = same_log ∙ log-stamped_first env now force w in
      shown-keep_frame (apply_decision d now planned)
      ∙ subst (λ d. shown (apply_decision d now planned) ≡ wanted planned) (sym same_plan)
          (shown-plan env now prev planned x h (λ e. ap (panel blank xb y) logs ∙ known e))
      ∙ sym (wanted-keep_frame d now planned)

  -- After a frame is rendered and pushed the panel shows it at every byte, whatever was planned and
  -- however the frame was stamped, if before the panel showed the frame that the slot held, or the slot
  -- held none.
  pub render_and_push_shows :
      (env : Env) (state : DisplayState) (snap : StreamSnapshot) (schedule : ScheduleSnapshot)
      (force : Bool) (w : World)
      → xb < 50
      → y < 300
      → ((prev_frame w).0 ≡ false) ⊎ (shown w ≡ get_or (prev_frame w).1 (y * fb_stride + xb) 0)
      → shown (render_and_push env state snap schedule force w)
        ≡ wanted (render_and_push env state snap schedule force w)
  unfolding render_and_push
  render_and_push_shows env state snap schedule force w x h on =
      push_frame_shows env (env.now w.log) force (set_curr fb w) x h
        (subst (λ p. OnPanel p w) (sym (prev_frame_ext (set_curr fb w) w refl refl refl)) known)
    where
      fb : List ℕ
      fb = env.render w.log (
          compose_render_input env.version state snap schedule w.meta.last_success_at
            (env.now w.log))

      known : OnPanel (prev_frame w) w
      known e = elim on [ inl f ↦ absurd (true_not_false (sym e ∙ f)) | inr p ↦ p ]
