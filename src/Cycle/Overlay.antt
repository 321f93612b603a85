-- ===== src/Cycle/Overlay.antt =====
-- What is drawn past the saved frame: the diagnostic pages and the overlay after an unplanned reset.
use bustaferl.Prelude.{
  both, ℕ, zero, suc, ◌+◌, ◌-◌, ◌*◌, ◌≡◌, refl, ap, ◌∙◌, Bool, true, false, List, Option, none,
  some, arith, Bool-cases, inl, inr, get_or, ◌==◌, ◌&&◌, not,
}
use bustaferl.Button.{ButtonPress, press_none, short, long, double}
use bustaferl.Policy.Pager.{diag_next}
use bustaferl.Cycle.Store.{fb_stride, save_framebuffer}
use bustaferl.Refresh.{decide, no_refresh, same_bytes, plan_refresh}
use bustaferl.Refresh.Apply.{apply_kind, apply_display_decision}
use bustaferl.Screen.{DisplayState, compose_render_input}
use bustaferl.Cycle.Push.{
  prev_frame, plan_push, restamp, render_and_push, push_frame, keep_frame, apply_decision, stamped,
}
use bustaferl.Cycle.Gather.{do_fetch_cycle, fetch_and_log, note_success}
use bustaferl.Cycle.Glass.{panel, prev_frame_ext, prev_frame-stamped_first, log-stamped_first}
use bustaferl.Cycle.Ends.{Ends, unfinished, ends, of_Ends}
use bustaferl.Cycle.Press.{
  diag_step, diag_loop, draw_diag, diag_fetched, is_normal, reset_reason_text, run_diag_mode, timed,
  diag_wait_poll_ms, show_brownout_screen,
}
use bustaferl.Data.{ScheduleSnapshot, StreamSnapshot}
use bustaferl.Cycle.{ResetReason, World, Env, connected, rested, emit, set_curr}

-- What the next push starts from is as before.
record SameSlot (v w : World) : Type 0 where
  valid : v.meta.framebuffer_valid ≡ w.meta.framebuffer_valid
  meta : v.saved_meta ≡ w.saved_meta
  code : v.saved_code ≡ w.saved_code

SameSlot-trans : {u v w : World} → SameSlot u v → SameSlot v w → SameSlot u w
SameSlot-trans g h = record {
  valid = g.valid ∙ h.valid;
  meta = g.meta ∙ h.meta;
  code = g.code ∙ h.code;
}

do_fetch_cycle-SameSlot :
    (env : Env) (schedule : ScheduleSnapshot) (w : World)
    → SameSlot (do_fetch_cycle env schedule w).1 w
unfolding do_fetch_cycle fetch_and_log note_success
do_fetch_cycle-SameSlot env schedule w = record {
  valid = ground arith;
  meta = ground arith;
  code = ground arith;
}

module _ (env : Env) (blank xb y : ℕ) where
  abbrev shown : World → ℕ
  shown w = panel blank xb y w.log

  abbrev wanted : World → ℕ
  wanted w = get_or w.curr (y * fb_stride + xb) 0

  -- The panel shows the page that was drawn last, and the slot is as it was in `w`.
  record Paged (w v : World) : Type 0 where
    slot : SameSlot v w
    page_shown : shown v ≡ wanted v

  Paged-draw_diag : (page : ℕ) (v w : World) → SameSlot v w → Paged w (draw_diag env page v)
  Paged-draw_diag page v w h = record {
    slot = record { valid = h.valid; meta = h.meta; code = h.code };
    page_shown = refl;
  }

  Paged-rest : (ms : ℕ) (v w : World) → Paged w v → Paged w (emit (rested ms) v)
  Paged-rest ms v w h = record {
    slot = record { valid = h.slot.valid; meta = h.slot.meta; code = h.slot.code };
    page_shown = h.page_shown;
  }

  diag_step-Paged :
      (page : ℕ) (w : World) (go : ℕ → World → Option World) (o : Option (ButtonPress × World))
      → ((next : ℕ) (v : World) → Paged w v → Ends (Paged w) (go next v))
      → Ends (λ (r : ButtonPress × World). Paged w r.1) o
      → Ends (Paged w) (diag_step env page go o)
  unfolding diag_next
  diag_step-Paged page w go none more h = unfinished
  diag_step-Paged page w go (some (press_none, v)) more (ends h) = more page v h
  diag_step-Paged page w go (some (long, v)) more (ends h) = ends h
  diag_step-Paged page w go (some (short, v)) more (ends h) =
      more _ _ (Paged-draw_diag _ v w h.slot)
  diag_step-Paged page w go (some (double, v)) more (ends h) =
      more _ _ (Paged-draw_diag _ v w h.slot)

  timed-Paged :
      (v w : World) (o : Option (ButtonPress × ℕ))
      → Paged w v
      → Ends (λ (r : ButtonPress × World). Paged w r.1) (timed env v o)
  timed-Paged v w none h = unfinished
  timed-Paged v w (some (p, t)) h = ends (Paged-rest (t - env.now_ms v.log) v w h)

  diag_loop-Paged :
      (hold fuel start page : ℕ) (w v : World)
      → Paged w v
      → Ends (Paged w) (diag_loop env hold fuel start page v)
  unfolding diag_loop
  diag_loop-Paged hold zero start page w v h = unfinished
  diag_loop-Paged hold (suc fuel) start page w v h =
      both (Ends (Paged w)) _ _ _
        (diag_step-Paged page w _ _ (λ next u k. diag_loop-Paged hold fuel start next w u k)
          (timed-Paged v w _ h))
        (both (Ends (Paged w)) _ _ _ (ends h)
          (diag_loop-Paged hold fuel start page w _ (Paged-rest diag_wait_poll_ms v w h)))

  diag_fetched-SameSlot : (w : World) → SameSlot (diag_fetched env w) w
  unfolding diag_fetched
  diag_fetched-SameSlot w =
      let asked = emit connected w in
      let same : SameSlot asked w = record { valid = refl; meta = refl; code = refl } in
      both (λ (v : World). SameSlot v w) (env.connect w.log env.cfg.wifi_connect_ms) _ _
        (SameSlot-trans (do_fetch_cycle-SameSlot env w.saved_schedule asked) same) same

  run_diag_mode-Paged : (hold fuel : ℕ) (w : World) → Ends (Paged w) (run_diag_mode env hold fuel w)
  unfolding run_diag_mode
  run_diag_mode-Paged hold fuel w =
      diag_loop-Paged hold fuel _ 0 w _
        (Paged-draw_diag 0 (diag_fetched env w) w (diag_fetched-SameSlot w))

  -- When the diagnostic mode ends, the panel shows its last page, while the slot and its flag are those of
  -- before; so the next push compares with a frame that the panel does not show.
  pub run_diag_mode_stays :
      (hold fuel : ℕ) (w v : World)
      → run_diag_mode env hold fuel w ≡ some v
      → (prev_frame v ≡ prev_frame w) × (shown v ≡ wanted v)
  run_diag_mode_stays hold fuel w v e =
      let p =
        of_Ends (Paged w) (run_diag_mode env hold fuel w) v (run_diag_mode-Paged hold fuel w) e in
      (prev_frame_ext v w p.slot.valid p.slot.meta p.slot.code, p.page_shown)

same_bytes_self : (n i : ℕ) (a : List ℕ) → same_bytes n i a a ≡ true
unfolding same_bytes
same_bytes_self zero i a = refl
same_bytes_self (suc n) i a = ground (arith, same_bytes_self n (suc i) a)

plan_push_same :
    (env : Env) (now : ℕ) (w : World) → plan_push env now (true, w.curr) w ≡ decide no_refresh
unfolding plan_refresh
plan_push_same env now w = rw (same_bytes_self 15000 0 w.curr, plan_refresh) refl

and_false : (a b : Bool) → (a && b && false) ≡ true → ⊥
and_false a b e = ground arith

restamp_none :
    (env : Env) (now : ℕ) (force : Bool) (prev : Bool × List ℕ) (w : World)
    → restamp env now force prev (decide no_refresh) w ≡ (decide no_refresh, w)
unfolding restamp
restamp_none env now force prev w =
    elim (Bool-cases (env.cfg.update_stamp_enabled && not force && false)) [
      | inl e ↦ absurd (and_false env.cfg.update_stamp_enabled (not force) e)
      | inr e ↦ rw (e, restamp) refl
    ]

module _ (env : Env) (blank xb y : ℕ) where
  abbrev shown_at : World → ℕ
  shown_at w = panel blank xb y w.log

  shown-apply_none :
      (now : ℕ) (w : World)
      → shown_at (keep_frame (apply_decision (decide no_refresh) now w)) ≡ shown_at w
  unfolding apply_decision apply_display_decision apply_kind keep_frame save_framebuffer
  shown-apply_none now w = refl

  push_frame_unchanged :
      (now : ℕ) (w : World)
      → prev_frame w ≡ (true, (stamped env w.meta.last_display_update w).curr)
      → shown_at (push_frame env now false w) ≡ shown_at w
  unfolding push_frame
  push_frame_unchanged now w e =
      let first = stamped env w.meta.last_display_update w in
      rw
        (
          prev_frame-stamped_first env now false w ∙ e,
          plan_push_same env now first,
          restamp_none env now false (true, first.curr) first,
        )
        (shown-apply_none now first ∙ ap (panel blank xb y) (log-stamped_first env now false w))

  -- A frame that comes out like the saved one is not painted, whatever the panel shows.
  pub render_and_push_unchanged :
      (state : DisplayState) (snap : StreamSnapshot) (schedule : ScheduleSnapshot) (w : World)
      → prev_frame w ≡ (
        true,
        (stamped env w.meta.last_display_update (
            set_curr
              (env.render w.log (
                compose_render_input env.version state snap schedule w.meta.last_success_at
                  (env.now w.log)))
              w)).curr,
      )
      → shown_at (render_and_push env state snap schedule false w) ≡ shown_at w
  unfolding render_and_push
  render_and_push_unchanged state snap schedule w e =
      let fb = env.render w.log (
        compose_render_input env.version state snap schedule w.meta.last_success_at
          (env.now w.log)) in
      push_frame_unchanged (env.now w.log) (set_curr fb w)
        (prev_frame_ext (set_curr fb w) w refl refl refl ∙ e)

  is_shown :
      (reason : ResetReason) (w : World)
      → is_normal reason ≡ false
      → (env.cfg.brownout_show_s == 0) ≡ false
      → shown_at (show_brownout_screen env reason w)
        ≡ get_or (env.render_brownout (reset_reason_text reason)) (y * fb_stride + xb) 0
  unfolding show_brownout_screen
  is_shown reason w r s = rw (r, s, show_brownout_screen) refl

  -- After an unplanned reset with the overlay enabled, a push that is not forced and whose frame comes out
  -- like the saved one leaves the overlay on the panel.
  pub brownout_stays :
      (reason : ResetReason) (state : DisplayState) (snap : StreamSnapshot)
      (schedule : ScheduleSnapshot) (w : World)
      → is_normal reason ≡ false
      → (env.cfg.brownout_show_s == 0) ≡ false
      → let v = show_brownout_screen env reason w in
        let input =
          compose_render_input env.version state snap schedule v.meta.last_success_at
            (env.now v.log) in
        prev_frame v ≡ (
          true,
          (stamped env v.meta.last_display_update (set_curr (env.render v.log input) v)).curr,
        )
        → shown_at
            (render_and_push env state snap schedule false (show_brownout_screen env reason w))
          ≡ get_or (env.render_brownout (reset_reason_text reason)) (y * fb_stride + xb) 0
  brownout_stays reason state snap schedule w r s e =
      render_and_push_unchanged state snap schedule (show_brownout_screen env reason w) e
      ∙ is_shown reason w r s
