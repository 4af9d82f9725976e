-- ===== src/Compositor/Frames.antt =====
-- src/compositor/output.c: the end of a frame with its tasks, and the idle timer.
use wlc.Base.{ℕ, Bool, true, false, not, none, some, List, [], ◌∷◌, if◌then◌else◌}
use wlc.Compositor.World.{
  Output, World, Task, no_task, drop_surface, set_surface, put, find_output, emit, emit_if,
  render_pre, render_view, render_post, render_pointer, render_clear, swap,
}
use wlc.Compositor.Output.{should_render, Floats, frame_finished, timer_fired, skip_frame, painted}
use wlc.Compositor.Surfaces.{Platform, set_surface_on}
use wlc.Compositor.Outputs.{output_terminate, set_sleep_on}

-- One field of the output of a handle is set.
abbrev pub on : ℕ → (Output → Output) → World → World
on h f w = elim (find_output h w.outputs) [ none ↦ w | some o ↦ put (f o) w ]

unfoldable pub task_surface : Platform → ℕ → Task → World → World
task_surface p h no_task w = w
task_surface p h drop_surface w =
    on h (λ o. record o { task_bsurface = no_task }) (set_surface_on p h none w)
task_surface p h (set_surface b) w =
    on h (λ o. record o { task_bsurface = no_task }) (set_surface_on p h (some b) w)

unfoldable pub task_sleep : ℕ → Bool → World → World
task_sleep h b w =
    if b then on h (λ o. record o { task_sleep = false }) (set_sleep_on true h w) else w

unfoldable pub task_terminate : Platform → ℕ → Bool → World → World
task_terminate p h b w =
    if b then on h (λ o. record o { task_terminate = false }) (output_terminate p h w) else w

abbrev pub read {ℓ} : {A : Type ℓ} → ℕ → (Output → A) → A → World → A
read h f a w = elim (find_output h w.outputs) [ none ↦ a | some o ↦ f o ]

unfoldable pub finish_frame_tasks : Platform → ℕ → World → World
unfolding task_surface task_sleep task_terminate
finish_frame_tasks p h w =
    let w1 = task_surface p h (read h (λ o. o.task_bsurface) no_task w) w in
    let w2 = task_sleep h (read h (λ o. o.task_sleep) false w1) w1 in
    task_terminate p h (read h (λ o. o.task_terminate) false w2) w2

-- `wlc_output_finish_frame` at a time of `sec` seconds and `nsec` nanoseconds.
unfoldable pub finish_frame : Platform → Floats → ℕ → ℕ → ℕ → World → World
unfolding finish_frame_tasks frame_finished
finish_frame p f sec nsec h w = finish_frame_tasks p h (on h (frame_finished f sec nsec) w)

render_views : ℕ → List ℕ → World → World
render_views h [] w = w
render_views h (v ∷ vs) w = render_views h vs (emit (render_view h v) w)

-- `repaint`, but for the drawing itself and the answers to the frame callbacks of the clients. The
-- argument `scene` is what `get_visible_views` finds: the visible views, the lowest
-- first, and whether the background is visible.
unfoldable pub repaint : Platform → (Output → List ℕ × Bool) → ℕ → World → Bool × World
unfolding should_render finish_frame_tasks skip_frame painted render_views
repaint p scene h w = elim (find_output h w.outputs) [
  | none ↦ (false, w)
  | some o ↦
      if not (should_render w.is_active o)
      then (false, finish_frame_tasks p h (put (skip_frame o) w))
      else if o.sleeping
      then (true, emit (swap h) (put (painted false o) (emit (render_clear h) w)))
      else let (visible, bg) = scene o in
        let w1 = emit_if bg (render_pre h) (emit (render_clear h) w) in
        let w2 = emit (render_pointer h) (emit (render_post h) (render_views h visible w1)) in
        (true, emit (swap h) (put (painted bg o) w2))
]

-- `cb_idle_timer`
unfoldable pub idle_timer : Platform → (Output → List ℕ × Bool) → ℕ → World → World
unfolding repaint timer_fired
idle_timer p scene h w = (repaint p scene h (on h timer_fired w)).1
