-- ===== src/Compositor/Surfaces.antt =====
-- src/compositor/output.c: `wlc_output_set_backend_surface`. The contexts and renderers of
-- src/platform, which stand on EGL, are parameters.
use wlc.Base.{ℕ, Bool, true, false, ◌&&◌, Option, none, some, if◌then◌else◌, ◌==◌, any}
use wlc.Compositor.World.{
  Output, Bsurface, no_surface, World, drop_surface, set_surface, put, find_output, emit_if,
  context_created, context_destroyed,
}
use wlc.Compositor.Output.{schedule_repaint, cancel_repaint}
use wlc.Compositor.Tty.{respond_tty_activate}

-- Whether `wlc_context` and `wlc_render` succeed on a surface, and whether a surface of a client can
-- be attached to the output again.
pub record Platform : Type 0 where
  pub context_ok : Bsurface → Bool
  pub render_ok : Bsurface → Bool
  pub attaches : ℕ → Bool

-- The output without renderer, context and surface.
unfoldable pub released : Output → Output
released o = record o { bsurface = no_surface; context = false }

-- What the call with NULL leaves in its output, and below, what a call with a surface does.
unfoldable pub surface_taken : Output → Output
unfolding released cancel_repaint
surface_taken o =
    if o.bsurface.display == 0
    then o
    else if o.pending
    then record o { task_bsurface = drop_surface }
    else cancel_repaint (released o)

-- The call with NULL.
unfoldable pub set_no_surface : World → Output → World
unfolding released cancel_repaint respond_tty_activate
set_no_surface w o =
    if o.bsurface.display == 0
    then w
    else if o.pending
    then put (record o { task_bsurface = drop_surface }) w
    else respond_tty_activate
        (put (cancel_repaint (released o)) (emit_if o.created (context_destroyed o.handle) w))

-- The surfaces of clients are attached again, each of which schedules a repaint.
unfoldable pub reattach : Platform → Output → Output
unfolding schedule_repaint
reattach p o = if any p.attaches o.surfaces then schedule_repaint o else o

unfoldable pub surface_given : Platform → Bsurface → Output → Output
unfolding released surface_taken reattach
surface_given p b o =
    let o' : Output = record (released o) { bsurface = b } in
    if o.bsurface.display == b.display
    then o
    else if o.pending
    then record o { task_bsurface = set_surface b }
    else if p.context_ok b && p.render_ok b
    then reattach p (record o' { context = true })
    else surface_taken o'

unfoldable pub replace_surface : Platform → World → Output → Bsurface → Bool × World
unfolding released set_no_surface reattach respond_tty_activate
replace_surface p w o b =
    let w' = emit_if o.created (context_destroyed o.handle) w in
    let o' = record (released o) { bsurface = b } in
    if p.context_ok b && p.render_ok b
    then (
      true,
      respond_tty_activate (
          emit_if o.created (context_created o.handle)
            (put (reattach p (record o' { context = true })) w')),
    )
    else (false, set_no_surface (put o' w') o')

unfoldable pub set_some_surface : Platform → World → Output → Bsurface → Bool × World
unfolding replace_surface
set_some_surface p w o b =
    if o.bsurface.display == b.display
    then (true, w)
    else if o.pending
    then (true, put (record o { task_bsurface = set_surface b }) w)
    else replace_surface p w o b

unfoldable pub set_backend_surface : Platform → World → Output → Option Bsurface → Bool × World
unfolding set_some_surface
set_backend_surface p w o none = (true, set_no_surface w o)
set_backend_surface p w o (some b) = set_some_surface p w o b

-- The call on the output of a handle.
unfoldable pub set_surface_on : Platform → ℕ → Option Bsurface → World → World
unfolding set_backend_surface
set_surface_on p h b w = elim (find_output h w.outputs) [
  | none ↦ w
  | some o ↦ (set_backend_surface p w o b).1
]
