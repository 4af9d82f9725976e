-- ===== src/Compositor/Outputs.antt =====
-- src/compositor/compositor.c: the active output, outputs that come and go, and the end.
use wlc.Base.{
  ℕ, Bool, true, false, ◌&&◌, ◌||◌, not, Option, none, some, List, [], ◌∷◌, ◌++◌, if◌then◌else◌,
  ◌==◌,
}
use wlc.Compositor.World.{
  Output, Mode, output_resolution, Bsurface, World, activating, deactivating, emit, emit_if, put,
  find_output, handles, for_each, output_focus, output_created, output_destroyed, update_outputs,
  terminate_callback, terminated, api_sleep,
}
use wlc.Compositor.Output.{schedule_repaint, set_sleep, set_sleep_calls}
use wlc.Compositor.Output.Modes.{set_information}
use wlc.Geometry.{size_equals}
use wlc.Compositor.Tty.{has_surface, activate_tty, deactivate_tty}
use wlc.Compositor.Surfaces.{Platform, set_backend_surface, set_surface_on}

-- `wlc_output_schedule_repaint(convert_from_wlc_handle(h, "output"))`
unfoldable pub schedule_on : ℕ → World → World
unfolding schedule_repaint
schedule_on h w = elim (find_output h w.outputs) [ none ↦ w | some o ↦ put (schedule_repaint o) w ]

-- `active_output`; the handle 0 stands for NULL.
unfoldable pub active_output : ℕ → World → World
unfolding schedule_on
active_output h w =
    if w.active == h
    then w
    else let w1 =
        schedule_on w.active (emit_if (not (w.active == 0)) (output_focus w.active false) w) in
      let w2 = record w1 { active = h } in
      if h == 0 then w2 else schedule_on h (emit (output_focus h true) w2)

-- `get_surfaceless_output`
unfoldable pub get_surfaceless_output : List Output → Option Output
get_surfaceless_output [] = none
get_surfaceless_output (o ∷ os) = if has_surface o then get_surfaceless_output os else some o

-- The search of `remove_output` for another output with a surface.
unfoldable pub alive_output : ℕ → List Output → ℕ
alive_output h [] = 0
alive_output h (o ∷ os) =
    let rest = alive_output h os in if not (has_surface o) || o.handle == h then rest else o.handle

-- The end of `wlc_compositor_terminate`, which is all of it once the compositor is terminating.
unfoldable pub finish_terminate : World → World
finish_terminate w = emit terminated w

unfoldable pub remove_output : Platform → ℕ → World → World
unfolding active_output alive_output set_surface_on finish_terminate
remove_output p h w =
    let alive = alive_output h w.outputs in
    let w1 = if w.active == h then active_output alive (record w { active = 0 }) else w in
    let w2 = set_surface_on p h none (emit (output_destroyed h) w1) in
    if w2.terminating && alive == 0 then finish_terminate w2 else w2

-- `wlc_output_terminate`
unfoldable pub output_terminate : Platform → ℕ → World → World
unfolding remove_output schedule_repaint
output_terminate p h w = elim (find_output h w.outputs) [
  | none ↦ w
  | some o ↦
      if o.pending
      then put (schedule_repaint (record o { task_terminate = true })) w
      else remove_output p h w
]

unfoldable pub compositor_terminate : Platform → World → World
unfolding output_terminate finish_terminate
compositor_terminate p w =
    if w.terminating
    then finish_terminate w
    else let w' = emit terminate_callback (record w { terminating = true }) in
      elim w.outputs [
        | [] ↦ finish_terminate w'
        | o ∷ os ↦ for_each (output_terminate p) (handles (o ∷ os)) w'
      ]

-- `wlc_output_set_sleep_ptr` on the output of a handle.
unfoldable pub set_sleep_on : Bool → ℕ → World → World
unfolding set_sleep set_sleep_calls
set_sleep_on sleep h w = elim (find_output h w.outputs) [
  | none ↦ w
  | some o ↦ put (set_sleep sleep o) (emit_if (set_sleep_calls sleep o) (api_sleep h sleep) w)
]

unfoldable pub deactivate_event : Platform → ℕ → World → World
unfolding set_surface_on deactivate_tty
deactivate_event p vt w = deactivate_tty (
    for_each (λ h. set_surface_on p h none) (handles w.outputs)
      (record w { tty = deactivating; vt = vt }))

unfoldable pub activate_event : World → World
unfolding activate_tty set_sleep_on
activate_event w =
    let w1 = emit update_outputs (activate_tty (record w { tty = activating; vt = 0 })) in
    for_each (set_sleep_on false) (handles w1.outputs) w1

-- `wlc_output_set_information`, with the callback of its `wlc_output_set_resolution_ptr`.
unfoldable pub inform : List Mode → Output → World → World
unfolding set_information
inform ms o w =
    let o' = set_information ms o in
    emit_if (not (size_equals o'.resolution o.resolution && o'.scale == o.scale))
      (output_resolution o.handle o.resolution o'.resolution) (put o' w)

-- `add_output` from the call of the `output.created` callback on; `accepts` is false where that
-- callback is there and returns false.
start_output : Platform → Bool → Output → Bsurface → World → World
unfolding output_terminate active_output set_backend_surface schedule_on
start_output p accepts o b w =
    let h : ℕ = o.handle in
    let w1 = emit (output_created h) w in
    let o2 = record o { created = true } in
    let w2 = (set_backend_surface p (put o2 w1) o2 (some b)).1 in
    let w3 = if w2.active == 0 then active_output h w2 else w2 in
    if accepts then schedule_on h w3 else output_terminate p h w1

inform_output : Platform → Bool → Output → Bsurface → List Mode → World → World
unfolding inform start_output
inform_output p accepts o b ms w = start_output p accepts (set_information ms o) b (inform ms o w)

-- `add_output`. `fresh` is what `wlc_handle_create` gives, if it does not fail.
unfoldable pub add_output : Platform → Bool → Option Output → Bsurface → List Mode → World → World
unfolding get_surfaceless_output inform_output
add_output p accepts fresh b ms w = elim (get_surfaceless_output w.outputs) [
  | some o ↦ inform_output p accepts o b ms w
  | none ↦ elim fresh [
    | none ↦ w
    | some o ↦ inform_output p accepts o b ms (record w { outputs = w.outputs ++ o ∷ [] })
  ]
]
