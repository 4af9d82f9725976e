-- ===== src/Compositor/Output/Reachable.antt =====
-- The life of an output as a sequence of steps.
use wlc.Base.{
  ℕ, ◌<◌, ◌≡◌, ◌⊎◌, Bool, true, Option, none, some, List, arith, get_elem?, set, if◌then◌else◌,
}
use wlc.Compositor.World.{Output, Bsurface, Mode, Task}
use wlc.Geometry.{Size}
use wlc.Compositor.Output.{
  schedule_repaint, cancel_repaint, set_sleep, set_mask, Floats, frame_finished, timer_fired,
  skip_frame, painted, should_render, new_output,
}
use wlc.Compositor.Output.Modes.{choose_mode, set_mode, set_information, set_resolution}
use wlc.Compositor.Surfaces.{Platform, surface_taken, surface_given}
use wlc.Compositor.Output.Schedule.{
  IsLive, schedule_repaint-IsLive, cancel_repaint-IsLive, set_sleep-IsLive, set_mask-IsLive,
  frame_finished-IsLive,
}

-- What `cb_idle_timer` does to its output before the tasks of a skipped frame.
unfoldable pub idle_output : Bool → Bool → Output → Output
unfolding timer_fired should_render painted skip_frame
idle_output is_active bg o =
    let o' = timer_fired o in if should_render is_active o' then painted bg o' else skip_frame o'

-- One operation on an output: among them, it gets its modes, gets a surface or loses it, and is to be
-- terminated; what is put off during a frame is a task, and `done` is the end of the tasks. A frame
-- ends with an idle delay that is not 0.
pub data Step (f : Floats) : Output → Output → Type 0 where
  inform : {o : Output} → (ms : List Mode) → Step f o (set_information ms o)
  give : {o : Output} → (p : Platform) (b : Bsurface) → Step f o (surface_given p b o)
  take : {o : Output} → Step f o (surface_taken o)
  put_off : {o : Output} → Step f o (schedule_repaint (record o { task_terminate = true }))
  done :
      {o : Output}
      → (b : Task) (sleep terminate : Bool)
      → Step f o (record o { task_bsurface = b; task_sleep = sleep; task_terminate = terminate })
  request : {o : Output} → Step f o (schedule_repaint o)
  cancel : {o : Output} → Step f o (cancel_repaint o)
  sleep : {o : Output} → (b : Bool) → Step f o (set_sleep b o)
  mask : {o : Output} → (m : ℕ) → Step f o (set_mask m o)
  resize : {o : Output} → (r : Size) (scale : ℕ) → Step f o (set_resolution r scale o)
  finish :
      {o : Output}
      → (sec nsec : ℕ) → 0 < f.to_ms (f.interpolate o.ims o.activity)
      → Step f o (frame_finished f sec nsec o)
  idle_timeout : {o : Output} → (is_active bg : Bool) → Step f o (idle_output is_active bg o)

pub data Reachable (f : Floats) : Output → Type 0 where
  created : (ims h : ℕ) → Reachable f (new_output ims h)
  next : {o o' : Output} → Reachable f o → Step f o o' → Reachable f o'

idle_output-IsLive : (is_active bg : Bool) (o : Output) → IsLive (idle_output is_active bg o)
unfolding idle_output
idle_output-IsLive is_active bg o = ground arith

set_resolution-IsLive :
    (r : Size) (scale : ℕ) (o : Output) → IsLive o → IsLive (set_resolution r scale o)
unfolding set_resolution schedule_repaint
set_resolution-IsLive r scale o l = ground arith

new_output-IsLive : (ims h : ℕ) → IsLive (new_output ims h)
unfolding new_output
new_output-IsLive ims h = ground arith

surface_taken-IsLive : (o : Output) → IsLive o → IsLive (surface_taken o)
unfolding surface_taken
surface_taken-IsLive o l = ground arith

surface_given-IsLive :
    (p : Platform) (b : Bsurface) (o : Output) → IsLive o → IsLive (surface_given p b o)
unfolding surface_given
surface_given-IsLive p b o l = ground arith

set_mode-IsLive :
    (m : Option Mode) (i : ℕ) (ms : List Mode) (o : Output) → IsLive o → IsLive (set_mode m i ms o)
unfolding set_mode
set_mode-IsLive none i ms o l = l
set_mode-IsLive (some m) i ms o l =
    let size : Size = record { w = m.width; h = m.height } in
    set_resolution-IsLive size o.scale
      (record o { mode = some i; mode_size = size; modes = set ms i (record m { current = true }) })
      l

chosen-IsLive :
    (c : Option ℕ) (ms : List Mode) (o : Output)
    → IsLive o
    → IsLive (elim c as (λ q. Output) [
      | none ↦ record o { modes = ms; mode = none }
      | some i ↦ set_mode (get_elem? ms i) i ms (record o { modes = ms; mode = none })
    ])
chosen-IsLive none ms o l = l
chosen-IsLive (some i) ms o l = set_mode-IsLive (get_elem? ms i) i ms _ l

set_information-IsLive : (ms : List Mode) (o : Output) → IsLive o → IsLive (set_information ms o)
unfolding set_information
set_information-IsLive ms o l = chosen-IsLive (choose_mode ms) ms o l

Step-IsLive : (f : Floats) (o o' : Output) → Step f o o' → IsLive o → IsLive o'
Step-IsLive f o o' (inform {o = x} ms) l = set_information-IsLive ms x l
Step-IsLive f o o' (give {o = x} p b) l = surface_given-IsLive p b x l
Step-IsLive f o o' (take {o = x}) l = surface_taken-IsLive x l
Step-IsLive f o o' (put_off {o = x}) l =
    schedule_repaint-IsLive (record x { task_terminate = true }) l
Step-IsLive f o o' (done {o = x} b s t) l = l
Step-IsLive f o o' (request {o = x}) l = schedule_repaint-IsLive x l
Step-IsLive f o o' (cancel {o = x}) l = cancel_repaint-IsLive x
Step-IsLive f o o' (sleep {o = x} b) l = set_sleep-IsLive b x l
Step-IsLive f o o' (mask {o = x} m) l = set_mask-IsLive m x l
Step-IsLive f o o' (resize {o = x} r scale) l = set_resolution-IsLive r scale x l
Step-IsLive f o o' (finish {o = x} sec nsec p) l = frame_finished-IsLive f sec nsec x p
Step-IsLive f o o' (idle_timeout {o = x} is_active bg) l = idle_output-IsLive is_active bg x

live : (f : Floats) (o : Output) → Reachable f o → IsLive o
live f o (created ims h) = new_output-IsLive ims h
live f o (next {o = x} {o' = y} r s) = Step-IsLive f x y s (live f x r)

requested : (o : Output) → IsLive o → (0 < (schedule_repaint o).timer) ⊎ (o.pending ≡ true)
unfolding schedule_repaint
requested o l = ground arith

-- From `wlc_output` on, while an output gets modes, surfaces and resolutions, loses its surface, is
-- asked for repaints, cancelled, put to sleep, masked and told to terminate, and while its frames end,
-- with an idle delay above 0, and its idle timer runs out, with or without painting: a repaint marked
-- as scheduled always has the idle timer armed or a frame pending; and so a request leaves the timer
-- armed, unless a frame is pending.
pub Reachable-IsLive :
    (f : Floats) (o : Output)
    → Reachable f o
    → (o.scheduled ≡ true → (0 < o.timer) ⊎ (o.pending ≡ true))
      × ((0 < (schedule_repaint o).timer) ⊎ (o.pending ≡ true))
Reachable-IsLive f o r = (live f o r, requested o (live f o r))
