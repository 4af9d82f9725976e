-- ===== src/Compositor/Output.antt =====
-- src/compositor/output.c: when an output is painted.
pub mod Schedule
pub mod Modes
pub mod Choice
pub mod Reachable
use wlc.Base.{
  ℕ, ◌%◌, ◌^◌, ◌+◌, ◌*◌, ◌/◌, Bool, true, false, ◌&&◌, ◌||◌, not, Option, none, some, List, [], ◌∷◌,
  if◌then◌else◌, ◌==◌, same, ltb,
}
use wlc.Compositor.World.{Output, Bsurface, no_surface, no_task}
use wlc.Geometry.{Size}

unfoldable pub schedule_repaint : Output → Output
schedule_repaint o =
    if o.scheduled
    then record o { activity = true }
    else record o { activity = true; scheduled = true; timer = 1 }

unfoldable pub cancel_repaint : Output → Output
cancel_repaint o = record o { timer = 0; scheduled = false; activity = false }

-- `should_render`; the argument is `wlc_get_active()`.
unfoldable pub should_render : Bool → Output → Bool
should_render is_active o =
    is_active
    && not o.pending
    && not (o.bsurface.display == 0)
    && elim o.mode [ none ↦ false | some m ↦ true ]

-- `wlc_output_set_sleep_ptr` but for the call of `api.sleep`, which `set_sleep_calls` tells.
unfoldable pub set_sleep : Bool → Output → Output
unfolding schedule_repaint cancel_repaint
set_sleep sleep o =
    if same o.sleeping sleep
    then o
    else if sleep && o.pending
    then record o { task_sleep = true }
    else if sleep
    then record (if o.bsurface.can_sleep then cancel_repaint o else o) {
      sleeping = true;
      scheduled = false;
      activity = false;
    }
    else schedule_repaint (record o { sleeping = false })

unfoldable pub set_sleep_calls : Bool → Output → Bool
set_sleep_calls sleep o =
    not (same o.sleeping sleep) && not (sleep && o.pending) && o.bsurface.can_sleep

unfoldable pub set_mask : ℕ → Output → Output
unfolding schedule_repaint
set_mask mask o = schedule_repaint (record o { mask = mask })

-- What is computed with floats: the next value of `ims` from `chck_clampf(ims * k, 1, 41)` (the
-- Boolean tells 0.9 from 1.1), and its conversion to milliseconds.
pub record Floats : Type 0 where
  pub interpolate : ℕ → Bool → ℕ
  pub to_ms : ℕ → ℕ

-- The first part of `wlc_output_finish_frame`, before the tasks of the frame.
unfoldable pub frame_finished : Floats → ℕ → ℕ → Output → Output
frame_finished f sec nsec o =
    let time : ℕ = (sec * 1000 + nsec / 1000000) % 2 ^ 32 in
    if o.activity && not o.task_terminate
    then record o {
      pending = false;
      frame_time = time;
      ims = f.interpolate o.ims o.activity;
      timer = f.to_ms (f.interpolate o.ims o.activity);
      scheduled = true;
      activity = false;
    }
    else record o { pending = false; frame_time = time; scheduled = false }

-- The idle timer runs out, and is disarmed by that.
unfoldable pub timer_fired : Output → Output
timer_fired o = record o { timer = 0 }

-- What `repaint` leaves in the output when it skips the frame, before the tasks of the frame.
unfoldable pub skip_frame : Output → Output
skip_frame o = record o { activity = false; scheduled = false }

-- What it leaves when it paints, with whether the background is visible.
unfoldable pub painted : Bool → Output → Output
painted bg_visible o =
    if o.sleeping
    then record o { pending = true }
    else record o { pending = true; background_visible = bg_visible }

-- `wlc_output` on zeroed memory; the argument is the bit pattern of 41.0f.
unfoldable pub new_output : ℕ → ℕ → Output
unfolding set_sleep set_mask
new_output ims h = set_mask 1 (
    set_sleep false (record {
      handle = h;
      bsurface = no_surface;
      context = false;
      surfaces = [];
      task_bsurface = no_task;
      task_terminate = false;
      task_sleep = false;
      ims = ims;
      frame_time = 0;
      pending = false;
      scheduled = false;
      activity = false;
      sleeping = false;
      background_visible = false;
      created = false;
      modes = [];
      mode = none;
      mode_size = record { w = 0; h = 0 };
      resolution = record { w = 0; h = 0 };
      virtual = record { w = 0; h = 0 };
      scale = 1;
      mask = 0;
      timer = 0;
    }))
