-- ===== src/Compositor/World.antt =====
-- The state that src/compositor/compositor.c and src/compositor/output.c share.
use wlc.Base.{ℕ, Bool, false, Option, none, some, List, [], ◌∷◌, ◌++◌, map, if◌then◌else◌, ◌==◌}
use wlc.Geometry.{Size}

-- `struct wlc_backend_surface`: its display (0 for none) and whether it has `api.sleep`.
pub record Bsurface : Type 0 where
  pub display : ℕ
  pub can_sleep : Bool

abbrev pub no_surface : Bsurface
no_surface = record { display = 0; can_sleep = false }

-- `output->task.bsurface`: nothing, `INVALID_DISPLAY`, or a surface to set.
pub data Task : Type 0 where
  no_task : Task
  drop_surface : Task
  set_surface : Bsurface → Task

-- `struct wlc_output_mode`. The two flags are `WL_OUTPUT_MODE_CURRENT` and
-- `WL_OUTPUT_MODE_PREFERRED`; the width and the height, signed in the source, are not negative.
pub record Mode : Type 0 where
  pub current : Bool
  pub preferred : Bool
  pub width : ℕ
  pub height : ℕ

-- `struct wlc_output`, as far as frames and surfaces go. `timer` is the delay that was last given to
-- `wl_event_source_timer_update` for the idle timer and has not run out, 0 for a disarmed timer;
-- `ims` is the bit pattern of a float; `mode` is none for UINT_MAX.
pub record Output : Type 0 where
  pub handle : ℕ
  pub bsurface : Bsurface
  pub context : Bool
  pub surfaces : List ℕ
  pub task_bsurface : Task
  pub task_terminate : Bool
  pub task_sleep : Bool
  pub ims : ℕ
  pub frame_time : ℕ
  pub pending : Bool
  pub scheduled : Bool
  pub activity : Bool
  pub sleeping : Bool
  pub background_visible : Bool
  pub created : Bool
  pub modes : List Mode
  pub mode : Option ℕ
  pub mode_size : Size
  pub resolution : Size
  pub virtual : Size
  pub scale : ℕ
  pub mask : ℕ
  pub timer : ℕ

pub data TtyState : Type 0 where
  idle activating deactivating : TtyState

-- Callbacks of the interface, calls of the session and signals, in the order in which they happen.
pub data Event : Type 0 where
  output_focus : ℕ → Bool → Event
  output_created : ℕ → Event
  output_resolution : ℕ → Size → Size → Event
  output_destroyed : ℕ → Event
  context_created : ℕ → Event
  context_destroyed : ℕ → Event
  api_sleep : ℕ → Bool → Event
  render_pre : ℕ → Event
  render_view : ℕ → ℕ → Event
  render_post : ℕ → Event
  render_pointer : ℕ → Event
  render_clear : ℕ → Event
  swap : ℕ → Event
  fd_activate : Event
  fd_deactivate : Event
  fd_activate_vt : ℕ → Event
  update_outputs : Event
  terminate_callback : Event
  terminated : Event

-- `struct wlc_compositor` with the outputs of its pool, in pool order; `active` is 0 for none.
-- `idle_vt` is whether the idle source of a VT switch is there; `is_active` is `wlc.active`.
pub record World : Type 0 where
  pub outputs : List Output
  pub active : ℕ
  pub tty : TtyState
  pub vt : ℕ
  pub idle_vt : Bool
  pub terminating : Bool
  pub is_active : Bool
  pub events : List Event

abbrev pub emit : Event → World → World
emit e w = record w { events = w.events ++ e ∷ [] }

abbrev pub emit_if : Bool → Event → World → World
emit_if b e w = if b then emit e w else w

-- `convert_from_wlc_handle`.
abbrev pub find_output : ℕ → List Output → Option Output
find_output h [] = none
find_output h (o ∷ os) = if o.handle == h then some o else find_output h os

-- The list with every output of the same handle replaced.
abbrev pub put_output : Output → List Output → List Output
put_output o [] = []
put_output o (x ∷ xs) = (if x.handle == o.handle then o else x) ∷ put_output o xs

abbrev pub put : Output → World → World
put o w = record w { outputs = put_output o w.outputs }

abbrev pub handles : List Output → List ℕ
handles = map (λ o. o.handle)

-- `chck_pool_for_each_call` over the outputs.
abbrev pub for_each : (ℕ → World → World) → List ℕ → World → World
for_each f [] w = w
for_each f (h ∷ hs) w = for_each f hs (f h w)
