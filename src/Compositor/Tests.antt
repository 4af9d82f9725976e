-- ===== src/Compositor/Tests.antt =====
-- The theorems on src/compositor at small worlds.
use wlc.Base.{ℕ, ◌<◌, ◌≡◌, ◌⊎◌, refl, Bool, true, false, some, List, [], ◌∷◌, arith}
use wlc.Compositor.World.{
  Bsurface, no_surface, no_task, drop_surface, Mode, Output, idle, deactivating, World, find_output,
}
use wlc.Compositor.Output.{Floats, schedule_repaint, new_output}
use wlc.Compositor.Output.Modes.{set_information}
use wlc.Compositor.Output.Reachable.{
  Reachable, created, next, inform, give, idle_timeout, idle_output, Reachable-IsLive,
}
use wlc.Compositor.Tty.{has_surface}
use wlc.Compositor.Surfaces.{Platform, surface_given}
use wlc.Compositor.Outputs.{deactivate_event}
use wlc.Compositor.Frames.{finish_frame}
use wlc.Compositor.Handshake.{deactivations, Waiting, GivenUp}
use wlc.Compositor.Handshake.Immediate.{deactivate_event_immediate}
use wlc.Compositor.Handshake.Pending.{deactivate_event_waits}
use wlc.Compositor.Handshake.Completion.{finish_frame_completes}

abbrev platform : Platform
platform = record { context_ok = λ b. true; render_ok = λ b. true; attaches = λ s. true }

abbrev floats : Floats
floats = record { interpolate = λ ims b. ims; to_ms = λ ims. 41 }

abbrev screen : Bsurface
screen = record { display = 3; can_sleep = true }

abbrev on_screen : ℕ → Bool → Output
on_screen h pending = record {
  handle = h;
  bsurface = screen;
  context = true;
  surfaces = 8 ∷ [];
  task_bsurface = no_task;
  task_terminate = false;
  task_sleep = false;
  ims = 41;
  frame_time = 0;
  pending = pending;
  scheduled = false;
  activity = false;
  sleeping = false;
  background_visible = false;
  created = true;
  modes = [];
  mode = some 0;
  mode_size = record { w = 640; h = 480 };
  resolution = record { w = 640; h = 480 };
  virtual = record { w = 640; h = 480 };
  scale = 1;
  mask = 1;
  timer = 0;
}

abbrev dropping : Output
dropping = record (on_screen 2 true) { task_bsurface = drop_surface }

abbrev dark : Output
dark = record (on_screen 1 false) { bsurface = no_surface; context = false }

abbrev world : List Output → World
world os = record {
  outputs = os;
  active = 1;
  tty = idle;
  vt = 0;
  idle_vt = false;
  terminating = false;
  is_active = true;
  events = [];
}

abbrev giving_up : World
giving_up = record (world (dark ∷ dropping ∷ [])) { tty = deactivating; vt = 3 }

deactivate_event_immediate_example :
    GivenUp 0 0 (deactivate_event platform 0 (world (on_screen 1 false ∷ on_screen 2 false ∷ [])))
unfolding deactivations
deactivate_event_immediate_example =
    deactivate_event_immediate platform 0 (world (on_screen 1 false ∷ on_screen 2 false ∷ []))
      (refl, (refl, tt)) (λ h o e. ground arith)

deactivate_event_waits_example :
    Waiting 0 3 (deactivate_event platform 3 (world (on_screen 1 false ∷ on_screen 2 true ∷ [])))
    × ((o' : Output) × (find_output 2
            (deactivate_event platform 3
              (world (on_screen 1 false ∷ on_screen 2 true ∷ []))).outputs
          ≡ some o')
        × (o'.pending ≡ true)
        × (has_surface o' ≡ true))
unfolding deactivations
deactivate_event_waits_example =
    deactivate_event_waits platform 3 2 (world (on_screen 1 false ∷ on_screen 2 true ∷ []))
      (on_screen 2 true) (refl, (refl, tt)) refl refl refl

finish_frame_completes_example : GivenUp 0 3 (finish_frame platform floats 1 0 2 giving_up)
unfolding deactivations
finish_frame_completes_example =
    finish_frame_completes platform floats 1 0 0 3 giving_up dropping (refl, refl, refl)
      (refl, (refl, tt)) refl (λ h o e n. ground arith) refl refl refl refl

abbrev small : Mode
small = record { current = false; preferred = false; width = 640; height = 480 }

-- An output that has got a mode and a surface, and is painted: its frame is pending.
abbrev shown : Output
shown = surface_given platform screen (set_information (small ∷ []) (new_output 41 1))

abbrev framed : Output
framed = idle_output true true shown

framed-pending : framed.pending ≡ true
unfolding set_information new_output surface_given idle_output
framed-pending = refl

framed-Reachable : Reachable floats framed
framed-Reachable =
    next (next (next (created 41 1) (inform (small ∷ []))) (give platform screen))
      (idle_timeout true true)

Reachable-IsLive_example :
    (framed.scheduled ≡ true → (0 < framed.timer) ⊎ (framed.pending ≡ true))
    × ((0 < (schedule_repaint framed).timer) ⊎ (framed.pending ≡ true))
Reachable-IsLive_example = Reachable-IsLive floats framed framed-Reachable

abbrev large : Mode
large = record { current = false; preferred = false; width = 800; height = 600 }

abbrev preferred_mode : Mode
preferred_mode = record { current = false; preferred = true; width = 320; height = 200 }

abbrev two_screens : World
two_screens = world (on_screen 1 false ∷ on_screen 2 false ∷ [])
