-- ===== src/View/Samples.antt =====
-- A toplevel of 80 by 60 on output 2, for tests.
use wlc.Base.{true, false, none, some, []}
use wlc.Base.Int.{pos}
use wlc.Geometry.{Size}
use wlc.View.{ViewState, View, Interface}

abbrev pub screen_size : Size
screen_size = record { w = 80; h = 60 }

abbrev pub plain : ViewState
plain = record {
  geometry = record { origin = record { x = pos 0; y = pos 0 }; size = screen_size };
  edges = 0;
  state = record {
    is_maximized = false;
    is_fullscreen = false;
    is_resizing = false;
    is_moving = false;
    is_activated = false;
  };
}

abbrev pub toplevel_view : View
toplevel_view = record {
  pending = plain;
  commit = plain;
  wl_state = [];
  parent = 0;
  surface = some (screen_size, 2);
  roles = record {
    xdg_toplevel = true;
    xdg_popup = false;
    shell_surface = false;
    xdg_surface = true;
    x11 = false;
  };
  positioner = none;
  app_id = [];
  title = [];
  instance_name = [];
  class_name = [];
  pid = 0;
  fullscreen_mode = 0;
  minimized = false;
  type = λ b. false;
  mask = 0;
  created = true;
  events = [];
}

abbrev pub no_callbacks : Interface
no_callbacks = record {
  view_created = none;
  request_geometry = none;
  request_state = none;
  request_minimize = none;
}
