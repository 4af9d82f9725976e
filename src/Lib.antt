-- ===== src/Lib.antt =====
-- wlc: a library for Wayland compositors.
--
-- A compositor that uses wlc draws the windows of its clients (views) on screens (outputs). The
-- parts that are modelled are the state machines behind that: the outputs with their frames,
-- repaints, sleep and modes; the compositor, which adds and removes outputs, keeps one of them
-- active and gives the virtual terminal up and takes it back; the session helper, a privileged
-- process that opens device files for the compositor; the keyboard with its pressed keys, its
-- repeat and its focus; the positioners of popups; the trees of subsurfaces; the views with their
-- pending and committed state; and the handles by which all objects are named. The first three meet
-- in the handshake of the virtual terminal: the compositor first takes the surfaces from all its outputs, and calls
-- into the session only when the last one is gone, which for an output with a frame on its way is
-- when that frame has ended.
--
-- Which file models what (paths are from the root of the repository):
--   Base, Base/...            names of the libraries passed on, tests on numbers, lists, integers
--   Chck                      pools of lib/chck, a submodule: a record of operations with their laws
--   Geometry                  include/wlc/geometry.h
--   Session/System            the calls of the operating system that the helper makes, as parameters
--   Session/Tty               src/session/tty.c: wlc_tty_activate, wlc_tty_deactivate, wlc_tty_activate_vt
--   Session/Fd                src/session/fd.c: fd_open, fd_close, activate, deactivate
--   Session/Fd/Protocol       src/session/fd.c: handle_request, communicate, read_response, wlc_fd_*
--   Session/Fd/Slots, Open, Close, Switch, Requests    the theorems on these
--   Positioner                src/resources/types/xdg-positioner.c; src/compositor/view.c: its use
--   Seat/Keymap               src/compositor/seat/keymap.c: the masks of modifiers and leds
--   Seat/Keys                 src/compositor/seat/keyboard.c: update_keys, with its theorems
--   Seat/Keyboard             src/compositor/seat/keyboard.c; src/compositor/seat/seat.c: seat_handle_key
--   Seat/Keyboard/Repeat, Focus, Timer                 the theorems on the keyboard
--   Seat/Touch, Seat/Touch/...             src/compositor/seat/touch.c; seat.c: input_event on touches
--   Seat/Pointer, Seat/Pointer/...                     src/compositor/seat/pointer.c: focus, cursor, buttons
--   Seat/Selection, Seat/Selection/...     src/compositor/seat/data.c: the selection and its offers
--   Xwayland/Conversions, ...              src/xwayland/selection.c: the types of the clipboard
--   Xwayland/Clipboard, ...                selection.c: requests, owner and transfers of the clipboard
--   Xwayland/NetState, ...                 xwm.c: handle_state
--   Xwayland/Windows, ...                  src/xwayland/xwm.c: windows, their views, the focus
--   Debug, Debug/...                       src/wlc.c: wlc_dlog
--   Drm/Flip, Drm/Flip/...                 src/platform/backend/drm.c: framebuffers and page flips
--   Drm/Connectors, Drm/Connectors/...     drm.c: query_drm, the crtcs and modes of the connectors
--   Drm/Outputs, Drm/Outputs/...           drm.c: update_outputs, with what it does to the outputs of
--                                          src/compositor/compositor.c
--   Surface/Subsurfaces       src/compositor/compositor.c: the requests of wl_subsurface, get_subsurface;
--                             src/resources/types/surface.c: set_parent, commit_subsurface_state
--   Surface/Subsurfaces/...   the theorems on these
--   Surface/Buffers, Surface/Buffers/...   src/resources/types/buffer.c; surface.c: the buffers of surfaces
--   View, View/Requests       src/compositor/view.c; src/resources/types/xdg-toplevel.c, shell-surface.c
--   View/Granted, Settled, Commit, Listed                     the theorems on views
--   View/Samples                                              a toplevel that tests use
--   Handles, Handles/...      src/resources/resources.c: handles and their objects, with the theorems
--   Compositor/World          src/compositor/output.h and compositor.h: the shared state and its events
--   Compositor/Handles        lemmas on outputs found by their handles
--   Compositor/Output         src/compositor/output.c: repaint requests, sleep, the end of a frame
--   Compositor/Output/Modes   src/compositor/output.c: wlc_output_set_information and _set_resolution_ptr
--   Compositor/Output/Schedule, Reachable, Choice      the theorems on these
--   Compositor/Tty            src/compositor/compositor.c: activate_tty, deactivate_tty
--   Compositor/Surfaces       src/compositor/output.c: wlc_output_set_backend_surface
--   Compositor/Given          what that call leaves in its output
--   Compositor/Outputs        src/compositor/compositor.c: active_output, add_output, remove_output,
--                             activate_event, wlc_compositor_terminate
--   Compositor/Frames         src/compositor/output.c: finish_frame_tasks, wlc_output_finish_frame, repaint
--   Compositor/Stacking       src/compositor/output.c: wlc_output_link_view, _unlink_view, _set_views_ptr
--   Compositor/Culling        src/compositor/output.c: get_visible_views, blit
--   Compositor/Stacking/..., Compositor/Culling/...    the theorems on these
--   Compositor/Handshake, Compositor/Handshake/...     the theorems on the handshake
--   Compositor/Active                                  the theorem on the active output
--   Tests below a component   its theorems at concrete values
--
-- State and operations. A C object that several parts share is an entry of the list of outputs in a
-- World, named by its handle; a handle is looked up again after every call that may change the object.
-- Callbacks of the interface and calls into other parts are events, kept in the order in which they
-- happen. The system, the renderers and the contexts are records of answers (Os, Platform), so that a
-- theorem holds whatever they answer. A read past the end of an array is the result undefined, and a
-- write past the end of the crtcs in use is the result none.
-- Functions of floats (Floats), libxkbcommon (Xkb), the clients (Clients) and the pools are parameters
-- too.
--
-- Bounds. Numbers are natural numbers; where the source computes in uint32_t the remainder modulo 2^32
-- is written out, and so is that of the 16 bits of a buffer's references. Loops run over lists. The loop
-- of update_keys runs on fuel, the length of the list, and each round leaves one item behind or takes
-- one away. The recursions over the tree of subsurfaces run on fuel that their caller gives: a number
-- above the height of the tree is enough, and where surfaces go round in a circle none is.
--
-- Not modelled: sending and receiving on sockets, fork, drawing, input devices, the X server, D-Bus,
-- udev and logind, which are input and output; the regions, the frame callbacks
-- and the release of surfaces, the search for the surface under the pointer.
pub mod Base
pub mod Chck
pub mod Geometry
pub mod Session
pub mod Positioner
pub mod Seat
pub mod Surface
pub mod View
pub mod Handles
pub mod Drm
pub mod Xwayland
pub mod Debug
pub mod Compositor
