-- ===== src/View/Requests.antt =====
-- src/compositor/view.c: what the compositor and the clients ask of a view;
-- src/resources/types/xdg-toplevel.c and shell-surface.c: the requests of the two shells. Requests that
-- the code leaves empty are not listed.
use wlc.Base.{ℕ, Bool, true, false, not, Option, none, some, List, if◌then◌else◌, ◌==◌, same}
use wlc.Geometry.{Point, Geometry, geometry_equals}
use wlc.View.{
  StateBit, maximized, fullscreen, has_state, toggle_state, TypeBit, popup, unmanaged, same_type,
  View, title_property, class_property, app_id_property, pid_property, Interface, Strings, emit,
  output_of, configure_view, update, linked, focus_requested, x11_state_set, x11_activated,
  properties_updated, move_requested, resize_requested,
}

unfoldable pub request_geometry : Interface → Geometry → View → Bool × View
unfolding configure_view
request_geometry i r v =
    let asked : View = elim i.request_geometry [
      | none ↦ record v { pending = record v.pending { geometry = r } }
      | some f ↦
          if v.created then f r v else record v { pending = record v.pending { geometry = r } }
    ] in
    (
      geometry_equals r asked.pending.geometry,
      configure_view asked.pending.edges asked.pending.geometry asked,
    )

unfoldable pub set_state : StateBit → Bool → View → View
unfolding update toggle_state
set_state b f v =
    let v' : View = if v.roles.x11 then emit (x11_state_set b f) v else v in
    update (record v' { pending = record v'.pending { state = toggle_state v'.pending.state b f } })

abbrev pub refreshes : StateBit → Bool
refreshes maximized = true
refreshes fullscreen = true
refreshes _ = false

unfoldable pub request_state : Interface → StateBit → Bool → View → Bool × View
unfolding set_state has_state configure_view
request_state i b f v =
    let asked : View = elim i.request_state [ none ↦ set_state b f v | some g ↦ g b f v ] in
    if not v.created
    then (false, v)
    else if same (has_state v.pending.state b) f
    then (true, if refreshes b then configure_view v.pending.edges v.pending.geometry v else v)
    else (same (has_state asked.pending.state b) f, asked)

unfoldable pub set_output : ℕ → View → View
unfolding output_of
set_output output v = if output_of v == output then v else emit (linked output true 0) v

unfoldable pub set_mask : ℕ → View → View
unfolding update
set_mask mask v = update (record v { mask = mask })

unfoldable pub set_geometry : ℕ → Geometry → View → View
unfolding update
set_geometry edges g v =
    update (record v { pending = record v.pending { geometry = g; edges = edges } })

unfoldable pub set_type : TypeBit → Bool → View → View
set_type b f v = record v { type = λ x. if same_type b x then f else v.type x }

-- The first argument is the handle of the view itself.
unfoldable pub set_parent : ℕ → ℕ → View → View
unfolding update
set_parent self parent v = if self == parent then v else update (record v { parent = parent })

unfoldable pub set_minimized : Interface → Bool → View → View
set_minimized i f v = elim i.request_minimize [
  | none ↦ record v { minimized = f }
  | some g ↦ let (taken, v') = g f v in if taken then record v' { minimized = f } else v'
]

unfoldable pub set_title : Strings → List ℕ → View → View
set_title t s v = if t.cstrneq v.title s then v else elim (t.set s) [
  | none ↦ v
  | some s' ↦ emit (properties_updated title_property) (record v { title = s' })
]

unfoldable pub set_instance : Strings → List ℕ → View → View
set_instance t s v = if t.cstrneq v.instance_name s then v else elim (t.set s) [
  | none ↦ v
  | some s' ↦ emit (properties_updated class_property) (record v { instance_name = s' })
]

unfoldable pub set_class : Strings → List ℕ → View → View
set_class t s v = if t.cstrneq v.class_name s then v else elim (t.set s) [
  | none ↦ v
  | some s' ↦ emit (properties_updated class_property) (record v { class_name = s' })
]

unfoldable pub set_app_id : Strings → List ℕ → View → View
set_app_id t s v = if t.cstreq v.app_id s then v else elim (t.set s) [
  | none ↦ v
  | some s' ↦ emit (properties_updated app_id_property) (record v { app_id = s' })
]

unfoldable pub set_pid : ℕ → View → View
set_pid pid v =
    if v.pid == pid then v else emit (properties_updated pid_property) (record v { pid = pid })

unfoldable pub send_to : Bool → View → View
unfolding output_of
send_to above v = emit (linked (output_of v) above 0) v

-- `other` is the handle and the output of the other view, `none` for NULL.
unfoldable pub send_to_other : Bool → Option (ℕ × ℕ) → View → View
send_to_other above none v = emit (linked 0 above 0) v
send_to_other above (some other) v = v

unfoldable pub focus : View → View
focus v = if v.type unmanaged then v else emit focus_requested (emit x11_activated v)

-- A request of a client. `Pointer` is the view that the pointer is on, 0 for none, and its position;
-- an output is 0 where none is named.
pub data ToplevelRequest : Type 0 where
  toplevel_set_parent : ℕ → ToplevelRequest
  toplevel_set_title : List ℕ → ToplevelRequest
  toplevel_set_app_id : List ℕ → ToplevelRequest
  toplevel_move : ℕ × Point → ToplevelRequest
  toplevel_resize : ℕ × Point → ℕ → ToplevelRequest
  toplevel_set_maximized : ToplevelRequest
  toplevel_unset_maximized : ToplevelRequest
  toplevel_set_fullscreen : ℕ → ToplevelRequest
  toplevel_unset_fullscreen : ToplevelRequest
  toplevel_set_minimized : ToplevelRequest

pub data ShellRequest : Type 0 where
  shell_set_toplevel : ShellRequest
  shell_set_transient : ℕ → Point → ShellRequest
  shell_set_fullscreen : ℕ → ℕ → ShellRequest
  shell_set_popup : ℕ → Point → ShellRequest
  shell_set_maximized : ℕ → ShellRequest
  shell_set_title : List ℕ → ShellRequest
  shell_set_class : List ℕ → ShellRequest

abbrev pub on_output : ℕ → View → View
on_output output v = if output == 0 then v else set_output output v

unfoldable pub toplevel_request : Interface → Strings → ℕ → ToplevelRequest → View → View
unfolding request_state set_output set_parent set_minimized set_title set_app_id
toplevel_request i t self (toplevel_set_parent p) v = set_parent self p v
toplevel_request i t self (toplevel_set_title s) v = set_title t s v
toplevel_request i t self (toplevel_set_app_id s) v = set_app_id t s v
toplevel_request i t self (toplevel_move p) v =
    if p.0 == 0 then v else emit (move_requested p.0 p.1) v
toplevel_request i t self (toplevel_resize p edges) v =
    if p.0 == 0 then v else emit (resize_requested p.0 edges p.1) v
toplevel_request i t self toplevel_set_maximized v = (request_state i maximized true v).1
toplevel_request i t self toplevel_unset_maximized v = (request_state i maximized false v).1
toplevel_request i t self (toplevel_set_fullscreen output) v =
    let (granted, v') = request_state i fullscreen true v in
    if granted then on_output output v' else v'
toplevel_request i t self toplevel_unset_fullscreen v = (request_state i fullscreen false v).1
toplevel_request i t self toplevel_set_minimized v = set_minimized i true v

-- `WL_SHELL_SURFACE_FULLSCREEN_METHOD_DEFAULT` is 0.
unfoldable pub shell_request : Interface → Strings → ℕ → ShellRequest → View → View
unfolding request_state set_output set_parent set_title set_class set_type
shell_request i t self shell_set_toplevel v =
    let (granted, v') = request_state i fullscreen false v in
    if granted then record v' { fullscreen_mode = 0 } else v'
shell_request i t self (shell_set_transient p at) v =
    let v' : View = set_parent self p v in
    record v' {
      pending = record v'.pending { geometry = record v'.pending.geometry { origin = at } };
    }
shell_request i t self (shell_set_fullscreen method output) v =
    let (granted, v') = request_state i fullscreen true v in
    if granted then record (on_output output v') { fullscreen_mode = method } else v'
shell_request i t self (shell_set_popup p at) v =
    let v' : View = set_parent self p (set_type popup true v) in
    record v' {
      pending = record v'.pending { geometry = record v'.pending.geometry { origin = at } };
    }
shell_request i t self (shell_set_maximized output) v =
    let (granted, v') = request_state i maximized true v in
    if granted then on_output output v' else v'
shell_request i t self (shell_set_title s) v = set_title t s v
shell_request i t self (shell_set_class s) v = set_class t s v
