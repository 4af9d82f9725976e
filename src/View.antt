-- ===== src/View.antt =====
-- src/compositor/view.c and view.h: the state of a view, pending and committed, and its operations.
-- The state bits are fields. The interface of the compositor that uses the library is a parameter, a
-- callback that may change the view is a function on views, and one that is not set is `none`. Strings
-- and pools are of lib/chck. The view itself is there; the operations return at once on NULL.
pub mod Requests
pub mod Settled
pub mod Commit
pub mod Granted
pub mod Listed
pub mod Samples
mod Tests
use wlc.Base.{
  ℕ, Bool, true, false, ◌&&◌, ◌||◌, not, Option, none, some, List, [], ◌∷◌, ◌++◌, if◌then◌else◌,
  ◌==◌, same,
}
use wlc.Chck.{IterPool, or_same}
use wlc.Geometry.{Point, Size, Geometry, size_equals, geometry_equals}
use wlc.Positioner.{Positioner, popup_size}

pub data StateBit : Type 0 where
  maximized fullscreen resizing moving activated : StateBit

-- `wlc_view_state.state`
pub record States : Type 0 where
  pub is_maximized : Bool
  pub is_fullscreen : Bool
  pub is_resizing : Bool
  pub is_moving : Bool
  pub is_activated : Bool

-- `state & bit`
unfoldable pub has_state : States → StateBit → Bool
has_state s maximized = s.is_maximized
has_state s fullscreen = s.is_fullscreen
has_state s resizing = s.is_resizing
has_state s moving = s.is_moving
has_state s activated = s.is_activated

-- `BIT_TOGGLE`
unfoldable pub toggle_state : States → StateBit → Bool → States
toggle_state s maximized f = record s { is_maximized = f }
toggle_state s fullscreen f = record s { is_fullscreen = f }
toggle_state s resizing f = record s { is_resizing = f }
toggle_state s moving f = record s { is_moving = f }
toggle_state s activated f = record s { is_activated = f }

unfoldable pub states_equal : States → States → Bool
states_equal a b =
    same a.is_maximized b.is_maximized
    && same a.is_fullscreen b.is_fullscreen
    && same a.is_resizing b.is_resizing
    && same a.is_moving b.is_moving
    && same a.is_activated b.is_activated

pub data TypeBit : Type 0 where
  override_redirect unmanaged splash modal popup : TypeBit

abbrev pub same_type : TypeBit → TypeBit → Bool
same_type override_redirect override_redirect = true
same_type unmanaged unmanaged = true
same_type splash splash = true
same_type modal modal = true
same_type popup popup = true
same_type _ _ = false

pub record ViewState : Type 0 where
  pub geometry : Geometry
  pub edges : ℕ
  pub state : States

-- `memcmp` of two states, which have no padding.
unfoldable pub view_states_equal : ViewState → ViewState → Bool
unfolding states_equal
view_states_equal a b =
    geometry_equals a.geometry b.geometry && a.edges == b.edges && states_equal a.state b.state

pub data Property : Type 0 where
  title_property class_property app_id_property pid_property : Property

-- Calls into other parts, in order. A link names the output, whether it is above, and the other view.
pub data ViewEvent : Type 0 where
  repaint_scheduled : ℕ → ViewEvent
  configured_toplevel : Size → List ℕ → ViewEvent
  configured_popup : Point → Size → ViewEvent
  configured_shell_surface : ℕ → Size → ViewEvent
  configured_x11 : Geometry → ViewEvent
  configured_xdg_surface : ViewEvent
  linked : ℕ → Bool → ℕ → ViewEvent
  unlinked : ℕ → ViewEvent
  destroyed : ViewEvent
  closed_toplevel : ViewEvent
  closed_x11 : ViewEvent
  popup_done : ViewEvent
  shell_popup_done : ViewEvent
  client_destroyed : ViewEvent
  coordinates_updated : ViewEvent
  x11_state_set : StateBit → Bool → ViewEvent
  x11_activated : ViewEvent
  focus_requested : ViewEvent
  properties_updated : Property → ViewEvent
  move_requested : ℕ → Point → ViewEvent
  resize_requested : ℕ → ℕ → Point → ViewEvent

-- The roles that have a live resource, or an X11 window.
pub record Roles : Type 0 where
  pub xdg_toplevel : Bool
  pub xdg_popup : Bool
  pub shell_surface : Bool
  pub xdg_surface : Bool
  pub x11 : Bool

-- `surface` is the size of the surface and its output, 0 for none, where the view has a surface.
pub record View : Type 0 where
  pub pending : ViewState
  pub commit : ViewState
  pub wl_state : List ℕ
  pub parent : ℕ
  pub surface : Option (Size × ℕ)
  pub roles : Roles
  pub positioner : Option Positioner
  pub app_id : List ℕ
  pub title : List ℕ
  pub instance_name : List ℕ
  pub class_name : List ℕ
  pub pid : ℕ
  pub fullscreen_mode : ℕ
  pub minimized : Bool
  pub type : TypeBit → Bool
  pub mask : ℕ
  pub created : Bool
  pub events : List ViewEvent

pub record Interface : Type 0 where
  pub view_created : Option (View → Bool × View)
  pub request_geometry : Option (Geometry → View → View)
  pub request_state : Option (StateBit → Bool → View → View)
  pub request_minimize : Option (Bool → View → Bool × View)

-- `chck_cstrneq`, `chck_cstreq` and the setting of a string, which can fail for want of memory.
pub record Strings : Type 0 where
  pub cstrneq : List ℕ → List ℕ → Bool
  pub cstreq : List ℕ → List ℕ → Bool
  pub set : List ℕ → Option (List ℕ)

abbrev pub emit : ViewEvent → View → View
emit e v = record v { events = v.events ++ e ∷ [] }

-- `wlc_view_get_output_ptr`, 0 for NULL
unfoldable pub output_of : View → ℕ
output_of v = elim v.surface [ none ↦ 0 | some s ↦ s.1 ]

-- What `configure_view` sends for the role.
unfoldable pub configure_role : ℕ → Geometry → View → List ViewEvent
unfolding popup_size
configure_role edges g v =
    if v.roles.xdg_toplevel
    then configured_toplevel g.size v.wl_state ∷ []
    else if v.roles.xdg_popup
    then configured_popup g.origin (popup_size v.positioner g) ∷ []
    else if v.roles.shell_surface
    then configured_shell_surface edges g.size ∷ []
    else if v.roles.x11
    then configured_x11 g ∷ []
    else []

unfoldable pub configure_view : ℕ → Geometry → View → View
unfolding configure_role
configure_view edges g v = record v {
  events =
      v.events
      ++ (configure_role edges g v
          ++ (if v.roles.xdg_surface then configured_xdg_surface ∷ [] else []));
}

unfoldable pub update : View → View
unfolding view_states_equal output_of
update v =
    if view_states_equal v.pending v.commit then v else emit (repaint_scheduled (output_of v)) v

unfoldable pub close : View → View
close v =
    if v.roles.xdg_toplevel
    then emit closed_toplevel v
    else if v.roles.x11
    then emit closed_x11 v
    else if v.roles.xdg_popup
    then emit popup_done v
    else if v.roles.shell_surface
    then (if v.type popup
        then emit shell_popup_done v
        else emit client_destroyed (record v { roles = record v.roles { shell_surface = false } }))
    else v

-- The table of `wlc_view_commit_state`; the codes of xdg-shell are of generated code, a parameter.
abbrev pub state_map : List StateBit
state_map = maximized ∷ fullscreen ∷ resizing ∷ activated ∷ []

unfoldable pub push_states : IterPool → (StateBit → ℕ) → States → List StateBit → List ℕ → List ℕ
unfolding has_state
push_states c code s [] xs = xs
push_states c code s (b ∷ bs) xs =
    push_states c code s bs (if has_state s b then or_same (c.push_back xs (code b)) xs else xs)

-- The rest of `wlc_view_commit_state`, for a surface of the given size.
unfoldable pub commit_pending : IterPool → (StateBit → ℕ) → Size → View → View
unfolding view_states_equal push_states configure_view states_equal
commit_pending c code surface_size v =
    let same_state : Bool = states_equal v.pending.state v.commit.state in
    let v1 : View =
      if same_state
      then v
      else record v { wl_state = push_states c code v.pending.state state_map [] } in
    let size_changed : Bool =
      not (size_equals v.pending.geometry.size v.commit.geometry.size)
      || not (size_equals v.pending.geometry.size surface_size) in
    let v2 : View =
      if not same_state || size_changed
      then configure_view v.pending.edges v.pending.geometry v1
      else v1 in
    if view_states_equal v.pending v.commit
    then v
    else emit coordinates_updated (record v2 { commit = v.pending })

-- `view.created`: whether the compositor takes the view.
unfoldable pub announce : Interface → View → Bool × View
announce i v = elim i.view_created [ none ↦ (true, v) | some f ↦ f v ]

-- The commit of a view with the given surface.
unfoldable pub commit_on : IterPool → (StateBit → ℕ) → Interface → Option (Size × ℕ) → View → View
unfolding commit_pending close announce
commit_on c code i none v = v
commit_on c code i (some s) v =
    let sized : View = record v {
      pending = record v.pending { geometry = record v.pending.geometry { size = s.0 } };
      created = true;
    } in
    let (taken, v') = announce i sized in
    if v.created
    then commit_pending c code s.0 v
    else if taken
    then commit_pending c code s.0 v'
    else close v'

unfoldable pub commit_state : IterPool → (StateBit → ℕ) → Interface → View → View
unfolding commit_on
commit_state c code i v = commit_on c code i v.surface v

unfoldable pub map_view : IterPool → (StateBit → ℕ) → Interface → View → View
unfolding commit_state configure_view output_of
map_view c code i v =
    if v.created
    then v
    else commit_state c code i
        (configure_view v.pending.edges v.pending.geometry (emit (linked (output_of v) true 0) v))

unfoldable pub unmap_view : View → View
unfolding output_of
unmap_view v =
    let v' : View = emit (unlinked (output_of v)) v in
    if v.created then record (emit destroyed v') { created = false } else v'
