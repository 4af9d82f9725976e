-- ===== src/Seat/Pointer.antt =====
-- src/compositor/seat/pointer.c: the focus of the pointer, its cursor, and the events for its clients.
-- Positions are doubles: what they come to is a parameter. Left out are the painting of the cursor and
-- the search for the surface under the pointer.
pub mod Focus
mod Tests
use wlc.Base.{
  ℕ, Bool, true, false, ◌&&◌, not, Option, none, some, List, [], ◌∷◌, ◌++◌, if◌then◌else◌, ◌==◌,
}
use wlc.Chck.{IterPool, or_same}
use wlc.Base.Int.{pos}
use wlc.Geometry.{Point}

-- A surface as the pointer meets it: its view, and the client of its resource, if that is there.
pub record PointerSurface : Type 0 where
  pub parent_view : ℕ
  pub client : Option ℕ

-- A view that has the focus of the keyboard: whether it is a popup that is not of X11, and its client.
pub record FocusedView : Type 0 where
  pub popup : Bool
  pub client : Option ℕ

-- What the pointer asks other parts: the client of a pointer resource that is there, surfaces, views,
-- whether the pointer is inside of the input region of a view, and the position on a surface.
pub record Around : Type 0 where
  pub client_of : ℕ → Option ℕ
  pub surface : ℕ → Option PointerSurface
  pub view : ℕ → Option FocusedView
  pub is_inside : ℕ → Bool
  pub position : ℕ → ℕ × ℕ

pub data PointerEvent : Type 0 where
  left : ℕ → ℕ → PointerEvent
  entered : ℕ → ℕ → ℕ × ℕ → PointerEvent
  pressed : ℕ → ℕ → ℕ → ℕ → PointerEvent
  surface_invalidated : ℕ → PointerEvent
  view_closed : ℕ → PointerEvent

pub record Pointer : Type 0 where
  pub resources : List ℕ
  pub tip : Point
  pub surface : ℕ
  pub focused_resources : List ℕ
  pub focused_surface : ℕ
  pub focused_view : ℕ
  pub events : List PointerEvent

abbrev pub send : List PointerEvent → Pointer → Pointer
send es p = record p { events = p.events ++ es }

-- An event for each resource of a list that is there.
unfoldable pub to_each : (ℕ → Option ℕ) → (ℕ → PointerEvent) → List ℕ → List PointerEvent
to_each client_of event [] = []
to_each client_of event (r ∷ rs) =
    let rest : List PointerEvent = to_each client_of event rs in
    elim (client_of r) [ none ↦ rest | some c ↦ event r ∷ rest ]

-- The client of the first resource that is there.
unfoldable pub focused_client : (ℕ → Option ℕ) → List ℕ → Option ℕ
focused_client client_of [] = none
focused_client client_of (r ∷ rs) = elim (client_of r) [
  | none ↦ focused_client client_of rs
  | some c ↦ some c
]

unfoldable pub set_surface : ℕ → Point → Pointer → Pointer
set_surface surface tip p =
    send (surface_invalidated p.surface ∷ []) (record p { tip = tip; surface = surface })

abbrev pub same_client : Option ℕ → Option ℕ → Bool
same_client none none = true
same_client (some a) (some b) = a == b
same_client _ _ = false

unfoldable pub set_cursor : Around → ℕ → ℕ → Point → Pointer → Pointer
unfolding focused_client set_surface
set_cursor w client surface hotspot p =
    if same_client (focused_client w.client_of p.focused_resources) (some client)
    then set_surface surface hotspot p
    else p

unfoldable pub client_in : Around → ℕ → Option ℕ
client_in w surface = elim (w.surface surface) [ none ↦ none | some s ↦ s.client ]

unfoldable pub defocus : Around → Pointer → Pointer
unfolding to_each client_in
defocus w p =
    let gone : Pointer = record p {
      focused_resources = [];
      focused_surface = 0;
      focused_view = 0;
    } in
    elim (client_in w p.focused_surface) [
      | none ↦ gone
      | some c ↦ send (to_each w.client_of (λ r. left r p.focused_surface) p.focused_resources) gone
    ]

-- The loop over the resources, for a client.
unfoldable pub enter_resources :
    IterPool → (ℕ → Option ℕ) → (ℕ → PointerEvent) → ℕ → List ℕ → Pointer → Pointer
enter_resources c client_of event client [] p = p
enter_resources c client_of event client (r ∷ rs) p =
    let next : Pointer = send (event r ∷ []) (record p {
      focused_resources = or_same (c.push_back p.focused_resources r) p.focused_resources;
    }) in
    enter_resources c client_of event client rs
      (if same_client (client_of r) (some client) then next else p)

-- The surface gets the focus, if its resource is there.
unfoldable pub enter_surface : IterPool → Around → ℕ → PointerSurface → Option ℕ → Pointer → Pointer
unfolding enter_resources
enter_surface c w surface s none p = p
enter_surface c w surface s (some client) p =
    record (enter_resources c w.client_of (λ r. entered r surface (w.position surface)) client
      p.resources p) { focused_surface = surface; focused_view = s.parent_view }

abbrev pub corner : Point
corner = record { x = pos 0; y = pos 0 }

unfoldable pub focus_view : IterPool → Around → ℕ → ℕ → Option PointerSurface → Pointer → Pointer
unfolding set_surface enter_surface
focus_view c w surface old none p = set_surface 0 corner p
focus_view c w surface old (some s) p =
    enter_surface c w surface s s.client
      (if s.parent_view == old then p else set_surface 0 corner p)

-- The number of a surface that is there, 0 for NULL.
abbrev pub number : ℕ → Option PointerSurface → ℕ
number surface none = 0
number surface (some s) = surface

unfoldable pub pointer_focus : IterPool → Around → ℕ → Pointer → Pointer
unfolding defocus focus_view
pointer_focus c w surface p =
    let s : Option PointerSurface = w.surface surface in
    if p.focused_surface == number surface s
    then p
    else focus_view c w surface p.focused_view s (defocus w p)

-- `keyboard` is the view that has the focus of the keyboard.
unfoldable pub pointer_button : Around → ℕ → ℕ → ℕ → ℕ → Pointer → Pointer
unfolding to_each focused_client
pointer_button w keyboard time button state p =
    let pass : Pointer =
      if w.is_inside p.focused_view
      then send (to_each w.client_of (λ r. pressed r time button state) p.focused_resources) p
      else p in
    if keyboard == p.focused_view then pass else elim (w.view keyboard) [
      | none ↦ pass
      | some v ↦
          if v.popup && not (same_client (focused_client w.client_of p.focused_resources) v.client)
          then send (view_closed keyboard ∷ []) p
          else pass
    ]
