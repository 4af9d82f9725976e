-- ===== src/Seat/Touch.antt =====
-- src/compositor/seat/touch.c: the view under a touch, and the events that its client gets; and the touch
-- events of src/compositor/seat/seat.c: input_event.
pub mod Highest
mod Tests
use wlc.Base.{
  ℕ, ◌+◌, ◌≡◌, ◌≢◌, ◌∙◌, sym, ◌⊎◌, inl, inr, refl, ap, Bool, true, false, ◌&&◌, not, Option, none,
  some, List, [], ◌∷◌, ◌++◌, map, arith, All, if◌then◌else◌, if-true, if-false, ◌==◌, Bool-cases,
  Option-cases,
}
use wlc.Base.Int.{ℤ, leb_ℤ}
use wlc.Geometry.{Point, Geometry, far_x, far_y}

-- A view as a touch meets it: whether the mask of the output shows it, its bounds, and the client of
-- its surface, `none` where there is no such resource.
pub record Target : Type 0 where
  pub visible : Bool
  pub bounds : Geometry
  pub client : Option ℕ

pub data TouchType : Type 0 where
  down up motion frame cancel : TouchType

-- An event for a resource: its type, time, slot and position, as far as the type sends them; the call of
-- the interface, with the view that has the focus; and that of `wlc_pointer_motion`, with whether the
-- motion is passed on to clients.
pub data TouchEvent : Type 0 where
  sent_down : ℕ → ℕ → ℕ → Point → TouchEvent
  sent_up : ℕ → ℕ → ℕ → TouchEvent
  sent_motion : ℕ → ℕ → ℕ → Point → TouchEvent
  sent_frame : ℕ → TouchEvent
  sent_cancel : ℕ → TouchEvent
  asked : ℕ → ℕ → TouchType → ℕ → Point → TouchEvent
  pointer_motion : ℕ → Bool → TouchEvent

pub record Touch : Type 0 where
  pub focus : ℕ
  pub resources : List ℕ
  pub events : List TouchEvent

-- The order of `chck_iter_pool_for_each_reverse`.
abbrev pub reversed : List ℕ → List ℕ
reversed [] = []
reversed (x ∷ xs) = reversed xs ++ x ∷ []

-- The test of a position against bounds, whose far edges belong to them and are taken in ℤ.
abbrev pub is_inside : Point → Geometry → Bool
is_inside pos b =
    (leb_ℤ b.origin.x pos.x && leb_ℤ pos.x (far_x b))
    && (leb_ℤ b.origin.y pos.y && leb_ℤ pos.y (far_y b))

abbrev pub is_hit : (ℕ → Option Target) → Point → ℕ → Bool
is_hit view pos h = elim (view h) [ none ↦ false | some v ↦ v.visible && is_inside pos v.bounds ]

-- The loop over the views, the highest first; 0 is none.
unfoldable pub first_hit : (ℕ → Option Target) → Point → List ℕ → ℕ
first_hit view pos [] = 0
first_hit view pos (h ∷ hs) = if is_hit view pos h then h else first_hit view pos hs

-- The argument is the pool of views of the active output, the lowest first, if there is one.
unfoldable pub view_under_touch : (ℕ → Option Target) → Option (List ℕ) → Point → Touch → ℕ × Touch
unfolding first_hit
view_under_touch view none pos t = (0, record t { focus = 0 })
view_under_touch view (some views) pos t =
    let h : ℕ = first_hit view pos (reversed views) in (h, record t { focus = h })

-- The position as clients are told it; `fixed` is `wl_fixed_from_int` of libwayland.
abbrev pub fixed_point : (ℤ → ℤ) → Point → Point
fixed_point fixed p = record { x = fixed p.x; y = fixed p.y }

abbrev pub touch_event : (ℤ → ℤ) → TouchType → ℕ → ℕ → Point → ℕ → TouchEvent
touch_event fixed down time slot pos r = sent_down r time slot (fixed_point fixed pos)
touch_event fixed up time slot pos r = sent_up r time slot
touch_event fixed motion time slot pos r = sent_motion r time slot (fixed_point fixed pos)
touch_event fixed frame time slot pos r = sent_frame r
touch_event fixed cancel time slot pos r = sent_cancel r

-- The loop over the resources; `client_of` is the client of a resource that is there.
unfoldable pub send_touch : (ℕ → Option ℕ) → (ℕ → TouchEvent) → ℕ → List ℕ → List TouchEvent
send_touch client_of event client [] = []
send_touch client_of event client (r ∷ rs) =
    let rest : List TouchEvent = send_touch client_of event client rs in
    elim (client_of r) [ none ↦ rest | some c ↦ if c == client then event r ∷ rest else rest ]

-- The events go to a client, where the surface has one.
unfoldable pub deliver : (ℕ → Option ℕ) → (ℕ → TouchEvent) → Option ℕ → Touch → Touch
unfolding send_touch
deliver client_of event none t = t
deliver client_of event (some c) t = record t {
  events = t.events ++ send_touch client_of event c t.resources;
}

unfoldable pub touch :
    (ℤ → ℤ) → (ℕ → Option Target) → (ℕ → Option ℕ) → ℕ → TouchType → ℕ → Point → Touch → Touch
unfolding deliver
touch fixed view client_of time type slot pos t = if t.focus == 0 then t else elim (view t.focus) [
  | none ↦ t
  | some v ↦ deliver client_of (touch_event fixed type time slot pos) v.client t
]

-- What the touch events of a seat stand on: the views and the clients of resources, the pool of views of
-- the active output if there is one, and the callback `touch.touch` of the interface if it is set.
pub record TouchWorld : Type 0 where
  pub fixed : ℤ → ℤ
  pub view : ℕ → Option Target
  pub client_of : ℕ → Option ℕ
  pub views : Option (List ℕ)
  pub callback : Option (ℕ → ℕ → TouchType → ℕ → Point → Bool)

abbrev pub is_start : TouchType → ℕ → Bool
is_start down slot = slot == 0
is_start _ slot = false

abbrev pub moves_pointer : TouchType → Bool
moves_pointer down = true
moves_pointer motion = true
moves_pointer _ = false

-- Without the two functions of the device the position is 0, 0.
abbrev pub touch_position : Option Point → Point
touch_position none = record { x = ℤ.pos 0; y = ℤ.pos 0 }
touch_position (some p) = p

abbrev pub is_handled : TouchWorld → ℕ → ℕ → TouchType → ℕ → Point → Bool
is_handled w focused time type slot p = elim w.callback [
  | none ↦ false
  | some f ↦ f focused time type slot p
]

abbrev pub add_events : List TouchEvent → Touch → Touch
add_events es t = record t { events = t.events ++ es }

-- The calls before a touch goes to a client.
abbrev pub touch_calls : TouchWorld → ℕ → ℕ → TouchType → ℕ → Point → List TouchEvent
touch_calls w focused time type slot p =
    elim w.callback [ none ↦ [] | some f ↦ asked focused time type slot p ∷ [] ]
    ++ (if moves_pointer type
        then pointer_motion time (not (is_handled w focused time type slot p)) ∷ []
        else [])

-- The case of a touch in `input_event`.
unfoldable pub touch_input : TouchWorld → ℕ → TouchType → ℕ → Option Point → Touch → Touch
unfolding view_under_touch touch
touch_input w time type slot position t =
    let p : Point = touch_position position in
    let found : Touch = if is_start type slot then (view_under_touch w.view w.views p t).1 else t in
    let called : Touch = add_events (touch_calls w found.focus time type slot p) found in
    if is_handled w found.focus time type slot p
    then called
    else touch w.fixed w.view w.client_of time type slot p called
