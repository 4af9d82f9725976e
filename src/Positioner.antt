-- ===== src/Positioner.antt =====
-- src/resources/types/xdg-positioner.c: the requests of a positioner, and src/compositor/view.c:
-- which positioner a view is placed by. An int32_t of a request is an integer; a set of bits is a
-- record of Booleans, since the numbers of the protocol's enums come from a generated header.
pub mod Requests
mod Tests
use wlc.Base.{ℕ, Bool, true, false, ◌&&◌, ◌||◌, Option, none, some, if◌then◌else◌, List, [], ◌∷◌}
use wlc.Base.Int.{ℤ, pos, negsuc, ltb_ℤ}
use wlc.Geometry.{Point, Size, Geometry}

-- The bits of an anchor or a gravity.
pub record Edges : Type 0 where
  pub top : Bool
  pub bottom : Bool
  pub left : Bool
  pub right : Bool

pub record Adjustment : Type 0 where
  pub slide_x : Bool
  pub slide_y : Bool
  pub flip_x : Bool
  pub flip_y : Bool
  pub resize_x : Bool
  pub resize_y : Bool

-- `struct wlc_xdg_positioner`; its two flags are `has_size` and `has_anchor_rect`.
pub record Positioner : Type 0 where
  pub has_size : Bool
  pub has_anchor_rect : Bool
  pub size : Size
  pub offset : Point
  pub anchor_rect : Geometry
  pub anchor : Edges
  pub gravity : Edges
  pub adjustment : Adjustment

abbrev pub no_edges : Edges
no_edges = record { top = false; bottom = false; left = false; right = false }

-- Zeroed memory.
abbrev pub new_positioner : Positioner
new_positioner = record {
  has_size = false;
  has_anchor_rect = false;
  size = record { w = 0; h = 0 };
  offset = record { x = pos 0; y = pos 0 };
  anchor_rect = record { origin = record { x = pos 0; y = pos 0 }; size = record { w = 0; h = 0 } };
  anchor = no_edges;
  gravity = no_edges;
  adjustment = record {
    slide_x = false;
    slide_y = false;
    flip_x = false;
    flip_y = false;
    resize_x = false;
    resize_y = false;
  };
}

-- A positive int32_t as a uint32_t.
abbrev pub natural : ℤ → ℕ
natural (pos n) = n
natural (negsuc n) = 0

-- Every handler returns whether it posts the error INVALID_INPUT, and the positioner.
unfoldable pub protocol_set_size : ℤ → ℤ → Positioner → Bool × Positioner
protocol_set_size width height p =
    if ltb_ℤ width (pos 1) || ltb_ℤ height (pos 1) then (true, p) else (
      false,
      record p { size = record { w = natural width; h = natural height }; has_size = true },
    )

unfoldable pub protocol_set_anchor_rect : ℤ → ℤ → ℤ → ℤ → Positioner → Bool × Positioner
protocol_set_anchor_rect x y width height p =
    if ltb_ℤ width (pos 1) || ltb_ℤ height (pos 1) then (true, p) else (
      false,
      record p {
        anchor_rect = record {
          origin = record { x = x; y = y };
          size = record { w = natural width; h = natural height };
        };
        has_anchor_rect = true;
      },
    )

-- Both edges of one axis.
abbrev pub same_axis : Edges → Bool
same_axis e = (e.top && e.bottom) || (e.left && e.right)

unfoldable pub protocol_set_anchor : Edges → Positioner → Bool × Positioner
protocol_set_anchor anchor p =
    if same_axis anchor then (true, p) else (false, record p { anchor = anchor })

unfoldable pub protocol_set_gravity : Edges → Positioner → Bool × Positioner
protocol_set_gravity gravity p =
    if same_axis gravity then (true, p) else (false, record p { gravity = gravity })

unfoldable pub protocol_set_constraint_adjustment : Adjustment → Positioner → Bool × Positioner
protocol_set_constraint_adjustment adjustment p = (false, record p { adjustment = adjustment })

unfoldable pub protocol_set_offset : ℤ → ℤ → Positioner → Bool × Positioner
protocol_set_offset x y p = (false, record p { offset = record { x = x; y = y } })

-- The requests of the interface, but for `destroy`.
pub data PositionerRequest : Type 0 where
  set_size : ℤ → ℤ → PositionerRequest
  set_anchor_rect : ℤ → ℤ → ℤ → ℤ → PositionerRequest
  set_anchor set_gravity : Edges → PositionerRequest
  set_constraint_adjustment : Adjustment → PositionerRequest
  set_offset : ℤ → ℤ → PositionerRequest

unfoldable pub request : PositionerRequest → Positioner → Bool × Positioner
unfolding protocol_set_size protocol_set_anchor_rect protocol_set_anchor protocol_set_gravity
    protocol_set_constraint_adjustment protocol_set_offset
request (set_size width height) p = protocol_set_size width height p
request (set_anchor_rect x y width height) p = protocol_set_anchor_rect x y width height p
request (set_anchor anchor) p = protocol_set_anchor anchor p
request (set_gravity gravity) p = protocol_set_gravity gravity p
request (set_constraint_adjustment a) p = protocol_set_constraint_adjustment a p
request (set_offset x y) p = protocol_set_offset x y p

-- A client that posts an error is disconnected, and sends no further request.
unfoldable pub requests : List PositionerRequest → Positioner → Bool × Positioner
unfolding request
requests [] p = (false, p)
requests (r ∷ rs) p =
    let (failed, p') = request r p in
    let rest = requests rs p' in if failed then (true, p') else rest

-- `get_xdg_positioner_for_handle`, for a popup with the given positioner.
unfoldable pub get_xdg_positioner : Option Positioner → Option Positioner
get_xdg_positioner none = none
get_xdg_positioner (some p) = if p.has_size || p.has_anchor_rect then some p else none

-- The size with which `configure_view` configures a popup at a given geometry.
unfoldable pub popup_size : Option Positioner → Geometry → Size
popup_size none g = g.size
popup_size (some p) g = if p.has_size then p.size else g.size
