-- ===== src/Seat/Pointer/Focus.antt =====
-- What the focus of the pointer moves.
use wlc.Base.{ℕ, ◌≡◌, none, some, List, [], ◌∷◌, ◌++◌, map, if◌then◌else◌, ◌==◌}
use wlc.Seat.Pointer.{
  PointerSurface, Around, PointerEvent, left, surface_invalidated, Pointer, to_each, set_surface,
  client_in, defocus, corner,
}

-- What the loop over the resources adds for a client.
record Entering (ps : List ℕ) (es : List PointerEvent) (rs : List ℕ) (event : ℕ → PointerEvent)
    (q : Pointer) : Type 0 where
  resources : q.focused_resources ≡ ps ++ rs
  events : q.events ≡ es ++ map event rs

-- What leaving the old surface sends, and what the change of the view does to the cursor.
unfoldable pub leaving : Around → Pointer → List PointerEvent
leaving w p = elim (client_in w p.focused_surface) [
  | none ↦ []
  | some c ↦ to_each w.client_of (λ r. left r p.focused_surface) p.focused_resources
]

abbrev pub resetting : ℕ → Pointer → List PointerEvent
resetting view p = if view == p.focused_view then [] else surface_invalidated p.surface ∷ []

-- The pointer without its focus.
record Cleared (w : Around) (p q : Pointer) : Type 0 where
  resources : q.resources ≡ p.resources
  focused_resources : q.focused_resources ≡ []
  surface : q.surface ≡ p.surface
  events : q.events ≡ p.events ++ leaving w p

-- The pointer once the cursor has been reset, if the view changes.
abbrev reset : Around → PointerSurface → Pointer → Pointer
reset w s p =
    if s.parent_view == p.focused_view then defocus w p else set_surface 0 corner (defocus w p)

record Reset (w : Around) (s : PointerSurface) (p q : Pointer) : Type 0 where
  resources : q.resources ≡ p.resources
  focused_resources : q.focused_resources ≡ []
  events : q.events ≡ (p.events ++ leaving w p) ++ resetting s.parent_view p
