-- ===== src/Seat/Touch/Highest.antt =====
-- Which view a touch goes to, and what is sent for it.
use wlc.Base.{
  ℕ, ◌≡◌, ◌⊎◌, true, false, Option, none, some, List, [], ◌∷◌, ◌++◌, map, All, if◌then◌else◌, ◌==◌,
}
use wlc.Geometry.{Point}
use wlc.Seat.Touch.{
  Target, TouchType, TouchEvent, Touch, TouchWorld, reversed, is_hit, touch_event, touch,
  is_handled, touch_calls,
}

-- What the loop finds: no view that is hit, or the first one.
abbrev pub Found : (ℕ → Option Target) → Point → List ℕ → ℕ → Type 0
Found view pos hs h =
    ((h ≡ 0) × All (λ (x : ℕ). is_hit view pos x ≡ false) hs)
    ⊎ ((above : List ℕ) × (below : List ℕ) × (hs ≡ above ++ h ∷ below)
        × (is_hit view pos h ≡ true)
        × All (λ (x : ℕ). is_hit view pos x ≡ false) above)

-- The resources of a client, in their order, and one event for each.
unfoldable pub of_client : (ℕ → Option ℕ) → ℕ → List ℕ → List ℕ
of_client client_of client [] = []
of_client client_of client (r ∷ rs) = elim (client_of r) [
  | none ↦ of_client client_of client rs
  | some c ↦
      if c == client then r ∷ of_client client_of client rs else of_client client_of client rs
]

-- What a touch sends to the resources of a client, if there is one.
unfoldable pub received : (ℕ → Option ℕ) → (ℕ → TouchEvent) → Option ℕ → List ℕ → List TouchEvent
unfolding of_client
received client_of event none rs = []
received client_of event (some c) rs = map event (of_client client_of c rs)

-- What reaches the client of the view that has the focus.
unfoldable pub delivered : TouchWorld → (ℕ → TouchEvent) → ℕ → List ℕ → List TouchEvent
unfolding received
delivered w event h rs = elim (w.view h) [
  | none ↦ []
  | some v ↦ received w.client_of event v.client rs
]

module _ (w : TouchWorld) (time slot : ℕ) (type : TouchType) (p : Point)
    (free : w.view 0 ≡ none) where
  event : ℕ → TouchEvent
  event = touch_event w.fixed type time slot p

  sent : Touch → Touch
  sent t = touch w.fixed w.view w.client_of time type slot p t

  -- What follows once the focus is known.
  calls : ℕ → List TouchEvent
  calls h = touch_calls w h time type slot p

  rest : ℕ → List ℕ → List TouchEvent
  unfolding event
  rest h rs = if is_handled w h time type slot p then [] else delivered w event h rs

-- The view that a touch at a position is on: none without an output, or where no view of it is hit;
-- and otherwise the highest of those that are hit.
abbrev pub IsUnder : TouchWorld → Option (List ℕ) → Point → ℕ → Type 0
IsUnder w none p h = h ≡ 0
IsUnder w (some views) p h = Found w.view p (reversed views) h
