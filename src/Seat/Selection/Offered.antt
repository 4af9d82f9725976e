-- ===== src/Seat/Selection/Offered.antt =====
-- What the client with the focus is told when the selection changes.
use wlc.Base.{
  ℕ, ◌≡◌, Bool, true, false, Option, none, some, List, [], ◌∷◌, ◌++◌, ◌==◌, if◌then◌else◌,
}
use wlc.Seat.Selection.{
  Source, SelectionEvent, cancelled, data_offer, selection, Manager, offer_types,
}

abbrev pub cancels_of : Option Source → List SelectionEvent
cancels_of none = []
cancels_of (some s) = cancelled s ∷ []

abbrev pub offer_of : ℕ → Option Source → List ℕ → List SelectionEvent
offer_of c none ts = selection c false ∷ []
offer_of c (some s) ts = data_offer c ∷ offer_types c ts ++ selection c true ∷ []

abbrev pub types_of : (Source → List ℕ) → Option Source → List ℕ
types_of types none = []
types_of types (some s) = types s

-- What the client with the focus is told, if there is one and it has a data device.
abbrev pub told : Option Source → ℕ → (ℕ → Bool) → (Source → List ℕ) → List SelectionEvent
told o focused has_device types =
    if focused == 0
    then []
    else if has_device focused
    then offer_of focused o (types_of types o)
    else []

module _ (o : Option Source) (m : Manager) where
  -- What cancelling leaves.
  record Same (e : List SelectionEvent) (u : Manager) : Type 0 where
    focused : u.focused ≡ m.focused
    has_device : u.has_device ≡ m.has_device
    types : u.types ≡ m.types
    source : u.source ≡ o
    events : u.events ≡ m.events ++ e
