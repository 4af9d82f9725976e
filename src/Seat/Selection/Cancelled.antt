-- ===== src/Seat/Selection/Cancelled.antt =====
-- A source is told that it is no longer the selection.
use wlc.Base.{
  ℕ, ◌+◌, ◌≡◌, refl, Bool, true, false, ◌&&◌, ◌||◌, not, Option, none, some, List, [], ◌∷◌, ◌++◌,
  if◌then◌else◌, ◌==◌, arith, if-elim,
}
use wlc.Seat.Selection.{
  Source, client_source, x11_source, same_source, holds, SelectionEvent, cancelled,
  selection_signal, data_offer, offer_type, selection, accepted, sent, dnd_finished, Manager, tell,
  offer_types, make_offer, change_source, cancel_source, manager_offer, set_source, set_selection,
  destroy_source, add_type, create_source, set_custom_selection, focus_client, SelectionRequest,
  create, add, select, destroy, select_custom, select_x11, focus, selection_request,
  selection_requests,
}

-- How often a source became the selection, and how often it was cancelled.
unfoldable pub selected : Source → List SelectionEvent → ℕ
selected s [] = 0
selected s (selection_signal t ∷ es) = (if holds t s then 1 else 0) + selected s es
selected s (e ∷ es) = selected s es

unfoldable pub cancels : Source → List SelectionEvent → ℕ
cancels s [] = 0
cancels s (cancelled t ∷ es) = (if same_source t s then 1 else 0) + cancels s es
cancels s (e ∷ es) = cancels s es

selected-append :
    (s : Source) (es fs : List SelectionEvent)
    → selected s (es ++ fs) ≡ selected s es + selected s fs
unfolding selected
selected-append s [] fs = omega arith
selected-append s (selection_signal t ∷ es) fs = omega (arith, selected-append s es fs)
selected-append s (cancelled t ∷ es) fs = selected-append s es fs
selected-append s (data_offer c ∷ es) fs = selected-append s es fs
selected-append s (offer_type c t ∷ es) fs = selected-append s es fs
selected-append s (selection c b ∷ es) fs = selected-append s es fs
selected-append s (accepted t x ∷ es) fs = selected-append s es fs
selected-append s (sent t x y ∷ es) fs = selected-append s es fs
selected-append s (dnd_finished t ∷ es) fs = selected-append s es fs

cancels-append :
    (s : Source) (es fs : List SelectionEvent) → cancels s (es ++ fs) ≡ cancels s es + cancels s fs
unfolding cancels
cancels-append s [] fs = omega arith
cancels-append s (cancelled t ∷ es) fs = omega (arith, cancels-append s es fs)
cancels-append s (selection_signal t ∷ es) fs = cancels-append s es fs
cancels-append s (data_offer c ∷ es) fs = cancels-append s es fs
cancels-append s (offer_type c t ∷ es) fs = cancels-append s es fs
cancels-append s (selection c b ∷ es) fs = cancels-append s es fs
cancels-append s (accepted t x ∷ es) fs = cancels-append s es fs
cancels-append s (sent t x y ∷ es) fs = cancels-append s es fs
cancels-append s (dnd_finished t ∷ es) fs = cancels-append s es fs

-- What an offer says counts for neither.
offer_types-counts :
    (s : Source) (c : ℕ) (ts : List ℕ)
    → (selected s (offer_types c ts ++ selection c true ∷ []) ≡ 0)
      × (cancels s (offer_types c ts ++ selection c true ∷ []) ≡ 0)
unfolding selected cancels
offer_types-counts s c [] = (refl, refl)
offer_types-counts s c (t ∷ ts) = offer_types-counts s c ts

-- The account of a source.
abbrev pub Balances : Source → Manager → Type 0
Balances s m = selected s m.events ≡ cancels s m.events + (if holds m.source s then 1 else 0)

-- Events that count for neither leave the account.
tell-Balances :
    (s : Source) (es : List SelectionEvent) (m : Manager)
    → (selected s es ≡ 0) × (cancels s es ≡ 0)
    → Balances s m
    → Balances s (tell es m)
tell-Balances s es m z b =
    ground (arith, selected-append s m.events es, cancels-append s m.events es, z, b)

module _ (s : Source) (memory : Bool) where
  make_offer-Balances :
      (b : Bool) (c : ℕ) (o : Option Source) (m : Manager)
      → Balances s m
      → Balances s (make_offer b c o m)
  unfolding make_offer selected cancels
  make_offer-Balances b c none m k = tell-Balances s (selection c false ∷ []) m (refl, refl) k
  make_offer-Balances true c (some t) m k =
      tell-Balances s (data_offer c ∷ offer_types c (m.types t) ++ selection c true ∷ []) m
        (offer_types-counts s c (m.types t)) k
  make_offer-Balances false c (some t) m k = k

  manager_offer-Balances :
      (c : ℕ) (m : Manager) → Balances s m → Balances s (manager_offer memory c m)
  unfolding manager_offer
  manager_offer-Balances c m k =
      if-elim (Balances s) (m.has_device c) (make_offer memory c m.source m) m
        (make_offer-Balances memory c m.source m k) k

  cancel_source-counts :
      (o : Option Source) (m : Manager)
      → (selected s (cancel_source o m).events ≡ selected s m.events)
        × (cancels s (cancel_source o m).events ≡ cancels s m.events + (if holds o s then 1 else 0))
  unfolding cancel_source selected cancels
  cancel_source-counts none m = (refl, omega arith)
  cancel_source-counts (some t) m = (
    ground (arith, selected-append s m.events (cancelled t ∷ [])),
    ground (arith, cancels-append s m.events (cancelled t ∷ [])),
  )

  change_source-Balances :
      (o : Option Source) (m : Manager) → Balances s m → Balances s (change_source o m)
  unfolding change_source selected cancels
  change_source-Balances o m k =
      let c = cancel_source-counts m.source m in
      let e = (cancel_source m.source m).events in
      let f = selection_signal o ∷ [] in
      ground (arith, k, c.0, c.1, selected-append s e f, cancels-append s e f)

  set_source-Balances :
      (o : Option Source) (m : Manager) → Balances s m → Balances s (set_source memory o m)
  unfolding set_source
  set_source-Balances o m k =
      let m1 : Manager = change_source o m in
      let b : Balances s m1 = change_source-Balances o m k in
      if-elim (Balances s) (m1.focused == 0) m1 (manager_offer memory m1.focused m1) b
        (manager_offer-Balances m1.focused m1 b)

  set_selection-Balances :
      (c : ℕ) (r : Option ℕ) (m : Manager) → Balances s m → Balances s (set_selection memory c r m)
  unfolding set_selection
  set_selection-Balances c none m k = k
  set_selection-Balances c (some r) m k =
      let m1 : Manager = set_source memory (some (client_source r)) m in
      if-elim (Balances s) (not (m.is_alive r) || holds m.source (client_source r)) m
        (manager_offer memory c m1) k
        (manager_offer-Balances c m1 (set_source-Balances (some (client_source r)) m k))

  destroy_source-Balances :
      (r : ℕ) (m : Manager) → Balances s m → Balances s (destroy_source memory r m)
  unfolding destroy_source
  destroy_source-Balances r m k =
      if-elim (Balances s) (m.is_alive r && holds m.source (client_source r))
        (set_source memory none m) m (set_source-Balances none m k) k

  selection_request-Balances :
      (r : SelectionRequest) (m : Manager)
      → Balances s m
      → Balances s (selection_request memory r m)
  unfolding selection_request create_source add_type set_custom_selection focus_client
  selection_request-Balances (create r) m k =
      if-elim (Balances s) (m.is_alive r) m (create_source r m) k k
  selection_request-Balances (add r t) m k = if-elim (Balances s) (m.is_alive r) _ m k k
  selection_request-Balances (select c r) m k = set_selection-Balances c r m k
  selection_request-Balances (destroy r) m k = destroy_source-Balances r m k
  selection_request-Balances (select_custom ts) m k = set_source-Balances _ _ k
  selection_request-Balances (select_x11 true) m k = set_source-Balances (some x11_source) m k
  selection_request-Balances (select_x11 false) m k = set_source-Balances none m k
  selection_request-Balances (focus c) m k =
      let m1 : Manager = record m { focused = c } in
      if-elim (Balances s) (c == 0) m1 (manager_offer memory c m1) k (manager_offer-Balances c m1 k)

-- However clients, the program and X11 change the selection: each source has been cancelled as often
-- as it became the selection, less one if it is the selection now.
pub selection_requests-Balances :
    (s : Source) (memory : Bool) (rs : List SelectionRequest) (m : Manager)
    → Balances s m
    → Balances s (selection_requests memory rs m)
unfolding selection_requests
selection_requests-Balances s memory [] m k = k
selection_requests-Balances s memory (r ∷ rs) m k =
    selection_requests-Balances s memory rs (selection_request memory r m)
      (selection_request-Balances s memory r m k)
