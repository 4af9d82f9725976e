-- ===== src/Seat/Selection.antt =====
-- src/compositor/seat/data.c: the data source that is the selection, and what clients are told of it.
-- A source is known by its owner: the resource of a client, the clipboard of X11, or a selection that
-- the program made itself.
pub mod Cancelled
pub mod Offered
pub mod Alive
mod Tests
use wlc.Base.{
  ℕ, suc, ◌≡◌, Bool, true, false, ◌&&◌, ◌||◌, not, Option, none, some, List, [], ◌∷◌, ◌++◌,
  if◌then◌else◌, ◌==◌,
}

pub data Source : Type 0 where
  client_source : ℕ → Source
  custom_source : ℕ → Source
  x11_source : Source

abbrev pub same_source : Source → Source → Bool
same_source (client_source a) (client_source b) = a == b
same_source (custom_source a) (custom_source b) = a == b
same_source x11_source x11_source = true
same_source _ _ = false

-- `manager->source == source`.
abbrev pub holds : Option Source → Source → Bool
holds none s = false
holds (some t) s = same_source t s

-- Calls of the implementation of a source, the signal `selection`, and events for clients.
pub data SelectionEvent : Type 0 where
  cancelled : Source → SelectionEvent
  selection_signal : Option Source → SelectionEvent
  data_offer : ℕ → SelectionEvent
  offer_type : ℕ → ℕ → SelectionEvent
  selection : ℕ → Bool → SelectionEvent
  accepted : Source → ℕ → SelectionEvent
  sent : Source → ℕ → ℕ → SelectionEvent
  dnd_finished : Source → SelectionEvent

-- `struct wlc_data_device_manager` with the sources; `focused` is the client of the view with the
-- keyboard's focus, 0 for none. A type is a number.
pub record Manager : Type 0 where
  pub source : Option Source
  pub focused : ℕ
  pub has_device : ℕ → Bool
  pub is_alive : ℕ → Bool
  pub types : Source → List ℕ
  pub next_custom : ℕ
  pub events : List SelectionEvent

abbrev pub tell : List SelectionEvent → Manager → Manager
tell es m = record m { events = m.events ++ es }

abbrev pub offer_types : ℕ → List ℕ → List SelectionEvent
offer_types client [] = []
offer_types client (t ∷ ts) = offer_type client t ∷ offer_types client ts

-- What a client is told of the selection; `memory` is whether the resource of an offer can be made.
unfoldable pub make_offer : Bool → ℕ → Option Source → Manager → Manager
make_offer memory client none m = tell (selection client false ∷ []) m
make_offer true client (some s) m =
    tell (data_offer client ∷ offer_types client (m.types s) ++ selection client true ∷ []) m
make_offer false client (some s) m = m

-- The client is not NULL.
unfoldable pub manager_offer : Bool → ℕ → Manager → Manager
unfolding make_offer
manager_offer memory client m =
    if m.has_device client then make_offer memory client m.source m else m

-- The source that is the selection is cancelled.
unfoldable pub cancel_source : Option Source → Manager → Manager
cancel_source none m = m
cancel_source (some t) m = tell (cancelled t ∷ []) m

-- The source is changed, and the change is signalled.
unfoldable pub change_source : Option Source → Manager → Manager
unfolding cancel_source
change_source s m =
    tell (selection_signal s ∷ []) (record (cancel_source m.source m) { source = s })

-- `wlc_data_device_manager_set_source`.
unfoldable pub set_source : Bool → Option Source → Manager → Manager
unfolding manager_offer change_source
set_source memory s m =
    let m1 : Manager = change_source s m in
    if m1.focused == 0 then m1 else manager_offer memory m1.focused m1

-- `wl_cb_data_device_set_selection`, from a client; a source that is not there is NULL.
unfoldable pub set_selection : Bool → ℕ → Option ℕ → Manager → Manager
unfolding set_source manager_offer
set_selection memory client none m = m
set_selection memory client (some r) m =
    if not (m.is_alive r) || holds m.source (client_source r)
    then m
    else manager_offer memory client (set_source memory (some (client_source r)) m)

-- `wl_cb_data_source_destroy`.
unfoldable pub destroy_source : Bool → ℕ → Manager → Manager
unfolding set_source
destroy_source memory r m =
    let m1 : Manager =
      if m.is_alive r && holds m.source (client_source r) then set_source memory none m else m in
    record m1 { is_alive = λ x. if r == x then false else m1.is_alive x }

-- What a source does with what an offer passes on; X11 and the program do nothing on accept.
unfoldable pub accept : Source → ℕ → Manager → Manager
accept (client_source r) type m = tell (accepted (client_source r) type ∷ []) m
accept (custom_source n) type m = m
accept x11_source type m = m

unfoldable pub send : Source → ℕ → ℕ → Manager → Manager
send s type fd m = tell (sent s type fd ∷ []) m

-- Only the sources of clients have the function; for the others NULL is called.
unfoldable pub finish : Source → Manager → Option Manager
finish (client_source r) m = some (tell (dnd_finished (client_source r) ∷ []) m)
finish (custom_source n) m = none
finish x11_source m = none

-- The requests of an offer, which holds the source that it was made for; none is the call of NULL.
pub data OfferRequest : Type 0 where
  offer_accept : ℕ → OfferRequest
  offer_receive : ℕ → ℕ → OfferRequest
  offer_finish : OfferRequest

unfoldable pub data_offer_request : OfferRequest → Option Source → Manager → Option Manager
unfolding accept send finish
data_offer_request r none m = some m
data_offer_request (offer_accept type) (some s) m = some (accept s type m)
data_offer_request (offer_receive type fd) (some s) m = some (send s type fd m)
data_offer_request offer_finish (some s) m = finish s m

-- `wl_cb_data_source_offer`.
unfoldable pub add_type : ℕ → ℕ → Manager → Manager
add_type r type m =
    if m.is_alive r
    then record m {
      types = λ s. if same_source s (client_source r) then m.types s ++ type ∷ [] else m.types s;
    }
    else m

-- `wl_cb_manager_create_data_source`.
unfoldable pub create_source : ℕ → Manager → Manager
create_source r m = record m {
  is_alive = λ x. if r == x then true else m.is_alive x;
  types = λ s. if same_source s (client_source r) then [] else m.types s;
}

-- `wlc_data_device_manager_set_custom_selection`.
unfoldable pub set_custom_selection : Bool → List ℕ → Manager → Manager
unfolding set_source
set_custom_selection memory ts m =
    let n : ℕ = m.next_custom in
    set_source memory (some (custom_source n)) (record m {
      next_custom = suc n;
      types = λ s. if same_source s (custom_source n) then ts else m.types s;
    })

-- What `focus_event` of src/compositor/seat/seat.c does to the selection.
unfoldable pub focus_client : Bool → ℕ → Manager → Manager
unfolding manager_offer
focus_client memory c m =
    let m1 : Manager = record m { focused = c } in if c == 0 then m1 else manager_offer memory c m1

-- The requests of clients, the focus, and the selections of the program and of X11.
pub data SelectionRequest : Type 0 where
  create : ℕ → SelectionRequest
  add : ℕ → ℕ → SelectionRequest
  select : ℕ → Option ℕ → SelectionRequest
  destroy : ℕ → SelectionRequest
  select_custom : List ℕ → SelectionRequest
  select_x11 : Bool → SelectionRequest
  focus : ℕ → SelectionRequest

-- A resource that is made has a new name.
unfoldable pub selection_request : Bool → SelectionRequest → Manager → Manager
unfolding create_source add_type set_selection destroy_source set_custom_selection set_source
    focus_client
selection_request memory (create r) m = if m.is_alive r then m else create_source r m
selection_request memory (add r t) m = add_type r t m
selection_request memory (select c r) m = set_selection memory c r m
selection_request memory (destroy r) m = destroy_source memory r m
selection_request memory (select_custom ts) m = set_custom_selection memory ts m
selection_request memory (select_x11 true) m = set_source memory (some x11_source) m
selection_request memory (select_x11 false) m = set_source memory none m
selection_request memory (focus c) m = focus_client memory c m

unfoldable pub selection_requests : Bool → List SelectionRequest → Manager → Manager
unfolding selection_request
selection_requests memory [] m = m
selection_requests memory (r ∷ rs) m = selection_requests memory rs (selection_request memory r m)
