-- ===== src/Seat/Selection/Tests.antt =====
-- A selection that is replaced, and one whose client goes away.
use wlc.Base.{◌+◌, ◌≡◌, refl, true, false, none, some, List, [], ◌∷◌, arith, if◌then◌else◌}
use wlc.Seat.Selection.{
  client_source, x11_source, holds, selection_signal, data_offer, selection, Manager,
  SelectionRequest, create, add, select, destroy, select_x11, focus, selection_requests,
}
use wlc.Seat.Selection.Cancelled.{selected, cancels, selection_requests-Balances}
use wlc.Seat.Selection.Alive.{HasLiveSource, selection_requests-HasLiveSource}

abbrev no_selection : Manager
no_selection = record {
  source = none;
  focused = 0;
  has_device = λ c. true;
  is_alive = λ r. false;
  types = λ s. [];
  next_custom = 0;
  events = [];
}

abbrev copied_twice : List SelectionRequest
copied_twice =
    focus 7
    ∷ create 3
    ∷ add 3 50
    ∷ select 7 (some 3)
    ∷ create 4
    ∷ select 7 (some 4)
    ∷ destroy 4
    ∷ select_x11 true
    ∷ []

abbrev with_text : Manager
with_text = record no_selection { focused = 7; types = λ s. 50 ∷ 51 ∷ []; source = some x11_source }

-- The client that sets the selection is offered it twice, as the one with the focus and as itself.
offered_twice :
    (selection_requests true (focus 7 ∷ create 3 ∷ select 7 (some 3) ∷ []) no_selection).events
    ≡ selection 7 false
      ∷ selection_signal (some (client_source 3))
      ∷ data_offer 7
      ∷ selection 7 true
      ∷ data_offer 7
      ∷ selection 7 true
      ∷ []
unfolding selection_requests
offered_twice = refl

selection_requests-Balances_example :
    selected (client_source 3) (selection_requests true copied_twice no_selection).events
    ≡ cancels (client_source 3) (selection_requests true copied_twice no_selection).events
      + (if holds (selection_requests true copied_twice no_selection).source (client_source 3)
          then 1
          else 0)
unfolding selected cancels
selection_requests-Balances_example =
    selection_requests-Balances (client_source 3) true copied_twice no_selection refl

selection_requests-HasLiveSource_example :
    HasLiveSource (selection_requests true copied_twice no_selection)
selection_requests-HasLiveSource_example =
    selection_requests-HasLiveSource true copied_twice no_selection
      (λ r h. absurd (ground (arith, h)))
