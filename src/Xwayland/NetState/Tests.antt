-- ===== src/Xwayland/NetState/Tests.antt =====
-- A message that asks for two states.
use wlc.Base.{◌≡◌, refl, true, false, List, [], ◌∷◌}
use wlc.View.{fullscreen, has_state, modal}
use wlc.View.Samples.{toplevel_view, no_callbacks}
use wlc.Xwayland.NetState.{NetAtom, net_fullscreen, net_modal, net_above, handle_atom, handle_state}
use wlc.Xwayland.NetState.Asked.{handle_state-asked}

-- To toggle both modal and above, which are one bit of the view, changes nothing.
both_toggled :
    (handle_state no_callbacks 2 (net_modal ∷ net_above ∷ []) toplevel_view).type modal ≡ false
unfolding handle_state handle_atom
both_toggled = refl

abbrev atoms : List NetAtom
atoms = net_fullscreen ∷ net_above ∷ []

handle_state-asked_example :
    (has_state (handle_state no_callbacks 2 atoms toplevel_view).pending.state fullscreen ≡ true)
    × ((handle_state no_callbacks 2 atoms toplevel_view).type modal ≡ true)
unfolding has_state
handle_state-asked_example = handle_state-asked no_callbacks 2 atoms toplevel_view refl refl
