-- ===== src/Xwayland/NetState.antt =====
-- src/xwayland/xwm.c: `handle_state`, by which an X11 client asks for the states of its view. Atoms are
-- told apart as the code does; two different atoms are not equal.
pub mod Asked
mod Tests
use wlc.Base.{ℕ, Bool, true, false, not, List, [], ◌∷◌, if◌then◌else◌, ◌==◌}
use wlc.View.{fullscreen, has_state, modal, View, Interface}
use wlc.View.Requests.{request_state, set_type}

pub data NetAtom : Type 0 where
  net_fullscreen net_modal net_above other_atom : NetAtom

-- `enum net_wm_state`: 0 removes, 1 adds, anything else toggles what the view has.
abbrev pub wanted : ℕ → Bool → Bool
wanted state has = if state == 0 then false else if state == 1 then true else not has

unfoldable pub handle_atom : Interface → ℕ → NetAtom → View → View
unfolding request_state has_state set_type
handle_atom i state net_fullscreen v =
    (request_state i fullscreen (wanted state (has_state v.pending.state fullscreen)) v).1
handle_atom i state net_modal v = set_type modal (wanted state (v.type modal)) v
handle_atom i state net_above v = set_type modal (wanted state (v.type modal)) v
handle_atom i state other_atom v = v

-- For a window that has a view.
unfoldable pub handle_state : Interface → ℕ → List NetAtom → View → View
handle_state i state [] v = v
handle_state i state (a ∷ atoms) v = handle_state i state atoms (handle_atom i state a v)
