-- ===== src/Xwayland/NetState/Asked.antt =====
-- What the atoms of one message come to.
use wlc.Base.{
  ℕ, suc, ◌%◌, ◌≡◌, refl, ap, ◌∙◌, Bool, true, false, ◌&&◌, ◌||◌, not, none, List, [], ◌∷◌, arith,
  if◌then◌else◌, ◌==◌, same, if-elim,
}
use wlc.View.{
  StateBit, fullscreen, has_state, toggle_state, modal, TypeBit, ViewState, view_states_equal, View,
  Interface, configure_view, update, emit, x11_state_set,
}
use wlc.View.Requests.{set_state, refreshes, request_state, set_type}
use wlc.View.Granted.{request_state-granted, has_state-toggle_state}
use wlc.Xwayland.NetState.{
  NetAtom, net_fullscreen, net_modal, net_above, other_atom, wanted, handle_atom, handle_state,
}

-- How many of the atoms ask for fullscreen, and for a modal view.
abbrev pub fullscreens : List NetAtom → ℕ
fullscreens [] = 0
fullscreens (net_fullscreen ∷ atoms) = suc (fullscreens atoms)
fullscreens (_ ∷ atoms) = fullscreens atoms

abbrev pub modals : List NetAtom → ℕ
modals [] = 0
modals (net_modal ∷ atoms) = suc (modals atoms)
modals (net_above ∷ atoms) = suc (modals atoms)
modals (_ ∷ atoms) = modals atoms

-- What `n` requests make of a bit.
abbrev pub asked : ℕ → ℕ → Bool → Bool
asked state n b =
    if state == 0
    then n == 0 && b
    else if state == 1
    then not (n == 0) || b
    else if n % 2 == 0
    then b
    else not b

asked-suc : (state n : ℕ) (b : Bool) → asked state n (wanted state b) ≡ asked state (suc n) b
asked-suc state n true = ground arith
asked-suc state n false = ground arith

-- What a request for a state leaves as it is.
abbrev Kept : View → View → Type 0
Kept v u = (u.type ≡ v.type) × (u.created ≡ v.created)

set_state-Kept : (b : StateBit) (f : Bool) (v : View) → Kept v (set_state b f v)
unfolding set_state update
set_state-Kept b f v =
    let v' : View = if v.roles.x11 then emit (x11_state_set b f) v else v in
    let kept : Kept v v' = if-elim (Kept v) v.roles.x11 _ v (refl, refl) (refl, refl) in
    let u : View = record v' {
      pending = record v'.pending { state = toggle_state v'.pending.state b f };
    } in
    if-elim (Kept v) (view_states_equal u.pending u.commit) u _ kept kept

request_state-Kept :
    (i : Interface) (b : StateBit) (f : Bool) (v : View)
    → i.request_state ≡ none
    → Kept v (request_state i b f v).1
unfolding request_state configure_view
request_state-Kept i b f v d =
    let P : Bool × View → Type 0 = λ q. Kept v q.1 in
    if-elim P (not v.created) _ _ (refl, refl)
      (if-elim P (same (has_state v.pending.state b) f) _ _
        (if-elim (Kept v) (refreshes b) _ v (refl, refl) (refl, refl))
        (rw d (set_state-Kept b f v)))

handle_atom-Kept :
    (i : Interface) (state : ℕ) (a : NetAtom) (v : View)
    → i.request_state ≡ none
    → (handle_atom i state a v).created ≡ v.created
unfolding handle_atom set_type
handle_atom-Kept i state net_fullscreen v d = (request_state-Kept i fullscreen _ v d).1
handle_atom-Kept i state net_modal v d = refl
handle_atom-Kept i state net_above v d = refl
handle_atom-Kept i state other_atom v d = refl

module _ (i : Interface) (state : ℕ) (d : i.request_state ≡ none) where
  fullscreen-handle_state :
      (atoms : List NetAtom) (v : View)
      → v.created ≡ true
      → has_state (handle_state i state atoms v).pending.state fullscreen
        ≡ asked state (fullscreens atoms) (has_state v.pending.state fullscreen)
  unfolding handle_state handle_atom set_type
  fullscreen-handle_state [] v y = ground arith
  fullscreen-handle_state (net_fullscreen ∷ atoms) v y =
      let has = has_state v.pending.state fullscreen in
      let granted = (request_state-granted i fullscreen (wanted state has) v d).0 y in
      fullscreen-handle_state atoms (handle_atom i state net_fullscreen v)
        (handle_atom-Kept i state net_fullscreen v d ∙ y)
      ∙ ap (λ (p : ViewState). asked state (fullscreens atoms) (has_state p.state fullscreen))
          granted.1
      ∙ ap (asked state (fullscreens atoms))
          (has_state-toggle_state v.pending.state fullscreen (wanted state has))
      ∙ asked-suc state (fullscreens atoms) has
  fullscreen-handle_state (net_modal ∷ atoms) v y =
      fullscreen-handle_state atoms (handle_atom i state net_modal v) y
  fullscreen-handle_state (net_above ∷ atoms) v y =
      fullscreen-handle_state atoms (handle_atom i state net_above v) y
  fullscreen-handle_state (other_atom ∷ atoms) v y = fullscreen-handle_state atoms v y

  modal-handle_state :
      (atoms : List NetAtom) (v : View)
      → (handle_state i state atoms v).type modal ≡ asked state (modals atoms) (v.type modal)
  unfolding handle_state handle_atom set_type
  modal-handle_state [] v = ground arith
  modal-handle_state (net_fullscreen ∷ atoms) v =
      modal-handle_state atoms (handle_atom i state net_fullscreen v)
      ∙ ap (λ (t : TypeBit → Bool). asked state (modals atoms) (t modal))
          (request_state-Kept i fullscreen (wanted state (has_state v.pending.state fullscreen)) v
            d).0
  modal-handle_state (net_modal ∷ atoms) v =
      modal-handle_state atoms (handle_atom i state net_modal v)
      ∙ asked-suc state (modals atoms) (v.type modal)
  modal-handle_state (net_above ∷ atoms) v =
      modal-handle_state atoms (handle_atom i state net_above v)
      ∙ asked-suc state (modals atoms) (v.type modal)
  modal-handle_state (other_atom ∷ atoms) v = modal-handle_state atoms v

-- Where the compositor leaves requests for states to the library, and knows the view: after a message
-- of any atoms, fullscreen and modal are each what the number of atoms for it make of them, where
-- the atoms for modal and for above count as one: unchanged if there is none, and otherwise off for
-- 0, on for 1, and for any other code changed exactly if the number is odd.
pub handle_state-asked :
    (i : Interface) (state : ℕ) (atoms : List NetAtom) (v : View)
    → i.request_state ≡ none
    → v.created ≡ true
    → (has_state (handle_state i state atoms v).pending.state fullscreen
        ≡ asked state (fullscreens atoms) (has_state v.pending.state fullscreen))
      × ((handle_state i state atoms v).type modal ≡ asked state (modals atoms) (v.type modal))
handle_state-asked i state atoms v d y =
    (fullscreen-handle_state i state d atoms v y, modal-handle_state i state d atoms v)
