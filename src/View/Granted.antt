-- ===== src/View/Granted.antt =====
-- Equality of the states of a view, and what a request for a state comes to.
use wlc.Base.{
  ℕ, ◌≡◌, refl, ap, ◌∙◌, Bool, true, false, not, none, arith, if◌then◌else◌, same, if-elim, if-true,
  if-false, sym, inl, inr, Bool-cases,
}
use wlc.Geometry.{Geometry, geometry_equals}
use wlc.View.{
  StateBit, maximized, fullscreen, resizing, moving, activated, States, has_state, toggle_state,
  states_equal, ViewState, view_states_equal, View, configure_view, emit, repaint_scheduled,
  x11_state_set, output_of, Interface, update,
}
use wlc.View.Requests.{set_state, refreshes, request_state}

same-eq : (a b : Bool) → same a b ≡ true → a ≡ b
same-eq a b e = ground (arith, e)

same_refl : (a : Bool) → same a a ≡ true
same_refl a = ground arith

pub states_equal-eq : (a b : States) → states_equal a b ≡ true → a ≡ b
unfolding states_equal
states_equal-eq a b e = ground (arith, e)

pub states_equal_refl : (a : States) → states_equal a a ≡ true
unfolding states_equal
states_equal_refl a = ground arith

geometry_equals-eq : (a b : Geometry) → geometry_equals a b ≡ true → a ≡ b
unfolding geometry_equals
geometry_equals-eq a b e = ground (arith, e)

geometry_equals_refl : (a : Geometry) → geometry_equals a a ≡ true
unfolding geometry_equals
geometry_equals_refl a = ground arith

pub has_state-toggle_state :
    (s : States) (b : StateBit) (f : Bool) → has_state (toggle_state s b f) b ≡ f
unfolding has_state toggle_state
has_state-toggle_state s maximized f = refl
has_state-toggle_state s fullscreen f = refl
has_state-toggle_state s resizing f = refl
has_state-toggle_state s moving f = refl
has_state-toggle_state s activated f = refl

-- Toggling twice, to the same value or back.
toggle_state-toggle_state :
    (s : States) (b : StateBit) (f g : Bool)
    → toggle_state (toggle_state s b f) b g ≡ toggle_state s b g
unfolding toggle_state
toggle_state-toggle_state s maximized f g = refl
toggle_state-toggle_state s fullscreen f g = refl
toggle_state-toggle_state s resizing f g = refl
toggle_state-toggle_state s moving f g = refl
toggle_state-toggle_state s activated f g = refl

toggle_state-has_state :
    (s : States) (b : StateBit) (f : Bool) → has_state s b ≡ f → toggle_state s b f ≡ s
unfolding has_state toggle_state
toggle_state-has_state s maximized f e = ground (arith, e)
toggle_state-has_state s fullscreen f e = ground (arith, e)
toggle_state-has_state s resizing f e = ground (arith, e)
toggle_state-has_state s moving f e = ground (arith, e)
toggle_state-has_state s activated f e = ground (arith, e)

pub view_states_equal-eq : (a b : ViewState) → view_states_equal a b ≡ true → a ≡ b
unfolding view_states_equal
view_states_equal-eq a b e =
    let g : a.geometry ≡ b.geometry =
      geometry_equals-eq a.geometry b.geometry (ground (arith, e)) in
    let s : a.state ≡ b.state = states_equal-eq a.state b.state (ground (arith, e)) in
    let k : a.edges ≡ b.edges = ground (arith, e) in cc

pub view_states_equal_refl : (a : ViewState) → view_states_equal a a ≡ true
unfolding view_states_equal
view_states_equal_refl a =
    ground (arith, geometry_equals_refl a.geometry, states_equal_refl a.state)

-- `update` only asks for a repaint.
pub update-pending : (v : View) → (update v).pending ≡ v.pending
unfolding update
update-pending v =
    if-elim (λ (u : View). u.pending ≡ v.pending) (view_states_equal v.pending v.commit) v
      (emit (repaint_scheduled (output_of v)) v) refl refl

set_state-pending :
    (b : StateBit) (f : Bool) (v : View)
    → (set_state b f v).pending ≡ record v.pending { state = toggle_state v.pending.state b f }
unfolding set_state
set_state-pending b f v =
    let v' : View = if v.roles.x11 then emit (x11_state_set b f) v else v in
    let kept : v'.pending ≡ v.pending =
      if-elim (λ (u : View). u.pending ≡ v.pending) v.roles.x11 (emit (x11_state_set b f) v) v refl
        refl in
    update-pending
      (record v' { pending = record v'.pending { state = toggle_state v'.pending.state b f } })
    ∙ ap (λ (p : ViewState). record p { state = toggle_state p.state b f }) kept

configure_view-pending :
    (e : ℕ) (g : Geometry) (v : View) → (configure_view e g v).pending ≡ v.pending
unfolding configure_view
configure_view-pending e g v = refl

module _ (i : Interface) (b : StateBit) (f : Bool) (v : View) where
  request_state-unknown : v.created ≡ false → request_state i b f v ≡ (false, v)
  unfolding request_state
  request_state-unknown n = if-true _ _ (not v.created) (ground (arith, n))

  request_state-held :
      v.created ≡ true
      → same (has_state v.pending.state b) f ≡ true
      → request_state i b f v
        ≡ (true, if refreshes b then configure_view v.pending.edges v.pending.geometry v else v)
  unfolding request_state
  request_state-held y s =
      if-false _ _ (not v.created) (ground (arith, y))
      ∙ if-true _ _ (same (has_state v.pending.state b) f) s

  request_state-set :
      i.request_state ≡ none
      → v.created ≡ true
      → same (has_state v.pending.state b) f ≡ false
      → request_state i b f v
        ≡ (same (has_state (set_state b f v).pending.state b) f, set_state b f v)
  unfolding request_state
  request_state-set d y s =
      if-false _ _ (not v.created) (ground (arith, y))
      ∙ if-false _ _ (same (has_state v.pending.state b) f) s
      ∙ rw d refl

-- Where the compositor leaves requests for states to the library, such a request on a view that it
-- knows is granted: the pending state has the bit as asked, and every other bit, the geometry and the
-- edges as before. A view that it does not know is left as it is, and the request is refused.
pub request_state-granted :
    (i : Interface) (b : StateBit) (f : Bool) (v : View)
    → i.request_state ≡ none
    → (v.created ≡ true
        → ((request_state i b f v).0 ≡ true)
          × ((request_state i b f v).1.pending
              ≡ record v.pending { state = toggle_state v.pending.state b f }))
      × (v.created ≡ false → request_state i b f v ≡ (false, v))
unfolding request_state
request_state-granted i b f v d = (
  λ y. elim (Bool-cases (same (has_state v.pending.state b) f)) [
    | inl s ↦
        let r = request_state-held i b f v y s in
        let same_state : toggle_state v.pending.state b f ≡ v.pending.state =
          toggle_state-has_state v.pending.state b f (same-eq (has_state v.pending.state b) f s) in
        (
          ap (λ (q : Bool × View). q.0) r,
          ap (λ (q : Bool × View). q.1.pending) r
              ∙ if-elim (λ (u : View). u.pending ≡ v.pending) (refreshes b)
                  (configure_view v.pending.edges v.pending.geometry v) v
                  (configure_view-pending v.pending.edges v.pending.geometry v) refl
              ∙ ap (λ (t : States). record v.pending { state = t }) (sym same_state),
        )
    | inr n ↦
        let r = request_state-set i b f v d y n in
        let p = set_state-pending b f v in
        (
          ap (λ (q : Bool × View). q.0) r
              ∙ ap (λ (t : ViewState). same (has_state t.state b) f) p
              ∙ ap (λ (t : Bool). same t f) (has_state-toggle_state v.pending.state b f)
              ∙ same_refl f,
          ap (λ (q : Bool × View). q.1.pending) r ∙ p,
        )
  ],
  request_state-unknown i b f v,
)
