-- ===== src/View/Listed.antt =====
-- The states that a client was told of, through the requests of the shells.
use wlc.Base.{
  ℕ, ◌≡◌, ◌≢◌, Bool, true, false, not, Option, none, some, List, [], ◌∷◌, if◌then◌else◌, same,
  if-elim, inl, inr, Option-cases, ◌==◌,
}
use wlc.Chck.{IterPool}
use wlc.Geometry.{Geometry}
use wlc.View.{
  StateBit, has_state, View, emit, Interface, Strings, announce, update, configure_view,
  x11_state_set, toggle_state, view_states_equal, repaint_scheduled, output_of, commit_state,
  linked, move_requested, resize_requested, popup, maximized, fullscreen,
}
use wlc.View.Requests.{
  set_state, refreshes, request_state, set_output, set_parent, set_minimized, set_title, set_class,
  set_app_id, set_type, ToplevelRequest, toplevel_set_parent, toplevel_set_title,
  toplevel_set_app_id, toplevel_move, toplevel_resize, toplevel_set_maximized,
  toplevel_unset_maximized, toplevel_set_fullscreen, toplevel_unset_fullscreen,
  toplevel_set_minimized, toplevel_request, on_output, ShellRequest, shell_set_toplevel,
  shell_set_transient, shell_set_fullscreen, shell_set_popup, shell_set_maximized, shell_set_title,
  shell_set_class, shell_request,
}
use wlc.View.Settled.{IsListed}
use wlc.View.Commit.{commit_state-IsListed}

-- A compositor whose callbacks leave the list of states up to date.
pub record IsCareful (code : StateBit → ℕ) (i : Interface) : Type 0 where
  pub created : (u : View) → IsListed code u → IsListed code (announce i u).1
  pub state :
      (g : StateBit → Bool → View → View) (b : StateBit) (f : Bool) (u : View)
      → i.request_state ≡ some g
      → IsListed code u
      → IsListed code (g b f u)
  pub minimize :
      (g : Bool → View → Bool × View) (f : Bool) (u : View)
      → i.request_minimize ≡ some g
      → IsListed code u
      → IsListed code (g f u).1

module _ (code : StateBit → ℕ) where
  update-IsListed : (v : View) → IsListed code v → IsListed code (update v)
  unfolding update
  update-IsListed v h =
      if-elim (IsListed code) (view_states_equal v.pending v.commit) v
        (emit (repaint_scheduled (output_of v)) v) h h

  set_state-IsListed :
      (b : StateBit) (f : Bool) (v : View) → IsListed code v → IsListed code (set_state b f v)
  unfolding set_state
  set_state-IsListed b f v h =
      let v' : View = if v.roles.x11 then emit (x11_state_set b f) v else v in
      update-IsListed
        (record v' { pending = record v'.pending { state = toggle_state v'.pending.state b f } })
        (if-elim (IsListed code) v.roles.x11 (emit (x11_state_set b f) v) v h h)

  set_output-IsListed : (o : ℕ) (v : View) → IsListed code v → IsListed code (on_output o v)
  unfolding set_output
  set_output-IsListed o v h =
      if-elim (IsListed code) (o == 0) v (set_output o v) h
        (if-elim (IsListed code) (output_of v == o) v (emit (linked o true 0) v) h h)

  set_parent-IsListed :
      (self p : ℕ) (v : View) → IsListed code v → IsListed code (set_parent self p v)
  unfolding set_parent
  set_parent-IsListed self p v h =
      if-elim (IsListed code) (self == p) v (update (record v { parent = p })) h
        (update-IsListed (record v { parent = p }) h)

  configure-IsListed :
      (e : ℕ) (g : Geometry) (v : View) → IsListed code v → IsListed code (configure_view e g v)
  unfolding configure_view
  configure-IsListed e g v h = h

  module _ (i : Interface) (careful : IsCareful code i) where
    asked-IsListed :
        (b : StateBit) (f : Bool) (v : View)
        → IsListed code v
        → IsListed code (elim i.request_state [ none ↦ set_state b f v | some g ↦ g b f v ])
    asked-IsListed b f v h = elim (Option-cases i.request_state) [
      | inl n ↦ rw n (set_state-IsListed b f v h)
      | inr (g, e) ↦ rw e (careful.state g b f v e h)
    ]

    request_state-IsListed :
        (b : StateBit) (f : Bool) (v : View)
        → IsListed code v
        → IsListed code (request_state i b f v).1
    unfolding request_state
    request_state-IsListed b f v h =
        let asked : View = elim i.request_state [ none ↦ set_state b f v | some g ↦ g b f v ] in
        let k : IsListed code asked = asked-IsListed b f v h in
        if-elim (λ (q : Bool × View). IsListed code q.1) (not v.created) (false, v) _ h
          (if-elim (λ (q : Bool × View). IsListed code q.1) (same (has_state v.pending.state b) f) _
            (same (has_state asked.pending.state b) f, asked)
            (if-elim (IsListed code) (refreshes b)
              (configure_view v.pending.edges v.pending.geometry v) v
              (configure-IsListed v.pending.edges v.pending.geometry v h) h)
            k)

    set_minimized-IsListed :
        (f : Bool) (v : View) → IsListed code v → IsListed code (set_minimized i f v)
    unfolding set_minimized
    set_minimized-IsListed f v h = elim (Option-cases i.request_minimize) [
      | inl n ↦ rw (set_minimized, n) h
      | inr (g, e) ↦
          let k = careful.minimize g f v e h in
          rw (set_minimized, e)
            (if-elim (IsListed code) (g f v).0 (record (g f v).1 { minimized = f }) (g f v).1 k k)
    ]

    named-IsListed :
        (o : Option (List ℕ)) (same_name : Bool) (v : View) (w : List ℕ → View)
        → IsListed code v
        → ((s : List ℕ) → IsListed code (w s))
        → IsListed code (if same_name then v else elim o [ none ↦ v | some s ↦ w s ])
    named-IsListed o true v w h k = h
    named-IsListed none false v w h k = h
    named-IsListed (some s) false v w h k = k s

    granted-IsListed :
        (q : Bool × View) (w : View → View)
        → IsListed code q.1
        → ((u : View) → IsListed code u → IsListed code (w u))
        → IsListed code (if q.0 then w q.1 else q.1)
    granted-IsListed (true, u) w h k = k u h
    granted-IsListed (false, u) w h k = h

    toplevel_request-IsListed :
        (t : Strings) (self : ℕ) (r : ToplevelRequest) (v : View)
        → IsListed code v
        → IsListed code (toplevel_request i t self r v)
    unfolding toplevel_request set_title set_app_id
    toplevel_request-IsListed t self (toplevel_set_parent p) v h = set_parent-IsListed self p v h
    toplevel_request-IsListed t self (toplevel_set_title s) v h =
        named-IsListed (t.set s) (t.cstrneq v.title s) v _ h (λ s'. h)
    toplevel_request-IsListed t self (toplevel_set_app_id s) v h =
        named-IsListed (t.set s) (t.cstreq v.app_id s) v _ h (λ s'. h)
    toplevel_request-IsListed t self (toplevel_move p) v h =
        if-elim (IsListed code) (p.0 == 0) v (emit (move_requested p.0 p.1) v) h h
    toplevel_request-IsListed t self (toplevel_resize p edges) v h =
        if-elim (IsListed code) (p.0 == 0) v (emit (resize_requested p.0 edges p.1) v) h h
    toplevel_request-IsListed t self toplevel_set_maximized v h =
        request_state-IsListed maximized true v h
    toplevel_request-IsListed t self toplevel_unset_maximized v h =
        request_state-IsListed maximized false v h
    toplevel_request-IsListed t self (toplevel_set_fullscreen output) v h =
        granted-IsListed (request_state i fullscreen true v) (on_output output)
          (request_state-IsListed fullscreen true v h) (set_output-IsListed output)
    toplevel_request-IsListed t self toplevel_unset_fullscreen v h =
        request_state-IsListed fullscreen false v h
    toplevel_request-IsListed t self toplevel_set_minimized v h = set_minimized-IsListed true v h

    shell_request-IsListed :
        (t : Strings) (self : ℕ) (r : ShellRequest) (v : View)
        → IsListed code v
        → IsListed code (shell_request i t self r v)
    unfolding shell_request set_title set_class set_type
    shell_request-IsListed t self shell_set_toplevel v h =
        granted-IsListed (request_state i fullscreen false v)
          (λ u. record u { fullscreen_mode = 0 }) (request_state-IsListed fullscreen false v h)
          (λ u k. k)
    shell_request-IsListed t self (shell_set_transient p at) v h = set_parent-IsListed self p v h
    shell_request-IsListed t self (shell_set_fullscreen method output) v h =
        granted-IsListed (request_state i fullscreen true v)
          (λ u. record (on_output output u) { fullscreen_mode = method })
          (request_state-IsListed fullscreen true v h) (set_output-IsListed output)
    shell_request-IsListed t self (shell_set_popup p at) v h =
        set_parent-IsListed self p (set_type popup true v) h
    shell_request-IsListed t self (shell_set_maximized output) v h =
        granted-IsListed (request_state i maximized true v) (on_output output)
          (request_state-IsListed maximized true v h) (set_output-IsListed output)
    shell_request-IsListed t self (shell_set_title s) v h =
        named-IsListed (t.set s) (t.cstrneq v.title s) v _ h (λ s'. h)
    shell_request-IsListed t self (shell_set_class s) v h =
        named-IsListed (t.set s) (t.cstrneq v.class_name s) v _ h (λ s'. h)

-- What may happen to a view: a request of one of the shells, or a commit.
pub data ViewStep : Type 0 where
  by_toplevel : ToplevelRequest → ViewStep
  by_shell : ShellRequest → ViewStep
  by_commit : ViewStep

unfoldable pub view_steps :
    IterPool → (StateBit → ℕ) → Interface → Strings → ℕ → List ViewStep → View → View
view_steps c code i t self [] v = v
view_steps c code i t self (by_toplevel r ∷ rs) v =
    view_steps c code i t self rs (toplevel_request i t self r v)
view_steps c code i t self (by_shell r ∷ rs) v =
    view_steps c code i t self rs (shell_request i t self r v)
view_steps c code i t self (by_commit ∷ rs) v =
    view_steps c code i t self rs (commit_state c code i v)

-- Through any requests of the shells and commits, in any order, the states that a client was last told
-- of are the committed ones, under a pool that has the memory and callbacks that keep it so.
view_steps-IsListed :
    (c : IterPool) (code : StateBit → ℕ) (i : Interface) (t : Strings) (self : ℕ)
    → ((xs : List ℕ) (a : ℕ) → c.push_back xs a ≢ none)
    → IsCareful code i
    → (rs : List ViewStep) (v : View) → IsListed code v
    → IsListed code (view_steps c code i t self rs v)
unfolding view_steps
view_steps-IsListed c code i t self fits k [] v h = h
view_steps-IsListed c code i t self fits k (by_toplevel r ∷ rs) v h =
    view_steps-IsListed c code i t self fits k rs (toplevel_request i t self r v)
      (toplevel_request-IsListed code i k t self r v h)
view_steps-IsListed c code i t self fits k (by_shell r ∷ rs) v h =
    view_steps-IsListed c code i t self fits k rs (shell_request i t self r v)
      (shell_request-IsListed code i k t self r v h)
view_steps-IsListed c code i t self fits k (by_commit ∷ rs) v h =
    view_steps-IsListed c code i t self fits k rs (commit_state c code i v)
      (commit_state-IsListed c code fits i v k.created h)
