-- ===== src/View/Commit.antt =====
-- `wlc_view_commit_state`: what a commit leaves behind, and what it tells the client.
use mathlib.Core.Path.{subst}
use wlc.Base.{
  ℕ, ◌≡◌, ◌≢◌, refl, sym, ap, ◌∙◌, true, false, Option, none, some, List, [], ◌∷◌, ◌++◌, arith,
  if◌then◌else◌, if-elim, if-true, if-false, inl, inr, Bool-cases,
}
use wlc.Chck.{IterPool}
use wlc.Geometry.{Size}
use wlc.View.{
  StateBit, States, states_equal, view_states_equal, View, ViewEvent, coordinates_updated,
  configured_toplevel, configure_view, state_map, push_states, commit_pending, Interface, announce,
  close, commit_on, commit_state,
}
use wlc.View.Granted.{states_equal-eq}
use wlc.View.Settled.{
  listed, push_states-listed, relisted, must_tell, told, commit_pending-same,
  commit_pending-differs, commit_state-known, IsListed, configure-wl_state, close-IsListed,
  view_states_equal-state, configure_view-toplevel,
}

append_assoc : (xs ys zs : List ViewEvent) → (xs ++ ys) ++ zs ≡ xs ++ (ys ++ zs)
append_assoc [] ys zs = refl
append_assoc (x ∷ xs) ys zs = ap (◌∷◌ x) (append_assoc xs ys zs)

module _ (c : IterPool) (code : StateBit → ℕ)
    (fits : (xs : List ℕ) (a : ℕ) → c.push_back xs a ≢ none) where
  relisted-listed :
      (v : View)
      → IsListed code v
      → (relisted c code v).wl_state ≡ listed code v.pending.state state_map
  relisted-listed v h = elim (Bool-cases (states_equal v.pending.state v.commit.state)) [
    | inl y ↦
        ap (λ (u : View). u.wl_state) (if-true _ _ (states_equal v.pending.state v.commit.state) y)
        ∙ h
        ∙ ap (λ (s : States). listed code s state_map)
            (sym (states_equal-eq v.pending.state v.commit.state y))
    | inr n ↦
        ap (λ (u : View). u.wl_state) (if-false _ _ (states_equal v.pending.state v.commit.state) n)
        ∙ push_states-listed c code fits v.pending.state state_map []
  ]

  commit_pending-IsListed :
      (size : Size) (v : View) → IsListed code v → IsListed code (commit_pending c code size v)
  commit_pending-IsListed size v h = elim (Bool-cases (view_states_equal v.pending v.commit)) [
    | inl y ↦ subst (IsListed code) (sym (commit_pending-same c code size v y)) h
    | inr n ↦ subst (IsListed code) (sym (commit_pending-differs c code size v n)) (
        if-elim (λ (u : View). u.wl_state ≡ listed code v.pending.state state_map) _
          (configure_view v.pending.edges v.pending.geometry (relisted c code v))
          (relisted c code v)
          (configure-wl_state v.pending.edges v.pending.geometry (relisted c code v)
            ∙ relisted-listed v h)
          (relisted-listed v h))
  ]

  commit_on-IsListed :
      (i : Interface) (o : Option (Size × ℕ)) (v : View)
      → ((u : View) → IsListed code u → IsListed code (announce i u).1)
      → IsListed code v
      → IsListed code (commit_on c code i o v)
  unfolding commit_on
  commit_on-IsListed i none v keep h = h
  commit_on-IsListed i (some s) v keep h =
      let sized : View = record v {
        pending = record v.pending { geometry = record v.pending.geometry { size = s.0 } };
        created = true;
      } in
      let (taken, v') = announce i sized in
      let k : IsListed code v' = keep sized h in
      if-elim (IsListed code) v.created (commit_pending c code s.0 v)
        (if taken then commit_pending c code s.0 v' else close v') (commit_pending-IsListed s.0 v h)
        (if-elim (IsListed code) taken (commit_pending c code s.0 v') (close v')
          (commit_pending-IsListed s.0 v' k) (close-IsListed code v' k))

  -- Under a pool that has the memory, if the client was last told of the committed states, then so it
  -- is after a commit, where what the compositor does when it gets to know a view keeps that.
  pub commit_state-IsListed :
      (i : Interface) (v : View)
      → ((u : View) → IsListed code u → IsListed code (announce i u).1)
      → IsListed code v
      → IsListed code (commit_state c code i v)
  unfolding commit_state
  commit_state-IsListed i v keep h = commit_on-IsListed i v.surface v keep h

  -- Under a pool that has the memory, a commit that changes the state bits of an xdg toplevel tells
  -- its client at once the pending size and exactly the bits that are set, in the order of the table.
  pub commit_state-tells :
      (i : Interface) (v : View) (s : Size × ℕ)
      → v.surface ≡ some s
      → v.created ≡ true
      → v.roles.xdg_toplevel ≡ true
      → states_equal v.pending.state v.commit.state ≡ false
      → (rest : List ViewEvent) × ((commit_state c code i v).events
          ≡ v.events
            ++ configured_toplevel v.pending.geometry.size (listed code v.pending.state state_map)
              ∷ rest)
  commit_state-tells i v s e y t n =
      let differs : view_states_equal v.pending v.commit ≡ false =
        view_states_equal-state v.pending v.commit n in
      let known =
        commit_state-known c code i v s e y ∙ commit_pending-differs c code s.0 v differs in
      let new : View = record v { wl_state = push_states c code v.pending.state state_map [] } in
      let fresh : relisted c code v ≡ new =
        if-false _ _ (states_equal v.pending.state v.commit.state) n in
      let tell : told c code s.0 v ≡ configure_view v.pending.edges v.pending.geometry new =
        if-true _ _ (must_tell s.0 v) (ground (arith, n))
        ∙ ap (configure_view v.pending.edges v.pending.geometry) fresh in
      let (rest, sent) = configure_view-toplevel v.pending.edges v.pending.geometry new t in
      (
        rest ++ coordinates_updated ∷ [],
        ap (λ (u : View). u.events) known
            ∙ ap (λ (u : View). u.events ++ coordinates_updated ∷ []) tell
            ∙ ap (λ (l : List ViewEvent). l ++ coordinates_updated ∷ []) sent
            ∙ append_assoc v.events
                (configured_toplevel v.pending.geometry.size new.wl_state ∷ rest)
                (coordinates_updated ∷ [])
            ∙ ap
                (λ (l : List ℕ).
                  v.events
                  ++ configured_toplevel v.pending.geometry.size l
                    ∷ (rest ++ coordinates_updated ∷ []))
                (push_states-listed c code fits v.pending.state state_map []),
      )
