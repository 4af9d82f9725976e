-- ===== src/View/Settled.antt =====
-- The state of a view after a commit.
use mathlib.Core.Path.{subst}
use wlc.Base.{
  ℕ, ◌≡◌, ◌≢◌, refl, sym, ap, ◌∙◌, Bool, true, false, ◌||◌, not, Option, none, some, List, [], ◌∷◌,
  ◌++◌, arith, if◌then◌else◌, if-elim, if-true, if-false, inl, inr, Bool-cases, Option-cases,
}
use wlc.Chck.{IterPool, or_same}
use wlc.Geometry.{Size, Geometry, size_equals}
use wlc.View.{
  StateBit, has_state, States, states_equal, ViewState, view_states_equal, View, ViewEvent,
  coordinates_updated, configured_toplevel, configured_xdg_surface, configure_role, configure_view,
  emit, state_map, push_states, commit_pending, Interface, close, closed_toplevel, closed_x11,
  popup_done, popup, shell_popup_done, client_destroyed, commit_on, commit_state,
}
use wlc.View.Granted.{view_states_equal-eq, view_states_equal_refl}

-- The codes of the bits that are set, in the order of a table.
unfoldable pub listed : (StateBit → ℕ) → States → List StateBit → List ℕ
unfolding has_state
listed code s [] = []
listed code s (b ∷ bs) = if has_state s b then code b ∷ listed code s bs else listed code s bs

append_nil : (xs : List ℕ) → xs ++ [] ≡ xs
append_nil [] = refl
append_nil (x ∷ xs) = ap (◌∷◌ x) (append_nil xs)

append_between : (xs : List ℕ) (x : ℕ) (ys : List ℕ) → (xs ++ x ∷ []) ++ ys ≡ xs ++ x ∷ ys
append_between [] x ys = refl
append_between (z ∷ xs) x ys = ap (◌∷◌ z) (append_between xs x ys)

module _ (c : IterPool) (code : StateBit → ℕ)
    (fits : (xs : List ℕ) (a : ℕ) → c.push_back xs a ≢ none) where
  pushed : (xs : List ℕ) (a : ℕ) → or_same (c.push_back xs a) xs ≡ xs ++ a ∷ []
  pushed xs a = elim (Option-cases (c.push_back xs a)) [
    | inl n ↦ absurd (fits xs a n)
    | inr (ys, e) ↦ rw e (c.push_back_lem xs ys a e)
  ]

  pub push_states-listed :
      (s : States) (bs : List StateBit) (xs : List ℕ)
      → push_states c code s bs xs ≡ xs ++ listed code s bs
  unfolding push_states listed
  push_states-listed s [] xs = sym (append_nil xs)
  push_states-listed s (b ∷ bs) xs = elim (Bool-cases (has_state s b)) [
    | inl y ↦
        rw (push_states, y)
          (push_states-listed s bs (or_same (c.push_back xs (code b)) xs)
            ∙ ap (λ (l : List ℕ). l ++ listed code s bs) (pushed xs (code b))
            ∙ append_between xs (code b) (listed code s bs))
    | inr n ↦ rw (push_states, n) (push_states-listed s bs xs)
  ]

-- The view once its list of states is up to date, then once the client is told.
abbrev pub relisted : IterPool → (StateBit → ℕ) → View → View
relisted c code v =
    if states_equal v.pending.state v.commit.state
    then v
    else record v { wl_state = push_states c code v.pending.state state_map [] }

abbrev pub must_tell : Size → View → Bool
must_tell size v =
    not (states_equal v.pending.state v.commit.state)
    || (not (size_equals v.pending.geometry.size v.commit.geometry.size)
        || not (size_equals v.pending.geometry.size size))

abbrev pub told : IterPool → (StateBit → ℕ) → Size → View → View
told c code size v =
    if must_tell size v
    then configure_view v.pending.edges v.pending.geometry (relisted c code v)
    else relisted c code v

module _ (c : IterPool) (code : StateBit → ℕ) (size : Size) (v : View) where
  pub commit_pending-same :
      view_states_equal v.pending v.commit ≡ true → commit_pending c code size v ≡ v
  unfolding commit_pending
  commit_pending-same y = if-true _ _ (view_states_equal v.pending v.commit) y

  pub commit_pending-differs :
      view_states_equal v.pending v.commit ≡ false
      → commit_pending c code size v
        ≡ emit coordinates_updated (record (told c code size v) { commit = v.pending })
  unfolding commit_pending
  commit_pending-differs n = if-false _ _ (view_states_equal v.pending v.commit) n

-- What no part of a commit touches.
record Kept (v u : View) : Type 0 where
  pending : u.pending ≡ v.pending
  surface : u.surface ≡ v.surface
  created : u.created ≡ v.created

configure-Kept : (e : ℕ) (g : Geometry) (v u : View) → Kept v u → Kept v (configure_view e g u)
unfolding configure_view
configure-Kept e g v u k = record { pending = k.pending; surface = k.surface; created = k.created }

told-Kept :
    (c : IterPool) (code : StateBit → ℕ) (size : Size) (v : View) → Kept v (told c code size v)
told-Kept c code size v =
    let r : Kept v (relisted c code v) =
      if-elim (Kept v) (states_equal v.pending.state v.commit.state) v
        (record v { wl_state = push_states c code v.pending.state state_map [] })
        (record { pending = refl; surface = refl; created = refl })
        (record { pending = refl; surface = refl; created = refl }) in
    if-elim (Kept v) _ (configure_view v.pending.edges v.pending.geometry (relisted c code v))
      (relisted c code v)
      (configure-Kept v.pending.edges v.pending.geometry v (relisted c code v) r) r

-- A commit of a view that is known, by its surface.
pub commit_state-known :
    (c : IterPool) (code : StateBit → ℕ) (i : Interface) (v : View) (s : Size × ℕ)
    → v.surface ≡ some s
    → v.created ≡ true
    → commit_state c code i v ≡ commit_pending c code s.0 v
unfolding commit_state commit_on
commit_state-known c code i v s e y =
    ap (λ (o : Option (Size × ℕ)). commit_on c code i o v) e ∙ if-true _ _ v.created y

commit_pending-Kept :
    (c : IterPool) (code : StateBit → ℕ) (size : Size) (v : View)
    → Kept v (commit_pending c code size v) × ((commit_pending c code size v).commit ≡ v.pending)
commit_pending-Kept c code size v = elim (Bool-cases (view_states_equal v.pending v.commit)) [
  | inl y ↦
      subst (λ (u : View). Kept v u × (u.commit ≡ v.pending))
        (sym (commit_pending-same c code size v y))
        (
          (record { pending = refl; surface = refl; created = refl }),
          sym (view_states_equal-eq v.pending v.commit y),
        )
  | inr n ↦
      let k = told-Kept c code size v in
      subst (λ (u : View). Kept v u × (u.commit ≡ v.pending))
        (sym (commit_pending-differs c code size v n))
        ((record { pending = k.pending; surface = k.surface; created = k.created }), refl)
]

-- A commit of a view with a surface, which the compositor knows, makes the pending state the committed
-- one and keeps it as the pending one; a second commit does nothing at all.
pub commit_state-settles :
    (c : IterPool) (code : StateBit → ℕ) (i : Interface) (v : View) (s : Size × ℕ)
    → v.surface ≡ some s
    → v.created ≡ true
    → ((commit_state c code i v).commit ≡ v.pending)
      × ((commit_state c code i v).pending ≡ v.pending)
      × (commit_state c code i (commit_state c code i v) ≡ commit_state c code i v)
commit_state-settles c code i v s e y =
    let known = commit_state-known c code i v s e y in
    let (k, d) = commit_pending-Kept c code s.0 v in
    let u : View = commit_pending c code s.0 v in
    let equal : view_states_equal u.pending u.commit ≡ true =
      ap (λ (p : ViewState). view_states_equal p u.commit) (k.pending ∙ sym d)
      ∙ view_states_equal_refl u.commit in
    (
      ap (λ (x : View). x.commit) known ∙ d,
      ap (λ (x : View). x.pending) known ∙ k.pending,
      subst (λ (x : View). commit_state c code i x ≡ x) (sym known)
          (commit_state-known c code i u s (k.surface ∙ e) (k.created ∙ y)
            ∙ commit_pending-same c code s.0 u equal),
    )

-- The states that the client was last told of are the committed ones.
abbrev pub IsListed : (StateBit → ℕ) → View → Type 0
IsListed code v = v.wl_state ≡ listed code v.commit.state state_map

pub configure-wl_state :
    (e : ℕ) (g : Geometry) (v : View) → (configure_view e g v).wl_state ≡ v.wl_state
unfolding configure_view
configure-wl_state e g v = refl

pub close-IsListed : (code : StateBit → ℕ) (v : View) → IsListed code v → IsListed code (close v)
unfolding close
close-IsListed code v h =
    if-elim (IsListed code) v.roles.xdg_toplevel (emit closed_toplevel v) _ h (
      if-elim (IsListed code) v.roles.x11 (emit closed_x11 v) _ h (
        if-elim (IsListed code) v.roles.xdg_popup (emit popup_done v) _ h (
          if-elim (IsListed code) v.roles.shell_surface _ v
            (if-elim (IsListed code) (v.type popup) (emit shell_popup_done v)
              (emit client_destroyed
                (record v { roles = record v.roles { shell_surface = false } }))
              h h)
            h)))

pub view_states_equal-state :
    (a b : ViewState) → states_equal a.state b.state ≡ false → view_states_equal a b ≡ false
unfolding view_states_equal
view_states_equal-state a b n = ground (arith, n)

pub configure_view-toplevel :
    (e : ℕ) (g : Geometry) (v : View)
    → v.roles.xdg_toplevel ≡ true
    → (rest : List ViewEvent) × ((configure_view e g v).events
        ≡ v.events ++ configured_toplevel g.size v.wl_state ∷ rest)
unfolding configure_view configure_role
configure_view-toplevel e g v t =
    let xdg : List ViewEvent = if v.roles.xdg_surface then configured_xdg_surface ∷ [] else [] in
    (xdg, ap (λ (l : List ViewEvent). v.events ++ (l ++ xdg)) (if-true _ _ v.roles.xdg_toplevel t))
