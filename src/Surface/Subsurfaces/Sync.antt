-- ===== src/Surface/Subsurfaces/Sync.antt =====
-- The recursions over the tree of subsurfaces: when they end, and what set_sync leaves undone.
use wlc.Base.{
  ℕ, suc, zero, ◌<◌, ◌≡◌, inl, inr, refl, Bool, true, false, ◌||◌, Option, some, List, [], ◌∷◌,
  arith, ap, ◌∙◌, if◌then◌else◌, All, All-map, Bool-cases, Option-cases,
}
use wlc.Surface.Subsurfaces.Store.{
  convert-put, recursive-live, recursive-synchronized, commit_child-cached, commit_child-live,
  commit-step,
}
use wlc.Surface.Subsurfaces.{
  Surface, Surfaces, convert, put, emit, state_committed, repaint_scheduled, each,
  recursive_set_parent_sync, set_sync, parent_is_live, set_desync, commit_child,
  commit_subsurface_state, surface_commit,
}

-- Numbers that fall from a surface to its subsurfaces, which rules out cycles.
abbrev pub Ranked : (ℕ → ℕ) → Surfaces → Type 0
Ranked rank w =
    (r : ℕ) (s : Surface)
    → convert w r ≡ some s
    → All (λ (c : ℕ). rank c < rank r) s.subsurface_list

-- Flags and positions of a surface do not matter to the ranks.
Ranked-put :
    (rank : ℕ → ℕ) (w : Surfaces) (r : ℕ) (s s' : Surface)
    → convert w r ≡ some s
    → s'.subsurface_list ≡ s.subsurface_list
    → Ranked rank w
    → Ranked rank (put r s' w)
Ranked-put rank w r s s' e l h x t f = elim (convert-put w r x s' t f) [
  | inl c ↦
      let same : t.subsurface_list ≡ s.subsurface_list =
        ap (λ (u : Surface). u.subsurface_list) c.1 ∙ l in
      rw (same, ← c.0) (h r s e)
  | inr g ↦ h x t g
]

each-Ranked :
    (rank : ℕ → ℕ) (n : ℕ) (f : ℕ → Surfaces → Option Surfaces)
    → ((r : ℕ) (w : Surfaces)
        → rank r < n
        → Ranked rank w
        → (w' : Surfaces) × (f r w ≡ some w') × Ranked rank w')
    → (xs : List ℕ) (w : Surfaces) → All (λ (c : ℕ). rank c < n) xs
    → Ranked rank w
    → (w' : Surfaces) × (each f xs w ≡ some w') × Ranked rank w'
unfolding each
each-Ranked rank n f step [] w a h = (w, refl, h)
each-Ranked rank n f step (x ∷ xs) w a h =
    let s = step x w a.0 h in
    let rest = each-Ranked rank n f step xs s.0 a.1 s.2 in (rest.0, rw (s.1, each) rest.1, rest.2)

recursive-Ranked :
    (rank : ℕ → ℕ) (n : ℕ) (state : Bool) (r : ℕ) (w : Surfaces)
    → rank r < n
    → Ranked rank w
    → (w' : Surfaces) × (recursive_set_parent_sync n state r w ≡ some w') × Ranked rank w'
unfolding recursive_set_parent_sync
recursive-Ranked rank zero state r w l h = absurd (omega arith)
recursive-Ranked rank (suc n) state r w l h = elim (Option-cases (convert w r)) [
  | inl e ↦ (w, rw (e, recursive_set_parent_sync) refl, h)
  | inr (s, e) ↦ elim (Bool-cases s.synchronized) [
    | inl y ↦ (w, recursive-synchronized w r s e n state y, h)
    | inr f ↦
        let out =
          each-Ranked rank n (recursive_set_parent_sync n state) (recursive-Ranked rank n state)
            s.subsurface_list (put r (record s { parent_synchronized = state }) w)
            (All-map s.subsurface_list (λ c k. omega arith) (h r s e))
            (Ranked-put rank w r s _ e refl h) in
        (out.0, recursive-live w r s e n state f ∙ out.1, out.2)
  ]
]

commit_child-Ranked :
    (rank : ℕ → ℕ) (n : ℕ) (rest : ℕ → Surfaces → Option Surfaces)
    → ((r : ℕ) (w : Surfaces)
        → rank r < n
        → Ranked rank w
        → (w' : Surfaces) × (rest r w ≡ some w') × Ranked rank w')
    → (r : ℕ) (w : Surfaces) → rank r < n
    → Ranked rank w
    → (w' : Surfaces) × (commit_child rest r w ≡ some w') × Ranked rank w'
unfolding commit_child
commit_child-Ranked rank n rest step r w l h = elim (Option-cases (convert w r)) [
  | inl e ↦ (w, rw (e, commit_child) refl, h)
  | inr (s, e) ↦ elim (Bool-cases (s.synchronized || s.parent_synchronized)) [
    | inl y ↦
        let out = step r _ l (Ranked-put rank w r s _ e refl h) in
        (out.0, commit_child-cached w r s e rest y ∙ out.1, out.2)
    | inr f ↦ (_, commit_child-live w r s e rest f, Ranked-put rank w r s _ e refl h)
  ]
]

commit-Ranked :
    (rank : ℕ → ℕ) (n : ℕ) (r : ℕ) (w : Surfaces)
    → rank r < n
    → Ranked rank w
    → (w' : Surfaces) × (commit_subsurface_state n r w ≡ some w') × Ranked rank w'
unfolding commit_subsurface_state
commit-Ranked rank zero r w l h = absurd (omega arith)
commit-Ranked rank (suc n) r w l h = elim (Option-cases (convert w r)) [
  | inl e ↦ (w, rw (e, commit_subsurface_state) refl, h)
  | inr (s, e) ↦
      let out =
        each-Ranked rank n (commit_child (commit_subsurface_state n))
          (commit_child-Ranked rank n (commit_subsurface_state n) (commit-Ranked rank n))
          s.subsurface_list (emit (repaint_scheduled r) (emit (state_committed r) w))
          (All-map s.subsurface_list (λ c k. omega arith) (h r s e)) h in
      (out.0, commit-step w r s e n ∙ out.1, out.2)
]

pub surface_commit-Ranked :
    (rank : ℕ → ℕ) (n r : ℕ) (w : Surfaces)
    → rank r < n
    → Ranked rank w
    → (w' : Surfaces) × (surface_commit n r w ≡ some w')
unfolding surface_commit
surface_commit-Ranked rank n r w l h =
    let out = commit-Ranked rank n r w l h in
    elim (Option-cases (convert w r)) [
      | inl e ↦ (w, rw (e, surface_commit) refl)
      | inr (s, e) ↦ elim (Bool-cases (s.parent_synchronized || s.synchronized)) [
        | inl y ↦ (w, rw (e, surface_commit, y) refl)
        | inr f ↦ (out.0, rw (e, surface_commit, f) out.1)
      ]
    ]

set_desync-Ranked :
    (rank : ℕ → ℕ) (n r : ℕ) (w : Surfaces)
    → rank r < n
    → Ranked rank w
    → (w' : Surfaces) × (set_desync n r w ≡ some w')
unfolding set_desync
set_desync-Ranked rank n r w l h = elim (Option-cases (convert w r)) [
  | inl e ↦ (w, rw (e, set_desync) refl)
  | inr (s, e) ↦
      let out =
        recursive-Ranked rank n false r (put r (record s { synchronized = false }) w) l
          (Ranked-put rank w r s _ e refl h) in
      (
        if parent_is_live r out.0 then emit (state_committed r) out.0 else out.0,
        rw (e, set_desync, out.1) refl,
      )
]

set_sync-Ranked :
    (rank : ℕ → ℕ) (n r : ℕ) (w : Surfaces)
    → rank r < n
    → Ranked rank w
    → (w' : Surfaces) × (set_sync n r w ≡ some w')
unfolding set_sync
set_sync-Ranked rank n r w l h = elim (Option-cases (convert w r)) [
  | inl e ↦ (w, rw (e, set_sync) refl)
  | inr (s, e) ↦
      let out =
        recursive-Ranked rank n true r (put r (record s { synchronized = true }) w) l
          (Ranked-put rank w r s _ e refl h) in
      (out.0, rw (e, set_sync) out.1)
]

-- While numbers below the fuel fall from every surface to its subsurfaces, the recursions over the
-- tree end: a commit, a change to synchronized and a change to desynchronized each have a result.
pub tree_requests_end :
    (rank : ℕ → ℕ) (n r : ℕ) (w : Surfaces)
    → rank r < n
    → Ranked rank w
    → ((w' : Surfaces) × (surface_commit n r w ≡ some w'))
      × ((w' : Surfaces) × (set_sync n r w ≡ some w'))
      × ((w' : Surfaces) × (set_desync n r w ≡ some w'))
tree_requests_end rank n r w l h = (
  surface_commit-Ranked rank n r w l h,
  set_sync-Ranked rank n r w l h,
  set_desync-Ranked rank n r w l h,
)
