-- ===== src/Surface/Subsurfaces/Store.antt =====
-- Lemmas on surfaces found by their resources.
use wlc.Base.{
  ℕ, ◌≡◌, ◌⊎◌, inl, inr, refl, suc, Bool, true, false, ◌||◌, Option, some, arith, ◌==◌, Bool-cases,
}
use wlc.Surface.Subsurfaces.{
  Surface, Surfaces, convert, put, emit, state_committed, repaint_scheduled, each,
  recursive_set_parent_sync, commit_child, commit_subsurface_state,
}

pub convert-put_self :
    (w : Surfaces) (r : ℕ) (s s' : Surface)
    → convert w r ≡ some s
    → convert (put r s' w) r ≡ some s'
convert-put_self w r s s' e = ground (arith, e)

pub convert-put_ne :
    (w : Surfaces) (r x : ℕ) (s' : Surface) → r == x ≡ false → convert (put r s' w) x ≡ convert w x
convert-put_ne w r x s' n = ground (arith, n)

pub convert-put :
    (w : Surfaces) (r x : ℕ) (s' t : Surface)
    → convert (put r s' w) x ≡ some t
    → ((r ≡ x) × (t ≡ s')) ⊎ (convert w x ≡ some t)
convert-put w r x s' t f = elim (Bool-cases (r == x)) [
  | inl y ↦ inl (ground (arith, f, y))
  | inr n ↦ inr (ground (arith, f, n))
]

elim-false : (b : Bool) (x y : Option Surfaces) → b ≡ false → elim b [ true ↦ x | false ↦ y ] ≡ y
elim-false true x y f = cc
elim-false false x y f = refl

-- What the recursions over the tree come to, by the surface that is found.
module _ (w : Surfaces) (r : ℕ) (s : Surface) (e : convert w r ≡ some s) where
  pub recursive-live :
      (n : ℕ) (state : Bool)
      → s.synchronized ≡ false
      → recursive_set_parent_sync (suc n) state r w
        ≡ each
            (recursive_set_parent_sync n state)
            s.subsurface_list
            (put r (record s { parent_synchronized = state }) w)
  unfolding recursive_set_parent_sync
  recursive-live n state f =
      rw (e, recursive_set_parent_sync)
        (elim-false s.synchronized (some w)
          (each (recursive_set_parent_sync n state) s.subsurface_list
            (put r (record s { parent_synchronized = state }) w))
          f)

  pub recursive-synchronized :
      (n : ℕ) (state : Bool)
      → s.synchronized ≡ true
      → recursive_set_parent_sync (suc n) state r w ≡ some w
  unfolding recursive_set_parent_sync
  recursive-synchronized n state f = rw (e, recursive_set_parent_sync, f) refl

  pub commit_child-cached :
      (rest : ℕ → Surfaces → Option Surfaces)
      → s.synchronized || s.parent_synchronized ≡ true
      → commit_child rest r w ≡ rest r (put r (record s { commit_position = s.pending_position }) w)
  unfolding commit_child
  commit_child-cached rest f = rw (e, commit_child, f) refl

  pub commit_child-live :
      (rest : ℕ → Surfaces → Option Surfaces)
      → s.synchronized || s.parent_synchronized ≡ false
      → commit_child rest r w ≡ some (put r (record s { commit_position = s.pending_position }) w)
  unfolding commit_child
  commit_child-live rest f = rw (e, commit_child, f) refl

  pub commit-step :
      (n : ℕ)
      → commit_subsurface_state (suc n) r w
        ≡ each
            (commit_child (commit_subsurface_state n))
            s.subsurface_list
            (emit (repaint_scheduled r) (emit (state_committed r) w))
  unfolding commit_subsurface_state
  commit-step n = rw (e, commit_subsurface_state) refl
