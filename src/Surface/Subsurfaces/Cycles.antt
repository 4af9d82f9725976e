-- ===== src/Surface/Subsurfaces/Cycles.antt =====
-- The recursions over the tree of subsurfaces do not end where surfaces go round in a circle.
use wlc.Base.{
  ℕ, suc, zero, ◌≡◌, ◌∙◌, sym, inl, inr, refl, ap, Bool, true, false, Option, some, none, List, [],
  ◌∷◌, arith, ◌==◌, contains, Bool-cases, Option-cases,
}
use wlc.Chck.{some_inj}
use wlc.Surface.Subsurfaces.Store.{
  convert-put_self, convert-put_ne, recursive-live, recursive-synchronized,
}
use wlc.Surface.Subsurfaces.{
  Surface, Surfaces, convert, put, each, recursive_set_parent_sync, set_desync,
}

-- A way round in a tree: every surface of the set is there and not synchronized, and has a
-- subsurface of the set.
abbrev pub Looping : (ℕ → Bool) → Surfaces → Type 0
Looping p w =
    (r : ℕ)
    → p r ≡ true
    → (s : Surface) × (convert w r ≡ some s)
      × (s.synchronized ≡ false)
      × ((c : ℕ) × (contains s.subsurface_list c ≡ true) × (p c ≡ true))

Looping-put :
    (p : ℕ → Bool) (w : Surfaces) (r : ℕ) (s s' : Surface)
    → convert w r ≡ some s
    → s'.subsurface_list ≡ s.subsurface_list
    → s'.synchronized ≡ false
    → Looping p w
    → Looping p (put r s' w)
Looping-put p w r s s' e l f h x y = elim (Bool-cases (r == x)) [
  | inl same ↦
      let at : r ≡ x = ground (arith, same) in
      let k = h r (ap p at ∙ y) in
      let q : s ≡ k.0 = some_inj (sym k.1 ∙ e) in
      let subs : s'.subsurface_list ≡ k.0.subsurface_list =
        l ∙ ap (λ (u : Surface). u.subsurface_list) q in
      rw (← at) (
        (
          s',
          convert-put_self w r s s' e,
          f,
          (k.3.0, ap (λ (xs : List ℕ). contains xs k.3.0) subs ∙ k.3.1, k.3.2),
        ))
  | inr n ↦ let k = h x y in (k.0, convert-put_ne w r x s' n ∙ k.1, k.2, k.3)
]

-- A loop that keeps a property keeps it, and does not end if one of its rounds does not.
module _ (I : Surfaces → Type 0) (f : ℕ → Surfaces → Option Surfaces)
    (keep : (x : ℕ) (w w' : Surfaces) → I w → f x w ≡ some w' → I w') where
  each-keeps : (xs : List ℕ) (w w' : Surfaces) → I w → each f xs w ≡ some w' → I w'
  unfolding each
  each-keeps [] w w' h e = rw (some_inj e) h
  each-keeps (x ∷ xs) w w' h e = elim (Option-cases (f x w)) [
    | inl n ↦ absurd (ground (arith, e, n))
    | inr (v, g) ↦ each-keeps xs v w' (keep x w v h g) (rw (g, each) at e)
  ]

  each-none :
      (xs : List ℕ) (c : ℕ) (w : Surfaces)
      → ((w : Surfaces) → I w → f c w ≡ none)
      → contains xs c ≡ true
      → I w
      → each f xs w ≡ none
  unfolding each
  each-none [] c w fail y h = cc
  each-none (x ∷ xs) c w fail y h = elim (Option-cases (f x w)) [
    | inl n ↦ rw (n, each) refl
    | inr (v, g) ↦ elim (Bool-cases (x == c)) [
      | inl same ↦
          let at : x ≡ c = ground (arith, same) in
          let stuck : f x w ≡ none = rw at (fail w h) in rw (stuck, each) refl
      | inr ne ↦ rw (g, each) (each-none xs c v fail (ground (arith, y, ne)) (keep x w v h g))
    ]
  ]

recursive-Looping :
    (p : ℕ → Bool) (n : ℕ) (state : Bool) (r : ℕ) (w w' : Surfaces)
    → Looping p w
    → recursive_set_parent_sync n state r w ≡ some w'
    → Looping p w'
unfolding recursive_set_parent_sync
recursive-Looping p zero state r w w' h e = absurd (ground (arith, e))
recursive-Looping p (suc n) state r w w' h e = elim (Option-cases (convert w r)) [
  | inl f ↦ rw (some_inj (rw (f, recursive_set_parent_sync) at e)) h
  | inr (s, f) ↦ elim (Bool-cases s.synchronized) [
    | inl y ↦ rw (some_inj (sym (recursive-synchronized w r s f n state y) ∙ e)) h
    | inr l ↦
        each-keeps (Looping p) (recursive_set_parent_sync n state)
          (λ x v v'. recursive-Looping p n state x v v') s.subsurface_list _ w'
          (Looping-put p w r s _ f refl l h) (sym (recursive-live w r s f n state l) ∙ e)
  ]
]

recursive-none :
    (p : ℕ → Bool) (n : ℕ) (state : Bool) (r : ℕ) (w : Surfaces)
    → p r ≡ true
    → Looping p w
    → recursive_set_parent_sync n state r w ≡ none
unfolding recursive_set_parent_sync
recursive-none p zero state r w y h = refl
recursive-none p (suc n) state r w y h =
    let k = h r y in
    recursive-live w r k.0 k.1 n state k.2
    ∙ each-none (Looping p) (recursive_set_parent_sync n state)
        (λ x v v'. recursive-Looping p n state x v v') k.0.subsurface_list k.3.0 _
        (λ v. recursive-none p n state k.3.0 v k.3.2) k.3.1 (Looping-put p w r k.0 _ k.1 refl k.2 h)

-- Where surfaces that are not synchronized are each other's subsurfaces in a circle, a request to
-- desynchronize one of them does not end: no fuel is enough.
pub set_desync-endless :
    (p : ℕ → Bool) (n r : ℕ) (w : Surfaces) → p r ≡ true → Looping p w → set_desync n r w ≡ none
unfolding set_desync
set_desync-endless p n r w y h =
    let k = h r y in
    let stuck =
      recursive-none p n false r (put r (record k.0 { synchronized = false }) w) y
        (Looping-put p w r k.0 _ k.1 refl refl h) in
    rw (k.1, set_desync, stuck) refl
