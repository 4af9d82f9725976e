-- ===== src/Surface/Subsurfaces/Links.antt =====
-- The two ends of the link between a subsurface and its parent.
use wlc.Base.{
  ℕ, ◌≡◌, ◌∙◌, sym, inl, inr, refl, ap, Bool, true, false, some, List, ◌∷◌, arith, if◌then◌else◌,
  ◌==◌, index_of?, count, Bool-cases, Option-cases,
}
use wlc.Chck.{IterPool}
use wlc.Surface.Subsurfaces.Store.{convert-put_self, convert-put_ne}
use wlc.Surface.Subsurfaces.{
  Surface, Surfaces, convert, put, emit, attached_to_output_of, leave_parent, set_parent_of,
  enter_parent, set_parent, get_subsurface,
}
use wlc.Surface.Subsurfaces.Listing.{
  alive, list_in, subsurfaces_of, parent_of, IsLinked, IsLinkedBut, alive-put, subsurfaces_of-put,
  parent_of-put, parent_of-same, subsurfaces_of-here, leave_parent-IsLinkedBut,
}

subsurfaces_of-same :
    (w : Surfaces) (r : ℕ) (s s' : Surface)
    → convert w r ≡ some s
    → s'.subsurface_list ≡ s.subsurface_list
    → (p : ℕ) → subsurfaces_of (put r s' w) p ≡ subsurfaces_of w p
subsurfaces_of-same w r s s' e l p = elim (Bool-cases (r == p)) [
  | inl y ↦
      let at : r ≡ p = ground (arith, y) in
      rw (← at) (ap list_in (convert-put_self w r s s' e) ∙ l ∙ sym (ap list_in e))
  | inr n ↦ ap list_in (convert-put_ne w r p s' n)
]

-- The lists are as if the surface had this parent.
abbrev IsLinkedTo : ℕ → ℕ → Surfaces → Type 0
IsLinkedTo surface parent w =
    (p x : ℕ)
    → alive w p ≡ true
    → count (subsurfaces_of w p) x ≡ (
        if surface == x
        then (if parent == p then 1 else 0)
        else if parent_of w x == p
        then 1
        else 0)

-- The surface gets the parent.
adopt-IsLinked :
    (w : Surfaces) (surface parent : ℕ) (s s' : Surface)
    → convert w surface ≡ some s
    → s'.subsurface_list ≡ s.subsurface_list
    → s'.parent ≡ parent
    → IsLinkedTo surface parent w
    → IsLinked (put surface s' w)
adopt-IsLinked w surface parent s s' e l m h p x a =
    let there : alive w p ≡ true = sym (alive-put w surface s s' e p) ∙ a in
    let listed = ap (λ (l : List ℕ). count l x) (subsurfaces_of-same w surface s s' e l p) in
    listed ∙ h p x there ∙ elim (Bool-cases (surface == x)) [
      | inl y ↦ ground (arith, y, m, parent_of-put w surface s s' e x)
      | inr n ↦ ground (arith, n, parent_of-put w surface s s' e x)
    ]

orphan-IsLinked :
    (w : Surfaces) (surface : ℕ) (s : Surface)
    → convert w surface ≡ some s
    → IsLinkedBut surface w
    → IsLinked (put surface (record s { parent = 0 }) w)
orphan-IsLinked w surface s e h =
    adopt-IsLinked w surface 0 s _ e refl refl
      (λ p x a. h p x a ∙ (let z : 0 == p ≡ false = ground (arith, a) in rw z refl))

-- The lists once the surface has been put into that of its new parent.
enter_list-IsLinkedTo :
    (w : Surfaces) (surface parent : ℕ) (q : Surface)
    → convert w parent ≡ some q
    → IsLinkedBut surface w
    → IsLinkedTo surface parent
        (put parent (record q { subsurface_list = surface ∷ q.subsurface_list }) w)
enter_list-IsLinkedTo w surface parent q f h p x a =
    let q' : Surface = record q { subsurface_list = surface ∷ q.subsurface_list } in
    let there : alive w p ≡ true = sym (alive-put w parent q q' f p) ∙ a in
    let listed = ap (λ (l : List ℕ). count l x) (subsurfaces_of-put w parent q q' f p) in
    let before = h p x there in
    listed ∙ elim (Bool-cases (parent == p)) [
      | inl y ↦ ground (
        arith,
        y,
        before,
        subsurfaces_of-here w p parent q f y,
        parent_of-same w parent q q' f refl x,
      )
      | inr n ↦ ground (arith, n, before, parent_of-same w parent q q' f refl x)
    ]

set_parent_of-IsLinked :
    (w : Surfaces) (surface parent view : ℕ) (s : Surface)
    → convert w surface ≡ some s
    → IsLinkedTo surface parent w
    → IsLinked (set_parent_of surface parent view w)
unfolding set_parent_of
set_parent_of-IsLinked w surface parent view s e h =
    rw (set_parent_of, e) (adopt-IsLinked w surface parent s _ e refl refl h)

convert-put_there :
    (w : Surfaces) (r x : ℕ) (s s' t : Surface)
    → convert w r ≡ some s
    → convert w x ≡ some t
    → (u : Surface) × (convert (put r s' w) x ≡ some u)
convert-put_there w r x s s' t e f = elim (Bool-cases (r == x)) [
  | inl y ↦ let at : r ≡ x = ground (arith, y) in (s', rw (← at) (convert-put_self w r s s' e))
  | inr n ↦ (t, convert-put_ne w r x s' n ∙ f)
]

-- The surface gets a parent; it then stands once in the list of that parent.
enter_parent-IsLinked :
    (c : IterPool) (surface parent : ℕ) (w : Surfaces) (s : Surface)
    → convert w surface ≡ some s
    → IsLinkedBut surface w
    → IsLinked (enter_parent c surface parent w)
unfolding enter_parent
enter_parent-IsLinked c surface parent w s e h = elim (Option-cases (convert w parent)) [
  | inl n ↦ rw (enter_parent, n, e) (orphan-IsLinked w surface s e h)
  | inr (q, f) ↦ elim (Option-cases (c.push_front q.subsurface_list surface)) [
    | inl n ↦ rw (enter_parent, f, n, e) (orphan-IsLinked w surface s e h)
    | inr (ys, g) ↦
        let at : ys ≡ surface ∷ q.subsurface_list =
          c.push_front_lem q.subsurface_list ys surface g in
        let q' : Surface = record q { subsurface_list = surface ∷ q.subsurface_list } in
        let there = convert-put_there w parent surface q q' s f e in
        rw (enter_parent, f, g, at)
          (set_parent_of-IsLinked (emit (attached_to_output_of surface parent) (put parent q' w))
            surface parent q.parent_view there.0 there.1
            (enter_list-IsLinkedTo w surface parent q f h))
  ]
]

leave_parent-there :
    (c : IterPool) (surface parent : ℕ) (w : Surfaces) (s : Surface)
    → convert w surface ≡ some s
    → (t : Surface) × (convert (leave_parent c surface parent w) surface ≡ some t)
unfolding leave_parent
leave_parent-there c surface parent w s e = elim (Option-cases (convert w parent)) [
  | inl n ↦ (s, rw (leave_parent, n) e)
  | inr (q, f) ↦ elim (Option-cases (index_of? q.subsurface_list surface)) [
    | inl n ↦ (s, rw (leave_parent, f, n) e)
    | inr (i, g) ↦
        let there =
          convert-put_there w parent surface q
            (record q { subsurface_list = c.remove q.subsurface_list i }) s f e in
        (there.0, rw (leave_parent, f, g) there.1)
  ]
]

set_parent-IsLinked :
    (c : IterPool) (surface parent : ℕ) (w : Surfaces)
    → IsLinked w
    → IsLinked (set_parent c surface parent w)
unfolding set_parent
set_parent-IsLinked c surface parent w h = elim (Option-cases (convert w surface)) [
  | inl n ↦ rw (set_parent, n) h
  | inr (s, e) ↦ elim (Bool-cases (s.parent == parent)) [
    | inl y ↦ rw (set_parent, e, y) h
    | inr n ↦
        let v : Surfaces = leave_parent c surface s.parent w in
        let (t, k) = leave_parent-there c surface s.parent w s e in
        rw (set_parent, e, n)
          (enter_parent-IsLinked c surface parent v t k
            (leave_parent-IsLinkedBut c surface w s e h))
  ]
]

-- If every surface stands once in the list of its parent and in no other list, then so it is after
-- the request for a subsurface, whether it is refused, or memory runs out, or all goes well.
pub get_subsurface-IsLinked :
    (c : IterPool) (created : Bool) (surface parent : ℕ) (w : Surfaces)
    → IsLinked w
    → IsLinked (get_subsurface c created surface parent w)
unfolding get_subsurface
get_subsurface-IsLinked c created surface parent w h = elim (Bool-cases (surface == parent)) [
  | inl y ↦ rw (get_subsurface, y) h
  | inr n ↦ elim (Bool-cases created) [
    | inl y ↦ rw (get_subsurface, n, y) (set_parent-IsLinked c surface _ w h)
    | inr f ↦ rw (get_subsurface, n, f) h
  ]
]
