-- ===== src/Surface/Subsurfaces/Listing.antt =====
-- The lists of subsurfaces, and how a surface leaves that of its parent.
use wlc.Base.{
  ℕ, ◌-◌, ◌≡◌, ◌∙◌, sym, inl, inr, refl, ap, Bool, true, false, Option, some, none, List, [], arith,
  if◌then◌else◌, ◌==◌, index_of?, count, count-erase, erase_idx-index_of?, erase-eq_of_none,
  Bool-cases, Option-cases,
}
use wlc.Chck.{IterPool}
use wlc.Surface.Subsurfaces.Store.{convert-put_self, convert-put_ne}
use wlc.Surface.Subsurfaces.{Surface, Surfaces, convert, put, leave_parent}

abbrev pub alive : Surfaces → ℕ → Bool
alive w r = elim (convert w r) [ none ↦ false | some s ↦ true ]

abbrev pub list_in : Option Surface → List ℕ
list_in none = []
list_in (some s) = s.subsurface_list

abbrev parent_in : Option Surface → ℕ
parent_in none = 0
parent_in (some s) = s.parent

abbrev pub subsurfaces_of : Surfaces → ℕ → List ℕ
subsurfaces_of w r = list_in (convert w r)

abbrev pub parent_of : Surfaces → ℕ → ℕ
parent_of w r = parent_in (convert w r)

-- A surface stands once in the list of its parent, and in no other list.
abbrev pub IsLinked : Surfaces → Type 0
IsLinked w =
    (p x : ℕ)
    → alive w p ≡ true
    → count (subsurfaces_of w p) x ≡ (if parent_of w x == p then 1 else 0)

-- So it is for all surfaces but one, which is in no list.
abbrev pub IsLinkedBut : ℕ → Surfaces → Type 0
IsLinkedBut surface w =
    (p x : ℕ)
    → alive w p ≡ true
    → count (subsurfaces_of w p) x
      ≡ (if surface == x then 0 else if parent_of w x == p then 1 else 0)

-- What a surface that is put in place of another changes.
module _ (w : Surfaces) (r : ℕ) (s s' : Surface) (e : convert w r ≡ some s) where
  pub alive-put : (p : ℕ) → alive (put r s' w) p ≡ alive w p
  alive-put p = elim (Bool-cases (r == p)) [
    | inl y ↦ ground (arith, e, y)
    | inr n ↦ ground (arith, n)
  ]

  pub subsurfaces_of-put :
      (p : ℕ)
      → subsurfaces_of (put r s' w) p ≡ (if r == p then s'.subsurface_list else subsurfaces_of w p)
  subsurfaces_of-put p = elim (Bool-cases (r == p)) [
    | inl y ↦ ground (arith, e, y)
    | inr n ↦ ground (arith, n)
  ]

  pub parent_of-put :
      (p : ℕ) → parent_of (put r s' w) p ≡ (if r == p then s'.parent else parent_of w p)
  parent_of-put p = elim (Bool-cases (r == p)) [
    | inl y ↦ ground (arith, e, y)
    | inr n ↦ ground (arith, n)
  ]

pub parent_of-same :
    (w : Surfaces) (r : ℕ) (s s' : Surface)
    → convert w r ≡ some s
    → s'.parent ≡ s.parent
    → (x : ℕ) → parent_of (put r s' w) x ≡ parent_of w x
parent_of-same w r s s' e l x = elim (Bool-cases (r == x)) [
  | inl y ↦
      let at : r ≡ x = ground (arith, y) in
      rw (← at) (ap parent_in (convert-put_self w r s s' e) ∙ l ∙ sym (ap parent_in e))
  | inr n ↦ ap parent_in (convert-put_ne w r x s' n)
]

-- Lists from which the surface is taken where its parent has it.
cut :
    (w : Surfaces) (surface p x : ℕ) (s : Surface) (xs : List ℕ)
    → convert w surface ≡ some s
    → IsLinked w
    → alive w p ≡ true
    → count xs x
      ≡ count (subsurfaces_of w p) x
        - (if surface == x then (if s.parent == p then 1 else 0) else 0)
    → count xs x ≡ (if surface == x then 0 else if parent_of w x == p then 1 else 0)
cut w surface p x s xs e h a k = elim (Bool-cases (surface == x)) [
  | inl y ↦
      let at : surface ≡ x = ground (arith, y) in
      let own : parent_of w x ≡ s.parent = rw (← at) (ap parent_in e) in
      let listed : count (subsurfaces_of w p) x ≡ (if s.parent == p then 1 else 0) =
        h p x a ∙ ap (λ (o : ℕ). if o == p then 1 else 0) own in
      rw y (k ∙ ground (arith, y, listed))
  | inr n ↦ rw n (k ∙ ground (arith, n, h p x a))
]

pub subsurfaces_of-here :
    (w : Surfaces) (p r : ℕ) (q : Surface)
    → convert w r ≡ some q
    → r == p ≡ true
    → subsurfaces_of w p ≡ q.subsurface_list
subsurfaces_of-here w p r q f y = let at : r ≡ p = ground (arith, y) in rw (← at) (ap list_in f)

gone : (w : Surfaces) (p r : ℕ) → convert w r ≡ none → alive w p ≡ true → r == p ≡ false
gone w p r n a = ground (arith, n, a)

pub leave_parent-IsLinkedBut :
    (c : IterPool) (surface : ℕ) (w : Surfaces) (s : Surface)
    → convert w surface ≡ some s
    → IsLinked w
    → IsLinkedBut surface (leave_parent c surface s.parent w)
unfolding leave_parent
leave_parent-IsLinkedBut c surface w s e h = elim (Option-cases (convert w s.parent)) [
  | inl n ↦
      rw (leave_parent, n)
        (λ p x a.
          cut w surface p x s (subsurfaces_of w p) e h a (ground (arith, gone w p s.parent n a)))
  | inr (q, f) ↦ elim (Option-cases (index_of? q.subsurface_list surface)) [
    | inl n ↦
        let kept = erase-eq_of_none q.subsurface_list surface n in
        rw (leave_parent, f, n)
          (λ p x a.
            cut w surface p x s (subsurfaces_of w p) e h a (elim (Bool-cases (s.parent == p)) [
              | inl y ↦ ground (
                arith,
                y,
                subsurfaces_of-here w p s.parent q f y,
                kept,
                count-erase q.subsurface_list surface x,
              )
              | inr o ↦ ground (arith, o)
            ]))
    | inr (i, g) ↦
        let (erased, lt) = erase_idx-index_of? q.subsurface_list surface i g in
        let kept = c.remove_lem q.subsurface_list i lt ∙ erased in
        rw (leave_parent, f, g)
          (λ p x a.
            let q' : Surface = record q { subsurface_list = c.remove q.subsurface_list i } in
            let there : alive w p ≡ true = sym (alive-put w s.parent q q' f p) ∙ a in
            let listed = ap (λ (l : List ℕ). count l x) (subsurfaces_of-put w s.parent q q' f p) in
            cut w surface p x s (subsurfaces_of (put s.parent q' w) p) e h there
              (elim (Bool-cases (s.parent == p)) [
                | inl y ↦ ground (
                  arith,
                  y,
                  listed,
                  subsurfaces_of-here w p s.parent q f y,
                  kept,
                  count-erase q.subsurface_list surface x,
                )
                | inr o ↦ ground (arith, o, listed)
              ])
            ∙ ap (λ (o : ℕ). if surface == x then 0 else if o == p then 1 else 0)
                (sym (parent_of-same w s.parent q q' f refl x)))
  ]
]
