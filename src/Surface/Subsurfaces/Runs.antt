-- ===== src/Surface/Subsurfaces/Runs.antt =====
-- Runs that leave the flags of surfaces as they are, and their composition.
use wlc.Base.{
  ℕ, ◌≡◌, ◌∙◌, sym, ◌⊎◌, inl, inr, refl, ap, true, some, List, [], ◌∷◌, arith, ◌==◌, Bool-cases,
}
use wlc.Chck.{some_inj}
use wlc.Surface.Subsurfaces.Store.{convert-put, convert-put_self, convert-put_ne}
use wlc.Surface.Subsurfaces.{Surface, Surfaces, convert, put}
use wlc.Surface.Subsurfaces.Cached.{
  cached, Committed, SameFlags, same, Committed-SameFlags, Below, Commits,
}

pub Below-SameFlags :
    (w w' : Surfaces) (xs : List ℕ) (x : ℕ) → SameFlags w w' → Below w xs x → Below w' xs x
Below-SameFlags w w' xs x f (c, t, m, g, l, d) =
    let j = f c t g in (c, j.0, m, j.1, j.3 ∙ l, Committed-SameFlags w w' f d)

pub SameFlags-trans : (u v w : Surfaces) → SameFlags u v → SameFlags v w → SameFlags u w
SameFlags-trans u v w f g r s e =
    let k = f r s e in let j = g r k.0 k.1 in (j.0, j.1, j.2 ∙ k.2, j.3 ∙ k.3)

-- A new position of a surface leaves the flags as they are.
pub put-SameFlags :
    (w : Surfaces) (r : ℕ) (s s' : Surface)
    → convert w r ≡ some s
    → s'.subsurface_list ≡ s.subsurface_list
    → cached s' ≡ cached s
    → SameFlags w (put r s' w)
put-SameFlags w r s s' e l f x t g = elim (Bool-cases (r == x)) [
  | inl y ↦
      let at : r ≡ x = ground (arith, y) in
      let q : s ≡ t = some_inj (sym g ∙ (rw (← at) e)) in
      (
        s',
        rw (← at) (convert-put_self w r s s' e),
        l ∙ ap (λ (u : Surface). u.subsurface_list) q,
        f ∙ ap cached q,
      )
  | inr n ↦ (t, convert-put_ne w r x s' n ∙ g, refl, refl)
]

pub SameFlags-put :
    (w : Surfaces) (r : ℕ) (s s' : Surface)
    → convert w r ≡ some s
    → s'.subsurface_list ≡ s.subsurface_list
    → cached s' ≡ cached s
    → SameFlags (put r s' w) w
SameFlags-put w r s s' e l f x t g = elim (convert-put w r x s' t g) [
  | inl c ↦ (
    s,
    rw (← c.0) e,
    sym (ap (λ (u : Surface). u.subsurface_list) c.1 ∙ l),
    sym (ap cached c.1 ∙ f),
  )
  | inr k ↦ (t, k, refl, refl)
]

-- Runs that commit nothing, and a loop: first one run, then another.
pub Commits-same : (w : Surfaces) (q : ℕ → Type 0) → ((x : ℕ) → ¬ (q x)) → Commits w w q
Commits-same w q none_of = record {
  to = same w;
  from = same w;
  sound = λ x h. inl h;
  complete = λ x h. elim h [ inl y ↦ y | inr y ↦ absurd (none_of x y) ];
}

pub Commits-trans :
    (u v w : Surfaces) (p q r : ℕ → Type 0)
    → ((x : ℕ) → p x → r x)
    → ((x : ℕ) → q x → r x)
    → ((x : ℕ) → r x → p x ⊎ q x)
    → Commits u v p
    → Commits v w q
    → Commits u w r
Commits-trans u v w p q r f g split a b = record {
  to = SameFlags-trans u v w a.to b.to;
  from = SameFlags-trans w v u b.from a.from;
  sound = λ x h. elim (b.sound x h) [
    | inl y ↦ elim (a.sound x y) [ inl z ↦ inl z | inr z ↦ inr (f x z) ]
    | inr y ↦ inr (g x y)
  ];
  complete = λ x h. elim h [
    | inl y ↦ b.complete x (inl (a.complete x (inl y)))
    | inr y ↦ elim (split x y) [
      | inl z ↦ b.complete x (inl (a.complete x (inr z)))
      | inr z ↦ b.complete x (inr z)
    ]
  ];
}

pub Below-one :
    (w : Surfaces) (c x : ℕ)
    → Below w (c ∷ []) x
    → (t : Surface) × (convert w c ≡ some t) × (cached t ≡ true) × Committed w c x
Below-one w c x (d, t, m, g, l, k) =
    let at : d ≡ c = ground (arith, m) in (t, rw (← at) g, l, rw (← at) k)

pub Below-cons : (w : Surfaces) (c : ℕ) (xs : List ℕ) (x : ℕ) → Below w xs x → Below w (c ∷ xs) x
Below-cons w c xs x (d, t, m, g, l, k) = (d, t, ground (arith, m), g, l, k)

pub Below-first :
    (w : Surfaces) (c : ℕ) (xs : List ℕ) (x : ℕ) → Below w (c ∷ []) x → Below w (c ∷ xs) x
Below-first w c xs x (d, t, m, g, l, k) = (d, t, ground (arith, m), g, l, k)

pub Below-split :
    (w : Surfaces) (c : ℕ) (xs : List ℕ) (x : ℕ)
    → Below w (c ∷ xs) x
    → Below w (c ∷ []) x ⊎ Below w xs x
Below-split w c xs x (d, t, m, g, l, k) = elim (Bool-cases (c == d)) [
  | inl y ↦ inl (d, t, ground (arith, y), g, l, k)
  | inr n ↦ inr (d, t, ground (arith, m, n), g, l, k)
]
