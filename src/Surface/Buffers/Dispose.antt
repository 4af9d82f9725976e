-- ===== src/Surface/Buffers/Dispose.antt =====
-- What counting the holders of the buffers comes to when one is disposed of.
use mathlib.Core.Path.{subst, fun_ext}
use wlc.Base.{
  ℕ, ◌+◌, ◌-◌, ◌≡◌, ◌∙◌, sym, refl, ap, inl, inr, true, false, ◌||◌, not, arith, ◌==◌, ltb, if-true,
  if-false, Bool-cases,
}
use wlc.Surface.Buffers.Counted.{holds, Counted, there-nonzero}
use wlc.Surface.Buffers.{Buffers, put, clear, buffer_release, buffer_dispose}

-- What disposing of the buffer that `p` has for the surface `s` comes to.
module _ (s : ℕ) (p c : ℕ → ℕ) (w : Buffers) (k : Counted p c w) where
  fewer : Buffers
  fewer = record w { references = put (p s) (w.references (p s) - 1) w.references }

  dispose-cases :
      (P : Buffers → Type 0)
      → (p s == 0 ≡ true → P w)
      → (p s == 0 ≡ false → c s == p s ≡ true → P fewer)
      → (p s == 0 ≡ false → c s == p s ≡ false → P (buffer_release (p s) fewer))
      → P (buffer_dispose (p s) w)
  unfolding buffer_dispose fewer
  dispose-cases P none_there kept gone = elim (Bool-cases (p s == 0)) [
    | inl y ↦
        subst P (sym (if-true _ _ (p s == 0 || not (w.there (p s))) (ground (arith, y))))
          (none_there y)
    | inr n ↦
        let (there, mine) = k.first s n in
        let live : p s == 0 || not (w.there (p s)) ≡ false = ground (arith, n, there) in
        let held : w.references (p s) ≡ holds (p s) (p s) + holds (c s) (p s) =
          k.count (p s) there ∙ ap (λ (t : ℕ). holds (p t) (p s) + holds (c t) (p s)) mine in
        elim (Bool-cases (c s == p s)) [
          | inl y ↦
              subst P
                (sym (
                  if-false _ _ (p s == 0 || not (w.there (p s))) live
                  ∙ if-true _ _ (ltb 1 (w.references (p s))) (ground (arith, held, y))))
                (kept n y)
          | inr z ↦
              subst P
                (sym (
                  if-false _ _ (p s == 0 || not (w.there (p s))) live
                  ∙ if-false _ _ (ltb 1 (w.references (p s))) (ground (arith, held, z))))
                (gone n z)
        ]
  ]

  -- The states that hold it are those of the one surface.
  elsewhere :
      p s == 0 ≡ false → (t : ℕ) → s == t ≡ false → (p t == p s ≡ false) × (c t == p s ≡ false)
  elsewhere n t m =
      let (there, mine) = k.first s n in
      (
        elim (Bool-cases (p t == p s)) [
          | inl y ↦
              let at : p t ≡ p s = ground (arith, y) in
              let (live, own) = k.first t (ground (arith, n, at)) in
              absurd (ground (arith, m, sym mine ∙ ap w.surface (sym at) ∙ own))
          | inr z ↦ z
        ],
        elim (Bool-cases (c t == p s)) [
          | inl y ↦
              let at : c t ≡ p s = ground (arith, y) in
              let (live, own) = k.second t (ground (arith, n, at)) in
              absurd (ground (arith, m, sym mine ∙ ap w.surface (sym at) ∙ own))
          | inr z ↦ z
        ],
      )

  -- Without it, the others hold what they held.
  first_left :
      (t : ℕ)
      → put s 0 p t == 0 ≡ false
      → (w.there (put s 0 p t) ≡ true) × (w.surface (put s 0 p t) ≡ t)
  first_left t e = elim (Bool-cases (s == t)) [
    | inl z ↦ absurd (ground (arith, z, e))
    | inr z ↦
        let is : put s 0 p t ≡ p t = if-false 0 (p t) (s == t) z in
        let (a, b) = k.first t (ap (λ (q : ℕ). q == 0) (sym is) ∙ e) in
        (ap w.there is ∙ a, ap w.surface is ∙ b)
  ]

  none-Counted : p s == 0 ≡ true → Counted (put s 0 p) c w
  none-Counted y = record {
    count = λ x e. elim (Bool-cases (s == w.surface x)) [
      | inl z ↦
          let at : s ≡ w.surface x = ground (arith, z) in
          ground (arith, z, y, k.count x e, ap p at, there-nonzero p c w k x e)
      | inr z ↦ ground (arith, z, k.count x e)
    ];
    first = first_left;
    second = k.second;
    null = k.null;
  }

  kept-Counted : p s == 0 ≡ false → c s == p s ≡ true → Counted (put s 0 p) c fewer
  unfolding fewer
  kept-Counted n y = record {
    count = λ x e. elim (Bool-cases (p s == x)) [
      | inl z ↦
          let at : p s ≡ x = ground (arith, z) in
          let (there, mine) = k.first s n in
          let held : w.references (p s) ≡ holds (p s) (p s) + holds (c s) (p s) =
            k.count (p s) there ∙ ap (λ (t : ℕ). holds (p t) (p s) + holds (c t) (p s)) mine in
          subst
            (λ (q : ℕ).
              put (p s) (w.references (p s) - 1) w.references q
              ≡ holds (put s 0 p (w.surface q)) q + holds (c (w.surface q)) q)
            at (ground (arith, held, mine, n, y, ap c mine))
      | inr z ↦ elim (Bool-cases (s == w.surface x)) [
        | inl v ↦
            let at : s ≡ w.surface x = ground (arith, v) in
            ground (arith, z, v, k.count x e, ap p at, there-nonzero p c w k x e)
        | inr v ↦ ground (arith, z, v, k.count x e)
      ]
    ];
    first = first_left;
    second = k.second;
    null = k.null;
  }

  gone-Counted :
      p s == 0 ≡ false → c s == p s ≡ false → Counted (put s 0 p) c (buffer_release (p s) fewer)
  unfolding fewer buffer_release
  gone-Counted n y = record {
    count = λ x e. elim (Bool-cases (p s == x)) [
      | inl z ↦ absurd (ground (arith, z, e))
      | inr z ↦
          let live : w.there x ≡ true = sym (if-false false (w.there x) (p s == x) z) ∙ e in
          elim (Bool-cases (s == w.surface x)) [
            | inl v ↦
                let at : s ≡ w.surface x = ground (arith, v) in
                ground (arith, z, v, k.count x live, ap p at, there-nonzero p c w k x live)
            | inr v ↦ ground (arith, z, v, k.count x live)
          ]
    ];
    first = λ t e. elim (Bool-cases (s == t)) [
      | inl z ↦ absurd (ground (arith, z, e))
      | inr z ↦
          let is : put s 0 p t ≡ p t = if-false 0 (p t) (s == t) z in
          let (a, b) = k.first t (ap (λ (q : ℕ). q == 0) (sym is) ∙ e) in
          let other = (elsewhere n t z).0 in
          (
            ap (put (p s) false w.there) is
                ∙ if-false false (w.there (p t)) (p s == p t) (ground (arith, other))
                ∙ a,
            ap w.surface is ∙ b,
          )
    ];
    second = λ t e.
        let (a, b) = k.second t e in
        elim (Bool-cases (s == t)) [
          | inl z ↦
              let at : s ≡ t = ground (arith, z) in
              (if-false false (w.there (c t)) (p s == c t) (ground (arith, y, ap c at)) ∙ a, b)
          | inr z ↦ (
            if-false false (w.there (c t)) (p s == c t) (ground (arith, (elsewhere n t z).1)) ∙ a,
            b,
          )
        ];
    null = ground (arith, n, k.null);
  }

  pub dispose-Counted : Counted (put s 0 p) c (buffer_dispose (p s) w)
  dispose-Counted = dispose-cases (Counted (put s 0 p) c) none-Counted kept-Counted gone-Counted

  pub dispose-there : (x : ℕ) → p s == x ≡ false → (buffer_dispose (p s) w).there x ≡ w.there x
  unfolding fewer buffer_release
  dispose-there x ne =
      dispose-cases (λ (u : Buffers). u.there x ≡ w.there x) (λ y. refl) (λ n y. refl)
        (λ n y. ground (arith, ne))

  pub dispose-surface : (buffer_dispose (p s) w).surface ≡ w.surface
  unfolding fewer buffer_release
  dispose-surface =
      dispose-cases (λ (u : Buffers). u.surface ≡ w.surface) (λ y. refl) (λ n y. refl) (λ n y. refl)

  -- The states of other surfaces stay, and so does the other state of this one.
  cleared_others : p s == 0 ≡ false → clear (w.surface (p s)) (p s) p ≡ put s 0 p
  cleared_others n = fun_ext (λ t. elim (Bool-cases (s == t)) [
    | inl y ↦ let at : s ≡ t = ground (arith, y) in ground (arith, y, ap p at, (k.first s n).1)
    | inr m ↦ ground (arith, m, (k.first s n).1)
  ])

  cleared_same : p s == 0 ≡ false → c s == p s ≡ false → clear (w.surface (p s)) (p s) c ≡ c
  cleared_same n d = fun_ext (λ t. elim (Bool-cases (s == t)) [
    | inl y ↦ let at : s ≡ t = ground (arith, y) in ground (arith, y, d, ap c at, (k.first s n).1)
    | inr m ↦ ground (arith, m, (k.first s n).1)
  ])

  pub dispose-commit : w.commit ≡ c → (buffer_dispose (p s) w).commit ≡ c
  unfolding fewer buffer_release
  dispose-commit e =
      dispose-cases (λ (u : Buffers). u.commit ≡ c) (λ y. e) (λ n y. e)
        (λ n y. ap (clear (w.surface (p s)) (p s)) e ∙ cleared_same n y)

  pub dispose-pending : w.pending ≡ c → (buffer_dispose (p s) w).pending ≡ c
  unfolding fewer buffer_release
  dispose-pending e =
      dispose-cases (λ (u : Buffers). u.pending ≡ c) (λ y. e) (λ n y. e)
        (λ n y. ap (clear (w.surface (p s)) (p s)) e ∙ cleared_same n y)

  -- The state itself is set right after.
  put_over : (b : ℕ) → put s b (put s 0 p) ≡ put s b p
  put_over b = fun_ext (λ t. ground arith)

  pub dispose-own_pending :
      (b : ℕ) → w.pending ≡ p → put s b (buffer_dispose (p s) w).pending ≡ put s b p
  unfolding fewer buffer_release
  dispose-own_pending b e =
      dispose-cases (λ (u : Buffers). put s b u.pending ≡ put s b p) (λ y. ap (put s b) e)
        (λ n y. ap (put s b) e)
        (λ n y.
          ap (λ (f : ℕ → ℕ). put s b (clear (w.surface (p s)) (p s) f)) e
          ∙ ap (put s b) (cleared_others n)
          ∙ put_over b)

  pub dispose-own_commit :
      (b : ℕ) → w.commit ≡ p → put s b (buffer_dispose (p s) w).commit ≡ put s b p
  unfolding fewer buffer_release
  dispose-own_commit b e =
      dispose-cases (λ (u : Buffers). put s b u.commit ≡ put s b p) (λ y. ap (put s b) e)
        (λ n y. ap (put s b) e)
        (λ n y.
          ap (λ (f : ℕ → ℕ). put s b (clear (w.surface (p s)) (p s) f)) e
          ∙ ap (put s b) (cleared_others n)
          ∙ put_over b)
