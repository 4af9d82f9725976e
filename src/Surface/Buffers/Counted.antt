-- ===== src/Surface/Buffers/Counted.antt =====
-- What is counted of the holders of buffers, and a buffer that is used.
use mathlib.Core.Path.{subst}
use wlc.Base.{
  ℕ, ◌+◌, ◌%◌, ◌^◌, ◌≡◌, ◌∙◌, sym, ap, inl, inr, Bool, true, false, arith, if◌then◌else◌, ◌==◌,
  if-true, if-false, Bool-cases,
}
use wlc.Surface.Buffers.{Buffers, put, buffer_use}

abbrev pub holds : ℕ → ℕ → ℕ
holds h x = if h == x then 1 else 0

-- What the states hold by `p` and `c` is what is counted: a buffer that is there is held by states of
-- the surface that it knows only, and what a state holds is there and knows its surface.
pub record Counted (p c : ℕ → ℕ) (w : Buffers) : Type 0 where
  pub count :
      (x : ℕ)
      → w.there x ≡ true
      → w.references x ≡ holds (p (w.surface x)) x + holds (c (w.surface x)) x
  pub first : (t : ℕ) → p t == 0 ≡ false → (w.there (p t) ≡ true) × (w.surface (p t) ≡ t)
  pub second : (t : ℕ) → c t == 0 ≡ false → (w.there (c t) ≡ true) × (w.surface (c t) ≡ t)
  pub null : w.there 0 ≡ false

pub Counted-swap : (p c : ℕ → ℕ) (w : Buffers) → Counted p c w → Counted c p w
Counted-swap p c w k = record {
  count = λ b t. ground (arith, k.count b t);
  first = k.second;
  second = k.first;
  null = k.null;
}

pub there-nonzero :
    (p c : ℕ → ℕ) (w : Buffers) → Counted p c w → (x : ℕ) → w.there x ≡ true → x == 0 ≡ false
there-nonzero p c w k x t = elim (Bool-cases (x == 0)) [
  | inl y ↦
      let at : x ≡ 0 = ground (arith, y) in absurd (ground (arith, sym t ∙ ap w.there at ∙ k.null))
  | inr n ↦ n
]

-- A surface that holds nothing takes a buffer.
pub use-Counted :
    (s b : ℕ) (p c : ℕ → ℕ) (w : Buffers)
    → (b == 0 ≡ false → (w.there b ≡ true) × (w.surface b ≡ s))
    → Counted (put s 0 p) c w
    → Counted (put s b p) c (buffer_use b w)
unfolding buffer_use
use-Counted s b p c w t k = elim (Bool-cases (b == 0)) [
  | inl y ↦
      let at : 0 ≡ b = ground (arith, y) in
      subst (Counted (put s b p) c) (sym (if-true _ _ (b == 0) y))
        (subst (λ (q : ℕ). Counted (put s q p) c w) at k)
  | inr n ↦
      let (live, mine) = t n in
      subst (Counted (put s b p) c) (sym (if-false _ _ (b == 0) n)) (record {
        count = λ x e. elim (Bool-cases (b == x)) [
          | inl y ↦
              let at : b ≡ x = ground (arith, y) in
              subst
                (λ (q : ℕ).
                  put b ((w.references b + 1) % 2 ^ 16) w.references q
                  ≡ holds (put s b p (w.surface q)) q + holds (c (w.surface q)) q)
                at (ground (arith, k.count b live, mine, n))
          | inr m ↦ ground (arith, m, k.count x e, there-nonzero (put s 0 p) c w k x e)
        ];
        first = λ u e. elim (Bool-cases (s == u)) [
          | inl y ↦
              let at : s ≡ u = ground (arith, y) in
              let is : put s b p u ≡ b = if-true b (p u) (s == u) y in
              (ap w.there is ∙ live, ap w.surface is ∙ mine ∙ at)
          | inr m ↦
              let is : put s b p u ≡ p u = if-false b (p u) (s == u) m in
              let was : put s 0 p u ≡ p u = if-false 0 (p u) (s == u) m in
              let (a, d) = k.first u (ap (λ (q : ℕ). q == 0) (was ∙ sym is) ∙ e) in
              (ap w.there (is ∙ sym was) ∙ a, ap w.surface (is ∙ sym was) ∙ d)
        ];
        second = k.second;
        null = k.null;
      })
]

abbrev pub IsCounted : Buffers → Type 0
IsCounted w = Counted w.pending w.commit w

-- The holders do not depend on the fields in which they stand.
pub Counted-fields :
    (p c : ℕ → ℕ) (w u : Buffers)
    → u.references ≡ w.references
    → u.there ≡ w.there
    → u.surface ≡ w.surface
    → Counted p c w
    → Counted p c u
Counted-fields p c w u r t f k = record {
  count = λ x e.
      ap (λ (g : ℕ → ℕ). g x) r
      ∙ k.count x (sym (ap (λ (g : ℕ → Bool). g x) t) ∙ e)
      ∙ ap (λ (v : ℕ). holds (p v) x + holds (c v) x) (sym (ap (λ (g : ℕ → ℕ). g x) f));
  first = λ y e.
      let (a, b) = k.first y e in
      (ap (λ (g : ℕ → Bool). g (p y)) t ∙ a, ap (λ (g : ℕ → ℕ). g (p y)) f ∙ b);
  second = λ y e.
      let (a, b) = k.second y e in
      (ap (λ (g : ℕ → Bool). g (c y)) t ∙ a, ap (λ (g : ℕ → ℕ). g (c y)) f ∙ b);
  null = ap (λ (g : ℕ → Bool). g 0) t ∙ k.null;
}
