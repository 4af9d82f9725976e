-- ===== src/Surface/Buffers/Made.antt =====
-- A buffer that is made for a surface, or released.
use mathlib.Core.Path.{subst, fun_ext}
use wlc.Base.{
  ℕ, ◌+◌, ◌≡◌, ◌∙◌, sym, refl, ap, inl, inr, true, false, ◌&&◌, arith, if◌then◌else◌, ◌==◌,
  if-cases, if-true, if-false, Bool-cases,
}
use wlc.Surface.Buffers.Counted.{IsCounted, Counted-fields, holds, there-nonzero}
use wlc.Surface.Buffers.{Buffers, put, clear, buffer_release, make, own}

-- The buffer can be held by the surface: it is there and knows the surface.
abbrev pub IsFor : ℕ → ℕ → Buffers → Type 0
IsFor s b w = b == 0 ≡ false → (w.there b ≡ true) × (w.surface b ≡ s)

-- A state that holds the buffer already.
pub put_same : (s b : ℕ) (f : ℕ → ℕ) → f s ≡ b → f ≡ put s b f
put_same s b f e = fun_ext (λ t. elim (Bool-cases (s == t)) [
  | inl y ↦
      let at : s ≡ t = ground (arith, y) in ap f (sym at) ∙ e ∙ sym (if-true b (f t) (s == t) y)
  | inr n ↦ sym (if-false b (f t) (s == t) n)
])

-- A holder of another buffer than the one that is released.
held-others :
    (s b t h x : ℕ)
    → b == x ≡ false
    → x == 0 ≡ false
    → holds h x ≡ holds (if s == t && h == b then 0 else h) x
held-others s b t h x n z = elim (Bool-cases (s == t && h == b)) [
  | inl y ↦ ground (arith, y, n, z)
  | inr y ↦ ground (arith, y)
]

-- What a state still holds after a release is there and knows its surface.
held-there :
    (f : ℕ → ℕ) (b : ℕ) (w : Buffers)
    → ((t : ℕ) → f t == 0 ≡ false → (w.there (f t) ≡ true) × (w.surface (f t) ≡ t))
    → (t : ℕ) → clear (w.surface b) b f t == 0 ≡ false
    → (put b false w.there (clear (w.surface b) b f t) ≡ true)
      × (w.surface (clear (w.surface b) b f t) ≡ t)
held-there f b w k t e = elim (Bool-cases (w.surface b == t && f t == b)) [
  | inl y ↦ absurd (ground (arith, y, e))
  | inr n ↦
      let is : clear (w.surface b) b f t ≡ f t =
        if-false 0 (f t) (w.surface b == t && f t == b) n in
      let (a, m) = k t (ap (λ (q : ℕ). q == 0) (sym is) ∙ e) in
      let other : b == f t ≡ false = elim (Bool-cases (b == f t)) [
        | inl y ↦
            let at : b ≡ f t = ground (arith, y) in
            absurd (ground (arith, n, at, ap w.surface at ∙ m))
        | inr z ↦ z
      ] in
      (
        ap (put b false w.there) is ∙ if-false false (w.there (f t)) (b == f t) other ∙ a,
        ap w.surface is ∙ m,
      )
]

pub release-IsCounted :
    (b : ℕ) (w : Buffers) → w.there b ≡ true → IsCounted w → IsCounted (buffer_release b w)
unfolding buffer_release
release-IsCounted b w t k = record {
  count = λ x e. elim (Bool-cases (b == x)) [
    | inl y ↦ absurd (ground (arith, y, e))
    | inr n ↦
        let there : w.there x ≡ true = sym (if-false false (w.there x) (b == x) n) ∙ e in
        let other = there-nonzero w.pending w.commit w k x there in
        let v : ℕ = w.surface x in
        k.count x there
        ∙ ap (λ (q : ℕ). q + holds (w.commit v) x)
            (held-others (w.surface b) b v (w.pending v) x n other)
        ∙ ap (λ (q : ℕ). holds (clear (w.surface b) b w.pending v) x + q)
            (held-others (w.surface b) b v (w.commit v) x n other)
  ];
  first = held-there w.pending b w k.first;
  second = held-there w.commit b w k.second;
  null = ground (arith, k.null);
}

-- A buffer that is not there is made for a surface.
made-IsCounted :
    (s b : ℕ) (w : Buffers)
    → b == 0 ≡ false
    → w.there b ≡ false
    → IsCounted w
    → IsCounted (record w {
      references = put b 0 w.references;
      there = put b true w.there;
      surface = put b s w.surface;
    })
made-IsCounted s b w n t k =
    let unheld_p : (u : ℕ) → w.pending u == b ≡ false = λ u. elim (Bool-cases (w.pending u == b)) [
      | inl y ↦
          let at : w.pending u ≡ b = ground (arith, y) in
          absurd (ground (arith, sym (k.first u (ground (arith, at, n))).0 ∙ ap w.there at ∙ t))
      | inr z ↦ z
    ] in
    let unheld_c : (u : ℕ) → w.commit u == b ≡ false = λ u. elim (Bool-cases (w.commit u == b)) [
      | inl y ↦
          let at : w.commit u ≡ b = ground (arith, y) in
          absurd (ground (arith, sym (k.second u (ground (arith, at, n))).0 ∙ ap w.there at ∙ t))
      | inr z ↦ z
    ] in
    record {
      count = λ x e. elim (Bool-cases (b == x)) [
        | inl y ↦
            let at : b ≡ x = ground (arith, y) in
            subst
              (λ (q : ℕ).
                put b 0 w.references q
                ≡ holds (w.pending (put b s w.surface q)) q
                  + holds (w.commit (put b s w.surface q)) q)
              at (ground (arith, unheld_p s, unheld_c s))
        | inr z ↦ ground (arith, z, e, k.count x)
      ];
      first = λ u e. ground (arith, k.first u e, unheld_p u);
      second = λ u e. ground (arith, k.second u e, unheld_c u);
      null = ground (arith, n, k.null);
    }

pub ready-IsCounted :
    (s b : ℕ) (w : Buffers)
    → b == 0 ≡ false
    → (w.there b ≡ true → w.surface b ≡ s)
    → IsCounted w
    → IsCounted (own s b (make b w)) × IsFor s b (own s b (make b w))
ready-IsCounted s b w n mine k =
    if-cases (λ (u : Buffers). IsCounted (own s b u) × IsFor s b (own s b u)) (w.there b) w _
      (λ t.
        let same : w.surface ≡ put b s w.surface = put_same b s w.surface (mine t) in
        (
          Counted-fields w.pending w.commit w (own s b w) refl refl (sym same) k,
          λ e. (t, if-true s (w.surface b) (b == b) (ground arith)),
        ))
      (λ t. (made-IsCounted s b w n t k, λ e. (ground arith, ground arith)))
