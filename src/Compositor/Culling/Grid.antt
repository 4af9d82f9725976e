-- ===== src/Compositor/Culling/Grid.antt =====
-- What `blit` sees of a grid and writes on it.
use wlc.Base.{
  ℕ, suc, zero, ◌+◌, ◌≤◌, ◌<◌, ◌≡◌, refl, ap, ◌∙◌, inl, inr, Bool, true, false, ◌&&◌, ◌||◌, not,
  arith, leb, ltb, ◌==◌, Bool-cases,
}
use wlc.Compositor.Culling.{Grid, has_clear, fill, blit_rows, any_clear}

-- Two grids that agree at every cell from a row on.
abbrev AgreeFrom : ℕ → Grid → Grid → Type 0
AgreeFrom y g h = (j i : ℕ) → y ≤ j → g j i ≡ h j i

has_clear-cong :
    (f g : ℕ → Bool) (x memb : ℕ) → ((i : ℕ) → f i ≡ g i) → has_clear f x memb ≡ has_clear g x memb
unfolding has_clear
has_clear-cong f g x zero e = refl
has_clear-cong f g x (suc m) e = ground (arith, e x, has_clear-cong f g (suc x) m e)

pub any_clear-cong :
    (g h : Grid) (x memb n y : ℕ)
    → AgreeFrom y g h
    → any_clear g x memb n y ≡ any_clear h x memb n y
unfolding any_clear
any_clear-cong g h x memb zero y e = refl
any_clear-cong g h x memb (suc n) y e = ground (
  arith,
  has_clear-cong (g y) (h y) x memb (λ i. e y i (omega arith)),
  any_clear-cong g h x memb n (suc y) (λ j i low. e j i (omega (arith, low))),
)

fill-below : (g : Grid) (y x memb j i : ℕ) → suc y ≤ j → fill g y x memb j i ≡ g j i
unfolding fill
fill-below g y x memb j i low = ground (arith, low)

-- Whether `blit_rows` sees a clear cell does not depend on what it writes.
pub blit_rows-any_clear :
    (should_blit : Bool) (x memb n y : ℕ) (visible : Bool) (g : Grid)
    → (blit_rows should_blit x memb n y visible g).0 ≡ visible || any_clear g x memb n y
unfolding blit_rows any_clear
blit_rows-any_clear should_blit x memb zero y visible g = ground arith
blit_rows-any_clear false x memb (suc n) y visible g = ground (
  arith,
  blit_rows-any_clear false x memb n (suc y) (visible || (not visible && has_clear (g y) x memb)) g,
)
blit_rows-any_clear true x memb (suc n) y visible g = ground (
  arith,
  blit_rows-any_clear true x memb n (suc y) (visible || (not visible && has_clear (g y) x memb))
      (fill g y x memb),
  any_clear-cong (fill g y x memb) g x memb n (suc y) (fill-below g y x memb),
)

-- Whether a cell is in the part of the grid.
abbrev pub in_part : ℕ → ℕ → ℕ → ℕ → ℕ → ℕ → Bool
in_part x memb n y j i = leb y j && ltb j (y + n) && leb x i && ltb i (x + memb)

pub blit_rows-cell :
    (should_blit : Bool) (x memb n y : ℕ) (visible : Bool) (g : Grid) (j i : ℕ)
    → (blit_rows should_blit x memb n y visible g).1 j i
      ≡ g j i || (should_blit && in_part x memb n y j i)
unfolding blit_rows fill
blit_rows-cell should_blit x memb zero y visible g j i = ground arith
blit_rows-cell false x memb (suc n) y visible g j i = ground (
  arith,
  blit_rows-cell false x memb n (suc y) (visible || (not visible && has_clear (g y) x memb)) g j i,
)
blit_rows-cell true x memb (suc n) y visible g j i = ground (
  arith,
  blit_rows-cell true x memb n (suc y) (visible || (not visible && has_clear (g y) x memb))
      (fill g y x memb) j i,
)

has_clear_some :
    (row : ℕ → Bool) (x memb : ℕ)
    → has_clear row x memb ≡ true
    → (i : ℕ) × (x ≤ i) × (i < x + memb) × (row i ≡ false)
unfolding has_clear
has_clear_some row x zero e = absurd (ground (arith, e))
has_clear_some row x (suc m) e = elim (Bool-cases (row x)) [
  | inr n ↦ (x, omega arith, omega arith, n)
  | inl y ↦
      let (i, low, high, clear) = has_clear_some row (suc x) m (ground (arith, e, y)) in
      (i, omega (arith, low), omega (arith, high), clear)
]

has_clear_none :
    (row : ℕ → Bool) (x memb i : ℕ)
    → has_clear row x memb ≡ false
    → x ≤ i
    → i < x + memb
    → row i ≡ true
unfolding has_clear
has_clear_none row x zero i e low high = absurd (omega (arith, low, high))
has_clear_none row x (suc m) i e low high =
    ground (arith, e, low, high, has_clear_none row (suc x) m i)

-- The cells that `any_clear` looks at: it finds one that is clear, or all are set.
pub any_clear_some :
    (g : Grid) (x memb n y : ℕ)
    → any_clear g x memb n y ≡ true
    → (j i : ℕ) × (in_part x memb n y j i ≡ true) × (g j i ≡ false)
unfolding any_clear
any_clear_some g x memb zero y e = absurd (ground (arith, e))
any_clear_some g x memb (suc n) y e = elim (Bool-cases (has_clear (g y) x memb)) [
  | inl c ↦
      let (i, low, high, clear) = has_clear_some (g y) x memb c in
      (y, i, ground (arith, low, high), clear)
  | inr c ↦
      let (j, i, part, clear) = any_clear_some g x memb n (suc y) (ground (arith, e, c)) in
      (j, i, ground (arith, part), clear)
]

pub any_clear_none :
    (g : Grid) (x memb n y j i : ℕ)
    → any_clear g x memb n y ≡ false
    → in_part x memb n y j i ≡ true
    → g j i ≡ true
unfolding any_clear
any_clear_none g x memb zero y j i e part = absurd (ground (arith, part))
any_clear_none g x memb (suc n) y j i e part = elim (Bool-cases (j == y)) [
  | inl same_row ↦
      let at : j ≡ y = ground (arith, same_row) in
      ap (λ (k : ℕ). g k i) at
      ∙ has_clear_none (g y) x memb i (ground (arith, e)) (ground (arith, part))
          (ground (arith, part))
  | inr other_row ↦
      any_clear_none g x memb n (suc y) j i (ground (arith, e)) (ground (arith, part, other_row))
]
