-- ===== src/Compositor/Culling/Visible.antt =====
-- The views that are painted are those that show a cell.
use mathlib.Core.Path.{subst}
use wlc.Base.{
  ℕ, ◌-◌, ◌≡◌, refl, sym, ap, ◌∙◌, inl, inr, Bool, true, false, ◌&&◌, ◌||◌, List, [], ◌∷◌, arith,
  if◌then◌else◌, Bool-cases,
}
use wlc.Geometry.{Size}
use wlc.Compositor.Culling.{
  Grid, Area, blit, area, Clamp, Shape, cull, any_clear, empty_grid, get_visible_views,
}
use wlc.Compositor.Culling.Grid.{
  blit_rows-any_clear, blit_rows-cell, in_part, any_clear_some, any_clear_none,
}

-- Whether a cell is in the area of a view.
abbrev pub in_area : Area → ℕ → ℕ → Bool
in_area a j i = in_part a.left (a.right - a.left) (a.bottom - a.top) a.top j i

-- Whether some shown view of a list is opaque at a cell.
abbrev pub covered : Clamp → Size → List Shape → ℕ → ℕ → Bool
covered clamp r [] j i = false
covered clamp r (s ∷ ss) j i =
    (s.is_shown && s.should_blit && in_area (area clamp r s.opaque) j i) || covered clamp r ss j i

abbrev pub ShowsCell : Clamp → Size → List Shape → Shape → Type 0
ShowsCell clamp r above s =
    (j i : ℕ) × (in_area (area clamp r s.opaque) j i ≡ true) × (covered clamp r above j i ≡ false)

abbrev pub IsHidden : Clamp → Size → List Shape → Shape → Type 0
IsHidden clamp r above s =
    (j i : ℕ) → in_area (area clamp r s.opaque) j i ≡ true → covered clamp r above j i ≡ true

-- What it means to paint a list of views, the highest first, under those of `above`: from the views
-- that lie above, `visible`, to all that are to be painted.
pub data Painted (clamp : Clamp) (r : Size)
    : List Shape → List Shape → List ℕ → List ℕ → Type 0 where
  nothing_left : {above : List Shape} {visible : List ℕ} → Painted clamp r above [] visible visible
  not_shown :
      {above ss : List Shape} {visible end : List ℕ}
      → (s : Shape) → s.is_shown ≡ false
      → Painted clamp r above ss visible end
      → Painted clamp r above (s ∷ ss) visible end
  shows_cell :
      {above ss : List Shape} {visible end : List ℕ}
      → (s : Shape) → s.is_shown ≡ true
      → ShowsCell clamp r above s
      → Painted clamp r (s ∷ above) ss (s.handle ∷ visible) end
      → Painted clamp r above (s ∷ ss) visible end
  is_hidden :
      {above ss : List Shape} {visible end : List ℕ}
      → (s : Shape) → s.is_shown ≡ true
      → IsHidden clamp r above s
      → Painted clamp r (s ∷ above) ss visible end
      → Painted clamp r above (s ∷ ss) visible end

blit-any_clear :
    (a : Area) (b : Bool) (g : Grid)
    → (blit a b g).0 ≡ any_clear g a.left (a.right - a.left) (a.bottom - a.top) a.top
unfolding blit
blit-any_clear a b g =
    blit_rows-any_clear b a.left (a.right - a.left) (a.bottom - a.top) a.top false g

blit-cell :
    (a : Area) (b : Bool) (g : Grid) (j i : ℕ) → (blit a b g).1 j i ≡ g j i || (b && in_area a j i)
unfolding blit
blit-cell a b g j i =
    blit_rows-cell b a.left (a.right - a.left) (a.bottom - a.top) a.top false g j i

cull-cell :
    (clamp : Clamp) (r : Size) (ss : List Shape) (visible : List ℕ) (g : Grid) (j i : ℕ)
    → (cull clamp r ss visible g).1 j i ≡ g j i || covered clamp r ss j i
unfolding cull
cull-cell clamp r [] visible g j i = ground arith
cull-cell clamp r (s ∷ ss) visible g j i = elim (Bool-cases s.is_shown) [
  | inr n ↦ rw (n, cull) (cull-cell clamp r ss visible g j i)
  | inl y ↦
      let a : Area = area clamp r s.opaque in
      let b = blit a s.should_blit g in
      let rest = cull-cell clamp r ss (if b.0 then s.handle ∷ visible else visible) b.1 j i in
      rw (y, cull) (rest ∙ ground (arith, blit-cell a s.should_blit g j i))
]

-- The list after the highest view.
cull_shown :
    (clamp : Clamp) (r : Size) (s : Shape) (ss : List Shape) (visible : List ℕ) (g : Grid)
    → s.is_shown ≡ true
    → (cull clamp r (s ∷ ss) visible g).0
      ≡ (cull clamp r ss
          (if (blit (area clamp r s.opaque) s.should_blit g).0 then s.handle ∷ visible else visible)
          (blit (area clamp r s.opaque) s.should_blit g).1).0
unfolding cull
cull_shown clamp r s ss visible g y = ground (arith, y)

cull-Painted :
    (clamp : Clamp) (r : Size) (ss above : List Shape) (visible : List ℕ) (g : Grid)
    → ((j i : ℕ) → g j i ≡ covered clamp r above j i)
    → Painted clamp r above ss visible (cull clamp r ss visible g).0
unfolding cull
cull-Painted clamp r [] above visible g agrees = nothing_left
cull-Painted clamp r (s ∷ ss) above visible g agrees = elim (Bool-cases s.is_shown) [
  | inr n ↦ not_shown s n (rw (n, cull) (cull-Painted clamp r ss above visible g agrees))
  | inl y ↦ elim (Bool-cases (blit a s.should_blit g).0) [
    | inl seen ↦
        let (j, i, part, clear) =
          any_clear_some g a.left (a.right - a.left) (a.bottom - a.top) a.top
            (sym (blit-any_clear a s.should_blit g) ∙ seen) in
        shows_cell s y (j, i, part, sym (agrees j i) ∙ clear)
          (subst (Painted clamp r (s ∷ above) ss (s.handle ∷ visible))
            (sym (
              cull_shown clamp r s ss visible g y
              ∙ ap
                  (λ (b : Bool).
                    (cull clamp r ss (if b then s.handle ∷ visible else visible)
                      (blit a s.should_blit g).1).0)
                  seen))
            (cull-Painted clamp r ss (s ∷ above) (s.handle ∷ visible) (blit a s.should_blit g).1
              (next y)))
    | inr unseen ↦
        is_hidden s y
          (λ j i part.
            sym (agrees j i)
            ∙ any_clear_none g a.left (a.right - a.left) (a.bottom - a.top) a.top j i
                (sym (blit-any_clear a s.should_blit g) ∙ unseen) part)
          (subst (Painted clamp r (s ∷ above) ss visible)
            (sym (
              cull_shown clamp r s ss visible g y
              ∙ ap
                  (λ (b : Bool).
                    (cull clamp r ss (if b then s.handle ∷ visible else visible)
                      (blit a s.should_blit g).1).0)
                  unseen))
            (cull-Painted clamp r ss (s ∷ above) visible (blit a s.should_blit g).1 (next y)))
  ]
]
  where
    a : Area
    a = area clamp r s.opaque

    next :
        s.is_shown ≡ true
        → (j i : ℕ) → (blit a s.should_blit g).1 j i ≡ covered clamp r (s ∷ above) j i
    next y j i = ground (arith, y, agrees j i, blit-cell a s.should_blit g j i)

-- The views that `get_visible_views` lists are those that are to be painted: a shown view is listed
-- if some cell of its clamped area is covered by no shown opaque view above it, and is left out if
-- all of them are; the lowest view comes first.
pub get_visible_views-Painted :
    (clamp : Clamp) (r : Size) (ss : List Shape)
    → Painted clamp r [] ss [] (get_visible_views clamp r ss).0
unfolding get_visible_views
get_visible_views-Painted clamp r ss = cull-Painted clamp r ss [] [] empty_grid (λ j i. refl)

-- A cell of the output.
abbrev pub in_output : Size → ℕ → ℕ → Bool
in_output r j i = in_part 0 r.w r.h 0 j i

-- `get_visible_views` tells that the background is visible exactly where some cell of the output is
-- covered by no shown opaque view.
pub get_visible_views_background :
    (clamp : Clamp) (r : Size) (ss : List Shape)
    → ((get_visible_views clamp r ss).1 ≡ true
        → (j i : ℕ) × (in_output r j i ≡ true) × (covered clamp r ss j i ≡ false))
      × ((get_visible_views clamp r ss).1 ≡ false
          → (j i : ℕ) → in_output r j i ≡ true
          → covered clamp r ss j i ≡ true)
unfolding get_visible_views
get_visible_views_background clamp r ss = (
  λ e.
      let (j, i, part, clear) = any_clear_some (cull clamp r ss [] empty_grid).1 0 r.w r.h 0 e in
      (j, i, part, sym (cull-cell clamp r ss [] empty_grid j i) ∙ clear),
  λ e j i part.
      sym (cull-cell clamp r ss [] empty_grid j i)
      ∙ any_clear_none (cull clamp r ss [] empty_grid).1 0 r.w r.h 0 j i e part,
)
