-- ===== src/Compositor/Culling.antt =====
-- src/compositor/output.c: `get_visible_views` and `blit`, which leave out the views that others
-- hide. The grid `output->blit` is a function from the row and the column; a range of `blit` stays
-- in its row, since the right edge is clamped to the width of the grid. Left out are the commit of the
-- pending state of each view and the moving of hidden X11 windows.
pub mod Grid
pub mod Visible
mod Tests
use wlc.Base.{
  ℕ, suc, zero, ◌+◌, ◌-◌, ◌%◌, ◌^◌, Bool, true, false, ◌&&◌, ◌||◌, not, List, [], ◌∷◌, leb, ltb,
  if◌then◌else◌, ◌==◌,
}
use wlc.Base.Int.{ℤ, pos, negsuc, to_int32}
use wlc.Geometry.{Size, Geometry}

abbrev pub Grid : Type 0
Grid = ℕ → ℕ → Bool

-- `memchr(row + x, false, memb)`
pub has_clear : (ℕ → Bool) → ℕ → ℕ → Bool
has_clear row x zero = false
has_clear row x (suc memb) = not (row x) || has_clear row (suc x) memb

-- `memset` of a part of row `y`
unfoldable pub fill : Grid → ℕ → ℕ → ℕ → Grid
fill g y x memb j i = g j i || (j == y && leb x i && ltb i (x + memb))

-- The loop of `blit` over `n` rows from `y` on.
unfoldable pub blit_rows : Bool → ℕ → ℕ → ℕ → ℕ → Bool → Grid → Bool × Grid
unfolding has_clear fill
blit_rows should_blit x memb zero y visible g = (visible, g)
blit_rows should_blit x memb (suc n) y visible g =
    let seen : Bool = not visible && has_clear (g y) x memb in
    let rest =
      blit_rows should_blit x memb n (suc y) (visible || seen)
        (if should_blit then fill g y x memb else g) in
    if seen && not should_blit then (true, g) else rest

-- The area of a view on the grid, from `left` and `top` up to before `right` and `bottom`.
pub record Area : Type 0 where
  pub left : ℕ
  pub top : ℕ
  pub right : ℕ
  pub bottom : ℕ

unfoldable pub blit : Area → Bool → Grid → Bool × Grid
unfolding blit_rows
blit a should_blit g =
    blit_rows should_blit a.left (a.right - a.left) (a.bottom - a.top) a.top false g

-- An int32_t as a uint32_t.
abbrev pub to_uint32 : ℤ → ℕ
to_uint32 (pos n) = n
to_uint32 (negsuc n) = 2 ^ 32 - suc n

-- `chck_clamp32` with natural bounds, which is the submodule's.
abbrev pub Clamp : Type 0
Clamp = ℤ → ℕ → ℕ → ℕ

-- The corners of the opaque area of a view, clamped to the output.
unfoldable pub area : Clamp → Size → Geometry → Area
area clamp r o = record {
  left = clamp o.origin.x 0 r.w;
  top = clamp o.origin.y 0 r.h;
  right = clamp (to_int32 ((to_uint32 o.origin.x + o.size.w) % 2 ^ 32)) 1 r.w;
  bottom = clamp (to_int32 ((to_uint32 o.origin.y + o.size.h) % 2 ^ 32)) 1 r.h;
}

-- A view of the output, as `wlc_view_get_opaque` and `view_visible` tell it: whether it is opaque
-- there, and whether it is attached and in the mask. A view without surface is not shown.
pub record Shape : Type 0 where
  pub handle : ℕ
  pub is_shown : Bool
  pub should_blit : Bool
  pub opaque : Geometry

-- The loop over the views, the highest first.
unfoldable pub cull : Clamp → Size → List Shape → List ℕ → Grid → List ℕ × Grid
unfolding blit area
cull clamp r [] visible g = (visible, g)
cull clamp r (s ∷ ss) visible g =
    let (seen, g') = blit (area clamp r s.opaque) s.should_blit g in
    if s.is_shown
    then cull clamp r ss (if seen then s.handle ∷ visible else visible) g'
    else cull clamp r ss visible g

-- `memchr` over the whole grid, row by row.
pub any_clear : Grid → ℕ → ℕ → ℕ → ℕ → Bool
any_clear g x memb zero y = false
any_clear g x memb (suc n) y = has_clear (g y) x memb || any_clear g x memb n (suc y)

abbrev pub empty_grid : Grid
empty_grid y x = false

-- The visible views, the lowest first, and whether the background is visible.
unfoldable pub get_visible_views : Clamp → Size → List Shape → List ℕ × Bool
unfolding cull any_clear
get_visible_views clamp r ss =
    let (visible, g) = cull clamp r ss [] empty_grid in (visible, any_clear g 0 r.w r.h 0)
