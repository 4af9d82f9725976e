-- ===== src/Geometry.antt =====
-- include/wlc/geometry.h: points, sizes, rectangles.
use wlc.Base.{ℕ, ◌^◌, ◌<◌, ◌≡◌, ◌↔◌, Bool, true, ◌&&◌, arith, ltb, ◌==◌, ==_iff, if◌then◌else◌}
use wlc.Base.Int.{ℤ, pos, ◌+ℤ◌, ◌≤ℤ◌, ltb_ℤ, leb_ℤ, to_int32, +ℤ_parts}

pub record Point : Type 0 where
  pub x : ℤ
  pub y : ℤ

pub record Size : Type 0 where
  pub w : ℕ
  pub h : ℕ

pub record Geometry : Type 0 where
  pub origin : Point
  pub size : Size

abbrev eqb_ℤ : ℤ → ℤ → Bool
eqb_ℤ a b = leb_ℤ a b && leb_ℤ b a

unfoldable pub point_min : Point → Point → Point
point_min a b = record {
  x = if ltb_ℤ a.x b.x then a.x else b.x;
  y = if ltb_ℤ a.y b.y then a.y else b.y;
}

unfoldable pub point_max : Point → Point → Point
point_max a b = record {
  x = if ltb_ℤ b.x a.x then a.x else b.x;
  y = if ltb_ℤ b.y a.y then a.y else b.y;
}

unfoldable pub size_min : Size → Size → Size
size_min a b = record { w = if ltb a.w b.w then a.w else b.w; h = if ltb a.h b.h then a.h else b.h }

unfoldable pub size_max : Size → Size → Size
size_max a b = record { w = if ltb b.w a.w then a.w else b.w; h = if ltb b.h a.h then a.h else b.h }

unfoldable pub point_equals : Point → Point → Bool
point_equals a b = eqb_ℤ a.x b.x && eqb_ℤ a.y b.y

unfoldable pub size_equals : Size → Size → Bool
size_equals a b = a.w == b.w && a.h == b.h

unfoldable pub geometry_equals : Geometry → Geometry → Bool
unfolding point_equals size_equals
geometry_equals a b = point_equals a.origin b.origin && size_equals a.size b.size

-- The far edge `origin + (int32_t)size`. The sum is taken in ℤ: beyond the range of `int32_t` the
-- source's addition has no defined value.
abbrev pub far_x : Geometry → ℤ
far_x g = g.origin.x +ℤ to_int32 g.size.w

abbrev pub far_y : Geometry → ℤ
far_y g = g.origin.y +ℤ to_int32 g.size.h

unfoldable pub geometry_contains : Geometry → Geometry → Bool
geometry_contains a b =
    leb_ℤ a.origin.x b.origin.x
    && leb_ℤ a.origin.y b.origin.y
    && leb_ℤ (far_x b) (far_x a)
    && leb_ℤ (far_y b) (far_y a)

-- The four comparisons of `wlc_geometry_contains`, as orders.
record Holds (a b : Geometry) : Type 0 where
  left : a.origin.x ≤ℤ b.origin.x
  top : a.origin.y ≤ℤ b.origin.y
  right : far_x b ≤ℤ far_x a
  bottom : far_y b ≤ℤ far_y a

leb_ℤ_iff : (a b : ℤ) → (leb_ℤ a b ≡ true) ↔ (a ≤ℤ b)
leb_ℤ_iff a b = ground arith

all_four :
    (a b c d : Bool) → (a && b && c && d) ≡ true → (a ≡ true) × (b ≡ true) × (c ≡ true) × (d ≡ true)
all_four a b c d h = ground arith

contains-Holds : (a b : Geometry) → (geometry_contains a b ≡ true) ↔ Holds a b
unfolding geometry_contains
contains-Holds a b = (forth, back)
  where
    forth : geometry_contains a b ≡ true → Holds a b
    forth p =
        let t =
          all_four (leb_ℤ a.origin.x b.origin.x) (leb_ℤ a.origin.y b.origin.y)
            (leb_ℤ (far_x b) (far_x a)) (leb_ℤ (far_y b) (far_y a)) p in
        record {
          left = (leb_ℤ_iff a.origin.x b.origin.x).0 t.0;
          top = (leb_ℤ_iff a.origin.y b.origin.y).0 t.1;
          right = (leb_ℤ_iff (far_x b) (far_x a)).0 t.2;
          bottom = (leb_ℤ_iff (far_y b) (far_y a)).0 t.3;
        }

    back : Holds a b → geometry_contains a b ≡ true
    back v = rw (
      (leb_ℤ_iff a.origin.x b.origin.x).1 v.left,
      (leb_ℤ_iff a.origin.y b.origin.y).1 v.top,
      (leb_ℤ_iff (far_x b) (far_x a)).1 v.right,
      (leb_ℤ_iff (far_y b) (far_y a)).1 v.bottom,
    )

≤ℤ_trans : (a b c : ℤ) → a ≤ℤ b → b ≤ℤ c → a ≤ℤ c
≤ℤ_trans a b c p q = omega arith

-- A rectangle that `wlc_geometry_contains` puts around another, which it puts around a third, is
-- put around the third.
pub geometry_contains_trans :
    (a b c : Geometry)
    → geometry_contains a b ≡ true
    → geometry_contains b c ≡ true
    → geometry_contains a c ≡ true
geometry_contains_trans a b c p q =
    let v = (contains-Holds a b).0 p in
    let w = (contains-Holds b c).0 q in
    (contains-Holds a c).1 (record {
      left = ≤ℤ_trans a.origin.x b.origin.x c.origin.x v.left w.left;
      top = ≤ℤ_trans a.origin.y b.origin.y c.origin.y v.top w.top;
      right = ≤ℤ_trans (far_x c) (far_x b) (far_x a) w.right v.right;
      bottom = ≤ℤ_trans (far_y c) (far_y b) (far_y a) w.bottom v.bottom;
    })

to_int32_small : (w : ℕ) → w < 2 ^ 31 → to_int32 w ≡ pos w
to_int32_small w h = ground arith

-- One axis: equal near edges and equal far edges make equal extents.
axis :
    (p q : ℤ) (w v : ℕ)
    → w < 2 ^ 31
    → v < 2 ^ 31
    → p ≤ℤ q
    → q ≤ℤ p
    → p +ℤ to_int32 w ≤ℤ q +ℤ to_int32 v
    → q +ℤ to_int32 v ≤ℤ p +ℤ to_int32 w
    → (eqb_ℤ p q ≡ true) × ((w == v) ≡ true)
axis p q w v hw hv a b c d = (
  rw ((leb_ℤ_iff p q).1 a, (leb_ℤ_iff q p).1 b),
  (==_iff w v).1 (
      omega (
        arith,
        +ℤ_parts p (pos w),
        +ℤ_parts q (pos v),
        rw (to_int32_small w hw, to_int32_small v hv) at c,
        rw (to_int32_small w hw, to_int32_small v hv) at d,
      )),
)

-- Two rectangles with sizes below 2^31 that `wlc_geometry_contains` puts around each other are
-- equal to `wlc_geometry_equals`.
pub geometry_contains_antisymm :
    (a b : Geometry)
    → (a.size.w < 2 ^ 31) × (a.size.h < 2 ^ 31)
    → (b.size.w < 2 ^ 31) × (b.size.h < 2 ^ 31)
    → geometry_contains a b ≡ true
    → geometry_contains b a ≡ true
    → geometry_equals a b ≡ true
unfolding geometry_equals
geometry_contains_antisymm a b sa sb p q =
    let v = (contains-Holds a b).0 p in
    let w = (contains-Holds b a).0 q in
    let (ex, ew) =
      axis a.origin.x b.origin.x a.size.w b.size.w sa.0 sb.0 v.left w.left w.right v.right in
    let (ey, eh) =
      axis a.origin.y b.origin.y a.size.h b.size.h sa.1 sb.1 v.top w.top w.bottom v.bottom in
    rw (ex, ey, ew, eh)
