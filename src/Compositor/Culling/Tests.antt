-- ===== src/Compositor/Culling/Tests.antt =====
-- The theorems on visible views at three views on a small output.
use wlc.Base.{ℕ, ◌≡◌, refl, true, List, [], ◌∷◌, ltb, if◌then◌else◌}
use wlc.Base.Int.{pos, negsuc}
use wlc.Geometry.{Size}
use wlc.Compositor.Culling.{Clamp, Shape, get_visible_views}
use wlc.Compositor.Culling.Visible.{Painted, get_visible_views-Painted}

abbrev clamp : Clamp
clamp (pos n) low high = if ltb n low then low else if ltb high n then high else n
clamp (negsuc n) low high = low

abbrev shape : ℕ → ℕ → ℕ → Shape
shape h at extent = record {
  handle = h;
  is_shown = true;
  should_blit = true;
  opaque = record {
    origin = record { x = pos at; y = pos at };
    size = record { w = extent; h = extent };
  };
}

abbrev four : Size
four = record { w = 4; h = 4 }

-- The second view lies under the first one.
abbrev shapes : List Shape
shapes = shape 7 0 3 ∷ shape 8 1 1 ∷ shape 9 2 2 ∷ []

listed : (get_visible_views clamp four shapes).0 ≡ 9 ∷ 7 ∷ []
unfolding get_visible_views
listed = refl

get_visible_views-Painted_example :
    Painted clamp four [] shapes [] (get_visible_views clamp four shapes).0
get_visible_views-Painted_example = get_visible_views-Painted clamp four shapes
