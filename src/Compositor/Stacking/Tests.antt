-- ===== src/Compositor/Stacking/Tests.antt =====
-- The theorems on the order of views at two outputs.
use wlc.Base.{ℕ, ◌≡◌, refl, true, List, [], ◌∷◌, arith, if◌then◌else◌, ◌==◌}
use wlc.Chck.{unbounded}
use wlc.Compositor.Stacking.{Scene, no_buffer, attached, link_view}
use wlc.Compositor.Stacking.Placement.{Placed, link_view-Placed}

abbrev two_views : List ℕ
two_views = 11 ∷ 12 ∷ []

-- Output 1 shows the views 11 and 12.
abbrev scene : Scene
scene = record {
  views = λ o. if o == 1 then two_views else [];
  mutable_views = λ o. if o == 1 then two_views else [];
  output_of = λ v. if v == 11 then 1 else if v == 12 then 1 else 0;
  events = [];
}

scene-Placed : Placed scene
scene-Placed = record {
  once = λ o v. ground arith;
  home = λ o v h. ground (arith, h);
  nowhere = λ v. refl;
}

link_view-Placed_example : Placed (link_view unbounded (λ o v. attached) true 0 true 2 11 scene)
link_view-Placed_example =
    link_view-Placed unbounded (λ o v. attached) true 0 true 2 11 scene refl scene-Placed

abbrev three_views : List ℕ
three_views = 11 ∷ 13 ∷ 12 ∷ []

-- A view without buffer that is linked to two outputs in turn stands on both.
linked_twice :
    ((link_view unbounded
          (λ o v. no_buffer)
          true
          0
          true
          2
          13
          (link_view unbounded (λ o v. no_buffer) true 0 true 1 13 scene)).views
        1
      ≡ 11 ∷ 12 ∷ 13 ∷ [])
    × ((link_view unbounded
            (λ o v. no_buffer)
            true
            0
            true
            2
            13
            (link_view unbounded (λ o v. no_buffer) true 0 true 1 13 scene)).views
          2
        ≡ 13 ∷ [])
unfolding link_view
linked_twice = (refl, refl)
