-- ===== src/Surface/Subsurfaces/Tests.antt =====
-- The theorems on subsurfaces, at three surfaces.
use wlc.Base.{
  ℕ, ◌-◌, ◌≡◌, ◌⊎◌, ◌↔◌, inl, inr, refl, sym, ap, ◌∙◌, true, false, ◌||◌, some, none, [], ◌∷◌,
  arith, if◌then◌else◌, ◌==◌, ltb, Bool-cases,
}
use wlc.Base.Int.{pos}
use wlc.Chck.{some_inj, unbounded}
use wlc.Geometry.{Point}
use wlc.Surface.Subsurfaces.{
  Surface, Surfaces, convert, set_sync, set_desync, surface_commit, get_subsurface,
}
use wlc.Surface.Subsurfaces.Sync.{Ranked, tree_requests_end}
use wlc.Surface.Subsurfaces.Cycles.{Looping, set_desync-endless}
use wlc.Surface.Subsurfaces.Cached.{Committed, logged}
use wlc.Surface.Subsurfaces.Commits.{surface_commit-Committed}
use wlc.Surface.Subsurfaces.Listing.{IsLinked}
use wlc.Surface.Subsurfaces.Links.{get_subsurface-IsLinked}

abbrev corner : Point
corner = record { x = pos 0; y = pos 0 }

abbrev new_surface : Surface
new_surface = record {
  parent = 0;
  parent_view = 0;
  subsurface_list = [];
  pending_position = corner;
  commit_position = corner;
  synchronized = false;
  parent_synchronized = false;
}

-- Surfaces 1, 2 and 3, none of them a subsurface.
abbrev new_surfaces : Surfaces
new_surfaces = record { resources = λ r. if ltb r 4 then some new_surface else none; events = [] }

-- Surface 1 has the subsurfaces 2 and 3, of which 3 is synchronized.
abbrev family : Surfaces
family = record {
  resources = λ r.
      if r == 1
      then some (record new_surface { subsurface_list = 2 ∷ 3 ∷ [] })
      else if r == 2
      then some (record new_surface { parent = 1 })
      else if r == 3
      then some (record new_surface { parent = 1; synchronized = true })
      else none;
  events = [];
}

family-Ranked : Ranked (λ r. 4 - r) family
family-Ranked r s e = elim (Bool-cases (r == 1)) [
  | inl y ↦
      let at : r ≡ 1 = ground (arith, y) in
      let k : convert family 1 ≡ some s = sym (ap (convert family) at) ∙ e in
      rw (some_inj k, at) (omega arith, (omega arith, tt))
  | inr n ↦ elim (Bool-cases (r == 2)) [
    | inl y ↦
        let at : r ≡ 2 = ground (arith, y) in
        let k : convert family 2 ≡ some s = sym (ap (convert family) at) ∙ e in rw (some_inj k) tt
    | inr m ↦ elim (Bool-cases (r == 3)) [
      | inl y ↦
          let at : r ≡ 3 = ground (arith, y) in
          let k : convert family 3 ≡ some s = sym (ap (convert family) at) ∙ e in rw (some_inj k) tt
      | inr l ↦ absurd (ground (arith, e, n, m, l))
    ]
  ]
]

-- Two surfaces, each the subsurface of the other, as a client makes them.
abbrev circle : Surfaces
circle = get_subsurface unbounded true 2 1 (get_subsurface unbounded true 1 2 new_surfaces)

circle-Looping : Looping (λ r. r == 1 || r == 2) circle
unfolding get_subsurface
circle-Looping r y = elim (Bool-cases (r == 1)) [
  | inl one ↦
      let at : r ≡ 1 = ground (arith, one) in
      rw at
        ((record new_surface { parent = 2; subsurface_list = 2 ∷ [] }, refl, refl, (2, refl, refl)))
  | inr n ↦
      let at : r ≡ 2 = ground (arith, y, n) in
      rw at
        ((record new_surface { parent = 1; subsurface_list = 1 ∷ [] }, refl, refl, (1, refl, refl)))
]

new_surfaces-IsLinked : IsLinked new_surfaces
new_surfaces-IsLinked p x a = ground (arith, a)

tree_requests_end_example :
    ((w' : Surfaces) × (surface_commit 4 1 family ≡ some w'))
    × ((w' : Surfaces) × (set_sync 4 1 family ≡ some w'))
    × ((w' : Surfaces) × (set_desync 4 1 family ≡ some w'))
tree_requests_end_example = tree_requests_end (λ r. 4 - r) 4 1 family (omega arith) family-Ranked

set_desync-endless_example : set_desync 1000 1 circle ≡ none
set_desync-endless_example =
    set_desync-endless (λ r. r == 1 || r == 2) 1000 1 circle refl circle-Looping

surface_commit-Committed_example :
    (w' : Surfaces) × (surface_commit 4 1 family ≡ some w')
    × (false ≡ true → w' ≡ family)
    × (false ≡ false
        → (x : ℕ) → (logged w'.events x ≡ true) ↔ ((false ≡ true) ⊎ Committed family 1 x))
surface_commit-Committed_example =
    surface_commit-Committed (λ r. 4 - r) 4 1 family
      (record new_surface { subsurface_list = 2 ∷ 3 ∷ [] }) (omega arith) family-Ranked refl

get_subsurface-IsLinked_example : IsLinked (get_subsurface unbounded true 1 2 new_surfaces)
get_subsurface-IsLinked_example =
    get_subsurface-IsLinked unbounded true 1 2 new_surfaces new_surfaces-IsLinked
