-- ===== src/Surface/Subsurfaces.antt =====
-- src/compositor/compositor.c: the requests of wl_subsurface and get_subsurface;
-- src/resources/types/surface.c: wlc_surface_set_parent, commit_subsurface_state, the commit request.
-- A surface is its resource, and 0 is NULL. Functions of a tree of surfaces recurse on fuel, and
-- `none` is fuel that does not suffice.
pub mod Store
pub mod Sync
pub mod Cycles
pub mod Cached
pub mod Runs
pub mod Commits
pub mod Restack
pub mod Listing
pub mod Links
mod Tests
use wlc.Base.{
  ℕ, suc, zero, ◌+◌, ◌-◌, Bool, true, false, ◌&&◌, ◌||◌, not, Option, none, some, List, [], ◌∷◌,
  ◌++◌, if◌then◌else◌, ◌==◌, ltb, index_of?,
}
use wlc.Chck.{IterPool, or_same}
use wlc.Geometry.{Point}

pub record Surface : Type 0 where
  pub parent : ℕ
  pub parent_view : ℕ
  pub subsurface_list : List ℕ
  pub pending_position : Point
  pub commit_position : Point
  pub synchronized : Bool
  pub parent_synchronized : Bool

-- Calls into other parts, by surface: `commit_state` on its states, the repaint of its output, its
-- attachment to the output of another surface, and a protocol error.
pub data SurfaceEvent : Type 0 where
  state_committed : ℕ → SurfaceEvent
  repaint_scheduled : ℕ → SurfaceEvent
  attached_to_output_of : ℕ → ℕ → SurfaceEvent
  bad_surface : ℕ → SurfaceEvent

pub record Surfaces : Type 0 where
  pub resources : ℕ → Option Surface
  pub events : List SurfaceEvent

-- `convert_from_wlc_resource(r, "surface")`
abbrev pub convert : Surfaces → ℕ → Option Surface
convert w r = if r == 0 then none else w.resources r

abbrev pub put : ℕ → Surface → Surfaces → Surfaces
put r s w = record w { resources = λ x. if r == x then some s else w.resources x }

abbrev pub emit : SurfaceEvent → Surfaces → Surfaces
emit e w = record w { events = w.events ++ e ∷ [] }

-- A loop over a list, whose body can run out of fuel.
unfoldable pub each : (ℕ → Surfaces → Option Surfaces) → List ℕ → Surfaces → Option Surfaces
each f [] w = some w
each f (x ∷ xs) w = elim (f x w) [ none ↦ none | some w' ↦ each f xs w' ]

unfoldable pub set_position : ℕ → Point → Surfaces → Surfaces
set_position r p w = elim (convert w r) [
  | none ↦ w
  | some s ↦ put r (record s { pending_position = p }) w
]

-- The index at which the loop over the list last meets a surface.
unfoldable pub last_index_of? : List ℕ → ℕ → Option ℕ
last_index_of? [] a = none
last_index_of? (x ∷ xs) a = elim (last_index_of? xs a) [
  | none ↦ if x == a then some 0 else none
  | some i ↦ some (suc i)
]

-- The list of the parent once the surface has been put before its sibling (0) or after it (1).
unfoldable pub restack_list : IterPool → List ℕ → ℕ → ℕ → ℕ → List ℕ
unfolding last_index_of?
restack_list c xs surface sibling offset = elim (last_index_of? xs surface) [
  | none ↦ xs
  | some i ↦ elim (last_index_of? xs sibling) [
    | none ↦ xs
    | some j ↦
        let target : ℕ = if ltb i j then j - 1 else j in
        or_same (c.insert (c.remove xs i) (target + offset) surface) (c.remove xs i)
  ]
]

-- `undefined` is the access through a parent that is NULL.
pub data Restacked : Type 0 where
  done : Surfaces → Restacked
  undefined : Restacked

unfoldable pub restack_subsurface_relative_to : IterPool → ℕ → ℕ → ℕ → Surfaces → Restacked
unfolding restack_list
restack_subsurface_relative_to c surface sibling offset w = elim (convert w surface) [
  | none ↦ done w
  | some s ↦ elim (convert w s.parent) [
    | none ↦ undefined
    | some p ↦ done (
        put s.parent
          (record p { subsurface_list = restack_list c p.subsurface_list surface sibling offset })
          w)
  ]
]

-- The user data of a resource of the protocol is the library's: a parameter.
unfoldable pub place_above : IterPool → (ℕ → ℕ) → ℕ → ℕ → Surfaces → Restacked
unfolding restack_subsurface_relative_to
place_above c user_data resource sibling w =
    restack_subsurface_relative_to c (user_data resource) (user_data sibling) 0 w

unfoldable pub place_below : IterPool → (ℕ → ℕ) → ℕ → ℕ → Surfaces → Restacked
unfolding restack_subsurface_relative_to
place_below c user_data resource sibling w =
    restack_subsurface_relative_to c (user_data resource) (user_data sibling) 1 w

unfoldable pub recursive_set_parent_sync : ℕ → Bool → ℕ → Surfaces → Option Surfaces
unfolding each
recursive_set_parent_sync zero state r w = none
recursive_set_parent_sync (suc n) state r w = elim (convert w r) [
  | none ↦ some w
  | some s ↦ elim s.synchronized [
    | true ↦ some w
    | false ↦
        each (recursive_set_parent_sync n state) s.subsurface_list
          (put r (record s { parent_synchronized = state }) w)
  ]
]

unfoldable pub set_sync : ℕ → ℕ → Surfaces → Option Surfaces
unfolding recursive_set_parent_sync
set_sync n r w = elim (convert w r) [
  | none ↦ some w
  | some s ↦ recursive_set_parent_sync n true r (put r (record s { synchronized = true }) w)
]

-- Whether the surface has a parent of which nothing is cached.
unfoldable pub parent_is_live : ℕ → Surfaces → Bool
parent_is_live r w = elim (convert w r) [
  | none ↦ false
  | some s ↦ elim (convert w s.parent) [
    | none ↦ false
    | some p ↦ not p.synchronized && not p.parent_synchronized
  ]
]

unfoldable pub set_desync : ℕ → ℕ → Surfaces → Option Surfaces
unfolding recursive_set_parent_sync parent_is_live
set_desync n r w = elim (convert w r) [
  | none ↦ some w
  | some s ↦
      elim (recursive_set_parent_sync n false r (put r (record s { synchronized = false }) w)) [
        | none ↦ none
        | some w' ↦ some (if parent_is_live r w' then emit (state_committed r) w' else w')
      ]
]

-- What the loop of `commit_subsurface_state` does with one entry; `rest` commits a surface.
unfoldable pub commit_child : (ℕ → Surfaces → Option Surfaces) → ℕ → Surfaces → Option Surfaces
commit_child rest r w = elim (convert w r) [
  | none ↦ some w
  | some s ↦
      let w' : Surfaces = put r (record s { commit_position = s.pending_position }) w in
      elim (s.synchronized || s.parent_synchronized) [ true ↦ rest r w' | false ↦ some w' ]
]

unfoldable pub commit_subsurface_state : ℕ → ℕ → Surfaces → Option Surfaces
unfolding each commit_child
commit_subsurface_state zero r w = none
commit_subsurface_state (suc n) r w = elim (convert w r) [
  | none ↦ some w
  | some s ↦
      each (commit_child (commit_subsurface_state n)) s.subsurface_list
        (emit (repaint_scheduled r) (emit (state_committed r) w))
]

unfoldable pub surface_commit : ℕ → ℕ → Surfaces → Option Surfaces
unfolding commit_subsurface_state
surface_commit n r w = elim (convert w r) [
  | none ↦ some w
  | some s ↦ elim (s.parent_synchronized || s.synchronized) [
    | true ↦ some w
    | false ↦ commit_subsurface_state n r w
  ]
]

-- The surface leaves the list of the parent that it has.
unfoldable pub leave_parent : IterPool → ℕ → ℕ → Surfaces → Surfaces
leave_parent c surface parent w = elim (convert w parent) [
  | none ↦ w
  | some p ↦ elim (index_of? p.subsurface_list surface) [
    | none ↦ w
    | some i ↦ put parent (record p { subsurface_list = c.remove p.subsurface_list i }) w
  ]
]

unfoldable pub set_parent_of : ℕ → ℕ → ℕ → Surfaces → Surfaces
set_parent_of surface parent view w = elim (convert w surface) [
  | none ↦ w
  | some s ↦ put surface (record s { parent = parent; parent_view = view }) w
]

-- The surface enters the list of its new parent, if that is there and has memory for it.
unfoldable pub enter_parent : IterPool → ℕ → ℕ → Surfaces → Surfaces
unfolding set_parent_of
enter_parent c surface parent w = elim (convert w parent) [
  | none ↦ elim (convert w surface) [ none ↦ w | some s ↦ put surface (record s { parent = 0 }) w ]
  | some p ↦ elim (c.push_front p.subsurface_list surface) [
    | none ↦ elim (convert w surface) [
      | none ↦ w
      | some s ↦ put surface (record s { parent = 0 }) w
    ]
    | some xs ↦ set_parent_of surface parent p.parent_view (
        emit (attached_to_output_of surface parent)
          (put parent (record p { subsurface_list = xs }) w))
  ]
]

unfoldable pub set_parent : IterPool → ℕ → ℕ → Surfaces → Surfaces
unfolding leave_parent enter_parent
set_parent c surface parent w = elim (convert w surface) [
  | none ↦ w
  | some s ↦ elim (s.parent == parent) [
    | true ↦ w
    | false ↦ enter_parent c surface parent (leave_parent c surface s.parent w)
  ]
]

-- `created` is whether the resource of the subsurface can be made. A parent that is not there is NULL.
unfoldable pub get_subsurface : IterPool → Bool → ℕ → ℕ → Surfaces → Surfaces
unfolding set_parent
get_subsurface c created surface parent w =
    let target : ℕ = elim (convert w parent) [ none ↦ 0 | some p ↦ parent ] in
    if surface == parent
    then emit (bad_surface surface) w
    else if created
    then set_parent c surface target w
    else w
