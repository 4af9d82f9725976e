-- ===== src/Compositor/Stacking.antt =====
-- src/compositor/output.c: the views on an output and their order, the lowest first. The scene has
-- the pools `views` and `mutable` of every output and the output of every view's surface; an output
-- is its handle, and 0 is none. That a surface can be attached is up to the buffer and the renderer.
pub mod Order
pub mod Placement
mod Tests
use wlc.Base.{
  ℕ, suc, Bool, true, false, ◌&&◌, ◌||◌, not, Option, none, some, List, [], ◌∷◌, ◌++◌,
  if◌then◌else◌, ◌==◌, index_of?, contains,
}
use wlc.Chck.{IterPool, or_same}

pub data SceneEvent : Type 0 where
  move_to_output : ℕ → ℕ → ℕ → SceneEvent
  repaint_scheduled : ℕ → SceneEvent

pub record Scene : Type 0 where
  pub views : ℕ → List ℕ
  pub mutable_views : ℕ → List ℕ
  pub output_of : ℕ → ℕ
  pub events : List SceneEvent

-- What `attach_view` comes to: there is no surface or no buffer, the renderer refuses the surface,
-- the surface is attached but cannot be listed for want of memory, or all goes well.
pub data Attach : Type 0 where
  no_buffer refused unlisted attached : Attach

-- A function changed at one number.
abbrev pub update {ℓ} : {A : Type ℓ} → ℕ → A → (ℕ → A) → ℕ → A
update h a f k = if h == k then a else f k

unfoldable pub remove_from_pool : IterPool → List ℕ → ℕ → List ℕ
remove_from_pool c xs handle = elim (index_of? xs handle) [ none ↦ xs | some i ↦ c.remove xs i ]

unfoldable pub exists_in_pool : List ℕ → ℕ → Bool
exists_in_pool xs handle = contains xs handle

-- The pool with the view at its place, where it can be added. `other` is 0 for NULL.
unfoldable pub link_at : IterPool → Bool → ℕ → ℕ → List ℕ → Option (List ℕ)
link_at c above other view xs =
    if other == 0
    then (if above then c.push_back xs view else c.push_front xs view)
    else elim (index_of? xs other) [
      | none ↦ none
      | some i ↦ c.insert xs (if above then suc i else i) view
    ]

-- What `wlc_surface_invalidate` makes the old output do where the surface changes its output.
abbrev pub old_repaint : ℕ → ℕ → Scene → List SceneEvent
old_repaint output view s =
    if s.output_of view == output || s.output_of view == 0
    then []
    else repaint_scheduled (s.output_of view) ∷ []

unfoldable pub attach_view : (ℕ → ℕ → Attach) → ℕ → ℕ → Scene → Scene
attach_view p output view s = elim (p output view) [
  | no_buffer ↦ s
  | refused ↦ record s {
    output_of = update view 0 s.output_of;
    events = s.events ++ old_repaint output view s;
  }
  | unlisted ↦ record s {
    output_of = update view 0 s.output_of;
    events = s.events ++ (old_repaint output view s ++ repaint_scheduled output ∷ []);
  }
  | attached ↦ record s {
    output_of = update view output s.output_of;
    events = s.events ++ (old_repaint output view s ++ repaint_scheduled output ∷ []);
  }
]

-- The view is taken from the output it is on.
unfoldable pub leave_output : IterPool → ℕ → ℕ → Scene → Scene
unfolding remove_from_pool
leave_output c output view s =
    let old : ℕ = s.output_of view in
    if old == 0 then s else record s {
      views = update old (remove_from_pool c (s.views old) view) s.views;
      mutable_views =
          if old == output
          then s.mutable_views
          else update old (remove_from_pool c (s.mutable_views old) view) s.mutable_views;
    }

abbrev pub is_some : Option (List ℕ) → Bool
is_some none = false
is_some (some xs) = true

-- The view enters the pools of the output; `linked` is what `link_at` gives.
unfoldable pub enter_output : IterPool → ℕ → ℕ → Option (List ℕ) → Scene → Scene
unfolding exists_in_pool
enter_output c output view linked s = record s {
  views = update output (or_same linked (s.views output)) s.views;
  mutable_views =
      if exists_in_pool (s.mutable_views output) view
      then s.mutable_views
      else update output
          (or_same (c.push_back (s.mutable_views output) view) (s.mutable_views output))
          s.mutable_views;
}

-- `wlc_output_link_view`; `created` is `view->state.created`.
unfoldable pub link_view : IterPool → (ℕ → ℕ → Attach) → Bool → ℕ → Bool → ℕ → ℕ → Scene → Scene
unfolding leave_output link_at enter_output attach_view
link_view c p above other created output view s =
    let old : ℕ = s.output_of view in
    let s1 : Scene = leave_output c output view s in
    let linked : Option (List ℕ) = link_at c above other view (s1.views output) in
    let s2 : Scene = enter_output c output view linked s1 in
    let s3 : Scene = record s2 {
      events =
          s2.events
          ++ (if not (old == output) && created
              then move_to_output view old (if is_some linked then output else 0) ∷ []
              else []);
    } in
    let s4 : Scene = attach_view p output view s3 in
    if output == 0
    then s
    else if is_some linked
    then record s4 { events = s4.events ++ repaint_scheduled output ∷ [] }
    else s3

-- `wlc_output_unlink_view`
unfoldable pub unlink_view : IterPool → ℕ → ℕ → Scene → Scene
unfolding remove_from_pool
unlink_view c output view s =
    if output == 0 || not (s.output_of view == output) then s else record s {
      views = update output (remove_from_pool c (s.views output) view) s.views;
      mutable_views =
          update output (remove_from_pool c (s.mutable_views output) view) s.mutable_views;
      events = s.events ++ repaint_scheduled output ∷ [];
    }

unfoldable pub attach_all : (ℕ → ℕ → Attach) → ℕ → List ℕ → Scene → Scene
unfolding attach_view
attach_all p output [] s = s
attach_all p output (v ∷ vs) s = attach_all p output vs (attach_view p output v s)

-- `wlc_output_set_views_ptr`; the two Booleans are whether there is memory for each pool.
unfoldable pub set_views : (ℕ → ℕ → Attach) → Bool → Bool → ℕ → List ℕ → Scene → Bool × Scene
unfolding attach_all
set_views p fits fits_mutable output vs s =
    let s1 : Scene = record s { views = update output vs s.views } in
    let s2 : Scene =
      attach_all p output vs (record s1 { mutable_views = update output vs s.mutable_views }) in
    if output == 0 || not fits
    then (false, s)
    else if not fits_mutable
    then (false, s1)
    else (true, record s2 { events = s2.events ++ repaint_scheduled output ∷ [] })
