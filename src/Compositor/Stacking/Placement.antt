-- ===== src/Compositor/Stacking/Placement.antt =====
-- Which views stand on which output.
use wlc.Base.{
  ℕ, ◌-◌, ◌≤◌, ◌<◌, ◌≡◌, ◌≢◌, refl, ap, ◌∙◌, inl, inr, Bool, Option, List, arith, if◌then◌else◌,
  ◌==◌, Bool-cases, Option-cases, count, without, count-erase,
}
use wlc.Chck.{IterPool, or_same}
use wlc.Compositor.Stacking.{
  Scene, Attach, attached, remove_from_pool, link_at, leave_output, enter_output, attach_view,
  link_view, unlink_view,
}
use wlc.Compositor.Stacking.Order.{remove_from_pool-erase, Linked, link_at-Linked, without-erase}

-- No view stands on an output twice, every view that stands on an output has its surface there,
-- and nothing stands on no output.
pub record Placed (s : Scene) : Type 0 where
  pub once : (o v : ℕ) → count (s.views o) v ≤ 1
  pub home : (o v : ℕ) → 0 < count (s.views o) v → s.output_of v ≡ o
  pub nowhere : (v : ℕ) → count (s.views 0) v ≡ 0

-- The same, for a scene in which one view stands nowhere.
record Unplaced (view : ℕ) (s : Scene) : Type 0 where
  placed : Placed s
  absent : (o : ℕ) → count (s.views o) view ≡ 0

count-remove_from_pool :
    (c : IterPool) (xs : List ℕ) (h k : ℕ)
    → count (remove_from_pool c xs h) k ≡ count xs k - (if h == k then 1 else 0)
count-remove_from_pool c xs h k =
    ap (λ (l : List ℕ). count l k) (remove_from_pool-erase c xs h) ∙ count-erase xs h k

without-remove_from_pool :
    (c : IterPool) (xs : List ℕ) (h : ℕ) → without (remove_from_pool c xs h) h ≡ without xs h
without-remove_from_pool c xs h =
    ap (λ (l : List ℕ). without l h) (remove_from_pool-erase c xs h) ∙ without-erase xs h

leave_output-Unplaced :
    (c : IterPool) (output view : ℕ) (s : Scene)
    → Placed s
    → Unplaced view (leave_output c output view s)
unfolding leave_output
leave_output-Unplaced c output view s pl = record {
  placed = record {
    once = λ o v. ground (arith, pl.once o v, removed v);
    home = λ o v h. ground (arith, h, pl.home o v, removed v);
    nowhere = λ v. ground (arith, pl.nowhere v, removed v);
  };
  absent = λ o. ground (
    arith,
    pl.once o view,
    pl.home o view,
    pl.nowhere view,
    pl.once (s.output_of view) view,
    removed view,
  );
}
  where
    removed :
        (v : ℕ)
        → count (remove_from_pool c (s.views (s.output_of view)) view) v
          ≡ count (s.views (s.output_of view)) v - (if view == v then 1 else 0)
    removed v = count-remove_from_pool c (s.views (s.output_of view)) view v

output_of-leave_output :
    (c : IterPool) (output view v : ℕ) (s : Scene)
    → (leave_output c output view s).output_of v ≡ s.output_of v
unfolding leave_output
output_of-leave_output c output view v s = ground arith

-- The lists after the view was put into the list of an output, and its surface attached there.
Placed-attached :
    (c : IterPool) (above : Bool) (other output view : ℕ) (ys : List ℕ) (s t : Scene)
    → output ≢ 0
    → Unplaced view s
    → Linked c above other view (s.views output) ys
    → ((o : ℕ) → t.views o ≡ (if output == o then ys else s.views o))
    → ((v : ℕ) → t.output_of v ≡ (if view == v then output else s.output_of v))
    → Placed t
Placed-attached c above other output view ys s t there un linked lists outputs = record {
  once = λ o v. ground (
    arith,
    lists o,
    linked.counted v,
    un.placed.once o v,
    un.placed.once output v,
    un.absent output,
    un.absent o,
  );
  home = λ o v h. ground (
    arith,
    h,
    lists o,
    outputs v,
    linked.counted v,
    un.placed.home o v,
    un.placed.home output v,
    un.absent o,
  );
  nowhere = λ v. ground (arith, there, lists 0, un.placed.nowhere v);
}

views-enter_output :
    (c : IterPool) (output view : ℕ) (linked : Option (List ℕ)) (s : Scene) (o : ℕ)
    → (enter_output c output view linked s).views o
      ≡ (if output == o then or_same linked (s.views output) else s.views o)
unfolding enter_output
views-enter_output c output view linked s o = refl

-- If no view stands on an output twice, and every view stands only on the output of its surface,
-- then that is still so after a view is linked to an output where its surface can be attached: the
-- view stands on no other output.
pub link_view-Placed :
    (c : IterPool) (p : ℕ → ℕ → Attach) (above : Bool) (other : ℕ) (created : Bool)
    (output view : ℕ) (s : Scene)
    → p output view ≡ attached
    → Placed s
    → Placed (link_view c p above other created output view s)
unfolding link_view attach_view enter_output
link_view-Placed c p above other created output view s fine pl = elim (Bool-cases (output == 0)) [
  | inl z ↦ rw z pl
  | inr nz ↦ elim (Option-cases (link_at c above other view (s1.views output))) [
    | inl full ↦
        rw (nz, full)
          (record {
            once = λ o v. ground (arith, un.placed.once o v);
            home = λ o v h. ground (arith, h, un.placed.home o v);
            nowhere = λ v. ground (arith, un.placed.nowhere v);
          })
    | inr (ys, e) ↦
        Placed-attached c above other output view ys s1
          (link_view c p above other created output view s) (ground (arith, nz)) un
          (link_at-Linked c above other view (s1.views output) ys e)
          (λ o. ground (arith, nz, e, fine)) (λ v. ground (arith, nz, e, fine))
  ]
]
  where
    s1 : Scene
    s1 = leave_output c output view s

    un : Unplaced view s1
    un = leave_output-Unplaced c output view s pl

-- If no view stands on an output twice, and every view stands only on the output of its surface,
-- then that is still so after a view is unlinked from the output of its surface: the view stands on
-- no output, and the other views stay on every output in their order.
pub unlink_view-Placed :
    (c : IterPool) (output view : ℕ) (s : Scene)
    → output ≢ 0
    → s.output_of view ≡ output
    → Placed s
    → Placed (unlink_view c output view s)
      × ((o : ℕ) → count ((unlink_view c output view s).views o) view ≡ 0)
      × ((o : ℕ) → without ((unlink_view c output view s).views o) view ≡ without (s.views o) view)
unfolding unlink_view
unlink_view-Placed c output view s there at pl = (
  record {
    once = λ o v. ground (arith, there, at, pl.once o v, removed v);
    home = λ o v h. ground (arith, there, at, h, pl.home o v, removed v);
    nowhere = λ v. ground (arith, there, at, pl.nowhere v);
  },
  λ o. ground (arith, there, at, pl.once o view, pl.home o view, removed view),
  λ o. ground (arith, there, at, without-remove_from_pool c (s.views output) view),
)
  where
    removed :
        (v : ℕ)
        → count (remove_from_pool c (s.views output) view) v
          ≡ count (s.views output) v - (if view == v then 1 else 0)
    removed v = count-remove_from_pool c (s.views output) view v

others-leave_output :
    (c : IterPool) (output view o : ℕ) (s : Scene)
    → without ((leave_output c output view s).views o) view ≡ without (s.views o) view
unfolding leave_output
others-leave_output c output view o s =
    ground (arith, without-remove_from_pool c (s.views (s.output_of view)) view)

-- Linking a view leaves the other views on every output, and in their order.
pub link_view_others :
    (c : IterPool) (p : ℕ → ℕ → Attach) (above : Bool) (other : ℕ) (created : Bool)
    (output view o : ℕ) (s : Scene)
    → without ((link_view c p above other created output view s).views o) view
      ≡ without (s.views o) view
unfolding link_view attach_view enter_output
link_view_others c p above other created output view o s =
    elim (Option-cases (link_at c above other view (s1.views output))) [
      | inl full ↦ ground (arith, full, others-leave_output c output view o s)
      | inr (ys, e) ↦ ground (
        arith,
        e,
        (link_at-Linked c above other view (s1.views output) ys e).others,
        others-leave_output c output view o s,
        others-leave_output c output view output s,
      )
    ]
  where
    s1 : Scene
    s1 = leave_output c output view s
