-- ===== src/Compositor/Given.antt =====
-- src/compositor/output.c: the call that gives an output a surface or takes it leaves in the output
-- what `surface_given` and `surface_taken` tell.
use wlc.Base.{
  ◌∙◌, ap, ℕ, ◌≡◌, inl, inr, Bool, true, false, Option, none, some, List, arith, ◌==◌, Bool-cases,
}
use wlc.Compositor.World.{
  Output, Bsurface, World, drop_surface, set_surface, put, put_output, find_output, emit_if,
  context_created, context_destroyed,
}
use wlc.Compositor.Handles.{handle-find_output, find_output-put_output}
use wlc.Compositor.Handshake.{outputs-respond_tty_activate}
use wlc.Compositor.Output.{schedule_repaint, cancel_repaint}
use wlc.Compositor.Surfaces.{
  Platform, released, reattach, surface_taken, surface_given, set_no_surface, replace_surface,
  set_some_surface, set_backend_surface, set_surface_on,
}

-- The output of the handle is as given, and is found again after it is replaced.
found_again :
    (h : ℕ) (o o' : Output) (os : List Output)
    → find_output h os ≡ some o
    → o'.handle ≡ h
    → find_output h (put_output o' os) ≡ some o'
found_again h o o' os e i = ground (arith, find_output-put_output h o' os, e, i)

outputs-emit_if :
    (b : Bool) (w : World) (h : ℕ) → (emit_if b (context_destroyed h) w).outputs ≡ w.outputs
outputs-emit_if b w h = ground arith

find_output-set_no_surface :
    (h : ℕ) (w : World) (o : Output)
    → find_output h w.outputs ≡ some o
    → find_output h (set_no_surface w o).outputs ≡ some (surface_taken o)
unfolding set_no_surface surface_taken released cancel_repaint
find_output-set_no_surface h w o e =
    let i = handle-find_output h w.outputs o e in
    let w' = put (cancel_repaint (released o)) (emit_if o.created (context_destroyed o.handle) w) in
    ground (
      arith,
      e,
      found_again h o (record o { task_bsurface = drop_surface }) w.outputs e i,
      found_again h o (cancel_repaint (released o)) w.outputs e i,
      outputs-emit_if o.created w o.handle,
      outputs-respond_tty_activate w',
    )

-- The handles stay as they are.
handle-reattach : (p : Platform) (o : Output) → (reattach p o).handle ≡ o.handle
unfolding reattach schedule_repaint
handle-reattach p o = ground arith

module _ (p : Platform) (h : ℕ) (w : World) (o : Output) (b : Bsurface)
    (e : find_output h w.outputs ≡ some o) where
  bare : Output
  bare = record (released o) { bsurface = b }

  i : o.handle ≡ h
  i = handle-find_output h w.outputs o e

  replaced :
      o.bsurface.display == b.display ≡ false
      → o.pending ≡ false
      → find_output h (replace_surface p w o b).1.outputs ≡ some (surface_given p b o)
  unfolding replace_surface surface_given released bare
  replaced n m =
      let w' = emit_if o.created (context_destroyed o.handle) w in
      let ready = reattach p (record bare { context = true }) in
      let w2 = emit_if o.created (context_created o.handle) (put ready w') in
      let same : w'.outputs ≡ w.outputs = outputs-emit_if o.created w o.handle in
      let fallen : find_output h (put bare w').outputs ≡ some bare =
        ap (λ (os : List Output). find_output h (put_output bare os)) same
        ∙ found_again h o bare w.outputs e i in
      ground (
        arith,
        n,
        m,
        find_output-set_no_surface h (put bare w') bare fallen,
        found_again h o ready w.outputs e,
        handle-reattach p (record bare { context = true }),
        i,
        same,
        outputs-respond_tty_activate w2,
      )

  given : find_output h (set_some_surface p w o b).1.outputs ≡ some (surface_given p b o)
  unfolding set_some_surface surface_given
  given = elim (Bool-cases (o.bsurface.display == b.display)) [
    | inl y ↦ ground (arith, y, e)
    | inr n ↦ elim (Bool-cases o.pending) [
      | inl y ↦
          ground (
            arith,
            n,
            y,
            found_again h o (record o { task_bsurface = set_surface b }) w.outputs e i,
          )
      | inr m ↦ ground (arith, n, m, replaced n m)
    ]
  ]

-- What the call on the output of a handle leaves in that output.
pub after_call : Platform → Option Bsurface → Output → Output
after_call p none o = surface_taken o
after_call p (some b) o = surface_given p b o

find_output-set_backend_surface :
    (p : Platform) (h : ℕ) (w : World) (o : Output) (b : Option Bsurface)
    → find_output h w.outputs ≡ some o
    → find_output h (set_backend_surface p w o b).1.outputs ≡ some (after_call p b o)
unfolding set_backend_surface after_call
find_output-set_backend_surface p h w o none e = find_output-set_no_surface h w o e
find_output-set_backend_surface p h w o (some b) e = given p h w o b e

pub find_output-set_surface_on :
    (p : Platform) (h : ℕ) (b : Option Bsurface) (w : World) (o : Output)
    → find_output h w.outputs ≡ some o
    → find_output h (set_surface_on p h b w).outputs ≡ some (after_call p b o)
unfolding set_surface_on
find_output-set_surface_on p h b w o e =
    ap
      (λ (q : Option Output).
        find_output h
          (elim q as (λ r. World) [ none ↦ w | some x ↦ (set_backend_surface p w x b).1 ]).outputs)
      e
    ∙ find_output-set_backend_surface p h w o b e
