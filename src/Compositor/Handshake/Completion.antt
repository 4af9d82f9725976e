-- ===== src/Compositor/Handshake/Completion.antt =====
-- The handshake is completed by the end of the last frame.
use mathlib.Core.Path.{subst}
use wlc.Base.{
  ℕ, ◌≡◌, ◌≢◌, inl, inr, refl, ap, sym, ◌∙◌, true, false, some, arith, any, ◌==◌, Bool-cases,
}
use wlc.Compositor.World.{
  Output, World, deactivating, no_task, drop_surface, find_output, put_output, put, emit_if,
  context_destroyed,
}
use wlc.Compositor.Handles.{
  find_output-put_found, Distinct, put_output-Distinct, any-find_output, any-eq_false,
}
use wlc.Compositor.Output.{cancel_repaint, Floats, frame_finished}
use wlc.Compositor.Tty.{has_surface, respond_tty_activate}
use wlc.Compositor.Surfaces.{Platform, released, set_no_surface}
use wlc.Compositor.Frames.{on, finish_frame_tasks, finish_frame}
use wlc.Compositor.Handshake.{
  Waiting, GivenUp, Status, without_surface, set_surface_on-none, find-cleared,
  outputs-set_no_surface, has_surface-without_surface, set_no_surface-Status,
}

-- All outputs but the one of a handle are without a surface.
abbrev pub OthersClear : ℕ → World → Type 0
OthersClear h w =
    (k : ℕ) (x : Output) → find_output k w.outputs ≡ some x → h ≢ k → has_surface x ≡ false

respond-open :
    (w : World)
    → (respond_tty_activate w).tty ≡ deactivating
    → any has_surface (respond_tty_activate w).outputs ≡ true
unfolding respond_tty_activate
respond-open w e = ground arith

set_no_surface-open :
    (w : World) (o : Output)
    → o.pending ≡ false
    → has_surface o ≡ true
    → (set_no_surface w o).tty ≡ deactivating
    → any has_surface (set_no_surface w o).outputs ≡ true
unfolding set_no_surface
set_no_surface-open w o q s t = elim (Bool-cases (o.bsurface.display == 0)) [
  | inl y ↦ absurd (ground (arith, s, y))
  | inr m ↦ ground (
    arith,
    q,
    s,
    m,
    t,
    respond-open
        (put (cancel_repaint (released o)) (emit_if o.created (context_destroyed o.handle) w)),
  )
]

module _ (p : Platform) (n vt : ℕ) (w : World) (o : Output) (waits : Waiting n vt w)
    (d : Distinct w.outputs) (e : find_output o.handle w.outputs ≡ some o)
    (idle_frame : o.pending ≡ false) (others : OthersClear o.handle w) where
  clear_after : any has_surface (set_no_surface w o).outputs ≡ false
  clear_after =
      any-eq_false has_surface (set_no_surface w o).outputs
        (rw (outputs-set_no_surface w o d e) (put_output-Distinct (without_surface o) w.outputs d))
        (λ k x f.
          ground (
            arith,
            f,
            idle_frame,
            has_surface-without_surface o,
            find-cleared w o k e d,
            others k x,
          ))

  -- The call that takes the last surface ends the handshake.
  set_no_surface-last : has_surface o ≡ true → GivenUp n vt (set_no_surface w o)
  set_no_surface-last shows = go (set_no_surface-Status n vt w o e (inl waits))
    where
      go : Status n vt (set_no_surface w o) → GivenUp n vt (set_no_surface w o)
      go (inr done) = done
      go (inl open_still) =
          absurd
            (ground (arith, clear_after, set_no_surface-open w o idle_frame shows open_still.0))

GivenUp-put :
    (n vt : ℕ) (w : World) (o x : Output)
    → GivenUp n vt w
    → Distinct w.outputs
    → find_output o.handle w.outputs ≡ some x
    → has_surface o ≡ has_surface x
    → GivenUp n vt (put o w)
GivenUp-put n vt w o x (t, a, c, i) d e same_surface = (
  t,
  any-eq_false has_surface (put_output o w.outputs) (put_output-Distinct o w.outputs d) (λ k y f.
      ground (
        arith,
        f,
        same_surface,
        any-find_output has_surface w.outputs o.handle x a e,
        any-find_output has_surface w.outputs k y a,
        find_output-put_found k o x w.outputs e,
      )),
  c,
  i,
)

-- What the end of the frame leaves alone.
frame_finished_fields :
    (f : Floats) (sec nsec : ℕ) (o : Output)
    → ((frame_finished f sec nsec o).handle ≡ o.handle)
      × ((frame_finished f sec nsec o).pending ≡ false)
      × ((frame_finished f sec nsec o).bsurface ≡ o.bsurface)
      × ((frame_finished f sec nsec o).task_bsurface ≡ o.task_bsurface)
      × ((frame_finished f sec nsec o).task_sleep ≡ o.task_sleep)
      × ((frame_finished f sec nsec o).task_terminate ≡ o.task_terminate)
unfolding frame_finished
frame_finished_fields f sec nsec o = ground arith

without_surface_tasks :
    (o : Output)
    → ((without_surface o).handle ≡ o.handle)
      × ((without_surface o).task_sleep ≡ o.task_sleep)
      × ((without_surface o).task_terminate ≡ o.task_terminate)
unfolding without_surface cancel_repaint released
without_surface_tasks o = ground arith

abbrev done_dropping : Output → Output
done_dropping o = record (without_surface o) { task_bsurface = no_task }

finish_frame_tasks-drop :
    (p : Platform) (n vt : ℕ) (w : World) (o : Output)
    → Distinct w.outputs
    → find_output o.handle w.outputs ≡ some o
    → o.task_bsurface ≡ drop_surface
    → o.task_sleep ≡ false
    → o.task_terminate ≡ false
    → finish_frame_tasks p o.handle w ≡ put (done_dropping o) (set_no_surface w o)
unfolding finish_frame_tasks
finish_frame_tasks-drop p n vt w o d e drop awake stays =
    let at = without_surface_tasks o in
    ground (
      arith,
      e,
      drop,
      awake,
      stays,
      at,
      set_surface_on-none p o.handle w o e,
      find-cleared w o o.handle e d,
      find_output-put_found o.handle (done_dropping o) (without_surface o)
          (set_no_surface w o).outputs,
    )

-- When the terminal is to be given up, no two outputs have one handle, and one output is left with
-- a surface, which its pending frame is to take away, the end of that frame, if it has no other
-- task, takes the surface away and ends the handshake; `wlc_fd_deactivate` is called once, if no
-- terminal to switch to was named, and otherwise not at all, and the idle source that switches is
-- there.
pub finish_frame_completes :
    (p : Platform) (f : Floats) (sec nsec n vt : ℕ) (w : World) (o : Output)
    → Waiting n vt w
    → Distinct w.outputs
    → find_output o.handle w.outputs ≡ some o
    → OthersClear o.handle w
    → has_surface o ≡ true
    → o.task_bsurface ≡ drop_surface
    → o.task_sleep ≡ false
    → o.task_terminate ≡ false
    → GivenUp n vt (finish_frame p f sec nsec o.handle w)
unfolding finish_frame finish_frame_tasks
finish_frame_completes p f sec nsec n vt w o waits d e others shows drop awake stays =
    subst (GivenUp n vt) (sym chain) (
      GivenUp-put n vt (set_no_surface w1 o1) (done_dropping o1) (without_surface o1) last d2 found2
        refl)
  where
    o1 : Output
    o1 = frame_finished f sec nsec o

    w1 : World
    w1 = put o1 w

    at : o1.handle ≡ o.handle
    at = (frame_finished_fields f sec nsec o).0

    there : find_output o1.handle w.outputs ≡ some o
    there = ap (λ (k : ℕ). find_output k w.outputs) at ∙ e

    d1 : Distinct w1.outputs
    d1 = put_output-Distinct o1 w.outputs d

    found1 : find_output o1.handle w1.outputs ≡ some o1
    found1 = ground (arith, find_output-put_found o1.handle o1 o w.outputs there)

    quiet : o1.pending ≡ false
    quiet = (frame_finished_fields f sec nsec o).1

    shows1 : has_surface o1 ≡ true
    shows1 = ground (arith, shows, (frame_finished_fields f sec nsec o).2)

    others1 : OthersClear o1.handle w1
    others1 k x g ne =
        ground (arith, g, ne, at, find_output-put_found k o1 o w.outputs there, others k x)

    last : GivenUp n vt (set_no_surface w1 o1)
    last = set_no_surface-last p n vt w1 o1 waits d1 found1 quiet others1 shows1

    d2 : Distinct (set_no_surface w1 o1).outputs
    d2 =
        rw (outputs-set_no_surface w1 o1 d1 found1)
          (put_output-Distinct (without_surface o1) w1.outputs d1)

    found2 :
        find_output (done_dropping o1).handle (set_no_surface w1 o1).outputs
        ≡ some (without_surface o1)
    found2 = ground (arith, (without_surface_tasks o1).0, find-cleared w1 o1 o1.handle found1 d1)

    start : on o.handle (frame_finished f sec nsec) w ≡ w1
    start = rw (e, on)

    chain :
        finish_frame_tasks p o.handle (on o.handle (frame_finished f sec nsec) w)
        ≡ put (done_dropping o1) (set_no_surface w1 o1)
    chain =
        ap (finish_frame_tasks p o.handle) start
        ∙ ap (λ (k : ℕ). finish_frame_tasks p k w1) (sym at)
        ∙ finish_frame_tasks-drop p n vt w1 o1 d1 found1
            (ground (arith, drop, (frame_finished_fields f sec nsec o).3))
            (ground (arith, awake, (frame_finished_fields f sec nsec o).4))
            (ground (arith, stays, (frame_finished_fields f sec nsec o).5))
