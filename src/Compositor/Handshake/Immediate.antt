-- ===== src/Compositor/Handshake/Immediate.antt =====
-- src/compositor/compositor.c: giving up the terminal while no output waits for the end of a frame.
use wlc.Base.{
  ℕ, ◌≡◌, ◌⊎◌, inl, inr, refl, ap, ◌∙◌, true, false, none, some, List, [], ◌∷◌, arith, any,
  Option-cases, contains,
}
use wlc.Compositor.World.{Output, World, idle, deactivating, find_output, handles, for_each}
use wlc.Compositor.Handles.{handle-find_output, Distinct, put_output-Distinct, any-eq_false}
use wlc.Compositor.Tty.{has_surface, deactivate_tty}
use wlc.Compositor.Surfaces.{Platform, set_surface_on}
use wlc.Compositor.Outputs.{deactivate_event}
use wlc.Compositor.Handshake.{
  deactivations, Waiting, GivenUp, deactivate_tty-Waiting, without_surface, outputs-set_no_surface,
  pending-without_surface, has_surface-without_surface, Status, set_no_surface-Status, Calm,
  set_surface_on-none, set_surface_on-missing, find-cleared,
}

-- Only the outputs of the listed handles may have a surface.
abbrev Remaining : List ℕ → World → Type 0
Remaining hs w =
    (h : ℕ) (o : Output)
    → find_output h w.outputs ≡ some o
    → contains hs h ≡ false
    → has_surface o ≡ false

-- What the loop keeps, with the handles that are left.
record Keeps (n vt : ℕ) (hs : List ℕ) (w : World) : Type 0 where
  status : Status n vt w
  distinct : Distinct w.outputs
  calm : Calm w
  remaining : Remaining hs w

module _ (p : Platform) (n vt : ℕ) where
  Keeps-step :
      (h : ℕ) (hs : List ℕ) (w : World)
      → Keeps n vt (h ∷ hs) w
      → Keeps n vt hs (set_surface_on p h none w)
  Keeps-step h hs w v = elim (Option-cases (find_output h w.outputs)) [
    | inl gone ↦ rw (set_surface_on-missing p h w gone) (record {
      status = v.status;
      distinct = v.distinct;
      calm = v.calm;
      remaining = λ k o e out. v.remaining k o e (ground (arith, gone, e, out));
    })
    | inr (o, e) ↦
        let at : o.handle ≡ h = handle-find_output h w.outputs o e in
        let e' : find_output o.handle w.outputs ≡ some o =
          ap (λ (j : ℕ). find_output j w.outputs) at ∙ e in
        let quiet : o.pending ≡ false = v.calm h o e in
        rw (set_surface_on-none p h w o e) (record {
          status = set_no_surface-Status n vt w o e' v.status;
          distinct =
              rw (outputs-set_no_surface w o v.distinct e')
                (put_output-Distinct (without_surface o) w.outputs v.distinct);
          calm = λ k x f. ground (
            arith,
            quiet,
            pending-without_surface o,
            find-cleared w o k e' v.distinct,
            v.calm k x,
          );
          remaining = λ k x f out. ground (
            arith,
            quiet,
            has_surface-without_surface o,
            find-cleared w o k e' v.distinct,
            v.remaining k x,
          );
        })
  ]

  Keeps-all :
      (hs : List ℕ) (w : World)
      → Keeps n vt hs w
      → Keeps n vt [] (for_each (λ h. set_surface_on p h none) hs w)
  Keeps-all [] w v = v
  Keeps-all (h ∷ hs) w v = Keeps-all hs (set_surface_on p h none w) (Keeps-step h hs w v)

deactivate_tty-idle : (w : World) → w.tty ≡ idle → deactivate_tty w ≡ w
unfolding deactivate_tty
deactivate_tty-idle w e = ground (arith, e)

deactivate_tty-GivenUp :
    (n vt : ℕ) (w : World)
    → any has_surface w.outputs ≡ false
    → Status n vt w
    → GivenUp n vt (deactivate_tty w)
deactivate_tty-GivenUp n vt w clear (inl waits) = split (deactivate_tty-Waiting n vt w waits)
  where
    split :
        (Waiting n vt (deactivate_tty w)
            × (any has_surface w.outputs ≡ true)
            × (deactivate_tty w ≡ w))
          ⊎ (GivenUp n vt (deactivate_tty w)
              × (any has_surface w.outputs ≡ false)
              × ((deactivate_tty w).outputs ≡ w.outputs))
        → GivenUp n vt (deactivate_tty w)
    split (inl (a, b, c)) = absurd (ground (arith, b, clear))
    split (inr (a, b, c)) = a
deactivate_tty-GivenUp n vt w clear (inr done) = rw (deactivate_tty-idle w done.0) done

contains-handles :
    (h : ℕ) (os : List Output) (o : Output)
    → find_output h os ≡ some o
    → contains (handles os) h ≡ true
contains-handles h [] o e = cc
contains-handles h (x ∷ os) o e = ground (arith, e, contains-handles h os o)

-- When no output waits for the end of a frame, and no two outputs have one handle, giving up the
-- terminal takes the surface from every output at once and ends the handshake; `wlc_fd_deactivate`
-- is called once, if no terminal to switch to was named, and otherwise not at all, and the idle
-- source that switches is there.
pub deactivate_event_immediate :
    (p : Platform) (vt : ℕ) (w : World)
    → Distinct w.outputs
    → Calm w
    → GivenUp (deactivations w.events) vt (deactivate_event p vt w)
unfolding deactivate_event
deactivate_event_immediate p vt w d calm = finish (
    Keeps-all p n vt (handles w.outputs) w' (record {
      status = inl (refl, refl, refl);
      distinct = d;
      calm = calm;
      remaining = λ h o e out. absurd (ground (arith, out, contains-handles h w.outputs o e));
    }))
  where
    n : ℕ
    n = deactivations w.events

    w' : World
    w' = record w { tty = deactivating; vt = vt }

    finish : {v : World} → Keeps n vt [] v → GivenUp n vt (deactivate_tty v)
    finish {v} k =
        deactivate_tty-GivenUp n vt v
          (any-eq_false has_surface v.outputs k.distinct (λ h o e. k.remaining h o e refl)) k.status
