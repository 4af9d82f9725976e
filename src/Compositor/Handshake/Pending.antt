-- ===== src/Compositor/Handshake/Pending.antt =====
-- The handshake while an output still shows a frame.
use wlc.Base.{
  sym, ℕ, ◌≡◌, ◌⊎◌, inl, inr, refl, ap, ◌∙◌, true, false, none, some, List, [], ◌∷◌, arith, any,
  ◌==◌, Bool-cases, Option-cases,
}
use wlc.Compositor.World.{Output, World, deactivating, drop_surface, find_output, handles, for_each}
use wlc.Compositor.Handles.{handle-find_output, Distinct, put_output-Distinct, any-find_output}
use wlc.Chck.{some_inj}
use wlc.Compositor.Tty.{has_surface, deactivate_tty}
use wlc.Compositor.Surfaces.{Platform, set_no_surface, set_surface_on}
use wlc.Compositor.Outputs.{deactivate_event}
use wlc.Compositor.Handshake.{
  deactivations, Waiting, GivenUp, Status, without_surface, set_no_surface-Status,
  set_surface_on-none, set_surface_on-missing, find-cleared, outputs-set_no_surface,
  deactivate_tty-Waiting,
}

-- The output of a handle has a surface, and a frame of it is pending.
record Busy (h : ℕ) (w : World) : Type 0 where
  output : Output
  found : find_output h w.outputs ≡ some output
  pending : output.pending ≡ true
  shows : has_surface output ≡ true

record Stays (n vt h : ℕ) (w : World) : Type 0 where
  status : Status n vt w
  distinct : Distinct w.outputs
  busy : Busy h w

without_surface-Busy :
    (o : Output)
    → o.pending ≡ true
    → has_surface o ≡ true
    → ((without_surface o).pending ≡ true)
      × (has_surface (without_surface o) ≡ true)
      × ((without_surface o).task_bsurface ≡ drop_surface)
unfolding without_surface
without_surface-Busy o q s = ground arith

module _ (p : Platform) (n vt h : ℕ) where
  Busy-step :
      (w : World) (o : Output) (k : ℕ)
      → find_output k w.outputs ≡ some o
      → find_output o.handle w.outputs ≡ some o
      → Distinct w.outputs
      → Busy h w
      → Busy h (set_no_surface w o)
  Busy-step w o k e e' d b = elim (Bool-cases (o.handle == h)) [
    | inl y ↦
        let at : o.handle ≡ h = ground (arith, y) in
        let same_output : o ≡ b.output =
          some_inj (sym b.found ∙ ap (λ (j : ℕ). find_output j w.outputs) (sym at) ∙ e') in
        let (q, s, t) =
          without_surface-Busy o (ap (λ (x : Output). x.pending) same_output ∙ b.pending)
            (ap has_surface same_output ∙ b.shows) in
        record {
          output = without_surface o;
          found = ground (arith, find-cleared w o h e' d, y);
          pending = q;
          shows = s;
        }
    | inr m ↦ record {
      output = b.output;
      found = ground (arith, find-cleared w o h e' d, m, b.found);
      pending = b.pending;
      shows = b.shows;
    }
  ]

  Stays-step : (k : ℕ) (w : World) → Stays n vt h w → Stays n vt h (set_surface_on p k none w)
  Stays-step k w v = elim (Option-cases (find_output k w.outputs)) [
    | inl gone ↦ rw (set_surface_on-missing p k w gone) v
    | inr (o, e) ↦
        let at : o.handle ≡ k = handle-find_output k w.outputs o e in
        let e' : find_output o.handle w.outputs ≡ some o =
          ap (λ (j : ℕ). find_output j w.outputs) at ∙ e in
        rw (set_surface_on-none p k w o e) (record {
          status = set_no_surface-Status n vt w o e' v.status;
          distinct =
              rw (outputs-set_no_surface w o v.distinct e')
                (put_output-Distinct (without_surface o) w.outputs v.distinct);
          busy = Busy-step w o k e e' v.distinct v.busy;
        })
  ]

  Stays-all :
      (ks : List ℕ) (w : World)
      → Stays n vt h w
      → Stays n vt h (for_each (λ k. set_surface_on p k none) ks w)
  Stays-all [] w v = v
  Stays-all (k ∷ ks) w v = Stays-all ks (set_surface_on p k none w) (Stays-step k w v)

-- While some output with a surface has a frame pending, and no two outputs have one handle, giving
-- up the terminal is put off: `wlc_fd_deactivate` is not called, the handshake stays open with the
-- terminal to switch to, and that output keeps its surface and its pending frame.
pub deactivate_event_waits :
    (p : Platform) (vt h : ℕ) (w : World) (o : Output)
    → Distinct w.outputs
    → find_output h w.outputs ≡ some o
    → o.pending ≡ true
    → has_surface o ≡ true
    → Waiting (deactivations w.events) vt (deactivate_event p vt w)
      × ((o' : Output) × (find_output h (deactivate_event p vt w).outputs ≡ some o')
          × (o'.pending ≡ true)
          × (has_surface o' ≡ true))
unfolding deactivate_event
deactivate_event_waits p vt h w o d e q s = finish (
    Stays-all p n vt h (handles w.outputs) (record w { tty = deactivating; vt = vt })
      (record {
        status = inl (refl, refl, refl);
        distinct = d;
        busy = record { output = o; found = e; pending = q; shows = s };
      }))
  where
    n : ℕ
    n = deactivations w.events

    Result : World → Type 0
    Result v =
        Waiting n vt v
        × ((o' : Output) × (find_output h v.outputs ≡ some o')
            × (o'.pending ≡ true)
            × (has_surface o' ≡ true))

    finish : {v : World} → Stays n vt h v → Result (deactivate_tty v)
    finish {v} k = go k.status
      where
        b : Busy h v
        b = k.busy

        go : Status n vt v → Result (deactivate_tty v)
        go (inr done) = absurd (
            ground
              (arith, any-find_output has_surface v.outputs h b.output done.1 b.found, b.shows))
        go (inl waits) = split (deactivate_tty-Waiting n vt v waits)
          where
            split :
                (Waiting n vt (deactivate_tty v)
                    × (any has_surface v.outputs ≡ true)
                    × (deactivate_tty v ≡ v))
                  ⊎ (GivenUp n vt (deactivate_tty v)
                      × (any has_surface v.outputs ≡ false)
                      × ((deactivate_tty v).outputs ≡ v.outputs))
                → Result (deactivate_tty v)
            split (inl (x, y, z)) = (
              x,
              (
                b.output,
                ap (λ (u : World). find_output h u.outputs) z ∙ b.found,
                b.pending,
                b.shows,
              ),
            )
            split (inr (x, y, z)) = absurd (
                ground (arith, any-find_output has_surface v.outputs h b.output y b.found, b.shows))
