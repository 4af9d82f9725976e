-- ===== src/Compositor/Handshake.antt =====
-- src/compositor/compositor.c: the handshake with the session when the virtual terminal is given up.
pub mod Immediate
pub mod Pending
pub mod Completion
use wlc.Base.{
  ◌||◌, ℕ, ◌+◌, ◌≡◌, ◌≢◌, ◌⊎◌, inl, inr, refl, ap, sym, ◌∙◌, Bool, true, false, not, Option, none,
  some, List, [], ◌∷◌, ◌++◌, arith, any, if◌then◌else◌, ◌==◌, Bool-cases, Option-cases, contains,
}
use wlc.Compositor.World.{
  Output, World, TtyState, idle, activating, deactivating, Event, fd_deactivate, context_destroyed,
  find_output, put_output, put, handles, for_each, emit_if, emit, no_surface, drop_surface,
}
use wlc.Compositor.Handles.{
  put_self, handle-find_output, find_output-put_found, handles-put_output, Distinct,
  put_output-Distinct, any-eq_false, any-find_output,
}
use wlc.Compositor.Output.{cancel_repaint}
use wlc.Compositor.Tty.{has_surface, deactivate_tty, respond_tty_activate}
use wlc.Compositor.Surfaces.{Platform, released, set_no_surface, set_surface_on}
use wlc.Compositor.Outputs.{deactivate_event}

-- How often `wlc_fd_deactivate` was called.
unfoldable pub deactivations : List Event → ℕ
deactivations [] = 0
deactivations (fd_deactivate ∷ es) = 1 + deactivations es
deactivations (_ ∷ es) = deactivations es

deactivations-append :
    (es fs : List Event) → deactivations (es ++ fs) ≡ deactivations es + deactivations fs
unfolding deactivations
deactivations-append [] fs = omega arith
deactivations-append (fd_deactivate ∷ es) fs = omega (arith, deactivations-append es fs)
deactivations-append (_ ∷ es) fs = deactivations-append es fs

-- The terminal is still to be given up, or was given up once, when no output had a surface:
-- `n` calls of `wlc_fd_deactivate` before, `vt` the terminal to switch to.
abbrev pub Waiting : ℕ → ℕ → World → Type 0
Waiting n vt w = (w.tty ≡ deactivating) × (w.vt ≡ vt) × (deactivations w.events ≡ n)

abbrev pub GivenUp : ℕ → ℕ → World → Type 0
GivenUp n vt w =
    (w.tty ≡ idle)
    × (any has_surface w.outputs ≡ false)
    × (deactivations w.events ≡ n + (if vt == 0 then 1 else 0))
    × ((w.idle_vt || vt == 0) ≡ true)

pub deactivate_tty-Waiting :
    (n vt : ℕ) (w : World)
    → Waiting n vt w
    → (Waiting n vt (deactivate_tty w)
        × (any has_surface w.outputs ≡ true)
        × (deactivate_tty w ≡ w))
      ⊎ (GivenUp n vt (deactivate_tty w)
          × (any has_surface w.outputs ≡ false)
          × ((deactivate_tty w).outputs ≡ w.outputs))
unfolding deactivate_tty deactivations
deactivate_tty-Waiting n vt w (t, v, c) =
    ground (arith, deactivations-append w.events (fd_deactivate ∷ []))

pub outputs-respond_tty_activate : (w : World) → (respond_tty_activate w).outputs ≡ w.outputs
unfolding respond_tty_activate
outputs-respond_tty_activate w = ground arith

-- The output that the call with NULL leaves behind.
pub without_surface : Output → Output
without_surface o =
    if o.bsurface.display == 0
    then o
    else if o.pending
    then record o { task_bsurface = drop_surface }
    else cancel_repaint (released o)

pub outputs-set_no_surface :
    (w : World) (o : Output)
    → Distinct w.outputs
    → find_output o.handle w.outputs ≡ some o
    → (set_no_surface w o).outputs ≡ put_output (without_surface o) w.outputs
unfolding set_no_surface without_surface
outputs-set_no_surface w o d e = elim (Bool-cases (o.bsurface.display == 0)) [
  | inl y ↦ rw y (sym (put_self o w.outputs e d))
  | inr n ↦ elim (Bool-cases o.pending) [
    | inl y ↦ rw (n, y)
    | inr m ↦ elim (Bool-cases o.created) [
      | inl c ↦ rw (n, m, c, outputs-respond_tty_activate)
      | inr c ↦ rw (n, m, c, outputs-respond_tty_activate)
    ]
  ]
]

pub handle-without_surface : (o : Output) → (without_surface o).handle ≡ o.handle
unfolding without_surface cancel_repaint released
handle-without_surface o = ground arith

pub pending-without_surface : (o : Output) → (without_surface o).pending ≡ o.pending
unfolding without_surface cancel_repaint released
pending-without_surface o = ground arith

pub has_surface-without_surface :
    (o : Output) → has_surface (without_surface o) ≡ (if o.pending then has_surface o else false)
unfolding without_surface cancel_repaint released
has_surface-without_surface o = ground arith

-- The calls that give up the surfaces keep the handshake where it is, or end it.
respond-Status :
    (n vt : ℕ) (w : World)
    → Waiting n vt w
    → Waiting n vt (respond_tty_activate w) ⊎ GivenUp n vt (respond_tty_activate w)
unfolding respond_tty_activate deactivations
respond-Status n vt w (t, v, c) =
    rw (t, respond_tty_activate) (split (deactivate_tty-Waiting n vt w (t, v, c)))
  where
    split :
        (Waiting n vt (deactivate_tty w)
            × (any has_surface w.outputs ≡ true)
            × (deactivate_tty w ≡ w))
          ⊎ (GivenUp n vt (deactivate_tty w)
              × (any has_surface w.outputs ≡ false)
              × ((deactivate_tty w).outputs ≡ w.outputs))
        → Waiting n vt (deactivate_tty w) ⊎ GivenUp n vt (deactivate_tty w)
    split (inl (a, b, c)) = inl a
    split (inr (a, b, c)) = inr a

abbrev pub Status : ℕ → ℕ → World → Type 0
Status n vt w = Waiting n vt w ⊎ GivenUp n vt w

pub set_no_surface-Status :
    (n vt : ℕ) (w : World) (o : Output)
    → find_output o.handle w.outputs ≡ some o
    → Status n vt w
    → Status n vt (set_no_surface w o)
unfolding set_no_surface deactivations
set_no_surface-Status n vt w o e (inr (t, a, c, i)) =
    let none_left : has_surface o ≡ false = any-find_output has_surface w.outputs o.handle o a e in
    ground (arith, none_left)
set_no_surface-Status n vt w o e (inl (t, v, c)) = elim (Bool-cases (o.bsurface.display == 0)) [
  | inl y ↦ rw y (inl (t, v, c))
  | inr z ↦ elim (Bool-cases o.pending) [
    | inl y ↦ rw (z, y) (inl (t, v, c))
    | inr m ↦ elim (Bool-cases o.created) [
      | inl y ↦
          rw (z, m, y)
            (respond-Status n vt _ (
              t,
              v,
              omega (arith, deactivations-append w.events (context_destroyed o.handle ∷ [])),
            ))
      | inr y ↦ rw (z, m, y) (respond-Status n vt _ (t, v, c))
    ]
  ]
]

-- No output waits for the end of a frame.
abbrev pub Calm : World → Type 0
Calm w = (h : ℕ) (o : Output) → find_output h w.outputs ≡ some o → o.pending ≡ false

pub set_surface_on-none :
    (p : Platform) (h : ℕ) (w : World) (o : Output)
    → find_output h w.outputs ≡ some o
    → set_surface_on p h none w ≡ set_no_surface w o
unfolding set_surface_on
set_surface_on-none p h w o e = rw (e, set_surface_on)

pub set_surface_on-missing :
    (p : Platform) (h : ℕ) (w : World)
    → find_output h w.outputs ≡ none
    → set_surface_on p h none w ≡ w
unfolding set_surface_on
set_surface_on-missing p h w e = rw (e, set_surface_on)

pub find-cleared :
    (w : World) (o : Output) (k : ℕ)
    → find_output o.handle w.outputs ≡ some o
    → Distinct w.outputs
    → find_output k (set_no_surface w o).outputs
      ≡ (if o.handle == k then some (without_surface o) else find_output k w.outputs)
find-cleared w o k e d =
    ap (find_output k) (outputs-set_no_surface w o d e)
    ∙ find_output-put_found k (without_surface o) o w.outputs
        (ap (λ (j : ℕ). find_output j w.outputs) (handle-without_surface o) ∙ e)
    ∙ ap (λ (j : ℕ). if j == k then some (without_surface o) else find_output k w.outputs)
        (handle-without_surface o)
