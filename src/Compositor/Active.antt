-- ===== src/Compositor/Active.antt =====
-- The active output, when it is removed.
use wlc.Base.{
  ℕ, suc, ◌≡◌, ◌≢◌, ◌⊎◌, inl, inr, refl, true, false, List, [], ◌∷◌, some, none, arith, All,
  get_elem?, ◌==◌, Bool-cases, ◌∙◌,
}
use wlc.Compositor.World.{Output, World}
use wlc.Compositor.Tty.{has_surface, respond_tty_activate}
use wlc.Compositor.Surfaces.{Platform, set_surface_on, set_no_surface}
use wlc.Compositor.Outputs.{schedule_on, active_output, alive_output, remove_output}

-- An output of the list other than that of the handle, with a surface.
record Other (h : ℕ) (os : List Output) (found : ℕ) : Type 0 where
  index : ℕ
  output : Output
  there : get_elem? os index ≡ some output
  shows : has_surface output ≡ true
  other : output.handle ≢ h
  handle : found ≡ output.handle

-- No output of the list other than that of the handle has a surface.
abbrev pub Alone : ℕ → List Output → Type 0
Alone h os = All (λ o. o.handle ≢ h → has_surface o ≡ false) os

alive_output-Other :
    (h : ℕ) (os : List Output)
    → ((alive_output h os ≡ 0) × Alone h os) ⊎ Other h os (alive_output h os)
unfolding alive_output
alive_output-Other h [] = inl (refl, tt)
alive_output-Other h (o ∷ os) = step (alive_output-Other h os)
  where
    step :
        ((alive_output h os ≡ 0) × Alone h os) ⊎ Other h os (alive_output h os)
        → ((alive_output h (o ∷ os) ≡ 0) × Alone h (o ∷ os))
          ⊎ Other h (o ∷ os) (alive_output h (o ∷ os))
    step rest = elim (Bool-cases (has_surface o)) [
      | inr n ↦ pass (ground (arith, n)) (λ ne. n) rest
      | inl y ↦ elim (Bool-cases (o.handle == h)) [
        | inl e ↦ pass (ground (arith, e)) (λ ne. absurd (ground (arith, e, ne))) rest
        | inr e ↦ inr (record {
          index = 0;
          output = o;
          there = refl;
          shows = y;
          other = ground (arith, e);
          handle = ground (arith, y, e);
        })
      ]
    ]
      where
        pass :
            alive_output h (o ∷ os) ≡ alive_output h os
            → (o.handle ≢ h → has_surface o ≡ false)
            → ((alive_output h os ≡ 0) × Alone h os) ⊎ Other h os (alive_output h os)
            → ((alive_output h (o ∷ os) ≡ 0) × Alone h (o ∷ os))
              ⊎ Other h (o ∷ os) (alive_output h (o ∷ os))
        pass e clear (inl (z, a)) = inl (e ∙ z, (clear, a))
        pass e clear (inr r) = inr (record {
          index = suc r.index;
          output = r.output;
          there = r.there;
          shows = r.shows;
          other = r.other;
          handle = e ∙ r.handle;
        })

active-schedule_on : (h : ℕ) (w : World) → (schedule_on h w).active ≡ w.active
unfolding schedule_on
active-schedule_on h w = ground arith

active-active_output : (h : ℕ) (w : World) → (active_output h w).active ≡ h
unfolding active_output
active-active_output h w = ground (arith, active-schedule_on h)

active-respond_tty_activate : (w : World) → (respond_tty_activate w).active ≡ w.active
unfolding respond_tty_activate
active-respond_tty_activate w = ground arith

active-set_no_surface : (w : World) (o : Output) → (set_no_surface w o).active ≡ w.active
unfolding set_no_surface
active-set_no_surface w o = grind (arith, active-respond_tty_activate)

active-set_surface_on :
    (p : Platform) (h : ℕ) (w : World) → (set_surface_on p h none w).active ≡ w.active
unfolding set_surface_on
active-set_surface_on p h w = ground (arith, active-set_no_surface w)

active-remove_output :
    (p : Platform) (h : ℕ) (w : World)
    → w.active ≡ h
    → (remove_output p h w).active ≡ alive_output h w.outputs
unfolding remove_output
active-remove_output p h w e = ground (
  arith,
  e,
  active-set_surface_on p h,
  active-active_output (alive_output h w.outputs) (record w { active = 0 }),
)

-- When the active output is removed, another output with a surface becomes the active one; if no
-- other output has a surface, none is active.
remove_output_moves :
    (p : Platform) (h : ℕ) (w : World)
    → w.active ≡ h
    → (((remove_output p h w).active ≡ 0) × Alone h w.outputs)
      ⊎ ((i : ℕ) × (o : Output) × (get_elem? w.outputs i ≡ some o)
          × (has_surface o ≡ true)
          × (o.handle ≢ h)
          × ((remove_output p h w).active ≡ o.handle))
remove_output_moves p h w e =
    rw (active-remove_output p h w e) (go (alive_output-Other h w.outputs))
  where
    go :
        ((alive_output h w.outputs ≡ 0) × Alone h w.outputs)
          ⊎ Other h w.outputs (alive_output h w.outputs)
        → ((alive_output h w.outputs ≡ 0) × Alone h w.outputs)
          ⊎ ((i : ℕ) × (o : Output) × (get_elem? w.outputs i ≡ some o)
              × (has_surface o ≡ true)
              × (o.handle ≢ h)
              × (alive_output h w.outputs ≡ o.handle))
    go (inl a) = inl a
    go (inr r) = inr (r.index, r.output, r.there, r.shows, r.other, r.handle)
