-- ===== src/Drm/Flip/Steps.antt =====
-- The framebuffers of an output over any sequence of page flips.
use mathlib.Core.Path.{subst}
use wlc.Base.{
  ℕ, ◌+◌, ◌%◌, ◌<◌, ◌≡◌, ◌⊎◌, sym, refl, inl, inr, Bool, true, false, arith, ◌==◌, count,
}
use wlc.Drm.Flip.{
  new_surface, DrmSurface, release_fb, Answers, page_flip, page_flip_handler, surface_sleep,
  surface_release, IsFresh, FlipStep, flip, flipped, sleep, FlipSteps, here, next,
}
use wlc.Drm.Flip.Held.{Held, IsEmpty}
use wlc.Drm.Flip.Present.{
  Flipped, Shown, page_flip-Flipped, page_flip_handler-Flipped, flipping-page_flip_handler,
}

surface_sleep-Flipped :
    (i j : ℕ) (b : Bool) (w : DrmSurface) → Flipped i j w → Flipped i j (surface_sleep b w)
unfolding surface_sleep
surface_sleep-Flipped i j true w k = record {
  at = k.at;
  held = record { fds = k.held.fds; bos = k.held.bos; shows = refl };
  idle = k.idle;
  waits = k.waits;
}
surface_sleep-Flipped i j false w k = k

-- Slots 0 and 1 in one of their two roles.
abbrev pub IsFlipped : DrmSurface → Type 0
IsFlipped w = Flipped 0 1 w ⊎ Flipped 1 0 w

-- A lemma for the current slot, at a slot that is known.
current :
    (i j : ℕ) (w : DrmSurface) (P : ℕ → Type 0)
    → Flipped i j w
    → (Flipped w.index j w → P w.index)
    → P i
current i j w P k f = subst P k.at (f (subst (λ (x : ℕ). Flipped x j w) (sym k.at) k))

flip-Flipped :
    (i j : ℕ) (a : Answers) (w : DrmSurface)
    → i == j ≡ false
    → w.flipping ≡ false
    → IsFresh a w
    → Flipped i j w
    → Flipped i j (page_flip a w).1
flip-Flipped i j a w apart n fresh k =
    current i j w (λ x. Flipped x j (page_flip a w).1) k
      (λ c. page_flip-Flipped j a w (subst (λ (x : ℕ). x == j ≡ false) (sym k.at) apart) c n fresh)

flipped-Shown :
    (i j : ℕ) (w : DrmSurface)
    → j == i ≡ false
    → (i + 1) % 2 ≡ j
    → w.flipping ≡ true
    → Flipped i j w
    → Shown j i w (page_flip_handler w)
flipped-Shown i j w apart e t k =
    current i j w (λ x. Shown j x w (page_flip_handler w)) k
      (λ c.
        page_flip_handler-Flipped j w (subst (λ (x : ℕ). j == x ≡ false) (sym k.at) apart)
          (subst (λ (x : ℕ). (x + 1) % 2 ≡ j) (sym k.at) e) c t)

FlipStep-IsFlipped : {w v : DrmSurface} → FlipStep w v → IsFlipped w → IsFlipped v
FlipStep-IsFlipped (flip a w n fresh) (inl k) = inl (flip-Flipped 0 1 a w refl n fresh k)
FlipStep-IsFlipped (flip a w n fresh) (inr k) = inr (flip-Flipped 1 0 a w refl n fresh k)
FlipStep-IsFlipped (flipped w t) (inl k) = inr (flipped-Shown 0 1 w refl refl t k).0
FlipStep-IsFlipped (flipped w t) (inr k) = inl (flipped-Shown 1 0 w refl refl t k).0
FlipStep-IsFlipped (sleep b w) (inl k) = inl (surface_sleep-Flipped 0 1 b w k)
FlipStep-IsFlipped (sleep b w) (inr k) = inr (surface_sleep-Flipped 1 0 b w k)

FlipSteps-IsFlipped : {w v : DrmSurface} → FlipSteps w v → IsFlipped w → IsFlipped v
FlipSteps-IsFlipped here k = k
FlipSteps-IsFlipped (next r s) k = FlipStep-IsFlipped s (FlipSteps-IsFlipped r k)

new_surface-IsFlipped : IsFlipped new_surface
new_surface-IsFlipped = inl (record {
  at = refl;
  held = record { fds = λ x p. ground (arith, p); bos = λ x p. ground (arith, p); shows = refl };
  idle = λ n. (refl, refl);
  waits = λ t. absurd (ground (arith, t));
})

Held-swap : (w : DrmSurface) → Held 1 0 w → Held 0 1 w
Held-swap w k = record {
  fds = λ x p. ground (arith, k.fds x p);
  bos = λ x p. ground (arith, k.bos x p);
  shows = ground (arith, k.shows);
}

-- After any sequence of page flips, successful or not, of flips that the kernel reports and of sleep,
-- the framebuffers of the kernel and the locked buffers of gbm are those of the two slots, each as
-- often as a slot has it, and the crtc shows one of the slots or nothing; and the current slot is
-- empty unless a flip is under way.
pub flips-Held :
    {w : DrmSurface}
    → FlipSteps new_surface w
    → Held 0 1 w × (w.flipping ≡ false → IsEmpty (w.fb w.index))
flips-Held {w} r = elim (FlipSteps-IsFlipped r new_surface-IsFlipped) [
  | inl k ↦ (k.held, λ n. subst (λ (x : ℕ). IsEmpty (w.fb x)) (sym k.at) (k.idle n))
  | inr k ↦ (Held-swap w k.held, λ n. subst (λ (x : ℕ). IsEmpty (w.fb x)) (sym k.at) (k.idle n))
]

flipped-count :
    (i j : ℕ) (w : DrmSurface)
    → j == i ≡ false
    → (i + 1) % 2 ≡ j
    → w.flipping ≡ true
    → Flipped i j w
    → ((page_flip_handler w).shown ≡ w.queued)
      × (0 < w.queued)
      × (count (page_flip_handler w).framebuffers w.queued ≡ 1)
flipped-count i j w apart e t k =
    let (f, shown, there) = flipped-Shown i j w apart e t k in
    let p : 0 < w.queued = subst (λ (x : ℕ). 0 < x) (sym (k.waits t).0) (k.waits t).1 in
    let gone : ((page_flip_handler w).fb j).fd ≡ 0 = (f.idle (flipping-page_flip_handler w)).0 in
    (shown, p, ground (arith, f.held.fds w.queued p, gone, there, p))

-- When a flip is done, in a state that page flips and sleep lead to, the crtc shows the framebuffer
-- that was queued, which the kernel still keeps once.
pub flips_show_queued :
    {w : DrmSurface}
    → FlipSteps new_surface w
    → w.flipping ≡ true
    → ((page_flip_handler w).shown ≡ w.queued)
      × (0 < w.queued)
      × (count (page_flip_handler w).framebuffers w.queued ≡ 1)
flips_show_queued {w} r t = elim (FlipSteps-IsFlipped r new_surface-IsFlipped) [
  | inl k ↦ flipped-count 0 1 w refl refl t k
  | inr k ↦ flipped-count 1 0 w refl refl t k
]

-- Where no flip is under way, after any page flips and sleep, the release of the surface removes no
-- framebuffer: what the crtc shows is in the slot that the release does not look at.
pub surface_release_leaks :
    {w : DrmSurface}
    → FlipSteps new_surface w
    → w.flipping ≡ false
    → (surface_release w).framebuffers ≡ w.framebuffers
unfolding surface_release release_fb
surface_release_leaks {w} r n = ground (arith, ((flips-Held r).1 n).0)
