-- ===== src/Drm/Flip/Tests.antt =====
-- An output that flips twice, and a flip that fails after the mode was set.
use wlc.Base.{ℕ, ◌+◌, ◌<◌, ◌≡◌, refl, true, false, some, [], ◌∷◌, count, arith}
use wlc.Drm.Flip.{
  DrmSurface, new_surface, Answers, page_flip, page_flip_handler, surface_release, FlipSteps, here,
  next, flip, flipped,
}
use wlc.Drm.Flip.Held.{Held, IsEmpty}
use wlc.Drm.Flip.Steps.{flips-Held, flips_show_queued, surface_release_leaks}

abbrev all_well : ℕ → Answers
all_well n = record {
  has_free = true;
  front = 20 + n;
  stride = 64;
  added = some (40 + n);
  set_crtc = true;
  flip = true;
}

abbrev first_flip : DrmSurface
first_flip = (page_flip (all_well 1) new_surface).1

first_flip-FlipSteps : FlipSteps new_surface first_flip
unfolding page_flip
first_flip-FlipSteps = next here (flip (all_well 1) new_surface refl (λ fd e. ground (arith, e)))

abbrev shown_first : DrmSurface
shown_first = page_flip_handler first_flip

shown_first-FlipSteps : FlipSteps new_surface shown_first
unfolding page_flip
shown_first-FlipSteps = next first_flip-FlipSteps (flipped first_flip refl)

second_framebuffers : (page_flip (all_well 2) shown_first).1.framebuffers ≡ 42 ∷ 41 ∷ []
unfolding page_flip page_flip_handler
second_framebuffers = refl

-- The framebuffer that the crtc shows is removed: the screen goes dark.
fails_after_set_crtc : (page_flip (record (all_well 1) { flip = false }) new_surface).1.shown ≡ 0
unfolding page_flip
fails_after_set_crtc = refl

-- Its stride stays that of the surface, so that the next flip does not set the mode again.
keeps_stride : (page_flip (record (all_well 1) { flip = false }) new_surface).1.stride ≡ 64
unfolding page_flip
keeps_stride = refl

flips-Held_example :
    Held 0 1 first_flip × (first_flip.flipping ≡ false → IsEmpty (first_flip.fb first_flip.index))
flips-Held_example = flips-Held first_flip-FlipSteps

flips_show_queued_example :
    (shown_first.shown ≡ first_flip.queued)
    × (0 < first_flip.queued)
    × (count shown_first.framebuffers first_flip.queued ≡ 1)
unfolding page_flip
flips_show_queued_example = flips_show_queued first_flip-FlipSteps refl

surface_release_leaks_example :
    (surface_release shown_first).framebuffers ≡ shown_first.framebuffers
unfolding page_flip page_flip_handler
surface_release_leaks_example = surface_release_leaks shown_first-FlipSteps refl
