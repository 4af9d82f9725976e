-- ===== src/Drm/Flip/Held.antt =====
-- What the kernel and gbm keep for an output is what its two slots hold.
use wlc.Base.{
  ℕ, ◌+◌, ◌<◌, ◌≡◌, true, false, ◌||◌, count, Option-cases, inl, inr, erase, count-erase, arith,
  if◌then◌else◌, ◌==◌, ltb,
}
use wlc.Drm.Flip.{Fb, DrmSurface, release_fb, Answers, create_gbm_fb, present_fb, IsFresh}

abbrev pub one : ℕ → ℕ → ℕ
one h x = if h == x then 1 else 0

-- The framebuffers are those in the slots `i` and `j`, each as often.
abbrev pub FdsHeld : ℕ → ℕ → DrmSurface → Type 0
FdsHeld i j w = (x : ℕ) → 0 < x → count w.framebuffers x ≡ one (w.fb i).fd x + one (w.fb j).fd x

-- The locked buffers are.
abbrev pub BosHeld : ℕ → ℕ → DrmSurface → Type 0
BosHeld i j w = (x : ℕ) → 0 < x → count w.locked x ≡ one (w.fb i).bo x + one (w.fb j).bo x

-- The crtc shows one of the slots or nothing.
abbrev pub Shows : ℕ → ℕ → DrmSurface → Type 0
Shows i j w = (w.shown == 0 || w.shown == (w.fb i).fd || w.shown == (w.fb j).fd) ≡ true

pub record Held (i j : ℕ) (w : DrmSurface) : Type 0 where
  pub fds : FdsHeld i j w
  pub bos : BosHeld i j w
  pub shows : Shows i j w

abbrev pub IsEmpty : Fb → Type 0
IsEmpty f = (f.fd ≡ 0) × (f.bo ≡ 0)

-- An operation on slot `i` leaves the rest of the surface.
pub record Others (j : ℕ) (w w' : DrmSurface) : Type 0 where
  pub other : (w'.fb j).fd ≡ (w.fb j).fd
  pub index : w'.index ≡ w.index

module _ (i j : ℕ) (apart : i == j ≡ false) where
  module _ (w : DrmSurface) (k : Held i j w) where
    release_fb-fds : FdsHeld i j (release_fb i w)
    unfolding release_fb
    release_fb-fds x p = ground (arith, k.fds x p, apart, count-erase w.framebuffers (w.fb i).fd x)

    release_fb-bos : BosHeld i j (release_fb i w)
    unfolding release_fb
    release_fb-bos x p = ground (arith, k.bos x p, apart, count-erase w.locked (w.fb i).bo x)

    release_fb-Shows : Shows i j (release_fb i w)
    unfolding release_fb
    release_fb-Shows = ground (arith, k.shows, apart)

    pub release_fb-Held : Held i j (release_fb i w)
    release_fb-Held = record {
      fds = release_fb-fds;
      bos = release_fb-bos;
      shows = release_fb-Shows;
    }

  pub release_fb-IsEmpty :
      (w : DrmSurface)
      → IsEmpty ((release_fb i w).fb i)
        × Others j w (release_fb i w)
        × ((release_fb i w).flipping ≡ w.flipping)
        × ((w.shown == (w.fb i).fd) ≡ false → (release_fb i w).shown ≡ w.shown)
        × ((release_fb i w).framebuffers
            ≡ (if ltb 0 (w.fb i).fd then erase w.framebuffers (w.fb i).fd else w.framebuffers))
        × ((release_fb i w).stride ≡ w.stride)
  unfolding release_fb
  release_fb-IsEmpty w = ground (arith, apart)

  -- Making a framebuffer in an empty slot.
  module _ (a : Answers) (w : DrmSurface) (k : Held i j w) (e : IsEmpty (w.fb i)) where
    create_gbm_fb-fds : FdsHeld i j (create_gbm_fb a i w).1
    unfolding create_gbm_fb
    create_gbm_fb-fds x p = ground (arith, k.fds x p, apart, e)

    create_gbm_fb-bos : BosHeld i j (create_gbm_fb a i w).1
    unfolding create_gbm_fb
    create_gbm_fb-bos x p = ground (arith, k.bos x p, apart, e)

    create_gbm_fb-Shows : Shows i j (create_gbm_fb a i w).1
    unfolding create_gbm_fb
    create_gbm_fb-Shows = ground (arith, k.shows, apart, e)

    pub create_gbm_fb-Held : Held i j (create_gbm_fb a i w).1
    create_gbm_fb-Held = record {
      fds = create_gbm_fb-fds;
      bos = create_gbm_fb-bos;
      shows = create_gbm_fb-Shows;
    }

    pub create_gbm_fb-keeps :
        Others j w (create_gbm_fb a i w).1
        × ((create_gbm_fb a i w).1.flipping ≡ w.flipping)
        × ((create_gbm_fb a i w).1.shown ≡ w.shown)
    unfolding create_gbm_fb
    create_gbm_fb-keeps = ground (arith, apart, e)

    pub create_gbm_fb-fails :
        (create_gbm_fb a i w).0 ≡ false → IsEmpty ((create_gbm_fb a i w).1.fb i)
    unfolding create_gbm_fb
    create_gbm_fb-fails f = ground (arith, f)

    -- A fresh framebuffer is not that of the other slot.
    pub create_gbm_fb-fresh :
        IsFresh a w
        → (create_gbm_fb a i w).0 ≡ true
        → (0 < ((create_gbm_fb a i w).1.fb i).fd)
          × (((create_gbm_fb a i w).1.fb i).fd == (w.fb j).fd ≡ false)
    unfolding create_gbm_fb
    create_gbm_fb-fresh fresh t = elim (Option-cases a.added) [
      | inl n ↦ absurd (ground (arith, t, n))
      | inr (fd, s) ↦ ground (arith, t, s, fresh fd s, k.fds fd)
    ]

  -- Presenting a framebuffer.
  module _ (a : Answers) (w : DrmSurface) (k : Held i j w) where
    present_fb-fds : FdsHeld i j (present_fb a i w).1
    unfolding present_fb
    present_fb-fds x p = ground (arith, k.fds x p, apart, count-erase w.framebuffers (w.fb i).fd x)

    present_fb-bos : BosHeld i j (present_fb a i w).1
    unfolding present_fb
    present_fb-bos x p = ground (arith, k.bos x p, apart, count-erase w.locked (w.fb i).bo x)

    present_fb-Shows : Shows i j (present_fb a i w).1
    unfolding present_fb
    present_fb-Shows = ground (arith, k.shows, apart)

    pub present_fb-Held : Held i j (present_fb a i w).1
    present_fb-Held = record {
      fds = present_fb-fds;
      bos = present_fb-bos;
      shows = present_fb-Shows;
    }

    pub present_fb-flips :
        w.flipping ≡ false
        → Others j w (present_fb a i w).1
          × ((present_fb a i w).1.flipping ≡ (present_fb a i w).0)
          × ((present_fb a i w).0 ≡ false → IsEmpty ((present_fb a i w).1.fb i))
          × ((present_fb a i w).0 ≡ true
              → ((present_fb a i w).1.queued ≡ (w.fb i).fd)
                × (((present_fb a i w).1.fb i).fd ≡ (w.fb i).fd))
    unfolding present_fb
    present_fb-flips n = ground (arith, apart, n)
