-- ===== src/Drm/Flip/Present.antt =====
-- One page flip, and one flip that the kernel reports.
use mathlib.Core.Path.{subst}
use wlc.Base.{
  ℕ, ◌+◌, ◌%◌, ◌<◌, ◌≡◌, ◌∙◌, sym, refl, inl, inr, Bool, true, false, not, arith, if◌then◌else◌,
  ◌==◌, if-true, if-false, Bool-cases, count, List, some,
}
use wlc.Drm.Flip.{
  DrmSurface, release_fb, Answers, create_gbm_fb, present_fb, page_flip, page_flip_handler, IsFresh,
}
use wlc.Drm.Flip.Held.{
  Held, IsEmpty, release_fb-Held, release_fb-IsEmpty, create_gbm_fb-Held, create_gbm_fb-keeps,
  create_gbm_fb-fails, create_gbm_fb-fresh, present_fb-Held, present_fb-flips,
}

-- Slot `i` is the current one: empty, or queued while a flip is under way.
pub record Flipped (i j : ℕ) (w : DrmSurface) : Type 0 where
  pub at : w.index ≡ i
  pub held : Held i j w
  pub idle : w.flipping ≡ false → IsEmpty (w.fb i)
  pub waits :
      w.flipping ≡ true
      → (w.queued ≡ (w.fb i).fd) × (0 < (w.fb i).fd) × ((w.fb i).fd == (w.fb j).fd ≡ false)

-- A page flip, with the slot `i` emptied first.
module _ (i j : ℕ) (apart : i == j ≡ false) (a : Answers) (w : DrmSurface) (k : Flipped i j w)
    (n : w.flipping ≡ false) (fresh : IsFresh a w) where
  emptied : DrmSurface
  emptied = release_fb i w

  made : Bool × DrmSurface
  unfolding emptied
  made = create_gbm_fb a i emptied

  presented : Bool × DrmSurface
  unfolding made
  presented = present_fb a i made.1

  emptied-Held : Held i j emptied
  unfolding emptied
  emptied-Held = release_fb-Held i j apart w k.held

  emptied-IsEmpty : IsEmpty (emptied.fb i)
  unfolding emptied
  emptied-IsEmpty = (release_fb-IsEmpty i j apart w).0

  made-Held : Held i j made.1
  unfolding made
  made-Held = create_gbm_fb-Held i j apart a emptied emptied-Held emptied-IsEmpty

  emptied-IsFresh : IsFresh a emptied
  unfolding emptied
  emptied-IsFresh =
      subst (λ (l : List ℕ). (fd : ℕ) → a.added ≡ some fd → (0 < fd) × (count l fd ≡ 0))
        (sym ((release_fb-IsEmpty i j apart w).4 ∙ ground (arith, (k.idle n).0))) fresh

  made-at : (made.1.index ≡ i) × (made.1.flipping ≡ false) × ((made.1.fb j).fd ≡ (w.fb j).fd)
  unfolding made emptied
  made-at =
      let r = release_fb-IsEmpty i j apart w in
      let c = create_gbm_fb-keeps i j apart a emptied emptied-Held emptied-IsEmpty in
      (c.0.index ∙ r.1.index ∙ k.at, c.1 ∙ r.2 ∙ n, c.0.other ∙ r.1.other)

  failed-Flipped : made.0 ≡ false → Flipped i j made.1
  unfolding made
  failed-Flipped f = record {
    at = made-at.0;
    held = made-Held;
    idle = λ q. create_gbm_fb-fails i j apart a emptied emptied-Held emptied-IsEmpty f;
    waits = λ q. absurd (ground (arith, sym made-at.1 ∙ q));
  }

  presented-Flipped : made.0 ≡ true → Flipped i j presented.1
  unfolding presented made emptied
  presented-Flipped t =
      let p = present_fb-flips i j apart a made.1 made-Held made-at.1 in
      let c =
        create_gbm_fb-fresh i j apart a emptied emptied-Held emptied-IsEmpty emptied-IsFresh t in
      let e = create_gbm_fb-keeps i j apart a emptied emptied-Held emptied-IsEmpty in
      record {
        at = p.0.index ∙ made-at.0;
        held = present_fb-Held i j apart a made.1 made-Held;
        idle = λ q. p.2 (sym p.1 ∙ q);
        waits = λ q.
            let r = p.3 (sym p.1 ∙ q) in
            (
              r.0 ∙ sym r.1,
              subst (λ (x : ℕ). 0 < x) (sym r.1) c.0,
              subst (λ (x : ℕ). x == (presented.1.fb j).fd ≡ false) (sym r.1)
                  (subst (λ (y : ℕ). (made.1.fb i).fd == y ≡ false) (sym (p.0.other ∙ e.0.other))
                    c.1),
            );
      }

  both-Flipped : Flipped i j (if not made.0 then (false, made.1) else presented).1
  both-Flipped = elim (Bool-cases made.0) [
    | inl t ↦
        subst (λ (r : Bool × DrmSurface). Flipped i j r.1)
          (sym (if-false (false, made.1) presented (not made.0) (ground (arith, t))))
          (presented-Flipped t)
    | inr f ↦
        subst (λ (r : Bool × DrmSurface). Flipped i j r.1)
          (sym (if-true (false, made.1) presented (not made.0) (ground (arith, f))))
          (failed-Flipped f)
  ]

pub page_flip-Flipped :
    (j : ℕ) (a : Answers) (w : DrmSurface)
    → w.index == j ≡ false
    → Flipped w.index j w
    → w.flipping ≡ false
    → IsFresh a w
    → Flipped w.index j (page_flip a w).1
unfolding page_flip both-Flipped presented made emptied
page_flip-Flipped j a w apart k n fresh = both-Flipped w.index j apart a w k n fresh

-- `v` is what comes of `w` when the flip of slot `i` is done.
abbrev pub Shown : ℕ → ℕ → DrmSurface → DrmSurface → Type 0
Shown j i w v = Flipped j i v × (v.shown ≡ w.queued) × ((v.fb i).fd ≡ w.queued)

pub flipping-page_flip_handler : (w : DrmSurface) → (page_flip_handler w).flipping ≡ false
unfolding page_flip_handler
flipping-page_flip_handler w = refl

-- Emptying slot `j`, where the crtc shows what is in slot `i`.
module _ (i j : ℕ) (apart : j == i ≡ false) (w : DrmSurface) (k : Flipped i j w)
    (t : w.flipping ≡ true) where
  shown_next : DrmSurface
  shown_next = record w { shown = w.queued }

  shown_next-Held : Held j i shown_next
  unfolding shown_next
  shown_next-Held = record {
    fds = λ x p. ground (arith, k.held.fds x p);
    bos = λ x p. ground (arith, k.held.bos x p);
    shows = ground (arith, (k.waits t).0);
  }

  -- What has left the screen is not what is on it.
  still_shown : (release_fb j shown_next).shown ≡ (w.fb i).fd
  unfolding shown_next
  still_shown =
      (release_fb-IsEmpty j i apart shown_next).3
        (subst (λ (q : ℕ). q == (w.fb j).fd ≡ false) (sym (k.waits t).0) (k.waits t).2)
      ∙ (k.waits t).0

  still_there : ((release_fb j shown_next).fb i).fd ≡ (w.fb i).fd
  unfolding shown_next
  still_there = (release_fb-IsEmpty j i apart shown_next).1.other

  after : DrmSurface
  unfolding shown_next
  after = record (release_fb j shown_next) { index = j; flipping = false }

  after-Flipped : Flipped j i after
  unfolding after shown_next
  after-Flipped =
      let h = release_fb-Held j i apart shown_next shown_next-Held in
      record {
        at = refl;
        held = record { fds = h.fds; bos = h.bos; shows = h.shows };
        idle = λ q. (release_fb-IsEmpty j i apart shown_next).0;
        waits = λ q. absurd (ground (arith, q));
      }

-- The flip that the kernel reports makes the other slot the current one, emptied.
pub page_flip_handler-Flipped :
    (j : ℕ) (w : DrmSurface)
    → j == w.index ≡ false
    → (w.index + 1) % 2 ≡ j
    → Flipped w.index j w
    → w.flipping ≡ true
    → Shown j w.index w (page_flip_handler w)
unfolding page_flip_handler after shown_next
page_flip_handler-Flipped j w apart e k t =
    subst
      (λ (q : ℕ).
        Shown j w.index w
          (record (release_fb q (record w { shown = w.queued })) { index = q; flipping = false }))
      (sym e)
      (
        after-Flipped w.index j apart w k t,
        still_shown w.index j apart w k t ∙ sym (k.waits t).0,
        still_there w.index j apart w k t ∙ sym (k.waits t).0,
      )
