-- ===== src/Drm/Flip.antt =====
-- src/platform/backend/drm.c: the two framebuffers of an output and the page flips between them,
-- where the surface is of gbm (`use_egldevice` is false). libdrm and gbm are parameters: what they
-- answer comes with each call, and what they hold is part of the state.
pub mod Held
pub mod Present
pub mod Steps
mod Tests
use wlc.Base.{
  ℕ, ◌+◌, ◌%◌, ◌<◌, ◌≡◌, Bool, true, false, ◌&&◌, not, Option, none, some, List, [], ◌∷◌, count,
  erase, if◌then◌else◌, ◌==◌, ltb,
}

-- `struct drm_fb`; NULL is 0.
pub record Fb : Type 0 where
  pub bo : ℕ
  pub fd : ℕ
  pub stride : ℕ

-- `struct drm_surface`. Of the kernel there are the framebuffers it keeps for this output, and the
-- one that the crtc shows (0 for none) or will show when the flip is done; of gbm the buffers that
-- are locked.
pub record DrmSurface : Type 0 where
  pub fb : ℕ → Fb
  pub stride : ℕ
  pub index : ℕ
  pub flipping : Bool
  pub framebuffers : List ℕ
  pub locked : List ℕ
  pub shown : ℕ
  pub queued : ℕ

abbrev pub num_fbs : ℕ
num_fbs = 2

abbrev pub put_fb : ℕ → Fb → DrmSurface → DrmSurface
put_fb i f w = record w { fb = λ j. if i == j then f else w.fb j }

-- `drmModeRmFB` of what a crtc shows turns that crtc off.
abbrev pub remove_fb : ℕ → DrmSurface → DrmSurface
remove_fb fd w = record w {
  framebuffers = erase w.framebuffers fd;
  shown = if w.shown == fd then 0 else w.shown;
}

unfoldable pub release_fb : ℕ → DrmSurface → DrmSurface
release_fb i w =
    let f : Fb = w.fb i in
    let w1 : DrmSurface = if ltb 0 f.fd then remove_fb f.fd w else w in
    let w2 : DrmSurface = if f.bo == 0 then w1 else record w1 { locked = erase w1.locked f.bo } in
    put_fb i (record f { bo = 0; fd = 0 }) w2

-- What gbm and libdrm answer: whether the surface has a free buffer, the buffer that is locked (0 for
-- NULL), its stride, the framebuffer that is added (none for an error), and whether the mode is set
-- and the page flip queued.
pub record Answers : Type 0 where
  pub has_free : Bool
  pub front : ℕ
  pub stride : ℕ
  pub added : Option ℕ
  pub set_crtc : Bool
  pub flip : Bool

unfoldable pub create_gbm_fb : Answers → ℕ → DrmSurface → Bool × DrmSurface
unfolding release_fb
create_gbm_fb a i w =
    let bo_set : DrmSurface = put_fb i (record (w.fb i) { bo = a.front }) w in
    let lock : DrmSurface = record bo_set { locked = a.front ∷ w.locked } in
    if not a.has_free
    then (false, release_fb i w)
    else if a.front == 0
    then (false, release_fb i bo_set)
    else elim a.added [
      | none ↦ (false, release_fb i lock)
      | some fd ↦ (
        true,
        record (put_fb i (record { bo = a.front; fd = fd; stride = a.stride }) lock) {
          framebuffers = fd ∷ w.framebuffers;
        },
      )
    ]

-- `drmModeSetCrtc` and `drmModePageFlip` with the framebuffer in slot `i`.
unfoldable pub present_fb : Answers → ℕ → DrmSurface → Bool × DrmSurface
unfolding release_fb
present_fb a i w =
    let f : Fb = w.fb i in
    let changes : Bool = not (f.stride == w.stride) in
    let set : DrmSurface = if changes then record w { stride = f.stride; shown = f.fd } else w in
    if changes && not a.set_crtc
    then (false, release_fb i w)
    else if not a.flip
    then (false, release_fb i set)
    else (true, record set { flipping = true; queued = f.fd })

-- The assertion that no flip is under way is the caller's.
unfoldable pub page_flip : Answers → DrmSurface → Bool × DrmSurface
unfolding release_fb create_gbm_fb present_fb
page_flip a w =
    let made = create_gbm_fb a w.index (release_fb w.index w) in
    if not made.0 then (false, made.1) else present_fb a w.index made.1

-- The crtc shows the framebuffer that was queued. The call of `wlc_output_finish_frame` is not part
-- of the surface.
unfoldable pub page_flip_handler : DrmSurface → DrmSurface
unfolding release_fb
page_flip_handler w =
    let next = (w.index + 1) % num_fbs in
    record (release_fb next (record w { shown = w.queued })) { index = next; flipping = false }

unfoldable pub surface_sleep : Bool → DrmSurface → DrmSurface
surface_sleep sleep w = if sleep then record w { stride = 0; shown = 0 } else w

-- The framebuffers, before the crtc gets back what it showed when the compositor started.
unfoldable pub surface_release : DrmSurface → DrmSurface
unfolding release_fb
surface_release w = release_fb w.index w

-- `wlc_backend_surface` makes the surface of zeros.
abbrev pub new_surface : DrmSurface
new_surface = record {
  fb = λ i. record { bo = 0; fd = 0; stride = 0 };
  stride = 0;
  index = 0;
  flipping = false;
  framebuffers = [];
  locked = [];
  shown = 0;
  queued = 0;
}

-- A new framebuffer has a positive id that the kernel does not use.
abbrev pub IsFresh : Answers → DrmSurface → Type 0
IsFresh a w = (fd : ℕ) → a.added ≡ some fd → (0 < fd) × (count w.framebuffers fd ≡ 0)

-- The kernel reports a flip only while one is under way.
pub data FlipStep : DrmSurface → DrmSurface → Type 0 where
  flip :
      (a : Answers) (w : DrmSurface)
      → w.flipping ≡ false
      → IsFresh a w
      → FlipStep w (page_flip a w).1
  flipped : (w : DrmSurface) → w.flipping ≡ true → FlipStep w (page_flip_handler w)
  sleep : (b : Bool) (w : DrmSurface) → FlipStep w (surface_sleep b w)

pub data FlipSteps (w : DrmSurface) : DrmSurface → Type 0 where
  here : FlipSteps w w
  next : {u v : DrmSurface} → FlipSteps w u → FlipStep u v → FlipSteps w v
