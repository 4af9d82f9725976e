-- ===== src/Surface/Buffers.antt =====
-- src/resources/types/buffer.c, and the buffers of surfaces in src/resources/types/surface.c: the
-- pending and the committed state of a surface each hold a buffer, which counts its holders, and a
-- buffer knows the surface that it was attached to last. A surface and a buffer are their resources,
-- and 0 is NULL.
pub mod Counted
pub mod Dispose
pub mod Made
pub mod References
mod Tests
use wlc.Base.{
  ℕ, ◌+◌, ◌-◌, ◌%◌, ◌^◌, Bool, true, false, ◌&&◌, ◌||◌, not, List, [], ◌∷◌, ◌++◌, if◌then◌else◌,
  ◌==◌, ltb,
}

-- `pending`, `commit` and `attached` go by surfaces, `surface` and the others by buffers. `there` are
-- the buffers that have not been released; `released` are those that were, in order.
pub record Buffers : Type 0 where
  pub pending : ℕ → ℕ
  pub commit : ℕ → ℕ
  pub attached : ℕ → Bool
  pub surface : ℕ → ℕ
  pub references : ℕ → ℕ
  pub there : ℕ → Bool
  pub released : List ℕ

abbrev pub put {ℓ} : {A : Type ℓ} → ℕ → A → (ℕ → A) → ℕ → A
put i a f j = if i == j then a else f j

-- The states of one surface without a buffer.
abbrev pub clear : ℕ → ℕ → (ℕ → ℕ) → ℕ → ℕ
clear s b f t = if s == t && f t == b then 0 else f t

-- `wlc_resource_release` on a buffer that is there, by way of `wlc_buffer_release`: only the states of
-- the surface that the buffer knows are looked at. Surfaces are not released here.
unfoldable pub buffer_release : ℕ → Buffers → Buffers
buffer_release b w = record w {
  pending = clear (w.surface b) b w.pending;
  commit = clear (w.surface b) b w.commit;
  there = put b false w.there;
  released = w.released ++ b ∷ [];
}

-- `references` is a `uint16_t`. A buffer that is not there is NULL.
unfoldable pub buffer_dispose : ℕ → Buffers → Buffers
unfolding buffer_release
buffer_dispose b w =
    let fewer : Buffers = record w { references = put b (w.references b - 1) w.references } in
    if b == 0 || not (w.there b)
    then w
    else if ltb 1 (w.references b)
    then fewer
    else buffer_release b fewer

unfoldable pub buffer_use : ℕ → Buffers → Buffers
buffer_use b w =
    if b == 0
    then w
    else record w { references = put b ((w.references b + 1) % 2 ^ 16) w.references }

-- `state_set_buffer`, on the pending and on the committed state of a surface.
unfoldable pub set_pending_buffer : ℕ → ℕ → Buffers → Buffers
unfolding buffer_dispose buffer_use
set_pending_buffer s b w =
    let used : Buffers = buffer_use b (buffer_dispose (w.pending s) w) in
    if w.pending s == b then w else record used { pending = put s b used.pending }

unfoldable pub set_commit_buffer : ℕ → ℕ → Buffers → Buffers
unfolding buffer_dispose buffer_use
set_commit_buffer s b w =
    let used : Buffers = buffer_use b (buffer_dispose (w.commit s) w) in
    if w.commit s == b then w else record used { commit = put s b used.commit }

-- `convert_from_wlc_resource`: the buffer, or NULL if it is not there.
abbrev pub found : ℕ → Buffers → ℕ
found b w = if w.there b then b else 0

-- What `commit_state` does to the buffers of the pending state and of the committed one.
unfoldable pub commit_buffers : ℕ → Buffers → Buffers
unfolding set_pending_buffer set_commit_buffer
commit_buffers s w =
    let w' : Buffers = record w { attached = put s false w.attached } in
    set_pending_buffer s 0 (set_commit_buffer s (found (w.pending s) w) w')

-- A client attaches a buffer, or none (0), to a surface, commits a surface, or destroys a buffer; before
-- it does the first on a buffer, the buffer is made, with no references.
pub data BufferRequest : Type 0 where
  attach : ℕ → ℕ → BufferRequest
  commit_surface : ℕ → BufferRequest
  destroy : ℕ → BufferRequest

abbrev pub make : ℕ → Buffers → Buffers
make b w =
    if w.there b
    then w
    else record w { references = put b 0 w.references; there = put b true w.there }

abbrev pub own : ℕ → ℕ → Buffers → Buffers
own s b w = record w { surface = put b s w.surface }

abbrev pub mark_attached : ℕ → Buffers → Buffers
mark_attached s w = record w { attached = put s true w.attached }

unfoldable pub buffer_request : BufferRequest → Buffers → Buffers
unfolding set_pending_buffer commit_buffers buffer_release
buffer_request (attach s b) w =
    if b == 0
    then mark_attached s w
    else mark_attached s (set_pending_buffer s b (own s b (make b w)))
buffer_request (commit_surface s) w = commit_buffers s w
buffer_request (destroy b) w = if w.there b then buffer_release b w else w

unfoldable pub buffer_requests : List BufferRequest → Buffers → Buffers
unfolding buffer_request
buffer_requests [] w = w
buffer_requests (r ∷ rs) w = buffer_requests rs (buffer_request r w)
