-- ===== src/Surface/Buffers/Tests.antt =====
-- The buffers of two surfaces that clients attach, commit and destroy.
use wlc.Base.{ℕ, ◌≡◌, refl, false, List, [], ◌∷◌, arith}
use wlc.Surface.Buffers.{
  Buffers, put, BufferRequest, attach, commit_surface, destroy, commit_buffers, buffer_requests,
}
use wlc.Surface.Buffers.Counted.{IsCounted}
use wlc.Surface.Buffers.References.{AllOwn, buffer_requests-IsCounted}

abbrev no_buffers : Buffers
no_buffers = record {
  pending = λ s. 0;
  commit = λ s. 0;
  attached = λ s. false;
  surface = λ b. 0;
  references = λ b. 0;
  there = λ b. false;
  released = [];
}

-- Surface 1 has the buffers 3 and 4, and surface 2 has 5.
abbrev double_buffered : List BufferRequest
double_buffered =
    attach 1 3
    ∷ commit_surface 1
    ∷ attach 2 5
    ∷ attach 1 4
    ∷ commit_surface 1
    ∷ attach 1 3
    ∷ commit_surface 1
    ∷ destroy 5
    ∷ []

no_buffers-IsCounted : IsCounted no_buffers
no_buffers-IsCounted = record {
  count = λ b t. absurd (ground (arith, t));
  first = λ t e. absurd (ground (arith, e));
  second = λ t e. absurd (ground (arith, e));
  null = refl;
}

-- The buffer that the commit replaces is released.
released_in_turn : (buffer_requests double_buffered no_buffers).released ≡ 3 ∷ 4 ∷ 5 ∷ []
unfolding buffer_requests
released_in_turn = refl

-- To attach no buffer leaves the buffer that is pending.
attach_none :
    (buffer_requests (attach 1 3 ∷ attach 1 0 ∷ commit_surface 1 ∷ []) no_buffers).commit 1 ≡ 3
unfolding buffer_requests
attach_none = refl

destroyed :
    (buffer_requests (attach 1 3 ∷ commit_surface 1 ∷ destroy 3 ∷ []) no_buffers).commit 1 ≡ 0
unfolding buffer_requests
destroyed = refl

-- A buffer that two surfaces hold: when it is destroyed, the first keeps it.
dangling :
    (buffer_requests
        (attach 1 3 ∷ commit_surface 1 ∷ attach 2 3 ∷ commit_surface 2 ∷ destroy 3 ∷ [])
        no_buffers).commit
      1
    ≡ 3
unfolding buffer_requests
dangling = refl

double_buffered-AllOwn : AllOwn double_buffered no_buffers
unfolding buffer_requests
double_buffered-AllOwn = (
  (λ n t. absurd (ground (arith, t))),
  (
    tt,
    (
      (λ n t. absurd (ground (arith, t))),
      ((λ n t. absurd (ground (arith, t))), (tt, ((λ n t. refl), (tt, (tt, tt))))),
    ),
  ),
)

abbrev after : Buffers
after = buffer_requests double_buffered no_buffers

buffer_requests-IsCounted_example :
    IsCounted after
    × ((s : ℕ) → (commit_buffers s after).commit ≡ put s (after.pending s) after.commit)
    × ((s : ℕ) → (commit_buffers s after).pending ≡ put s 0 after.pending)
buffer_requests-IsCounted_example =
    buffer_requests-IsCounted double_buffered no_buffers double_buffered-AllOwn no_buffers-IsCounted
