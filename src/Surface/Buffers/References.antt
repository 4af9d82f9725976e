-- ===== src/Surface/Buffers/References.antt =====
-- The references of a buffer count the states that hold it.
use mathlib.Core.Path.{subst}
use wlc.Base.{
  ℕ, ◌≡◌, ◌∙◌, sym, refl, ap, inl, inr, true, false, List, [], ◌∷◌, arith, ◌==◌, if-elim, if-cases,
  if-true, if-false, Bool-cases,
}
use wlc.Surface.Buffers.Counted.{Counted, Counted-swap, use-Counted, IsCounted, Counted-fields}
use wlc.Surface.Buffers.Dispose.{
  dispose-Counted, dispose-there, dispose-surface, dispose-commit, dispose-pending,
  dispose-own_pending, dispose-own_commit,
}
use wlc.Surface.Buffers.Made.{IsFor, put_same, release-IsCounted, ready-IsCounted}
use wlc.Surface.Buffers.{
  Buffers, put, buffer_release, buffer_dispose, buffer_use, set_pending_buffer, set_commit_buffer,
  found, commit_buffers, BufferRequest, attach, commit_surface, destroy, make, own, mark_attached,
  buffer_request, buffer_requests,
}

-- To use a buffer changes its count only.
buffer_use-fields :
    (b : ℕ) (w : Buffers)
    → ((buffer_use b w).commit ≡ w.commit)
      × ((buffer_use b w).pending ≡ w.pending)
      × ((buffer_use b w).surface ≡ w.surface)
unfolding buffer_use
buffer_use-fields b w =
    if-elim
      (λ (u : Buffers). (u.commit ≡ w.commit) × (u.pending ≡ w.pending) × (u.surface ≡ w.surface))
      (b == 0) w _ (refl, refl, refl) (refl, refl, refl)

set_pending_buffer-IsCounted :
    (s b : ℕ) (w : Buffers)
    → IsFor s b w
    → IsCounted w
    → IsCounted (set_pending_buffer s b w)
      × ((set_pending_buffer s b w).commit ≡ w.commit)
      × ((set_pending_buffer s b w).pending ≡ put s b w.pending)
unfolding set_pending_buffer
set_pending_buffer-IsCounted s b w t k = elim (Bool-cases (w.pending s == b)) [
  | inl y ↦
      subst (λ (u : Buffers). IsCounted u × (u.commit ≡ w.commit) × (u.pending ≡ put s b w.pending))
        (sym (if-true _ _ (w.pending s == b) y))
        (k, refl, put_same s b w.pending (ground (arith, y)))
  | inr n ↦
      let p : ℕ → ℕ = w.pending in
      let c : ℕ → ℕ = w.commit in
      let d : Buffers = buffer_dispose (p s) w in
      let u : Buffers = buffer_use b d in
      let v : Buffers = record u { pending = put s b u.pending } in
      let (uc, up, us) = buffer_use-fields b d in
      let there : IsFor s b d = λ e. (
        dispose-there s p c w k b n ∙ (t e).0,
        ap (λ (f : ℕ → ℕ). f b) (dispose-surface s p c w k) ∙ (t e).1,
      ) in
      let counted : Counted (put s b p) c u =
        use-Counted s b p c d there (dispose-Counted s p c w k) in
      let commits : v.commit ≡ c = uc ∙ dispose-commit s p c w k refl in
      let pendings : v.pending ≡ put s b p =
        ap (put s b) up ∙ dispose-own_pending s p c w k b refl in
      subst (λ (u : Buffers). IsCounted u × (u.commit ≡ w.commit) × (u.pending ≡ put s b w.pending))
        (sym (if-false _ _ (w.pending s == b) n))
        (
          subst (λ (f : ℕ → ℕ). Counted f v.commit v) (sym pendings)
              (subst (λ (f : ℕ → ℕ). Counted (put s b p) f v) (sym commits)
                (Counted-fields (put s b p) c u v refl refl refl counted)),
          commits,
          pendings,
        )
]

set_commit_buffer-IsCounted :
    (s b : ℕ) (w : Buffers)
    → IsFor s b w
    → IsCounted w
    → IsCounted (set_commit_buffer s b w)
      × ((set_commit_buffer s b w).pending ≡ w.pending)
      × ((set_commit_buffer s b w).commit ≡ put s b w.commit)
unfolding set_commit_buffer
set_commit_buffer-IsCounted s b w t k' = elim (Bool-cases (w.commit s == b)) [
  | inl y ↦
      subst (λ (u : Buffers). IsCounted u × (u.pending ≡ w.pending) × (u.commit ≡ put s b w.commit))
        (sym (if-true _ _ (w.commit s == b) y))
        (k', refl, put_same s b w.commit (ground (arith, y)))
  | inr n ↦
      let p : ℕ → ℕ = w.commit in
      let c : ℕ → ℕ = w.pending in
      let k : Counted p c w = Counted-swap c p w k' in
      let d : Buffers = buffer_dispose (p s) w in
      let u : Buffers = buffer_use b d in
      let v : Buffers = record u { commit = put s b u.commit } in
      let (uc, up, us) = buffer_use-fields b d in
      let there : IsFor s b d = λ e. (
        dispose-there s p c w k b n ∙ (t e).0,
        ap (λ (f : ℕ → ℕ). f b) (dispose-surface s p c w k) ∙ (t e).1,
      ) in
      let counted : Counted (put s b p) c u =
        use-Counted s b p c d there (dispose-Counted s p c w k) in
      let pendings : v.pending ≡ c = up ∙ dispose-pending s p c w k refl in
      let commits : v.commit ≡ put s b p = ap (put s b) uc ∙ dispose-own_commit s p c w k b refl in
      subst (λ (u : Buffers). IsCounted u × (u.pending ≡ w.pending) × (u.commit ≡ put s b w.commit))
        (sym (if-false _ _ (w.commit s == b) n))
        (
          Counted-swap v.commit v.pending v (
              subst (λ (f : ℕ → ℕ). Counted f v.pending v) (sym commits)
                (subst (λ (f : ℕ → ℕ). Counted (put s b p) f v) (sym pendings)
                  (Counted-fields (put s b p) c u v refl refl refl counted))),
          pendings,
          commits,
        )
]

-- What a state holds is found.
found-held : (s : ℕ) (w : Buffers) → IsCounted w → found (w.pending s) w ≡ w.pending s
found-held s w k = elim (Bool-cases (w.pending s == 0)) [
  | inl y ↦ ground (arith, y)
  | inr n ↦ ground (arith, (k.first s n).0)
]

commit-IsCounted :
    (s : ℕ) (w : Buffers)
    → IsCounted w
    → IsCounted (commit_buffers s w)
      × ((commit_buffers s w).commit ≡ put s (w.pending s) w.commit)
      × ((commit_buffers s w).pending ≡ put s 0 w.pending)
unfolding commit_buffers
commit-IsCounted s w k =
    let w' : Buffers = record w { attached = put s false w.attached } in
    let k' : IsCounted w' = Counted-fields w.pending w.commit w w' refl refl refl k in
    let f : ℕ = found (w.pending s) w in
    let same : f ≡ w.pending s = found-held s w k in
    let held : IsFor s f w' = subst (λ (b : ℕ). IsFor s b w') (sym same) (k.first s) in
    let a = set_commit_buffer-IsCounted s f w' held k' in
    let b =
      set_pending_buffer-IsCounted s 0 (set_commit_buffer s f w') (λ e. absurd (ground (arith, e)))
        a.0 in
    (b.0, b.1 ∙ a.2 ∙ ap (λ (q : ℕ). put s q w.commit) same, b.2 ∙ ap (put s 0) a.1)

attach-IsCounted :
    (s b : ℕ) (w : Buffers)
    → (b == 0 ≡ false → w.there b ≡ true → w.surface b ≡ s)
    → IsCounted w
    → IsCounted (buffer_request (attach s b) w)
unfolding buffer_request
attach-IsCounted s b w mine k =
    if-cases IsCounted (b == 0) (mark_attached s w) _
      (λ y. Counted-fields w.pending w.commit w (mark_attached s w) refl refl refl k)
      (λ n.
        let (ready, for) = ready-IsCounted s b w n (mine n) k in
        let set : Buffers = set_pending_buffer s b (own s b (make b w)) in
        Counted-fields set.pending set.commit set (mark_attached s set) refl refl refl
          (set_pending_buffer-IsCounted s b (own s b (make b w)) for ready).0)

-- A buffer is attached to the surface that it knows, or to any if it is not there.
abbrev pub IsOwn : BufferRequest → Buffers → Type 0
IsOwn (attach s b) w = b == 0 ≡ false → w.there b ≡ true → w.surface b ≡ s
IsOwn (commit_surface s) w = Unit {0}
IsOwn (destroy b) w = Unit {0}

buffer_request-IsCounted :
    (r : BufferRequest) (w : Buffers) → IsOwn r w → IsCounted w → IsCounted (buffer_request r w)
unfolding buffer_request
buffer_request-IsCounted (attach s b) w own k = attach-IsCounted s b w own k
buffer_request-IsCounted (commit_surface s) w own k = (commit-IsCounted s w k).0
buffer_request-IsCounted (destroy b) w own k =
    if-cases IsCounted (w.there b) (buffer_release b w) w (λ t. release-IsCounted b w t k) (λ t. k)

-- This is so of each request, when it comes.
abbrev pub AllOwn : List BufferRequest → Buffers → Type 0
AllOwn [] w = Unit {0}
AllOwn (r ∷ rs) w = IsOwn r w × AllOwn rs (buffer_request r w)

-- Any surfaces, of which none is released, and any sequence of attaching, committing and destroying in
-- which each buffer, while it is there, is attached to no other surface than before. It keeps that the
-- references of a buffer that is there count the states, pending and committed, of its surface that
-- hold it, and that what a state of a surface holds is there and knows that surface. After it a commit
-- moves the pending buffer of its surface to the committed state and leaves none pending, and changes
-- the states of no other surface.
pub buffer_requests-IsCounted :
    (rs : List BufferRequest) (w : Buffers)
    → AllOwn rs w
    → IsCounted w
    → let v : Buffers = buffer_requests rs w in
      IsCounted v
      × ((s : ℕ) → (commit_buffers s v).commit ≡ put s (v.pending s) v.commit)
      × ((s : ℕ) → (commit_buffers s v).pending ≡ put s 0 v.pending)
unfolding buffer_requests
buffer_requests-IsCounted [] w o k =
    (k, (λ s. (commit-IsCounted s w k).1), (λ s. (commit-IsCounted s w k).2))
buffer_requests-IsCounted (r ∷ rs) w o k =
    buffer_requests-IsCounted rs (buffer_request r w) o.1 (buffer_request-IsCounted r w o.0 k)
