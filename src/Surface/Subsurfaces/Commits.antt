-- ===== src/Surface/Subsurfaces/Commits.antt =====
-- Which surfaces a commit applies the pending states of.
use wlc.Base.{
  ℕ, suc, zero, ◌≡◌, ◌∙◌, sym, ◌⊎◌, ◌↔◌, ◌<◌, inl, inr, refl, ap, true, false, ◌||◌, Option, some,
  none, List, [], ◌∷◌, ◌++◌, arith, contains, Bool-cases, Option-cases,
}
use wlc.Chck.{some_inj}
use wlc.Surface.Subsurfaces.Store.{commit_child-cached, commit_child-live, commit-step}
use wlc.Surface.Subsurfaces.Sync.{Ranked, surface_commit-Ranked}
use wlc.Surface.Subsurfaces.{
  Surface, Surfaces, state_committed, repaint_scheduled, convert, put, emit, each, commit_child,
  commit_subsurface_state, surface_commit,
}
use wlc.Surface.Subsurfaces.Cached.{
  cached, Committed, itself, below, logged, logged-append, SameFlags, same, Committed-SameFlags,
  Below, Commits,
}
use wlc.Surface.Subsurfaces.Runs.{
  Below-SameFlags, SameFlags-trans, put-SameFlags, SameFlags-put, Commits-same, Commits-trans,
  Below-one, Below-cons, Below-first, Below-split,
}

commit_child-Commits :
    (rest : ℕ → Surfaces → Option Surfaces)
    → ((r : ℕ) (w w' : Surfaces) → rest r w ≡ some w' → Commits w w' (Committed w r))
    → (c : ℕ) (w w' : Surfaces) → commit_child rest c w ≡ some w'
    → Commits w w' (Below w (c ∷ []))
unfolding commit_child
commit_child-Commits rest step c w w' e = elim (Option-cases (convert w c)) [
  | inl n ↦
      rw (some_inj (rw (n, commit_child) at e))
        (Commits-same w (Below w (c ∷ [])) (λ x k. ground (arith, n, (Below-one w c x k).1)))
  | inr (s, f) ↦
      let w1 : Surfaces = put c (record s { commit_position = s.pending_position }) w in
      let to : SameFlags w w1 = put-SameFlags w c s _ f refl refl in
      let from : SameFlags w1 w = SameFlags-put w c s _ f refl refl in
      elim (Bool-cases (cached s)) [
        | inl y ↦
            let k = step c w1 w' (sym (commit_child-cached w c s f rest y) ∙ e) in
            record {
              to = SameFlags-trans w w1 w' to k.to;
              from = SameFlags-trans w' w1 w k.from from;
              sound = λ x h. elim (k.sound x h) [
                | inl z ↦ inl z
                | inr z ↦ inr (c, s, ground arith, f, y, Committed-SameFlags w1 w from z)
              ];
              complete = λ x h. elim h [
                | inl z ↦ k.complete x (inl z)
                | inr z ↦ k.complete x (inr (Committed-SameFlags w w1 to (Below-one w c x z).3))
              ];
            }
        | inr n ↦ rw (some_inj (sym (commit_child-live w c s f rest n) ∙ e)) (record {
          to = to;
          from = from;
          sound = λ x h. inl h;
          complete = λ x h. elim h [
            | inl z ↦ z
            | inr z ↦
                let k = Below-one w c x z in
                absurd (ground (arith, n, ap cached (some_inj (sym k.1 ∙ f)), k.2))
          ];
        })
      ]
]

each-Commits :
    (f : ℕ → Surfaces → Option Surfaces)
    → ((c : ℕ) (w w' : Surfaces) → f c w ≡ some w' → Commits w w' (Below w (c ∷ [])))
    → (xs : List ℕ) (w w' : Surfaces) → each f xs w ≡ some w'
    → Commits w w' (Below w xs)
unfolding each
each-Commits f step [] w w' e =
    rw (some_inj e) (Commits-same w (Below w []) (λ x k. ground (arith, k.2)))
each-Commits f step (c ∷ xs) w w' e = elim (Option-cases (f c w)) [
  | inl n ↦ absurd (ground (arith, e, n))
  | inr (v, g) ↦
      let a = step c w v g in
      let b = each-Commits f step xs v w' (rw (g, each) at e) in
      Commits-trans w v w' (Below w (c ∷ [])) (Below v xs) (Below w (c ∷ xs)) (Below-first w c xs)
        (λ x k. Below-cons w c xs x (Below-SameFlags v w xs x a.from k))
        (λ x k. elim (Below-split w c xs x k) [
          | inl z ↦ inl z
          | inr z ↦ inr (Below-SameFlags w v xs x a.to z)
        ])
        a b
]

Committed-none : (w : Surfaces) {r x : ℕ} → convert w r ≡ none → ¬ (Committed w r x)
Committed-none w f (itself r s e) = ground (arith, f, e)
Committed-none w f (below r c x s t e m g l d) = ground (arith, f, e)

Committed-split :
    (w : Surfaces) {r x : ℕ} (s : Surface)
    → convert w r ≡ some s
    → Committed w r x
    → (r ≡ x) ⊎ Below w s.subsurface_list x
Committed-split w s f (itself r t e) = inl refl
Committed-split w s f (below r c x u t e m g l d) =
    let q : s ≡ u = some_inj (sym e ∙ f) in
    inr (c, t, ap (λ (v : Surface). contains v.subsurface_list c) q ∙ m, g, l, d)

commit-Below :
    (w : Surfaces) (r : ℕ) (s : Surface) (x : ℕ)
    → convert w r ≡ some s
    → Below w s.subsurface_list x
    → Committed w r x
commit-Below w r s x f (c, t, m, g, l, k) = below r c x s t f m g l k

-- The first two calls of `commit_subsurface_state`.
emit-Commits :
    (w : Surfaces) (r : ℕ)
    → Commits w (emit (repaint_scheduled r) (emit (state_committed r) w)) (λ x. r ≡ x)
emit-Commits w r = record {
  to = same w;
  from = same w;
  sound = λ x h. elim (Bool-cases (logged w.events x)) [
    | inl y ↦ inl y
    | inr n ↦ inr (
        ground (
          arith,
          h,
          n,
          logged-append (w.events ++ state_committed r ∷ []) (repaint_scheduled r ∷ []) x,
          logged-append w.events (state_committed r ∷ []) x,
        ))
  ];
  complete = λ x h. ground (
    arith,
    h,
    logged-append (w.events ++ state_committed r ∷ []) (repaint_scheduled r ∷ []) x,
    logged-append w.events (state_committed r ∷ []) x,
  );
}

commit-Commits :
    (n r : ℕ) (w w' : Surfaces)
    → commit_subsurface_state n r w ≡ some w'
    → Commits w w' (Committed w r)
unfolding commit_subsurface_state
commit-Commits zero r w w' e = absurd (ground (arith, e))
commit-Commits (suc n) r w w' e = elim (Option-cases (convert w r)) [
  | inl f ↦
      rw (some_inj (rw (f, commit_subsurface_state) at e))
        (Commits-same w (Committed w r) (λ x k. Committed-none w f k))
  | inr (s, f) ↦
      let v : Surfaces = emit (repaint_scheduled r) (emit (state_committed r) w) in
      let k =
        each-Commits (commit_child (commit_subsurface_state n))
          (commit_child-Commits (commit_subsurface_state n) (commit-Commits n)) s.subsurface_list v
          w' (sym (commit-step w r s f n) ∙ e) in
      Commits-trans w v w' (λ x. r ≡ x) (Below v s.subsurface_list) (Committed w r)
        (λ x q. rw (← q) (itself r s f))
        (λ x z. commit-Below w r s x f (Below-SameFlags v w s.subsurface_list x (same w) z))
        (λ x z. elim (Committed-split w s f z) [
          | inl q ↦ inl q
          | inr b ↦ inr (Below-SameFlags w v s.subsurface_list x (same w) b)
        ])
        (emit-Commits w r) k
]

module _ (n r : ℕ) (w : Surfaces) (s : Surface) (f : convert w r ≡ some s) where
  surface_commit-cached : cached s ≡ true → surface_commit n r w ≡ some w
  unfolding surface_commit
  surface_commit-cached y =
      let e : s.parent_synchronized || s.synchronized ≡ true = ground (arith, y) in
      rw (f, surface_commit, e) refl

  surface_commit-live : cached s ≡ false → surface_commit n r w ≡ commit_subsurface_state n r w
  unfolding surface_commit
  surface_commit-live y =
      let e : s.parent_synchronized || s.synchronized ≡ false = ground (arith, y) in
      rw (f, surface_commit, e) refl

-- While numbers below the fuel fall from every surface to its subsurfaces, the commit request on a
-- surface has a result. A synchronized surface, or one below such, is left as it is, and all others
-- with it. Otherwise the states that have been committed are those from before, that of the surface,
-- and those of the surfaces below it down to which every one waits for its parent; no others.
pub surface_commit-Committed :
    (rank : ℕ → ℕ) (n r : ℕ) (w : Surfaces) (s : Surface)
    → rank r < n
    → Ranked rank w
    → convert w r ≡ some s
    → (w' : Surfaces) × (surface_commit n r w ≡ some w')
      × (cached s ≡ true → w' ≡ w)
      × (cached s ≡ false
          → (x : ℕ) → (logged w'.events x ≡ true) ↔ ((logged w.events x ≡ true) ⊎ Committed w r x))
unfolding surface_commit
surface_commit-Committed rank n r w s l h f =
    let out = surface_commit-Ranked rank n r w l h in
    (
      out.0,
      out.1,
      λ y. some_inj (sym (surface_commit-cached n r w s f y) ∙ out.1),
      λ y x.
          let k = commit-Commits n r w out.0 (sym (surface_commit-live n r w s f y) ∙ out.1) in
          (k.sound x, k.complete x),
    )
