-- ===== src/Surface/Subsurfaces/Cached.antt =====
-- Which surfaces wait for their parent, and what a commit of a tree is to reach.
use wlc.Base.{
  ℕ, ◌≡◌, ◌∙◌, ◌⊎◌, refl, ap, Bool, true, false, ◌||◌, some, List, [], ◌∷◌, ◌++◌, arith, ◌==◌,
  contains,
}
use wlc.Surface.Subsurfaces.{Surface, Surfaces, SurfaceEvent, state_committed, convert}

abbrev pub cached : Surface → Bool
cached s = s.synchronized || s.parent_synchronized

-- The surface itself, and those below it down to which every surface waits for its parent.
pub data Committed (w : Surfaces) : ℕ → ℕ → Type 0 where
  itself : (r : ℕ) (s : Surface) → convert w r ≡ some s → Committed w r r
  below :
      (r c x : ℕ) (s t : Surface)
      → convert w r ≡ some s
      → contains s.subsurface_list c ≡ true
      → convert w c ≡ some t
      → cached t ≡ true
      → Committed w c x
      → Committed w r x

-- Whether the state of a surface has been committed.
abbrev pub logged : List SurfaceEvent → ℕ → Bool
logged [] x = false
logged (state_committed r ∷ es) x = (r == x) || logged es x
logged (e ∷ es) x = logged es x

pub logged-append :
    (es fs : List SurfaceEvent) (x : ℕ) → logged (es ++ fs) x ≡ logged es x || logged fs x
logged-append [] fs x = refl
logged-append (state_committed r ∷ es) fs x = ground (arith, logged-append es fs x)
logged-append (e ∷ es) fs x = logged-append es fs x

abbrev pub SameFlags : Surfaces → Surfaces → Type 0
SameFlags w w' =
    (r : ℕ) (s : Surface)
    → convert w r ≡ some s
    → (s' : Surface) × (convert w' r ≡ some s')
      × (s'.subsurface_list ≡ s.subsurface_list)
      × (cached s' ≡ cached s)

pub same : (w : Surfaces) → SameFlags w w
same w r s e = (s, e, refl, refl)

pub Committed-SameFlags :
    (w w' : Surfaces) {r x : ℕ} → SameFlags w w' → Committed w r x → Committed w' r x
Committed-SameFlags w w' f (itself r s e) = let k = f r s e in itself r k.0 k.1
Committed-SameFlags w w' f (below r c x s t e m g l d) =
    let k = f r s e in
    let j = f c t g in
    below r c x k.0 j.0 k.1 (ap (λ (xs : List ℕ). contains xs c) k.2 ∙ m) j.1 (j.3 ∙ l)
      (Committed-SameFlags w w' f d)

-- The commit of one of the surfaces in a list that wait for their parent.
abbrev pub Below : Surfaces → List ℕ → ℕ → Type 0
Below w xs x =
    (c : ℕ) × (t : Surface) × (contains xs c ≡ true)
    × (convert w c ≡ some t)
    × (cached t ≡ true)
    × Committed w c x

-- A run that leaves the flags as they are and commits just the surfaces of a set.
pub record Commits (w w' : Surfaces) (q : ℕ → Type 0) : Type 0 where
  pub to : SameFlags w w'
  pub from : SameFlags w' w
  pub sound : (x : ℕ) → logged w'.events x ≡ true → (logged w.events x ≡ true) ⊎ q x
  pub complete : (x : ℕ) → (logged w.events x ≡ true) ⊎ q x → logged w'.events x ≡ true
