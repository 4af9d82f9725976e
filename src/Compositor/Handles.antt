-- ===== src/Compositor/Handles.antt =====
-- Outputs found and replaced by their handles.
use mathlib.Core.Path.{ap₂}
use wlc.Base.{
  ◌∙◌, ap, sym, ℕ, ◌≡◌, refl, inl, inr, Bool, false, none, some, List, [], ◌∷◌, arith, any,
  if◌then◌else◌, ◌==◌, Bool-cases,
}
use wlc.Compositor.World.{Output, find_output, put_output, handles}

pub handle-find_output :
    (h : ℕ) (os : List Output) (o : Output) → find_output h os ≡ some o → o.handle ≡ h
handle-find_output h [] o e = cc
handle-find_output h (x ∷ os) o e = ground (arith, handle-find_output h os o)

-- The output that a handle finds after a replacement.
pub find_output-put_output :
    (h : ℕ) (o : Output) (os : List Output)
    → find_output h (put_output o os) ≡ (
        if o.handle == h
        then elim (find_output h os) [ none ↦ none | some x ↦ some o ]
        else find_output h os)
find_output-put_output h o [] = ground arith
find_output-put_output h o (x ∷ os) = ground (arith, find_output-put_output h o os)

pub handles-put_output : (o : Output) (os : List Output) → handles (put_output o os) ≡ handles os
handles-put_output o [] = refl
handles-put_output o (x ∷ os) = ground (arith, handles-put_output o os)

-- No two outputs have one handle.
abbrev pub Distinct : List Output → Type 0
Distinct [] = Unit {0}
Distinct (o ∷ os) = (find_output o.handle os ≡ none) × Distinct os

pub put_output-Distinct : (o : Output) (os : List Output) → Distinct os → Distinct (put_output o os)
put_output-Distinct o [] d = tt
put_output-Distinct o (x ∷ os) d =
    (ground (arith, find_output-put_output x.handle o os), put_output-Distinct o os d.1)

-- A test that fails at every output that a handle finds fails at every output.
pub any-eq_false :
    (p : Output → Bool) (os : List Output)
    → Distinct os
    → ((h : ℕ) (o : Output) → find_output h os ≡ some o → p o ≡ false)
    → any p os ≡ false
any-eq_false p [] d f = refl
any-eq_false p (x ∷ os) d f =
    rw (f x.handle x (ground arith))
      (any-eq_false p os d.1 (λ h o e. f h o (ground (arith, e, d.0))))

pub any-find_output :
    (p : Output → Bool) (os : List Output) (h : ℕ) (o : Output)
    → any p os ≡ false
    → find_output h os ≡ some o
    → p o ≡ false
any-find_output p [] h o a e = cc
any-find_output p (x ∷ os) h o a e = ground (arith, any-find_output p os h o)

put_absent : (o : Output) (os : List Output) → find_output o.handle os ≡ none → put_output o os ≡ os
put_absent o [] e = refl
put_absent o (x ∷ os) e = elim (Bool-cases (x.handle == o.handle)) [
  | inl y ↦ absurd (ground (arith, e, y))
  | inr n ↦ rw n (ap (◌∷◌ x) (put_absent o os (ground (arith, e, n))))
]

-- An output that is replaced by itself.
pub put_self :
    (o : Output) (os : List Output)
    → find_output o.handle os ≡ some o
    → Distinct os
    → put_output o os ≡ os
put_self o [] e d = refl
put_self o (x ∷ os) e d = elim (Bool-cases (x.handle == o.handle)) [
  | inl y ↦
      let same_output : x ≡ o = ground (arith, e, y) in
      rw y (ap₂ ◌∷◌ (sym same_output) (put_absent o os (ground (arith, y, d.0))))
  | inr n ↦ rw n (ap (◌∷◌ x) (put_self o os (ground (arith, e, n)) d.1))
]

-- The same, for a handle that is there.
pub find_output-put_found :
    (k : ℕ) (o x : Output) (os : List Output)
    → find_output o.handle os ≡ some x
    → find_output k (put_output o os) ≡ (if o.handle == k then some o else find_output k os)
find_output-put_found k o x os e = elim (Bool-cases (o.handle == k)) [
  | inl y ↦
      let same_handle : k ≡ o.handle = ground (arith, y) in
      let there : find_output k os ≡ some x = ap (λ (j : ℕ). find_output j os) same_handle ∙ e in
      ground (arith, find_output-put_output k o os, y, there)
  | inr n ↦ ground (arith, find_output-put_output k o os, n)
]
