-- ===== src/Session/Fd/Slots.antt =====
-- The search for a slot of the table of src/session/fd.c.
use wlc.Base.{
  ℕ, zero, suc, ◌<◌, ◌≡◌, refl, ap, inl, inr, Bool, true, false, none, some, List, [], ◌∷◌, arith,
  length, get_elem?, set, Bool-cases, All,
}
use wlc.Session.Fd.{Fd, find_slot}

pub find_slot-some :
    (p : Fd → Bool) (ss : List Fd) (i : ℕ)
    → find_slot p ss ≡ some i
    → (i < length ss) × ((s : Fd) × (get_elem? ss i ≡ some s) × (p s ≡ true))
unfolding find_slot
find_slot-some p [] i e = cc
find_slot-some p (s ∷ ss) zero e = elim (Bool-cases (p s)) [
  | inl y ↦ (omega arith, (s, refl, y))
  | inr n ↦ absurd (ground (arith, e))
]
find_slot-some p (s ∷ ss) (suc i) e =
    let rest : find_slot p ss ≡ some i = ground (arith, e) in
    let (lt, found) = find_slot-some p ss i rest in (omega arith, found)

pub find_slot-none :
    (p : Fd → Bool) (ss : List Fd) → All (λ s. p s ≡ false) ss → find_slot p ss ≡ none
unfolding find_slot
find_slot-none p [] h = refl
find_slot-none p (s ∷ ss) h = rw (h.0, find_slot-none p ss h.1)

-- An entry that alone passes the test is found where it was stored.
pub find_slot-set :
    (p : Fd → Bool) (ss : List Fd) (i : ℕ) (new : Fd)
    → All (λ s. p s ≡ false) ss
    → i < length ss
    → p new ≡ true
    → find_slot p (set ss i new) ≡ some i
unfolding find_slot
find_slot-set p [] i new h lt y = elim lt [ ]
find_slot-set p (s ∷ ss) zero new h lt y = rw y
find_slot-set p (s ∷ ss) (suc i) new h lt y = rw (h.0, find_slot-set p ss i new h.1 (omega arith) y)

pub set-set {ℓ} : {A : Type ℓ} (xs : List A) (i : ℕ) (v w : A) → set (set xs i v) i w ≡ set xs i w
set-set [] i v w = refl
set-set (x ∷ xs) zero v w = refl
set-set (x ∷ xs) (suc i) v w = ap (◌∷◌ x) (set-set xs i v w)

pub set-get_elem? {ℓ} :
    {A : Type ℓ} (xs : List A) (i : ℕ) (v : A) → get_elem? xs i ≡ some v → set xs i v ≡ xs
set-get_elem? [] i v e = refl
set-get_elem? (x ∷ xs) zero v e = ground (arith, e)
set-get_elem? (x ∷ xs) (suc i) v e = ap (◌∷◌ x) (set-get_elem? xs i v e)
