-- ===== src/Base/Lists.antt =====
-- Lists measured and indexed by native numbers, under the library's names.
use Prim.Native.Nat.{ℕ, zero, suc, ◌+◌, ◌-◌, ◌<◌}
use mathlib.Core.Path.{◌≡◌, refl, ap}
use mathlib.Core.Bool.{Bool, true, false, ◌&&◌, ◌||◌}
use mathlib.Core.Logic.{◌≢◌}
use mathlib.Core.List.{List, [], ◌∷◌, ◌++◌}
use mathlib.Core.Option.{Option, none, some}
use native.Mathlib.Omega.{arith}
use wlc.Base.Tests.{◌==◌, if◌then◌else◌}

module _ {ℓ} {A : Type ℓ} where
  abbrev pub length : List A → ℕ
  length [] = 0
  length (x ∷ xs) = suc (length xs)

  abbrev pub get_elem? : List A → ℕ → Option A
  get_elem? [] i = none
  get_elem? (x ∷ xs) zero = some x
  get_elem? (x ∷ xs) (suc i) = get_elem? xs i

  -- A write out of bounds changes nothing.
  abbrev pub set : List A → ℕ → A → List A
  set [] i v = []
  set (x ∷ xs) zero v = v ∷ xs
  set (x ∷ xs) (suc i) v = x ∷ set xs i v

  abbrev pub take : ℕ → List A → List A
  take zero xs = []
  take (suc n) [] = []
  take (suc n) (x ∷ xs) = x ∷ take n xs

  -- The list without the item at an index.
  abbrev pub erase_idx : List A → ℕ → List A
  erase_idx [] i = []
  erase_idx (x ∷ xs) zero = xs
  erase_idx (x ∷ xs) (suc i) = x ∷ erase_idx xs i

  -- The list with an item put before the one at an index; at the end, if the index is the length.
  abbrev pub insert_idx : List A → ℕ → A → List A
  insert_idx xs zero a = a ∷ xs
  insert_idx [] (suc i) a = []
  insert_idx (x ∷ xs) (suc i) a = x ∷ insert_idx xs i a

  pub length-append : (xs ys : List A) → length (xs ++ ys) ≡ length xs + length ys
  length-append [] ys = omega arith
  length-append (x ∷ xs) ys = omega (arith, length-append xs ys)

module _ {ℓ} {A : Type ℓ} where
  pub length-set : (xs : List A) (i : ℕ) (v : A) → length (set xs i v) ≡ length xs
  length-set [] i v = refl
  length-set (x ∷ xs) zero v = refl
  length-set (x ∷ xs) (suc i) v = ap suc (length-set xs i v)

  pub get_elem?-set_self :
      (xs : List A) (i : ℕ) (v : A) → i < length xs → get_elem? (set xs i v) i ≡ some v
  get_elem?-set_self [] i v h = elim h [ ]
  get_elem?-set_self (x ∷ xs) zero v h = refl
  get_elem?-set_self (x ∷ xs) (suc i) v h = get_elem?-set_self xs i v (omega arith)

  pub get_elem?-set_ne :
      (xs : List A) {i j : ℕ} (v : A) → i ≢ j → get_elem? (set xs i v) j ≡ get_elem? xs j
  get_elem?-set_ne [] v h = refl
  get_elem?-set_ne (x ∷ xs) {i = zero} {j = zero} v h = absurd (h refl)
  get_elem?-set_ne (x ∷ xs) {i = zero} {j = suc j} v h = refl
  get_elem?-set_ne (x ∷ xs) {i = suc i} {j = zero} v h = refl
  get_elem?-set_ne (x ∷ xs) {i = suc i} {j = suc j} v h = get_elem?-set_ne xs v (λ e. h (ap suc e))

-- A predicate by recursion computes to tuples, which the tactics read and build.
abbrev pub All {ℓ κ} : {A : Type ℓ} → (A → Type κ) → List A → Type κ
All P [] = Unit
All P (x ∷ xs) = P x × All P xs

pub All-map {ℓ κ ι} :
    {A : Type ℓ} {P : A → Type κ} {Q : A → Type ι} (xs : List A)
    → ((a : A) → P a → Q a)
    → All P xs
    → All Q xs
All-map [] f h = tt
All-map (x ∷ xs) f h = (f x h.0, All-map xs f h.1)

-- Whether some item passes a test.
abbrev pub any {ℓ} : {A : Type ℓ} → (A → Bool) → List A → Bool
any p [] = false
any p (x ∷ xs) = p x || any p xs

-- Lists of numbers, as the pools of handles, keys and resources are.
abbrev pub contains : List ℕ → ℕ → Bool
contains [] a = false
contains (x ∷ xs) a = (x == a) || contains xs a

-- `memcmp(path, base, size) == 0`, with `size` the length of the base.
abbrev pub starts_with : List ℕ → List ℕ → Bool
starts_with [] path = true
starts_with (x ∷ xs) [] = false
starts_with (x ∷ xs) (y ∷ ys) = x == y && starts_with xs ys

abbrev pub index_of? : List ℕ → ℕ → Option ℕ
index_of? [] a = none
index_of? (x ∷ xs) a =
    if x == a then some 0 else elim (index_of? xs a) [ none ↦ none | some i ↦ some (suc i) ]

-- How often a number stands in a list.
abbrev pub count : List ℕ → ℕ → ℕ
count [] a = 0
count (x ∷ xs) a = (if x == a then 1 else 0) + count xs a

-- The list without the first occurrence of a number.
abbrev pub erase : List ℕ → ℕ → List ℕ
erase [] a = []
erase (x ∷ xs) a = if x == a then xs else x ∷ erase xs a

-- The list without any occurrence of a number.
abbrev pub without : List ℕ → ℕ → List ℕ
without [] a = []
without (x ∷ xs) a = if x == a then without xs a else x ∷ without xs a

pub erase_idx-index_of? :
    (xs : List ℕ) (a i : ℕ)
    → index_of? xs a ≡ some i
    → (erase_idx xs i ≡ erase xs a) × (i < length xs)
erase_idx-index_of? [] a i h = ground arith
erase_idx-index_of? (x ∷ xs) a zero h = ground arith
erase_idx-index_of? (x ∷ xs) a (suc i) h = ground (arith, erase_idx-index_of? xs a i)

pub erase-eq_of_none : (xs : List ℕ) (a : ℕ) → index_of? xs a ≡ none → erase xs a ≡ xs
erase-eq_of_none [] a h = refl
erase-eq_of_none (x ∷ xs) a h = ground (arith, erase-eq_of_none xs a)

pub count-erase :
    (xs : List ℕ) (a b : ℕ) → count (erase xs a) b ≡ count xs b - (if a == b then 1 else 0)
count-erase [] a b = ground arith
count-erase (x ∷ xs) a b = ground (arith, count-erase xs a b)

pub count-append : (xs ys : List ℕ) (a : ℕ) → count (xs ++ ys) a ≡ count xs a + count ys a
count-append [] ys a = omega arith
count-append (x ∷ xs) ys a = omega (arith, count-append xs ys a)
