-- ===== src/Chck.antt =====
-- lib/chck, a git submodule, which the repository only names: its growable arrays
-- (`chck_iter_pool`), clamps and checked product are parameters. A pool is given by the items that
-- `chck_iter_pool_for_each` visits, in order.
use wlc.Base.{
  ℕ, ◌≤◌, ◌<◌, ◌≡◌, refl, Option, none, some, List, [], ◌∷◌, ◌++◌, length, erase_idx, insert_idx,
}

-- The operations on a pool of numbers (handles, resources, key codes). `none` is a refused
-- allocation, which leaves the pool as it was.
pub record IterPool : Type 0 where
  pub push_back : List ℕ → ℕ → Option (List ℕ)
  pub push_front : List ℕ → ℕ → Option (List ℕ)
  pub insert : List ℕ → ℕ → ℕ → Option (List ℕ)
  pub remove : List ℕ → ℕ → List ℕ
  pub push_back_lem : (xs ys : List ℕ) (a : ℕ) → push_back xs a ≡ some ys → ys ≡ xs ++ a ∷ []
  pub push_front_lem : (xs ys : List ℕ) (a : ℕ) → push_front xs a ≡ some ys → ys ≡ a ∷ xs
  pub insert_lem :
      (xs ys : List ℕ) (i a : ℕ) → i ≤ length xs → insert xs i a ≡ some ys → ys ≡ insert_idx xs i a
  pub remove_lem : (xs : List ℕ) (i : ℕ) → i < length xs → remove xs i ≡ erase_idx xs i

-- The contents after an operation whose result the code ignores.
abbrev pub or_same : Option (List ℕ) → List ℕ → List ℕ
or_same none xs = xs
or_same (some ys) xs = ys

pub some_inj : {A : Type 0} {a b : A} → some a ≡ some b → b ≡ a
some_inj e = cc

-- A pool that never runs out of memory.
abbrev pub unbounded : IterPool
unbounded = record {
  push_back = λ xs a. some (xs ++ a ∷ []);
  push_front = λ xs a. some (a ∷ xs);
  insert = λ xs i a. some (insert_idx xs i a);
  remove = erase_idx;
  push_back_lem = λ xs ys a h. some_inj h;
  push_front_lem = λ xs ys a h. some_inj h;
  insert_lem = λ xs ys i a b h. some_inj h;
  remove_lem = λ xs i h. refl;
}
