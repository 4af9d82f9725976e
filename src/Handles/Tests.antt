-- ===== src/Handles/Tests.antt =====
-- The theorems on handles, from an empty table on.
use wlc.Base.{
  ℕ, ◌+◌, ◌&&◌, ◌≡◌, ◌≢◌, refl, inl, inr, Bool, true, false, Bool-cases, Option, none, some, arith,
  if◌then◌else◌, ◌==◌,
}
use wlc.Handles.{
  Registry, Pool, wlc_handle_create, wlc_handle_release, convert_from_wlc_handle, IsValid,
}
use wlc.Handles.Create.{wlc_handle_create-converts}
use wlc.Handles.Release.{wlc_handle_release-converts}

abbrev empty : Registry
empty = record { handles = λ i. none; items = λ s x. false }

empty-IsValid : IsValid empty
empty-IsValid = record {
  numbered = λ i h e. absurd (ground (arith, e));
  stored = λ i h e. absurd (ground (arith, e));
  apart = λ i j h k e f s p. absurd (ground (arith, e));
}

abbrev first_free : (ℕ → Bool) → Option ℕ
first_free taken = if taken 0 then (if taken 1 then none else some 1) else some 0

small_free : (taken : ℕ → Bool) (i : ℕ) → first_free taken ≡ some i → taken i ≡ false
small_free taken i e = elim (Bool-cases (taken 0)) [
  | inl y ↦ elim (Bool-cases (taken 1)) [
    | inl y' ↦ absurd (ground (arith, e, y, y'))
    | inr n ↦ let at : 1 ≡ i = ground (arith, e, y, n) in rw (← at) n
  ]
  | inr n ↦ let at : 0 ≡ i = ground (arith, e, n) in rw (← at) n
]

-- A pool that gives slot 0, or else slot 1, or else none.
abbrev small : Pool
small = record { add = first_free; add_lem = small_free }

-- The table with one handle, to slot 0 of source 5.
abbrev one : Registry
one = (wlc_handle_create small (λ i. true) 5 empty).1

wlc_handle_create-converts_example :
    (convert_from_wlc_handle (λ s. s + 100) 1 105 one ≡ some (5, 0))
    × ((handle name : ℕ)
        → handle ≢ 1
        → convert_from_wlc_handle (λ s. s + 100) handle name one
          ≡ convert_from_wlc_handle (λ s. s + 100) handle name empty)
    × IsValid one
unfolding wlc_handle_create
wlc_handle_create-converts_example =
    wlc_handle_create-converts small (λ i. true) 5 empty (λ s. s + 100)
      (record { public = 1; private = 1 }) one empty-IsValid refl

abbrev single : Registry
single = record {
  handles = λ i. if i == 0 then some (record { public = 1; private = 1; source = 5 }) else none;
  items = λ s x. s == 5 && x == 0;
}

single-IsValid : IsValid single
single-IsValid = record {
  numbered = λ i h e. ground (arith, e);
  stored = λ i h e. ground (arith, e);
  apart = λ i j h k e f s p. ground (arith, e, f);
}

wlc_handle_release-converts_example :
    ((name : ℕ)
      → convert_from_wlc_handle (λ s. s) 1 name (wlc_handle_release (λ s x u. u) 1 single) ≡ none)
    × ((handle name : ℕ)
        → handle ≢ 1
        → convert_from_wlc_handle (λ s. s) handle name (wlc_handle_release (λ s x u. u) 1 single)
          ≡ convert_from_wlc_handle (λ s. s) handle name single)
    × IsValid (wlc_handle_release (λ s x u. u) 1 single)
wlc_handle_release-converts_example =
    wlc_handle_release-converts (λ s x u. u) (λ s x u. ((λ i. refl), (λ s' x'. refl))) single 0
      (record { public = 1; private = 1; source = 5 }) single-IsValid refl (λ s. s)
