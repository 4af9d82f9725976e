-- ===== src/Seat/Keys.antt =====
-- src/compositor/seat/keyboard.c: `update_keys`, the list of pressed keys.
use wlc.Base.{
  ℕ, suc, zero, ◌≤◌, ◌<◌, ◌≡◌, refl, sym, ap, ◌∙◌, inl, inr, Bool, true, false, none, some, List,
  [], ◌∷◌, ◌++◌, arith, if◌then◌else◌, ◌==◌, Bool-cases, contains, count, without, count-append,
  length, get_elem?, erase_idx, Option-cases,
}
use wlc.Chck.{IterPool}

-- The loop over the pool while a key is released, at index `i`. Each round leaves the index or one
-- item behind, so that the length is fuel enough.
unfoldable pub release_from : IterPool → ℕ → ℕ → ℕ → List ℕ → List ℕ
release_from c key zero i keys = keys
release_from c key (suc n) i keys = elim (get_elem? keys i) [
  | none ↦ keys
  | some k ↦ elim (k == key) [
    | true ↦ release_from c key n i (c.remove keys i)
    | false ↦ release_from c key n (suc i) keys
  ]
]

-- The Boolean argument is WL_KEYBOARD_KEY_STATE_PRESSED.
unfoldable pub update_keys : IterPool → List ℕ → ℕ → Bool → Bool × List ℕ
unfolding release_from
update_keys c keys key true =
    if contains keys key
    then (false, keys)
    else elim (c.push_back keys key) [ none ↦ (false, keys) | some keys' ↦ (true, keys') ]
update_keys c keys key false = (true, release_from c key (length keys) 0 keys)

front-back : (xs : List ℕ) (x : ℕ) (ys : List ℕ) → (xs ++ x ∷ []) ++ ys ≡ xs ++ x ∷ ys
front-back [] x ys = refl
front-back (z ∷ xs) x ys = ap (◌∷◌ z) (front-back xs x ys)

get_elem?-append_here :
    (xs : List ℕ) (x : ℕ) (ys : List ℕ) → get_elem? (xs ++ x ∷ ys) (length xs) ≡ some x
get_elem?-append_here [] x ys = refl
get_elem?-append_here (z ∷ xs) x ys = get_elem?-append_here xs x ys

get_elem?-append_end : (xs : List ℕ) → get_elem? (xs ++ []) (length xs) ≡ none
get_elem?-append_end [] = refl
get_elem?-append_end (z ∷ xs) = get_elem?-append_end xs

erase_idx-append :
    (xs : List ℕ) (x : ℕ) (ys : List ℕ) → erase_idx (xs ++ x ∷ ys) (length xs) ≡ xs ++ ys
erase_idx-append [] x ys = refl
erase_idx-append (z ∷ xs) x ys = ap (◌∷◌ z) (erase_idx-append xs x ys)

length-append_lt : (xs : List ℕ) (x : ℕ) (ys : List ℕ) → length xs < length (xs ++ x ∷ ys)
length-append_lt [] x ys = omega arith
length-append_lt (z ∷ xs) x ys = omega (arith, length-append_lt xs x ys)

length-snoc : (xs : List ℕ) (x : ℕ) → length (xs ++ x ∷ []) ≡ suc (length xs)
length-snoc [] x = refl
length-snoc (z ∷ xs) x = ap suc (length-snoc xs x)

release_from-append :
    (c : IterPool) (key : ℕ) (xs ys : List ℕ)
    → release_from c key (length ys) (length xs) (xs ++ ys) ≡ xs ++ without ys key
unfolding release_from
release_from-append c key xs [] = refl
release_from-append c key xs (y ∷ ys) = elim (Bool-cases (y == key)) [
  | inl e ↦
      rw (get_elem?-append_here xs y ys, e, release_from)
        (ap (release_from c key (length ys) (length xs)) (
            c.remove_lem (xs ++ y ∷ ys) (length xs) (length-append_lt xs y ys)
            ∙ erase_idx-append xs y ys)
          ∙ release_from-append c key xs ys)
  | inr n ↦
      rw (get_elem?-append_here xs y ys, n, release_from)
        (ap (λ (i : ℕ). release_from c key (length ys) i (xs ++ y ∷ ys)) (sym (length-snoc xs y))
          ∙ ap (release_from c key (length ys) (length (xs ++ y ∷ []))) (sym (front-back xs y ys))
          ∙ release_from-append c key (xs ++ y ∷ []) ys
          ∙ front-back xs y (without ys key))
]

-- Releasing a key succeeds and takes all its occurrences from the list, leaving the other keys in
-- their order.
pub update_keys_released :
    (c : IterPool) (keys : List ℕ) (key : ℕ)
    → update_keys c keys key false ≡ (true, without keys key)
unfolding update_keys
update_keys_released c keys key =
    ap (λ (ks : List ℕ). (true, ks)) (release_from-append c key [] keys)

-- Each key at most once.
abbrev pub Unique : List ℕ → Type 0
Unique keys = (k : ℕ) → count keys k ≤ 1

pub count-contains : (keys : List ℕ) (k : ℕ) → contains keys k ≡ false → count keys k ≡ 0
count-contains [] k e = refl
count-contains (x ∷ xs) k e = ground (arith, e, count-contains xs k)

pub contains-count : (keys : List ℕ) (k : ℕ) → count keys k ≡ 0 → contains keys k ≡ false
contains-count [] k e = refl
contains-count (x ∷ xs) k e = ground (arith, e, contains-count xs k)

pub count-without : (keys : List ℕ) (a k : ℕ) → count (without keys a) k ≤ count keys k
count-without [] a k = omega arith
count-without (x ∷ xs) a k = ground (arith, count-without xs a k)

count-without_self : (keys : List ℕ) (a : ℕ) → count (without keys a) a ≡ 0
count-without_self [] a = refl
count-without_self (x ∷ xs) a = ground (arith, count-without_self xs a)

without-absent : (keys : List ℕ) (a : ℕ) → contains keys a ≡ false → without keys a ≡ keys
without-absent [] a e = refl
without-absent (x ∷ xs) a e = ground (arith, e, without-absent xs a)

without-append : (xs ys : List ℕ) (a : ℕ) → without (xs ++ ys) a ≡ without xs a ++ without ys a
without-append [] ys a = refl
without-append (x ∷ xs) ys a = ground (arith, without-append xs ys a)

without_self : (a : ℕ) → without (a ∷ []) a ≡ []
without_self a = ground arith

-- One event of a key: the key, and whether it is pressed.
abbrev pub update_all : IterPool → List (ℕ × Bool) → List ℕ → List ℕ
update_all c [] keys = keys
update_all c ((k, pressed) ∷ es) keys = update_all c es (update_keys c keys k pressed).1

pub update_keys-Unique :
    (c : IterPool) (keys : List ℕ) (key : ℕ) (pressed : Bool)
    → Unique keys
    → Unique (update_keys c keys key pressed).1
unfolding update_keys
update_keys-Unique c keys key false u k = omega (
  arith,
  u k,
  count-without keys key k,
  ap (λ (r : Bool × List ℕ). count r.1 k) (update_keys_released c keys key),
)
update_keys-Unique c keys key true u k = elim (Bool-cases (contains keys key)) [
  | inl y ↦ rw y (u k)
  | inr n ↦ elim (Option-cases (c.push_back keys key)) [
    | inl full ↦ rw (n, full) (u k)
    | inr (keys', e) ↦
        rw (n, e, c.push_back_lem keys keys' key e)
          (ground (arith, u k, count-append keys (key ∷ []) k, count-contains keys k, n))
  ]
]

-- If no key is in the list twice, then none is after any keys were pressed and released in any
-- order.
update_all-Unique :
    (c : IterPool) (es : List (ℕ × Bool)) (keys : List ℕ)
    → Unique keys
    → Unique (update_all c es keys)
update_all-Unique c [] keys u = u
update_all-Unique c ((k, pressed) ∷ es) keys u =
    update_all-Unique c es (update_keys c keys k pressed).1 (update_keys-Unique c keys k pressed u)

-- Pressing a key that is pressed is refused. Where pressing a key succeeds, the key was not pressed
-- and becomes the last of the list, and releasing it gives back the list from before.
update_keys_pressed :
    (c : IterPool) (keys keys' : List ℕ) (key : ℕ)
    → update_keys c keys key true ≡ (true, keys')
    → (contains keys key ≡ false)
      × (keys' ≡ keys ++ key ∷ [])
      × (update_keys c keys' key false ≡ (true, keys))
unfolding update_keys
update_keys_pressed c keys keys' key e = elim (Bool-cases (contains keys key)) [
  | inl y ↦ absurd (ground (arith, e, y))
  | inr n ↦ elim (Option-cases (c.push_back keys key)) [
    | inl full ↦ absurd (ground (arith, e, n, full))
    | inr (new, pushed) ↦
        let here : keys' ≡ new = ground (arith, e, n, pushed) in
        let added : keys' ≡ keys ++ key ∷ [] = here ∙ c.push_back_lem keys new key pushed in
        (
          n,
          added,
          update_keys_released c keys' key
              ∙ ap (λ (ks : List ℕ). (true, ks))
                  (ap (λ (ks : List ℕ). without ks key) added
                    ∙ without-append keys (key ∷ []) key
                    ∙ rw (without-absent keys key n, without_self key) (end keys)),
        )
  ]
]
  where
    end : (xs : List ℕ) → xs ++ [] ≡ xs
    end [] = refl
    end (x ∷ xs) = ap (◌∷◌ x) (end xs)
