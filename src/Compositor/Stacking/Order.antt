-- ===== src/Compositor/Stacking/Order.antt =====
-- How linking changes the order of the views on an output.
use wlc.Base.{
  ℕ, suc, zero, ◌+◌, ◌≤◌, ◌<◌, ◌≡◌, ◌≢◌, refl, sym, ap, ◌∙◌, inl, inr, Bool, true, some, List, [],
  ◌∷◌, ◌++◌, arith, if◌then◌else◌, ◌==◌, Bool-cases, Option-cases, index_of?, count, erase, without,
  length, erase_idx, insert_idx, erase_idx-index_of?, erase-eq_of_none, count-append,
}
use wlc.Chck.{IterPool}
use wlc.Compositor.Stacking.{remove_from_pool, link_at}

pub remove_from_pool-erase :
    (c : IterPool) (xs : List ℕ) (h : ℕ) → remove_from_pool c xs h ≡ erase xs h
unfolding remove_from_pool
remove_from_pool-erase c xs h = elim (Option-cases (index_of? xs h)) [
  | inl e ↦ rw (remove_from_pool, e) (sym (erase-eq_of_none xs h e))
  | inr (i, e) ↦
      let (erased, lt) = erase_idx-index_of? xs h i e in
      rw (remove_from_pool, e) (c.remove_lem xs i lt ∙ erased)
]

count-insert_idx :
    (xs : List ℕ) (i a k : ℕ)
    → i ≤ length xs
    → count (insert_idx xs i a) k ≡ count xs k + (if a == k then 1 else 0)
count-insert_idx [] zero a k h = omega arith
count-insert_idx [] (suc i) a k h = absurd (omega (arith, h))
count-insert_idx (x ∷ xs) zero a k h = omega arith
count-insert_idx (x ∷ xs) (suc i) a k h =
    omega (arith, count-insert_idx xs i a k (omega (arith, h)))

without-insert_idx : (xs : List ℕ) (i a : ℕ) → without (insert_idx xs i a) a ≡ without xs a
without-insert_idx [] zero a = ground arith
without-insert_idx [] (suc i) a = ground arith
without-insert_idx (x ∷ xs) zero a = ground arith
without-insert_idx (x ∷ xs) (suc i) a = ground (arith, without-insert_idx xs i a)

without-append_self : (xs : List ℕ) (a : ℕ) → without (xs ++ a ∷ []) a ≡ without xs a
without-append_self [] a = ground arith
without-append_self (x ∷ xs) a = ground (arith, without-append_self xs a)

pub without-erase : (xs : List ℕ) (a : ℕ) → without (erase xs a) a ≡ without xs a
without-erase [] a = refl
without-erase (x ∷ xs) a = ground (arith, without-erase xs a)

-- Where the view goes.
pub record Linked (c : IterPool) (above : Bool) (other view : ℕ) (xs ys : List ℕ) : Type 0 where
  pub counted : (k : ℕ) → count ys k ≡ count xs k + (if view == k then 1 else 0)
  pub others : without ys view ≡ without xs view

pub link_at-Linked :
    (c : IterPool) (above : Bool) (other view : ℕ) (xs ys : List ℕ)
    → link_at c above other view xs ≡ some ys
    → Linked c above other view xs ys
unfolding link_at
link_at-Linked c above other view xs ys e = elim (Bool-cases (other == 0)) [
  | inl z ↦ elim (Bool-cases above) [
    | inl y ↦
        let at : ys ≡ xs ++ view ∷ [] = c.push_back_lem xs ys view (ground (arith, e, z, y)) in
        record {
          counted =
              λ k. omega (arith, ap (λ (l : List ℕ). count l k) at, count-append xs (view ∷ []) k);
          others = ap (λ (l : List ℕ). without l view) at ∙ without-append_self xs view;
        }
    | inr n ↦
        let at : ys ≡ view ∷ xs = c.push_front_lem xs ys view (ground (arith, e, z, n)) in
        record {
          counted = λ k. omega (arith, ap (λ (l : List ℕ). count l k) at);
          others = ap (λ (l : List ℕ). without l view) at ∙ ground arith;
        }
  ]
  | inr z ↦ elim (Option-cases (index_of? xs other)) [
    | inl gone ↦ absurd (ground (arith, e, z, gone))
    | inr (i, found) ↦
        let lt : i < length xs = (erase_idx-index_of? xs other i found).1 in
        let j : ℕ = if above then suc i else i in
        let low : j ≤ length xs = ground (arith, lt) in
        let at : ys ≡ insert_idx xs j view =
          c.insert_lem xs ys j view low (ground (arith, e, z, found)) in
        record {
          counted = λ k.
              omega (arith, ap (λ (l : List ℕ). count l k) at, count-insert_idx xs j view k low);
          others = ap (λ (l : List ℕ). without l view) at ∙ without-insert_idx xs j view;
        }
  ]
]

length-insert_idx :
    (xs : List ℕ) (i a : ℕ) → i ≤ length xs → length (insert_idx xs i a) ≡ suc (length xs)
length-insert_idx xs zero a h = refl
length-insert_idx [] (suc i) a h = absurd (omega (arith, h))
length-insert_idx (x ∷ xs) (suc i) a h = omega (arith, length-insert_idx xs i a (omega (arith, h)))

insert_near :
    (xs : List ℕ) (i other view : ℕ)
    → index_of? xs other ≡ some i
    → (index_of? (insert_idx xs (suc i) view) other ≡ some i)
      × (erase_idx (insert_idx xs (suc i) view) (suc i) ≡ xs)
insert_near [] i other view e = absurd (ground (arith, e))
insert_near (x ∷ xs) zero other view e = (ground (arith, e), ground (arith, e))
insert_near (x ∷ xs) (suc i) other view e = elim (Bool-cases (x == other)) [
  | inl y ↦ absurd (ground (arith, e, y))
  | inr n ↦
      let found : index_of? xs other ≡ some i = ground (arith, e, n) in
      let (at, back) = insert_near xs i other view found in (ground (arith, at, n), ap (◌∷◌ x) back)
]

-- A view that is added above another one, which stands in the list, stands directly above it: the
-- other one keeps its index, and without the item at the next index the list is what it was.
pub link_at_above :
    (c : IterPool) (other view i : ℕ) (xs ys : List ℕ)
    → other ≢ 0
    → index_of? xs other ≡ some i
    → link_at c true other view xs ≡ some ys
    → (index_of? ys other ≡ some i) × (erase_idx ys (suc i) ≡ xs) × (length ys ≡ suc (length xs))
unfolding link_at
link_at_above c other view i xs ys there found e =
    let lt : i < length xs = (erase_idx-index_of? xs other i found).1 in
    let at : ys ≡ insert_idx xs (suc i) view =
      c.insert_lem xs ys (suc i) view (omega (arith, lt)) (ground (arith, e, there, found)) in
    let (first, back) = insert_near xs i other view found in
    (
      ap (λ (l : List ℕ). index_of? l other) at ∙ first,
      ap (λ (l : List ℕ). erase_idx l (suc i)) at ∙ back,
      ap length at ∙ length-insert_idx xs (suc i) view (omega (arith, lt)),
    )
