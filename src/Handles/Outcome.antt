-- ===== src/Handles/Outcome.antt =====
-- How the creation of a handle can end.
use wlc.Base.{
  ℕ, suc, ◌-◌, ◌≡◌, refl, ap, inl, inr, Bool, true, false, ◌&&◌, ◌||◌, ◌⊎◌, Option, none, some,
  arith, leb, ◌==◌, Bool-cases, if-elim,
}
use wlc.Handles.{
  Handle, Registry, Pool, is_taken, put_handle, put_item, no_handle, HandleInfo, construct,
  add_item, add_handle, fill_handle, handle_create, wlc_handle_create,
}

-- Two tables that nothing tells apart.
abbrev pub Same : Registry → Registry → Type 0
Same t t' = ((i : ℕ) → t'.handles i ≡ t.handles i) × ((s x : ℕ) → t'.items s x ≡ t.items s x)

-- What a creation comes to: it fails and changes nothing, or it takes a free slot for the handle and
-- one for the object.
pub record Created (source : ℕ) (t : Registry) (n : HandleInfo) (t' : Registry) : Type 0 where
  pub slot : ℕ
  pub handle : Option Handle
  pub item : ℕ
  free : t.handles slot ≡ none
  pub unused : t.items source item ≡ false
  pub public : n.public ≡ suc slot
  pub private : n.private ≡ suc item
  pub result :
      t'
      ≡ put_handle slot
          (some (record { public = suc slot; private = suc item; source = source }))
          (put_item source item true (put_handle slot handle t))

free_slot : (t : Registry) (i : ℕ) → is_taken t i ≡ false → t.handles i ≡ none
free_slot t i e = ground (arith, e)

undone-Same :
    (t : Registry) (source i h : ℕ) (u : Option Handle)
    → t.handles i ≡ none
    → t.items source h ≡ false
    → Same t
        (put_handle i none (put_item source h false (put_item source h true (put_handle i u t))))
undone-Same t source i h u e f = (
  λ x. elim (Bool-cases (i == x)) [ inl y ↦ ground (arith, y, e) | inr n ↦ ground (arith, n) ],
  λ s x. elim (Bool-cases (source == s && h == x)) [
    | inl y ↦
        let at : source ≡ s = ground (arith, y) in
        let to : h ≡ x = ground (arith, y) in rw (← at, ← to) ground (arith, f)
    | inr n ↦ ground (arith, n)
  ],
)

-- How a creation can end.
abbrev Outcome : ℕ → Registry → Option HandleInfo × Registry → Type 0
Outcome source t q =
    ((t' : Registry) × (q ≡ (none, t')) × Same t t')
    ⊎ ((n : HandleInfo) × (t' : Registry) × (q ≡ (some n, t')) × Created source t n t')

construct-Outcome :
    (constructor : ℕ → Bool) (source : ℕ) (t : Registry) (i h : ℕ) (u : Option Handle)
    → t.handles i ≡ none
    → t.items source h ≡ false
    → Outcome source t (
        fill_handle source
          (construct constructor source i h (put_item source h true (put_handle i u t))))
unfolding fill_handle construct
construct-Outcome constructor source t i h u free unused =
    let v : Registry = put_item source h true (put_handle i u t) in
    let pred : suc i - 1 ≡ i = omega arith in
    let undone : Registry = put_handle i none (put_item source h false v) in
    let fails : Outcome source t (none, undone) =
      inl (undone, refl, undone-Same t source i h u free unused) in
    if-elim (λ (q : Option HandleInfo × Registry). Outcome source t (fill_handle source q))
      (leb no_handle i || leb no_handle h) (none, undone) _ fails
      (if-elim (λ (q : Option HandleInfo × Registry). Outcome source t (fill_handle source q))
        (constructor (suc i)) (some (record { public = suc i; private = suc h }), v) (none, undone)
        (inr (
          record { public = suc i; private = suc h },
          _,
          refl,
          record {
            slot = i;
            item = h;
            free = free;
            unused = unused;
            public = refl;
            private = refl;
            handle = u;
            result =
                ap
                  (λ (k : ℕ).
                    put_handle k
                      (some (record { public = suc i; private = suc h; source = source })) v)
                  pred;
          },
        ))
        fails)

add_item-Outcome :
    (c : Pool) (constructor : ℕ → Bool) (source : ℕ) (t : Registry) (i : ℕ) (u : Option Handle)
    → t.handles i ≡ none
    → (o : Option ℕ) → c.add (t.items source) ≡ o
    → Outcome source t (fill_handle source (add_item constructor source i (put_handle i u t) o))
unfolding fill_handle add_item
add_item-Outcome c constructor source t i u free none e = inl (
  put_handle i none (put_handle i u t),
  refl,
  (
    λ x. elim (Bool-cases (i == x)) [ inl y ↦ ground (arith, y, free) | inr n ↦ ground (arith, n) ],
    λ s x. refl,
  ),
)
add_item-Outcome c constructor source t i u free (some h) e =
    construct-Outcome constructor source t i h u free (c.add_lem (t.items source) h e)

add_handle-Outcome :
    (c : Pool) (constructor : ℕ → Bool) (source : ℕ) (t : Registry) (o : Option ℕ)
    → c.add (is_taken t) ≡ o
    → Outcome source t (fill_handle source (add_handle c constructor source t o))
unfolding fill_handle add_handle
add_handle-Outcome c constructor source t none e = inl (t, refl, (λ i. refl, λ s x. refl))
add_handle-Outcome c constructor source t (some i) e =
    add_item-Outcome c constructor source t i
      (some (record { public = 0; private = 0; source = 0 }))
      (free_slot t i (c.add_lem (is_taken t) i e)) (c.add (t.items source)) refl

pub create-Outcome :
    (c : Pool) (constructor : ℕ → Bool) (source : ℕ) (t : Registry)
    → Outcome source t (wlc_handle_create c constructor source t)
unfolding wlc_handle_create handle_create
create-Outcome c constructor source t =
    add_handle-Outcome c constructor source t (c.add (is_taken t)) refl
