-- ===== src/Surface/Subsurfaces/Restack.antt =====
-- Where a subsurface goes among its siblings.
use wlc.Base.{
  ℕ, suc, zero, ◌+◌, ◌-◌, ◌≤◌, ◌<◌, ◌≡◌, ◌≢◌, refl, ap, ◌∙◌, inl, inr, false, some, none, List, [],
  ◌∷◌, ◌++◌, arith, if◌then◌else◌, ◌==◌, ltb, Bool-cases, Option-cases, index_of?, count, erase,
  length, insert_idx, erase_idx-index_of?,
}
use wlc.Chck.{IterPool}
use wlc.Surface.Subsurfaces.{
  Surface, Surfaces, convert, put, last_index_of?, restack_list, done,
  restack_subsurface_relative_to,
}

last_index_of?-absent : (xs : List ℕ) (a : ℕ) → count xs a ≡ 0 → last_index_of? xs a ≡ none
unfolding last_index_of?
last_index_of?-absent [] a h = refl
last_index_of?-absent (x ∷ xs) a h =
    let n : last_index_of? xs a ≡ none = last_index_of?-absent xs a (omega (arith, h)) in
    let ne : x == a ≡ false = ground (arith, h) in rw (last_index_of?, n, ne) refl

-- In a list that has it once, the last index of an item is its first.
last_index_of?-once : (xs : List ℕ) (a : ℕ) → count xs a ≤ 1 → last_index_of? xs a ≡ index_of? xs a
unfolding last_index_of?
last_index_of?-once [] a h = refl
last_index_of?-once (x ∷ xs) a h = elim (Bool-cases (x == a)) [
  | inl y ↦
      let n : last_index_of? xs a ≡ none = last_index_of?-absent xs a (ground (arith, h, y)) in
      rw (last_index_of?, n, y) refl
  | inr n ↦
      let same : last_index_of? xs a ≡ index_of? xs a =
        last_index_of?-once xs a (ground (arith, h, n)) in
      elim (Option-cases (index_of? xs a)) [
        | inl e ↦ rw (last_index_of?, same, n, e, n) refl
        | inr (i, e) ↦ rw (last_index_of?, same, n, e) refl
      ]
]

-- The index of another item, once an item has been taken from the list.
index_of?-erase :
    (xs : List ℕ) (a b i j : ℕ)
    → a ≢ b
    → index_of? xs a ≡ some i
    → index_of? xs b ≡ some j
    → index_of? (erase xs a) b ≡ some (if ltb i j then j - 1 else j)
index_of?-erase [] a b i j ne e f = absurd (ground (arith, e))
index_of?-erase (x ∷ xs) a b zero zero ne e f = absurd (ground (arith, ne, e, f))
index_of?-erase (x ∷ xs) a b zero (suc j) ne e f = ground (arith, ne, e, f)
index_of?-erase (x ∷ xs) a b (suc i) zero ne e f = ground (arith, ne, e, f)
index_of?-erase (x ∷ xs) a b (suc i) (suc j) ne e f =
    ground (arith, ne, e, f, index_of?-erase xs a b i j)

insert_idx-next :
    (xs : List ℕ) (a b k : ℕ)
    → index_of? xs b ≡ some k
    → (us : List ℕ) × (vs : List ℕ) × (xs ≡ us ++ b ∷ vs)
      × (insert_idx xs k a ≡ us ++ a ∷ b ∷ vs)
      × (insert_idx xs (suc k) a ≡ us ++ b ∷ a ∷ vs)
insert_idx-next [] a b k e = absurd (ground (arith, e))
insert_idx-next (x ∷ xs) a b zero e =
    let at : x ≡ b = ground (arith, e) in
    (
      [],
      xs,
      ap (λ (y : ℕ). y ∷ xs) at,
      ap (λ (y : ℕ). a ∷ y ∷ xs) at,
      ap (λ (y : ℕ). y ∷ a ∷ xs) at,
    )
insert_idx-next (x ∷ xs) a b (suc k) e =
    let (us, vs, p, q, r) = insert_idx-next xs a b k (ground (arith, e)) in
    (x ∷ us, vs, ap (◌∷◌ x) p, ap (◌∷◌ x) q, ap (◌∷◌ x) r)

index_of?-once : (xs : List ℕ) (a : ℕ) → count xs a ≡ 1 → (i : ℕ) × (index_of? xs a ≡ some i)
index_of?-once [] a h = absurd (omega (arith, h))
index_of?-once (x ∷ xs) a h = elim (Bool-cases (x == a)) [
  | inl y ↦ (0, ground (arith, y))
  | inr n ↦ let (i, e) = index_of?-once xs a (ground (arith, h, n)) in (suc i, ground (arith, e, n))
]

restack_list-erase :
    (c : IterPool) (xs : List ℕ) (a b offset i j : ℕ)
    → last_index_of? xs a ≡ some i
    → last_index_of? xs b ≡ some j
    → c.remove xs i ≡ erase xs a
    → (if ltb i j then j - 1 else j) + offset ≤ length (erase xs a)
    → c.insert (erase xs a) ((if ltb i j then j - 1 else j) + offset) a ≢ none
    → restack_list c xs a b offset
      ≡ insert_idx (erase xs a) ((if ltb i j then j - 1 else j) + offset) a
unfolding restack_list
restack_list-erase c xs a b offset i j e f g low fits =
    let k : ℕ = (if ltb i j then j - 1 else j) + offset in
    elim (Option-cases (c.insert (erase xs a) k a)) [
      | inl n ↦ absurd (fits n)
      | inr (ys, y) ↦ rw (restack_list, e, f, g, y) (c.insert_lem (erase xs a) ys k a low y)
    ]

-- A surface that moves next to a sibling, each of them once in the list, under a pool that has the
-- memory: the others keep their order, and the surface stands directly before the sibling at offset
-- 0, which is `place_above`, and directly after it at offset 1.
restack_list-next :
    (c : IterPool) (xs : List ℕ) (a b offset : ℕ)
    → a ≢ b
    → count xs a ≡ 1
    → count xs b ≡ 1
    → offset ≤ 1
    → ((i : ℕ) → c.insert (erase xs a) i a ≢ none)
    → (us : List ℕ) × (vs : List ℕ) × (erase xs a ≡ us ++ b ∷ vs)
      × (restack_list c xs a b offset ≡ us ++ (if offset == 0 then a ∷ b ∷ vs else b ∷ a ∷ vs))
unfolding restack_list
restack_list-next c xs a b offset ne one two o fits =
    let (i, e) = index_of?-once xs a one in
    let (j, f) = index_of?-once xs b two in
    let (erased, lt) = erase_idx-index_of? xs a i e in
    let k : ℕ = if ltb i j then j - 1 else j in
    let g : index_of? (erase xs a) b ≡ some k = index_of?-erase xs a b i j ne e f in
    let (us, vs, at, before, after) = insert_idx-next (erase xs a) a b k g in
    let ll : k < length (erase xs a) = (erase_idx-index_of? (erase xs a) b k g).1 in
    let inserted =
      restack_list-erase c xs a b offset i j (last_index_of?-once xs a (omega (arith, one)) ∙ e)
        (last_index_of?-once xs b (omega (arith, two)) ∙ f) (c.remove_lem xs i lt ∙ erased)
        (omega (arith, ll, o)) (fits (k + offset)) in
    (
      us,
      vs,
      at,
      elim (Bool-cases (offset == 0)) [
        | inl z ↦
            let at0 : k + offset ≡ k = ground (arith, z) in
            rw z (inserted ∙ ap (λ (l : ℕ). insert_idx (erase xs a) l a) at0 ∙ before)
        | inr s ↦
            let at1 : k + offset ≡ suc k = ground (arith, s, o) in
            rw s (inserted ∙ ap (λ (l : ℕ). insert_idx (erase xs a) l a) at1 ∙ after)
      ],
    )

-- A subsurface that is placed next to a sibling, each of them once in the list of the parent, under
-- a pool that has the memory: the others keep their order, nothing but that list changes, and the
-- surface stands directly before the sibling at offset 0, which is `place_above`, and directly after
-- it at offset 1, which is `place_below`.
restack-next :
    (c : IterPool) (w : Surfaces) (surface sibling offset : ℕ) (s p : Surface)
    → convert w surface ≡ some s
    → convert w s.parent ≡ some p
    → surface ≢ sibling
    → count p.subsurface_list surface ≡ 1
    → count p.subsurface_list sibling ≡ 1
    → offset ≤ 1
    → ((i : ℕ) → c.insert (erase p.subsurface_list surface) i surface ≢ none)
    → (us : List ℕ) × (vs : List ℕ) × (erase p.subsurface_list surface ≡ us ++ sibling ∷ vs)
      × (restack_subsurface_relative_to c surface sibling offset w
          ≡ done (
              put s.parent
                (record p {
                  subsurface_list =
                      us
                      ++ (if offset == 0 then surface ∷ sibling ∷ vs else sibling ∷ surface ∷ vs);
                })
                w))
unfolding restack_subsurface_relative_to
restack-next c w surface sibling offset s p e f ne one two o fits =
    let (us, vs, at, next) =
      restack_list-next c p.subsurface_list surface sibling offset ne one two o fits in
    (
      us,
      vs,
      at,
      rw (restack_subsurface_relative_to, e, f)
          (ap (λ (l : List ℕ). done (put s.parent (record p { subsurface_list = l }) w)) next),
    )
