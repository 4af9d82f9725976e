-- ===== src/Handles/Release.antt =====
-- What the release of a handle leaves behind.
use mathlib.Core.Path.{subst}
use wlc.Base.{
  ℕ, suc, ◌-◌, ◌≤◌, ◌≡◌, ◌≢◌, ◌∙◌, sym, refl, ap, inl, inr, Bool, true, false, ◌&&◌, Option, none,
  some, arith, if◌then◌else◌, ◌==◌, Bool-cases, Option-cases, if-true, if-false,
}
use wlc.Handles.{
  Handle, Registry, put_handle, put_item, handle_release, wlc_handle_release,
  convert_from_wlc_handle, IsValid,
}
use wlc.Handles.Outcome.{Same}
use wlc.Handles.Create.{convert-found, get-items}

module _ (destructor : ℕ → ℕ → Registry → Registry)
    (quiet : (s x : ℕ) (u : Registry) → Same u (destructor s x u)) (t : Registry) (v : IsValid t)
    (i : ℕ) (h : Handle) (e : t.handles i ≡ some h) where
  released : Registry
  released =
      put_handle (h.public - 1) none
        (put_item h.source (h.private - 1) false (destructor h.source (h.private - 1) t))

  release-released : wlc_handle_release destructor (suc i) t ≡ released
  unfolding wlc_handle_release handle_release released
  release-released =
      let there : suc i == 0 ≡ false = ground arith in
      let pred : suc i - 1 ≡ i = omega arith in
      let found : t.handles (suc i - 1) ≡ some h = ap t.handles pred ∙ e in
      let (low, item) = v.stored i h e in
      let full : h.private == 0 ≡ false = ground (arith, low) in
      rw (wlc_handle_release, there, found)
        (ap (put_handle (h.public - 1) none) (
          if-false _ _ (h.private == 0) full
          ∙ ap (put_item h.source (h.private - 1) false)
              (if-true _ _ (t.items h.source (h.private - 1)) item)))

  handles-released : (j : ℕ) → released.handles j ≡ (if i == j then none else t.handles j)
  unfolding released
  handles-released j =
      let pred : h.public - 1 ≡ i = omega (arith, v.numbered i h e) in
      let q = (quiet h.source (h.private - 1) t).0 j in
      rw pred (ap (λ (o : Option Handle). if i == j then none else o) q)

  items-released :
      (s x : ℕ)
      → released.items s x ≡ (if h.source == s && h.private - 1 == x then false else t.items s x)
  unfolding released
  items-released s x =
      ap (λ (b : Bool). if h.source == s && h.private - 1 == x then false else b)
        ((quiet h.source (h.private - 1) t).1 s x)

  -- Another handle has another object.
  kept_item :
      (j : ℕ) (l : Handle)
      → t.handles j ≡ some l
      → i == j ≡ false
      → released.items l.source (l.private - 1) ≡ true
  kept_item j l f ne = elim (Bool-cases (h.source == l.source && h.private - 1 == l.private - 1)) [
    | inl y ↦
        let s : h.source ≡ l.source = ground (arith, y) in
        let p : h.private ≡ l.private = ground (arith, y, v.stored i h e, v.stored j l f) in
        absurd (ground (arith, ne, v.apart i j h l e f s p))
    | inr n ↦ ground (arith, n, items-released l.source (l.private - 1), v.stored j l f)
  ]

  old_handle :
      (j : ℕ) (l : Handle) → released.handles j ≡ some l → (i == j ≡ false) × (t.handles j ≡ some l)
  old_handle j l f = elim (Bool-cases (i == j)) [
    | inl y ↦ absurd (ground (arith, f, handles-released j, y))
    | inr n ↦ (n, ground (arith, f, handles-released j, n))
  ]

  released-IsValid : IsValid released
  released-IsValid = record {
    numbered = λ j l f. v.numbered j l (old_handle j l f).1;
    stored = λ j l f. let (ne, g) = old_handle j l f in ((v.stored j l g).0, kept_item j l g ne);
    apart = λ j k l m f g s p. v.apart j k l m (old_handle j l f).1 (old_handle k m g).1 s p;
  }

  convert-released :
      (name_of : ℕ → ℕ) (name : ℕ) → convert_from_wlc_handle name_of (suc i) name released ≡ none
  convert-released name_of name =
      let pred : suc i - 1 ≡ i = omega arith in
      let self : i == i ≡ true = ground arith in
      convert-found name_of (suc i) name released none (omega arith)
        (ap released.handles pred ∙ handles-released i ∙ if-true _ _ (i == i) self)

  convert-others :
      (name_of : ℕ → ℕ) (handle name : ℕ)
      → handle ≢ suc i
      → convert_from_wlc_handle name_of handle name released
        ≡ convert_from_wlc_handle name_of handle name t
  unfolding convert_from_wlc_handle
  convert-others name_of handle name ne = elim (Bool-cases (handle == 0)) [
    | inl y ↦ rw (convert_from_wlc_handle, y) refl
    | inr z ↦
        let low : 1 ≤ handle = ground (arith, z) in
        let apart : i == handle - 1 ≡ false = ground (arith, ne, low) in
        let kept : released.handles (handle - 1) ≡ t.handles (handle - 1) =
          handles-released (handle - 1) ∙ if-false _ _ (i == handle - 1) apart in
        elim (Option-cases (t.handles (handle - 1))) [
          | inl f ↦
              convert-found name_of handle name released none low (kept ∙ f)
              ∙ sym (convert-found name_of handle name t none low f)
          | inr (l, f) ↦
              let old = v.stored (handle - 1) l f in
              convert-found name_of handle name released (some l) low (kept ∙ f)
              ∙ get-items name_of l name released old.0 (kept_item (handle - 1) l f apart)
              ∙ sym (get-items name_of l name t old.0 old.1)
              ∙ sym (convert-found name_of handle name t (some l) low f)
        ]
  ]

-- In a table where every handle has its own object, a handle that is released is converted to nothing
-- afterwards, under any name; every other handle is converted to what it was before; and again every
-- handle has its own object. This is so where the destructor of the object releases nothing else.
pub wlc_handle_release-converts :
    (destructor : ℕ → ℕ → Registry → Registry)
    → ((s x : ℕ) (u : Registry) → Same u (destructor s x u))
    → (t : Registry) (i : ℕ) (h : Handle) → IsValid t
    → t.handles i ≡ some h
    → (name_of : ℕ → ℕ)
    → ((name : ℕ)
        → convert_from_wlc_handle name_of (suc i) name (wlc_handle_release destructor (suc i) t)
          ≡ none)
      × ((handle name : ℕ)
          → handle ≢ suc i
          → convert_from_wlc_handle name_of handle name (wlc_handle_release destructor (suc i) t)
            ≡ convert_from_wlc_handle name_of handle name t)
      × IsValid (wlc_handle_release destructor (suc i) t)
wlc_handle_release-converts destructor quiet t i h v e name_of =
    let r = sym (release-released destructor quiet t v i h e) in
    let u : Registry = released destructor quiet t v i h e in
    subst
      (λ (w : Registry).
        ((name : ℕ) → convert_from_wlc_handle name_of (suc i) name w ≡ none)
        × ((handle name : ℕ)
            → handle ≢ suc i
            → convert_from_wlc_handle name_of handle name w
              ≡ convert_from_wlc_handle name_of handle name t)
        × IsValid w)
      r
      (
        (λ name. convert-released destructor quiet t v i h e name_of name),
        (λ handle name ne. convert-others destructor quiet t v i h e name_of handle name ne),
        released-IsValid destructor quiet t v i h e,
      )
