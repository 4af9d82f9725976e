-- ===== src/Handles/Create.antt =====
-- What the creation of a handle leaves behind, where it succeeds and where it fails.
use mathlib.Core.Path.{subst}
use wlc.Base.{
  ℕ, suc, ◌-◌, ◌≤◌, ◌≡◌, ◌≢◌, ◌∙◌, sym, refl, ap, inl, inr, Bool, true, false, ◌&&◌, Option, none,
  some, arith, if◌then◌else◌, ◌==◌, Bool-cases, Option-cases, if-true, if-false,
}
use wlc.Chck.{some_inj}
use wlc.Handles.{
  Handle, Registry, Pool, HandleInfo, wlc_handle_create, handle_get, convert_from_wlc_handle,
  IsValid,
}
use wlc.Handles.Outcome.{Same, Created, create-Outcome}

-- Where a number is looked up, and what is found for an object that is there.
pub convert-found :
    (name_of : ℕ → ℕ) (handle name : ℕ) (t : Registry) (o : Option Handle)
    → 1 ≤ handle
    → t.handles (handle - 1) ≡ o
    → convert_from_wlc_handle name_of handle name t
      ≡ elim o [ none ↦ none | some h ↦ handle_get name_of h name t ]
unfolding convert_from_wlc_handle
convert-found name_of handle name t o low e =
    let there : handle == 0 ≡ false = ground (arith, low) in
    rw (convert_from_wlc_handle, there, e) refl

pub get-items :
    (name_of : ℕ → ℕ) (h : Handle) (name : ℕ) (t : Registry)
    → 1 ≤ h.private
    → t.items h.source (h.private - 1) ≡ true
    → handle_get name_of h name t
      ≡ (if name_of h.source == name then some (h.source, h.private - 1) else none)
unfolding handle_get
get-items name_of h name t low e =
    let there : h.private == 0 ≡ false = ground (arith, low) in
    if-false _ _ (h.private == 0) there
    ∙ ap
        (λ (b : Bool).
          if name_of h.source == name
          then (if b then some (h.source, h.private - 1) else none)
          else none)
        e

-- The table after a creation, by its slots.
module _ (source : ℕ) (t : Registry) (n : HandleInfo) (t' : Registry)
    (k : Created source t n t') where
  handles-Created :
      (i : ℕ)
      → t'.handles i ≡ (
          if k.slot == i
          then some (record { public = suc k.slot; private = suc k.item; source = source })
          else t.handles i)
  handles-Created i =
      ap (λ (r : Registry). r.handles i) k.result
      ∙ elim (Bool-cases (k.slot == i)) [ inl y ↦ ground (arith, y) | inr z ↦ ground (arith, z) ]

  items-Created :
      (s x : ℕ) → t'.items s x ≡ (if source == s && k.item == x then true else t.items s x)
  items-Created s x = ap (λ (r : Registry). r.items s x) k.result

  numbered-Created : IsValid t → (i : ℕ) (h : Handle) → t'.handles i ≡ some h → h.public ≡ suc i
  numbered-Created v i h e = elim (Bool-cases (k.slot == i)) [
    | inl y ↦ ground (arith, y, handles-Created i, e)
    | inr z ↦ v.numbered i h (ground (arith, z, handles-Created i, e))
  ]

  stored-Created :
      IsValid t
      → (i : ℕ) (h : Handle) → t'.handles i ≡ some h
      → (1 ≤ h.private) × (t'.items h.source (h.private - 1) ≡ true)
  stored-Created v i h e = elim (Bool-cases (k.slot == i)) [
    | inl y ↦ ground (arith, y, handles-Created i, e, items-Created h.source (h.private - 1))
    | inr z ↦
        let old : t.handles i ≡ some h = ground (arith, z, handles-Created i, e) in
        ground (arith, v.stored i h old, items-Created h.source (h.private - 1))
  ]

  new-Created :
      (i : ℕ) (h : Handle)
      → t'.handles i ≡ some h
      → k.slot == i ≡ true
      → (h.source ≡ source) × (h.private ≡ suc k.item)
  new-Created i h e y = ground (arith, e, y, handles-Created i)

  -- An old handle does not have the new object.
  old-apart :
      IsValid t
      → (i : ℕ) (h : Handle) → t.handles i ≡ some h
      → h.source ≡ source
      → h.private ≢ suc k.item
  old-apart v i h e f g = ground (arith, v.stored i h e, f, g, k.unused)

  apart-Created :
      IsValid t
      → (i j : ℕ) (h l : Handle) → t'.handles i ≡ some h
      → t'.handles j ≡ some l
      → h.source ≡ l.source
      → h.private ≡ l.private
      → i ≡ j
  apart-Created v i j h l e f s p = elim (Bool-cases (k.slot == i)) [
    | inl y ↦ elim (Bool-cases (k.slot == j)) [
      | inl y' ↦ ground (arith, y, y')
      | inr z' ↦
          let new = new-Created i h e y in
          absurd (
            old-apart v j l (ground (arith, z', handles-Created j, f)) (sym s ∙ new.0)
              (sym p ∙ new.1))
    ]
    | inr z ↦ elim (Bool-cases (k.slot == j)) [
      | inl y' ↦
          let new = new-Created j l f y' in
          absurd (old-apart v i h (ground (arith, z, handles-Created i, e)) (s ∙ new.0) (p ∙ new.1))
      | inr z' ↦
          v.apart i j h l (ground (arith, z, handles-Created i, e))
            (ground (arith, z', handles-Created j, f)) s p
    ]
  ]

  pub IsValid-Created : IsValid t → IsValid t'
  IsValid-Created v = record {
    numbered = numbered-Created v;
    stored = stored-Created v;
    apart = apart-Created v;
  }

  convert-new :
      (name_of : ℕ → ℕ)
      → convert_from_wlc_handle name_of n.public (name_of source) t' ≡ some (source, n.private - 1)
  convert-new name_of =
      let new : Handle = record { public = suc k.slot; private = suc k.item; source = source } in
      let slot : n.public - 1 ≡ k.slot = omega (arith, k.public) in
      let item : n.private - 1 ≡ k.item = omega (arith, k.private) in
      let self : k.slot == k.slot ≡ true = ground arith in
      let found : t'.handles (n.public - 1) ≡ some new =
        ap t'.handles slot ∙ handles-Created k.slot ∙ if-true _ _ (k.slot == k.slot) self in
      let named : name_of source == name_of source ≡ true = ground arith in
      convert-found name_of n.public (name_of source) t' (some new) (omega (arith, k.public)) found
      ∙ get-items name_of new (name_of source) t' (omega arith)
          (ground (arith, items-Created source (suc k.item - 1)))
      ∙ if-true _ _ (name_of source == name_of source) named
      ∙ ap (λ (x : ℕ). some (source, x)) (omega (arith, k.private))

  convert-old :
      (name_of : ℕ → ℕ) (handle name : ℕ)
      → IsValid t
      → handle ≢ n.public
      → convert_from_wlc_handle name_of handle name t'
        ≡ convert_from_wlc_handle name_of handle name t
  unfolding convert_from_wlc_handle
  convert-old name_of handle name v ne = elim (Bool-cases (handle == 0)) [
    | inl y ↦ rw (convert_from_wlc_handle, y) refl
    | inr z ↦
        let low : 1 ≤ handle = ground (arith, z) in
        let apart : k.slot == handle - 1 ≡ false = ground (arith, ne, k.public, low) in
        let kept : t'.handles (handle - 1) ≡ t.handles (handle - 1) =
          handles-Created (handle - 1) ∙ if-false _ _ (k.slot == handle - 1) apart in
        elim (Option-cases (t.handles (handle - 1))) [
          | inl e ↦
              convert-found name_of handle name t' none low (kept ∙ e)
              ∙ sym (convert-found name_of handle name t none low e)
          | inr (h, e) ↦
              let new = stored-Created v (handle - 1) h (kept ∙ e) in
              let old = v.stored (handle - 1) h e in
              convert-found name_of handle name t' (some h) low (kept ∙ e)
              ∙ get-items name_of h name t' new.0 new.1
              ∙ sym (get-items name_of h name t old.0 old.1)
              ∙ sym (convert-found name_of handle name t (some h) low e)
        ]
  ]

module _ (c : Pool) (constructor : ℕ → Bool) (source : ℕ) (t : Registry) where
  Created-create :
      (n : HandleInfo) (t' : Registry)
      → wlc_handle_create c constructor source t ≡ (some n, t')
      → Created source t n t'
  Created-create n t' e = elim (create-Outcome c constructor source t) [
    | inl (u, f, g) ↦
        absurd (ground (arith, ap (λ (q : Option HandleInfo × Registry). q.0) (sym e ∙ f)))
    | inr (m, u, f, k) ↦
        let to : m ≡ n = some_inj (ap (λ (q : Option HandleInfo × Registry). q.0) (sym e ∙ f)) in
        let at : t' ≡ u = ap (λ (q : Option HandleInfo × Registry). q.1) (sym e ∙ f) in
        rw (at, ← to) k
  ]

  -- In a table where every handle has its own object, a handle that `wlc_handle_create` gives is
  -- converted back, under the name of its source, to the new object; every other handle is converted
  -- to what it was before, under any name; and again every handle has its own object.
  pub wlc_handle_create-converts :
      (name_of : ℕ → ℕ) (n : HandleInfo) (t' : Registry)
      → IsValid t
      → wlc_handle_create c constructor source t ≡ (some n, t')
      → (convert_from_wlc_handle name_of n.public (name_of source) t'
          ≡ some (source, n.private - 1))
        × ((handle name : ℕ)
            → handle ≢ n.public
            → convert_from_wlc_handle name_of handle name t'
              ≡ convert_from_wlc_handle name_of handle name t)
        × IsValid t'
  wlc_handle_create-converts name_of n t' v e =
      let k = Created-create n t' e in
      (
        convert-new source t n t' k name_of,
        (λ handle name ne. convert-old source t n t' k name_of handle name v ne),
        IsValid-Created source t n t' k v,
      )

  -- Where `wlc_handle_create` fails, for want of memory for the handle or the object, for the largest
  -- number, or in the constructor, every slot of the handles and of the objects is as it was.
  wlc_handle_create-fails :
      (wlc_handle_create c constructor source t).0 ≡ none
      → Same t (wlc_handle_create c constructor source t).1
  wlc_handle_create-fails e = elim (create-Outcome c constructor source t) [
    | inl (u, f, g) ↦ subst (Same t) (sym (ap (λ (q : Option HandleInfo × Registry). q.1) f)) g
    | inr (m, u, f, k) ↦
        absurd (ground (arith, sym e ∙ ap (λ (q : Option HandleInfo × Registry). q.0) f))
  ]
