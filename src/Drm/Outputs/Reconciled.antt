-- ===== src/Drm/Outputs/Reconciled.antt =====
-- What the outputs are after the card was asked.
use wlc.Base.{
  ℕ, ◌+◌, ◌≡◌, ◌∙◌, refl, ap, inl, inr, Bool, true, false, ◌&&◌, ◌||◌, not, Option, none, some,
  List, [], ◌∷◌, All, any, count, count-append, arith, if◌then◌else◌, ◌==◌, if-cases, Bool-cases,
}
use wlc.Drm.Connectors.{Information}
use wlc.Drm.Outputs.{
  DrmOutput, is_connector, is_on, output_exists_for_connector, info_exists_for_drm_surface, is_lost,
  drop_lost, lost, terminated, has_connector, place, add_outputs, update_outputs,
}

-- How many outputs a connector has, and how many of them have a frame pending.
abbrev pub outputs_of : ℕ → List DrmOutput → ℕ
outputs_of c [] = 0
outputs_of c (o ∷ os) = (if is_on c o then 1 else 0) + outputs_of c os

abbrev pub waiting_of : ℕ → List DrmOutput → ℕ
waiting_of c [] = 0
waiting_of c (o ∷ os) = (if is_on c o && o.pending then 1 else 0) + waiting_of c os

outputs_of-none : (c : ℕ) (os : List DrmOutput) → any (is_on c) os ≡ false → outputs_of c os ≡ 0
outputs_of-none c [] h = refl
outputs_of-none c (o ∷ os) h = ground (arith, h, outputs_of-none c os)

-- A surface that is placed changes the outputs of its own connector only.
is_on-none : (c : ℕ) (o : Option ℕ) → has_connector o ≡ false → is_connector c o ≡ false
is_on-none c none h = refl
is_on-none c (some d) h = cc

outputs_of-place :
    (d c : ℕ) (os : List DrmOutput)
    → outputs_of c (place d os) ≡ outputs_of c os + (if d == c then 1 else 0)
unfolding place
outputs_of-place d c [] = ground arith
outputs_of-place d c (o ∷ os) = ground (arith, outputs_of-place d c os, is_on-none c o.connector)

any-place :
    (d c : ℕ) (os : List DrmOutput) → any (is_on c) (place d os) ≡ any (is_on c) os || d == c
unfolding place
any-place d c [] = ground arith
any-place d c (o ∷ os) = ground (arith, any-place d c os, is_on-none c o.connector)

-- A connector that is there and whose output can be added.
abbrev pub appears : (Information → Bool) → List Information → ℕ → Bool
appears can_add infos c = any (λ info. info.connector == c && can_add info) infos

appears-exists :
    (can_add : Information → Bool) (infos : List Information) (c : ℕ)
    → info_exists_for_drm_surface infos c ≡ false
    → appears can_add infos c ≡ false
appears-exists can_add [] c h = refl
appears-exists can_add (i ∷ is) c h = ground (arith, h, appears-exists can_add is c)

lost-count :
    (infos : List Information) (o : Option ℕ) (c : ℕ)
    → count (lost infos o) c
      ≡ (if info_exists_for_drm_surface infos c then 0 else (if is_connector c o then 1 else 0))
lost-count infos none c = ground arith
lost-count infos (some d) c = elim (Bool-cases (d == c)) [
  | inl y ↦
      let at : d ≡ c = ground (arith, y) in
      ground (arith, y, ap (info_exists_for_drm_surface infos) at)
  | inr n ↦ ground (arith, n)
]

terminated-count :
    (infos : List Information) (os : List DrmOutput) (c : ℕ)
    → count (terminated infos os) c
      ≡ (if info_exists_for_drm_surface infos c then 0 else outputs_of c os)
unfolding terminated
terminated-count infos [] c = ground arith
terminated-count infos (o ∷ os) c = ground (
  arith,
  count-append (lost infos o.connector) (terminated infos os) c,
  lost-count infos o.connector c,
  terminated-count infos os c,
)

-- An output of a connector is lost exactly if the connector is gone.
is_lost-of :
    (infos : List Information) (c : ℕ) (o : Option ℕ)
    → is_connector c o ≡ true
    → is_lost infos o ≡ not (info_exists_for_drm_surface infos c)
is_lost-of infos c none h = cc
is_lost-of infos c (some d) h =
    let at : d ≡ c = ground (arith, h) in
    ap (λ (x : ℕ). not (info_exists_for_drm_surface infos x)) at

drop_lost-outputs_of :
    (infos : List Information) (os : List DrmOutput) (c : ℕ)
    → outputs_of c (drop_lost infos os)
      ≡ (if info_exists_for_drm_surface infos c then outputs_of c os else waiting_of c os)
unfolding drop_lost
drop_lost-outputs_of infos [] c = ground arith
drop_lost-outputs_of infos (o ∷ os) c =
    ground (arith, drop_lost-outputs_of infos os c, is_lost-of infos c o.connector)

drop_lost-any :
    (infos : List Information) (os : List DrmOutput) (c : ℕ)
    → info_exists_for_drm_surface infos c ≡ true
    → any (is_on c) (drop_lost infos os) ≡ any (is_on c) os
unfolding drop_lost
drop_lost-any infos [] c t = refl
drop_lost-any infos (o ∷ os) c t =
    ground (arith, t, drop_lost-any infos os c t, is_lost-of infos c o.connector)

-- An output of the connector waits for the end of its frame to be terminated.
abbrev pub IsEnding : ℕ → DrmOutput → Type 0
IsEnding c o = is_on c o ≡ true → (o.pending ≡ true) × (o.terminate ≡ true)

drop_lost-IsEnding :
    (infos : List Information) (os : List DrmOutput) (c : ℕ)
    → info_exists_for_drm_surface infos c ≡ false
    → All (IsEnding c) (drop_lost infos os)
unfolding drop_lost
drop_lost-IsEnding infos [] c f = tt
drop_lost-IsEnding infos (o ∷ os) c f =
    ((λ h. ground (arith, f, h, is_lost-of infos c o.connector)), drop_lost-IsEnding infos os c f)

place-IsEnding :
    (d c : ℕ) (os : List DrmOutput)
    → d == c ≡ false
    → All (IsEnding c) os
    → All (IsEnding c) (place d os)
unfolding place
place-IsEnding d c [] n k = ((λ h. absurd (ground (arith, h, n))), tt)
place-IsEnding d c (o ∷ os) n k =
    if-cases (All (IsEnding c)) (has_connector o.connector) _ _
      (λ y. (k.0, place-IsEnding d c os n k.1)) (λ m. ((λ h. absurd (ground (arith, h, n))), k.1))

add_outputs-IsEnding :
    (can_add : Information → Bool) (infos : List Information) (os : List DrmOutput) (c : ℕ)
    → info_exists_for_drm_surface infos c ≡ false
    → All (IsEnding c) os
    → All (IsEnding c) (add_outputs can_add infos os)
unfolding add_outputs
add_outputs-IsEnding can_add [] os c f k = k
add_outputs-IsEnding can_add (i ∷ is) os c f k =
    add_outputs-IsEnding can_add is _ c (ground (arith, f)) (
      if-cases (All (IsEnding c)) (output_exists_for_connector os i.connector || not (can_add i)) os
        (place i.connector os) (λ t. k)
        (λ n. place-IsEnding i.connector c os (ground (arith, f)) k))

-- The outputs of a connector after the loop.
abbrev pub after : (Information → Bool) → List Information → List DrmOutput → ℕ → ℕ
after can_add infos os c =
    if any (is_on c) os then outputs_of c os else if appears can_add infos c then 1 else 0

-- One round of the loop: nothing is added for the connector, or an output is.
module _ (can_add : Information → Bool) (i : Information) (is : List Information)
    (os : List DrmOutput) (c : ℕ) where
  after-skip :
      output_exists_for_connector os i.connector || not (can_add i) ≡ true
      → after can_add is os c ≡ after can_add (i ∷ is) os c
  after-skip t = elim (Bool-cases (i.connector == c)) [
    | inl y ↦
        let at : i.connector ≡ c = ground (arith, y) in
        ground (arith, y, t, ap (λ (d : ℕ). any (is_on d) os) at)
    | inr n ↦ ground (arith, n)
  ]

  after-add :
      output_exists_for_connector os i.connector || not (can_add i) ≡ false
      → after can_add is (place i.connector os) c ≡ after can_add (i ∷ is) os c
  after-add f =
      let more = any-place i.connector c os in
      let one = outputs_of-place i.connector c os in
      elim (Bool-cases (i.connector == c)) [
        | inl y ↦
            let at : i.connector ≡ c = ground (arith, y) in
            let free = ap (λ (d : ℕ). any (is_on d) os) at in
            ground (arith, y, f, free, more, one, outputs_of-none c os)
        | inr n ↦ ground (arith, n, more, one)
      ]

add_outputs-after :
    (can_add : Information → Bool) (infos : List Information) (os : List DrmOutput) (c : ℕ)
    → outputs_of c (add_outputs can_add infos os) ≡ after can_add infos os c
unfolding add_outputs
add_outputs-after can_add [] os c = ground (arith, outputs_of-none c os)
add_outputs-after can_add (i ∷ is) os c =
    if-cases
      (λ (r : List DrmOutput).
        outputs_of c (add_outputs can_add is r) ≡ after can_add (i ∷ is) os c)
      (output_exists_for_connector os i.connector || not (can_add i)) os (place i.connector os)
      (λ t. add_outputs-after can_add is os c ∙ after-skip can_add i is os c t)
      (λ f. add_outputs-after can_add is (place i.connector os) c ∙ after-add can_add i is os c f)

-- After the card was asked, for each connector. Where it is gone, all its outputs have been told to
-- terminate: those without a pending frame have lost their surface, and those that are left wait for
-- the end of theirs, to be terminated. Where it is there, none has been told so: if it had outputs it
-- keeps as many, and if it had none it gets one, however often the card lists it, if the output can be
-- added.
pub update_outputs-reconciles :
    (can_add : Information → Bool) (infos : List Information) (os : List DrmOutput) (c : ℕ)
    → (count (update_outputs can_add infos os).0 c
        ≡ (if info_exists_for_drm_surface infos c then 0 else outputs_of c os))
      × (outputs_of c (update_outputs can_add infos os).1 ≡ (
          if info_exists_for_drm_surface infos c
          then (if any (is_on c) os
              then outputs_of c os
              else if appears can_add infos c
              then 1
              else 0)
          else waiting_of c os))
      × (info_exists_for_drm_surface infos c ≡ false
          → All (IsEnding c) (update_outputs can_add infos os).1)
unfolding update_outputs
update_outputs-reconciles can_add infos os c =
    let os' : List DrmOutput = drop_lost infos os in
    (
      terminated-count infos os c,
      ground (
        arith,
        add_outputs-after can_add infos os' c,
        drop_lost-outputs_of infos os c,
        drop_lost-any infos os c,
        outputs_of-none c os',
        appears-exists can_add infos c,
      ),
      λ f. add_outputs-IsEnding can_add infos os' c f (drop_lost-IsEnding infos os c f),
    )
