-- ===== src/Drm/Outputs/Tests.antt =====
-- Two outputs whose connector is gone, one in the middle of a frame; one that stays and one that is new.
use wlc.Base.{
  ℕ, ◌≡◌, refl, Bool, true, false, Option, none, some, List, [], ◌∷◌, All, any, count,
  if◌then◌else◌,
}
use wlc.Drm.Connectors.{Information}
use wlc.Drm.Outputs.{DrmOutput, is_on, info_exists_for_drm_surface, update_outputs}
use wlc.Drm.Outputs.Reconciled.{
  outputs_of, waiting_of, appears, IsEnding, update_outputs-reconciles,
}

abbrev plugged : ℕ → Information
plugged c = record { connector = c; crtc = c; modes = []; mode = none; width = 800; height = 600 }

abbrev there : List Information
there = plugged 2 ∷ plugged 3 ∷ []

abbrev output : Option ℕ → Bool → Bool → DrmOutput
output c pending terminate = record { connector = c; pending = pending; terminate = terminate }

abbrev before : List DrmOutput
before = output (some 1) true false ∷ output (some 1) false false ∷ output (some 2) true false ∷ []

-- The output that lost its surface gets the new connector.
updated : update_outputs (λ i. true) there before ≡ (
  1 ∷ 1 ∷ [],
  output (some 1) true true ∷ output (some 3) false false ∷ output (some 2) true false ∷ [],
)
unfolding update_outputs
updated = refl

update_outputs-reconciles_example :
    (count (update_outputs (λ i. true) there before).0 1
      ≡ (if info_exists_for_drm_surface there 1 then 0 else outputs_of 1 before))
    × (outputs_of 1 (update_outputs (λ i. true) there before).1 ≡ (
        if info_exists_for_drm_surface there 1
        then (if any (is_on 1) before
            then outputs_of 1 before
            else if appears (λ i. true) there 1
            then 1
            else 0)
        else waiting_of 1 before))
    × (info_exists_for_drm_surface there 1 ≡ false
        → All (IsEnding 1) (update_outputs (λ i. true) there before).1)
update_outputs-reconciles_example = update_outputs-reconciles (λ i. true) there before 1
