-- ===== src/Drm/Outputs.antt =====
-- src/platform/backend/drm.c: update_outputs, which brings the outputs of the compositor in line with
-- the connectors of the card; with what `wlc_output_terminate` and `add_output` of the compositor do to
-- the surfaces of the outputs. An output is known by the connector of its backend surface, and is none
-- without one.
pub mod Reconciled
mod Tests
use wlc.Base.{
  ℕ, suc, ◌+◌, Bool, true, false, ◌&&◌, ◌||◌, not, Option, none, some, List, [], ◌∷◌, ◌++◌, any,
  map, if◌then◌else◌, ◌==◌,
}
use wlc.Drm.Connectors.{Information}

-- An output: the connector of its surface, whether a frame is pending, and `task.terminate`.
pub record DrmOutput : Type 0 where
  pub connector : Option ℕ
  pub pending : Bool
  pub terminate : Bool

abbrev pub is_connector : ℕ → Option ℕ → Bool
is_connector c none = false
is_connector c (some d) = d == c

abbrev pub is_on : ℕ → DrmOutput → Bool
is_on c o = is_connector c o.connector

abbrev pub output_exists_for_connector : List DrmOutput → ℕ → Bool
output_exists_for_connector outputs c = any (is_on c) outputs

abbrev pub info_exists_for_drm_surface : List Information → ℕ → Bool
info_exists_for_drm_surface infos c = any (λ info. info.connector == c) infos

-- Whether the output has a surface whose connector is gone.
abbrev pub is_lost : List Information → Option ℕ → Bool
is_lost infos none = false
is_lost infos (some c) = not (info_exists_for_drm_surface infos c)

-- `wlc_output_terminate`: it waits for the end of a frame, and otherwise takes the surface.
unfoldable pub terminate_output : DrmOutput → DrmOutput
terminate_output o =
    if o.pending then record o { terminate = true } else record o { connector = none }

unfoldable pub drop_lost : List Information → List DrmOutput → List DrmOutput
unfolding terminate_output
drop_lost infos os = map (λ o. if is_lost infos o.connector then terminate_output o else o) os

abbrev pub lost : List Information → Option ℕ → List ℕ
lost infos none = []
lost infos (some c) = if info_exists_for_drm_surface infos c then [] else c ∷ []

-- The connectors of the outputs for which `wlc_output_terminate` is called.
unfoldable pub terminated : List Information → List DrmOutput → List ℕ
terminated infos [] = []
terminated infos (o ∷ os) = lost infos o.connector ++ terminated infos os

abbrev pub has_connector : Option ℕ → Bool
has_connector none = false
has_connector (some c) = true

-- The output that `add_output` takes: the first without a surface, or else a new one.
unfoldable pub place : ℕ → List DrmOutput → List DrmOutput
place c [] = record { connector = some c; pending = false; terminate = false } ∷ []
place c (o ∷ os) =
    if has_connector o.connector then o ∷ place c os else record o { connector = some c } ∷ os

-- The loop over the connectors. `can_add` is whether gbm makes the surface, or the mode is set, and the
-- compositor takes the output, with a context and a renderer for it; an output that is refused is left
-- without a surface, and is left out here.
unfoldable pub add_outputs :
    (Information → Bool) → List Information → List DrmOutput → List DrmOutput
unfolding place
add_outputs can_add [] os = os
add_outputs can_add (i ∷ is) os = add_outputs can_add is (
    if output_exists_for_connector os i.connector || not (can_add i)
    then os
    else place i.connector os)

-- The number of the outputs that were added, which is returned too, is left out.
unfoldable pub update_outputs :
    (Information → Bool) → List Information → List DrmOutput → List ℕ × List DrmOutput
unfolding terminated drop_lost add_outputs
update_outputs can_add infos os =
    (terminated infos os, add_outputs can_add infos (drop_lost infos os))
