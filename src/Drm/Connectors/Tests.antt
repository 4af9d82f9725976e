-- ===== src/Drm/Connectors/Tests.antt =====
-- A card with two connectors, of which the second has no crtc of its own.
use wlc.Base.{
  ℕ, ◌≡◌, refl, true, false, Option, none, some, List, [], ◌∷◌, map, arith, if◌then◌else◌, ◌==◌,
}
use wlc.Drm.Connectors.{
  ModeInfo, Connector, Encoder, Crtc, Card, Information, information, query_drm,
}
use wlc.Drm.Connectors.Crtcs.{Separates, query_drm-Separates}
use wlc.Drm.Connectors.Modes.{Chosen, reference_mode, information-mode}

abbrev wide : ModeInfo
wide = record { id = 1; hdisplay = 1920; vdisplay = 1080; vrefresh = 60; is_preferred = true }

abbrev narrow : ModeInfo
narrow = record { id = 2; hdisplay = 800; vdisplay = 600; vrefresh = 60; is_preferred = false }

abbrev screen : ℕ → ℕ → Connector
screen i e = record {
  connector_id = i;
  encoder_id = e;
  is_connected = true;
  modes = narrow ∷ wide ∷ [];
}

abbrev crtc_of : ℕ → Crtc
crtc_of i = record { crtc_id = i; mode = none }

-- Encoder 1 is driven by crtc 11, encoder 2 by none, and both may be by 11 and 12.
abbrev two_encoders : ℕ → Option Encoder
two_encoders e =
    if e == 1
    then some (record { crtc_id = 11; possible_crtcs = 3 })
    else if e == 2
    then some (record { crtc_id = 0; possible_crtcs = 3 })
    else none

abbrev two_crtcs : ℕ → Option Crtc
two_crtcs i = if i == 11 then some (crtc_of i) else if i == 12 then some (crtc_of i) else none

two_crtcs_lem : (i : ℕ) (c : Crtc) → two_crtcs i ≡ some c → c.crtc_id ≡ i
two_crtcs_lem i c h = ground (arith, h)

abbrev card : Card
card = record {
  encoders = 1 ∷ 2 ∷ [];
  crtcs = 11 ∷ 12 ∷ [];
  get_encoder = two_encoders;
  get_crtc = two_crtcs;
  get_crtc_lem = two_crtcs_lem;
}

abbrev crtcs_of : Option (List Information) → Option (List ℕ)
crtcs_of none = none
crtcs_of (some infos) = some (map (λ info. info.crtc) infos)

in_turn : crtcs_of (query_drm card [] (screen 1 1 ∷ screen 2 2 ∷ [])) ≡ some (11 ∷ 12 ∷ [])
unfolding query_drm
in_turn = refl

-- In the other order the first connector gets the crtc that drives the second.
shared : crtcs_of (query_drm card [] (screen 2 2 ∷ screen 1 1 ∷ [])) ≡ some (11 ∷ 11 ∷ [])
unfolding query_drm
shared = refl

-- Three connectors share the crtc of one encoder, and the array has two entries.
overrun : query_drm card [] (screen 1 1 ∷ screen 2 1 ∷ screen 3 1 ∷ []) ≡ none
unfolding query_drm
overrun = refl

query_drm-Separates_example :
    Separates card []
      (screen 1 1 ∷ screen 2 2 ∷ [])
      (query_drm card [] (screen 1 1 ∷ screen 2 2 ∷ []))
query_drm-Separates_example = query_drm-Separates card [] (screen 1 1 ∷ screen 2 2 ∷ [])

information-mode_example :
    Chosen
      (reference_mode (crtc_of 11) (narrow ∷ wide ∷ []))
      (information (screen 1 1) (crtc_of 11))
information-mode_example =
    information-mode (screen 1 1) (crtc_of 11) (omega arith, (omega arith, tt))
