-- ===== src/Drm/Connectors/Crtcs.antt =====
-- The crtcs that the outputs of a card get.
use mathlib.Core.Path.{subst}
use wlc.Base.{
  ℕ, ◌<◌, ◌≤◌, ◌≡◌, ◌∙◌, sym, refl, ◌⊎◌, inl, inr, true, Option, none, some, List, [], ◌∷◌, ◌++◌,
  length, ltb, arith, if-cases,
}
use mathlib.Core.Option
use wlc.Drm.Connectors.Candidates.{
  IsPassed, IsAssigned, Drives, or_else-none, first_encoder-none, find_encoder-IsEncoder,
  find_crtc-IsStarved, find_crtc_for_encoder-Drives,
}
use wlc.Drm.Connectors.{
  ModeInfo, and_then, add_information, Connector, Encoder, Crtc, Card, Information, first_encoder,
  find_encoder_for_connector, find_crtc_for_encoder, add_mode, add_modes, default_mode, information,
  is_usable, query_connector, query_drm,
}

-- What becomes of the connectors, in their order, while the crtcs of those before are used.
abbrev pub Separates : Card → List ℕ → List Connector → Option (List Information) → Type 0
Separates k used [] o = o ≡ some []
Separates k used (c ∷ cs) o =
    (IsPassed k used c × Separates k used cs o)
    ⊎ ((info : Information) × (rest : Option (List Information)) × IsAssigned k used c info
        × (((length used < length k.crtcs)
              × (o ≡ Option.map (λ infos. info ∷ infos) rest)
              × Separates k (used ++ info.crtc ∷ []) cs rest)
            ⊎ ((length k.crtcs ≤ length used) × (o ≡ none))))

-- The crtc of the information is the one that was given.
crtc-add_mode :
    (crtc : Crtc) (i : ModeInfo) (info : Information) → (add_mode crtc i info).crtc ≡ info.crtc
unfolding add_mode
crtc-add_mode crtc i info = ground arith

crtc-add_modes :
    (crtc : Crtc) (is : List ModeInfo) (info : Information)
    → (add_modes crtc is info).crtc ≡ info.crtc
unfolding add_modes
crtc-add_modes crtc [] info = refl
crtc-add_modes crtc (i ∷ is) info =
    crtc-add_modes crtc is (add_mode crtc i info) ∙ crtc-add_mode crtc i info

crtc-default_mode :
    (is : List ModeInfo) (info : Information) → (default_mode is info).crtc ≡ info.crtc
unfolding default_mode
crtc-default_mode [] info = refl
crtc-default_mode (i ∷ is) info = ground arith

crtc-information :
    (connector : Connector) (crtc : Crtc) → (information connector crtc).crtc ≡ crtc.crtc_id
unfolding information
crtc-information connector crtc =
    crtc-default_mode connector.modes _ ∙ crtc-add_modes crtc connector.modes _

connector-add_modes :
    (crtc : Crtc) (is : List ModeInfo) (info : Information)
    → (add_modes crtc is info).connector ≡ info.connector
unfolding add_modes add_mode
connector-add_modes crtc [] info = refl
connector-add_modes crtc (i ∷ is) info =
    connector-add_modes crtc is (add_mode crtc i info) ∙ ground arith

connector-default_mode :
    (is : List ModeInfo) (info : Information) → (default_mode is info).connector ≡ info.connector
unfolding default_mode
connector-default_mode [] info = refl
connector-default_mode (i ∷ is) info = ground arith

connector-information :
    (connector : Connector) (crtc : Crtc)
    → (information connector crtc).connector ≡ connector.connector_id
unfolding information
connector-information connector crtc =
    connector-default_mode connector.modes _ ∙ connector-add_modes crtc connector.modes _

-- What one round leaves: nothing, or the information of the connector.
Outcome : Card → List ℕ → Connector → Option Information → Type 0
Outcome k used c none = IsPassed k used c
Outcome k used c (some info) = IsAssigned k used c info

crtc-Outcome :
    (k : Card) (used : List ℕ) (c : Connector) (e : Encoder)
    → is_usable c ≡ true
    → find_encoder_for_connector k c ≡ some e
    → (o : Option Crtc) → find_crtc_for_encoder k e used ≡ o
    → Outcome k used c (and_then o (λ crtc. some (information c crtc)))
unfolding Outcome
crtc-Outcome k used c e t found none g =
    inr (inr (e, find_encoder-IsEncoder k c e found, find_crtc-IsStarved k e used g))
crtc-Outcome k used c e t found (some crtc) g = (
  t,
  connector-information c crtc,
  (
    e,
    find_encoder-IsEncoder k c e found,
    subst (Drives k used e) (sym (crtc-information c crtc))
        (find_crtc_for_encoder-Drives k e used crtc g),
  ),
)

encoder-Outcome :
    (k : Card) (used : List ℕ) (c : Connector)
    → is_usable c ≡ true
    → (o : Option Encoder) → find_encoder_for_connector k c ≡ o
    → Outcome k used c (
        and_then o
          (λ e. and_then (find_crtc_for_encoder k e used) (λ crtc. some (information c crtc))))
unfolding find_encoder_for_connector Outcome
encoder-Outcome k used c t none g =
    let (n, f) = or_else-none (k.get_encoder c.encoder_id) (first_encoder k k.encoders) g in
    inr (inl (n, first_encoder-none k k.encoders f))
encoder-Outcome k used c t (some e) g =
    crtc-Outcome k used c e t g (find_crtc_for_encoder k e used) refl

query_connector-Outcome :
    (k : Card) (used : List ℕ) (c : Connector) → Outcome k used c (query_connector k used c)
unfolding query_connector Outcome
query_connector-Outcome k used c =
    if-cases (Outcome k used c) (is_usable c) _ none
      (λ t. encoder-Outcome k used c t (find_encoder_for_connector k c) refl) (λ f. inl f)

add_information-Separates :
    (k : Card) (used : List ℕ) (c : Connector) (cs : List Connector)
    (rest : List ℕ → Option (List Information)) (o : Option Information)
    → Outcome k used c o
    → ((used' : List ℕ) → Separates k used' cs (rest used'))
    → Separates k used (c ∷ cs) (add_information k rest used o)
unfolding add_information Outcome
add_information-Separates k used c cs rest none a g = inl (a, g used)
add_information-Separates k used c cs rest (some info) a g =
    if-cases (λ (r : Option (List Information)). Separates k used (c ∷ cs) r)
      (ltb (length used) (length k.crtcs)) _ none
      (λ t. inr (
        info,
        rest (used ++ info.crtc ∷ []),
        a,
        inl (ground (arith, t), refl, g (used ++ info.crtc ∷ [])),
      ))
      (λ f. inr (info, none, a, inr (ground (arith, f), refl)))

-- The connectors of a card, in their order: one that is connected and has modes gets an output under
-- its id, if an encoder can be got, the one it names or else the first of the card's, and a crtc for
-- that encoder: the one that drives it already, or, where none does, a crtc of the card that the
-- encoder can be driven by and that no output before it got. Where one of these is missing it gets
-- none. There is no result exactly if an output comes when as many crtcs are noted as used as the card
-- has, which writes past the end of `used_crtcs`.
pub query_drm-Separates :
    (k : Card) (used : List ℕ) (connectors : List Connector)
    → Separates k used connectors (query_drm k used connectors)
unfolding query_drm
query_drm-Separates k used [] = refl
query_drm-Separates k used (c ∷ cs) =
    add_information-Separates k used c cs (λ used'. query_drm k used' cs) (query_connector k used c)
      (query_connector-Outcome k used c) (λ used'. query_drm-Separates k used' cs)
