-- ===== src/Drm/Connectors.antt =====
-- src/platform/backend/drm.c: the connectors of a card that are connected, each with an encoder and a
-- crtc. libdrm is a parameter.
pub mod Candidates
pub mod Crtcs
pub mod Modes
mod Tests
use wlc.Base.{
  ℕ, zero, suc, ◌+◌, ◌*◌, ◌≡◌, Bool, true, false, ◌&&◌, ◌||◌, not, Option, none, some, List, [],
  ◌∷◌, ◌++◌, length, contains, if◌then◌else◌, ◌==◌, same, ltb,
}
use mathlib.Core.Option
use wlc.Base.Bits.{has_bit}

-- `drmModeModeInfo`, as far as the code reads it. `id` stands for its bytes: two modes are the same by
-- `memcmp` where their ids are.
pub record ModeInfo : Type 0 where
  pub id : ℕ
  pub hdisplay : ℕ
  pub vdisplay : ℕ
  pub vrefresh : ℕ
  pub is_preferred : Bool

pub record Connector : Type 0 where
  pub connector_id : ℕ
  pub encoder_id : ℕ
  pub is_connected : Bool
  pub modes : List ModeInfo

pub record Encoder : Type 0 where
  pub crtc_id : ℕ
  pub possible_crtcs : ℕ

pub record Crtc : Type 0 where
  pub crtc_id : ℕ
  pub mode : Option ModeInfo

-- What the card answers; none is NULL. A crtc that is found has the id that it was asked for by.
pub record Card : Type 0 where
  pub encoders : List ℕ
  pub crtcs : List ℕ
  pub get_encoder : ℕ → Option Encoder
  pub get_crtc : ℕ → Option Crtc
  pub get_crtc_lem : (i : ℕ) (c : Crtc) → get_crtc i ≡ some c → c.crtc_id ≡ i

abbrev pub or_else {ℓ} : {A : Type ℓ} → Option A → Option A → Option A
or_else none p = p
or_else (some a) p = some a

abbrev pub and_then {ℓ κ} : {A : Type ℓ} {B : Type κ} → Option A → (A → Option B) → Option B
and_then none f = none
and_then (some a) f = f a

unfoldable pub first_encoder : Card → List ℕ → Option Encoder
first_encoder k [] = none
first_encoder k (e ∷ es) = or_else (k.get_encoder e) (first_encoder k es)

unfoldable pub find_encoder_for_connector : Card → Connector → Option Encoder
unfolding first_encoder
find_encoder_for_connector k connector =
    or_else (k.get_encoder connector.encoder_id) (first_encoder k k.encoders)

-- `c` is the index of the first of the crtcs that are left; `1 << c` is of 32 bits, which no card
-- exceeds.
unfoldable pub free_crtc : Card → Encoder → List ℕ → ℕ → List ℕ → Option Crtc
free_crtc k encoder used c [] = none
free_crtc k encoder used c (i ∷ is) =
    let rest = free_crtc k encoder used (suc c) is in
    if contains used i || not (has_bit encoder.possible_crtcs c)
    then rest
    else or_else (k.get_crtc i) rest

unfoldable pub find_crtc_for_encoder : Card → Encoder → List ℕ → Option Crtc
unfolding free_crtc
find_crtc_for_encoder k encoder used =
    or_else (k.get_crtc encoder.crtc_id) (free_crtc k encoder used 0 k.crtcs)

-- `struct wlc_output_mode`.
pub record OutputMode : Type 0 where
  pub refresh : ℕ
  pub width : ℕ
  pub height : ℕ
  pub preferred : Bool
  pub current : Bool

-- `struct drm_output_information`; `mode` is none while it is zero.
pub record Information : Type 0 where
  pub connector : ℕ
  pub crtc : ℕ
  pub modes : List OutputMode
  pub mode : Option ModeInfo
  pub width : ℕ
  pub height : ℕ

abbrev pub choose : ModeInfo → Information → Information
choose i info = record info { width = i.hdisplay; height = i.vdisplay; mode = some i }

abbrev pub is_current : Crtc → ModeInfo → Bool
is_current crtc i = elim crtc.mode [ none ↦ false | some m ↦ i.id == m.id ]

-- One round of the loop over the modes of a connector.
unfoldable pub add_mode : Crtc → ModeInfo → Information → Information
add_mode crtc i info =
    let current : Bool = is_current crtc i in
    let mode : OutputMode = record {
      refresh = i.vrefresh * 1000;
      width = i.hdisplay;
      height = i.vdisplay;
      preferred = i.is_preferred;
      current = current;
    } in
    let info1 : Information =
      if i.is_preferred && (info.width == 0 && info.height == 0) then choose i info else info in
    let info2 : Information = if current then choose i info1 else info1 in
    record info2 { modes = info2.modes ++ mode ∷ [] }

unfoldable pub add_modes : Crtc → List ModeInfo → Information → Information
unfolding add_mode
add_modes crtc [] info = info
add_modes crtc (i ∷ is) info = add_modes crtc is (add_mode crtc i info)

abbrev pub prefer : List OutputMode → List OutputMode
prefer [] = []
prefer (m ∷ ms) = record m { preferred = true } ∷ ms

-- Where no mode is preferred or current, the first is.
unfoldable pub default_mode : List ModeInfo → Information → Information
default_mode [] info = info
default_mode (i ∷ is) info =
    if info.width == 0 && info.height == 0
    then record (choose i info) { modes = prefer info.modes }
    else info

unfoldable pub information : Connector → Crtc → Information
unfolding add_modes default_mode
information connector crtc = default_mode connector.modes (
    add_modes crtc connector.modes (record {
      connector = connector.connector_id;
      crtc = crtc.crtc_id;
      modes = [];
      mode = none;
      width = 0;
      height = 0;
    }))

abbrev pub is_usable : Connector → Bool
is_usable connector = connector.is_connected && not (length connector.modes == 0)

-- One round of the loop over the connectors; none is a connector that is passed over.
unfoldable pub query_connector : Card → List ℕ → Connector → Option Information
unfolding find_encoder_for_connector find_crtc_for_encoder information
query_connector k used connector =
    if is_usable connector
    then and_then (find_encoder_for_connector k connector) (λ encoder.
      and_then (find_crtc_for_encoder k encoder used) (λ crtc. some (information connector crtc)))
    else none

-- The information is kept and its crtc is written into `used_crtcs`, an array of as many entries as the
-- card has crtcs; none is a write past its end.
unfoldable pub add_information :
    Card
    → (List ℕ → Option (List Information))
    → List ℕ
    → Option Information
    → Option (List Information)
add_information k rest used none = rest used
add_information k rest used (some info) =
    if ltb (length used) (length k.crtcs)
    then Option.map (λ infos. info ∷ infos) (rest (used ++ info.crtc ∷ []))
    else none

-- `query_drm`, with the connectors that can be got; memory does not run out.
unfoldable pub query_drm : Card → List ℕ → List Connector → Option (List Information)
unfolding query_connector add_information
query_drm k used [] = some []
query_drm k used (c ∷ cs) =
    add_information k (λ used'. query_drm k used' cs) used (query_connector k used c)
