-- ===== src/Drm/Connectors/Modes.antt =====
-- The mode that is chosen for a connector.
use mathlib.Core.Path.{subst}
use wlc.Base.{
  ◌<◌, ◌≡◌, sym, refl, Bool, true, false, ◌&&◌, Option, none, some, List, [], ◌∷◌, All, arith,
  if◌then◌else◌, ◌==◌, if-true, if-false,
}
use wlc.Drm.Connectors.{
  or_else, ModeInfo, Connector, Crtc, Information, OutputMode, choose, is_current, add_mode,
  add_modes, default_mode, information,
}

-- The last mode that passes a test, and the first.
abbrev pub last_where : (ModeInfo → Bool) → List ModeInfo → Option ModeInfo
last_where p [] = none
last_where p (i ∷ is) = or_else (last_where p is) (if p i then some i else none)

abbrev pub first_where : (ModeInfo → Bool) → List ModeInfo → Option ModeInfo
first_where p [] = none
first_where p (i ∷ is) = if p i then some i else first_where p is

abbrev pub head? : List ModeInfo → Option ModeInfo
head? [] = none
head? (i ∷ is) = some i

-- What the size and the mode say of the choice so far.
abbrev pub Chosen : Option ModeInfo → Information → Type 0
Chosen none info = (info.mode ≡ none) × (info.width ≡ 0) × (info.height ≡ 0)
Chosen (some m) info =
    (info.mode ≡ some m) × (info.width ≡ m.hdisplay) × (info.height ≡ m.vdisplay) × (0 < m.hdisplay)

abbrev pick : Crtc → ModeInfo → Option ModeInfo → Option ModeInfo
pick crtc i o =
    if is_current crtc i then some i else or_else o (if i.is_preferred then some i else none)

-- The fields that say nothing of the choice.
Chosen-modes :
    (o : Option ModeInfo) (info : Information) (ms : List OutputMode)
    → Chosen o info
    → Chosen o (record info { modes = ms })
Chosen-modes none info ms k = k
Chosen-modes (some m) info ms k = k

choose-Chosen :
    (b : Bool) (i : ModeInfo) (o : Option ModeInfo) (info : Information)
    → 0 < i.hdisplay
    → Chosen o info
    → Chosen (if b then some i else o) (if b then choose i info else info)
choose-Chosen true i o info p k = (refl, refl, refl, p)
choose-Chosen false i o info p k = k

prefer-Chosen :
    (b : Bool) (i : ModeInfo) (o : Option ModeInfo) (info : Information)
    → 0 < i.hdisplay
    → Chosen o info
    → Chosen
        (or_else o (if b then some i else none))
        (if b && (info.width == 0 && info.height == 0) then choose i info else info)
prefer-Chosen true i none info p k =
    subst (Chosen (some i))
      (sym (if-true _ _ (info.width == 0 && info.height == 0) (ground (arith, k.1, k.2))))
      (refl, refl, refl, p)
prefer-Chosen false i none info p k = k
prefer-Chosen b i (some m) info p k =
    subst (Chosen (some m))
      (sym (if-false _ _ (b && (info.width == 0 && info.height == 0)) (ground (arith, k.1, k.3)))) k

add_mode-Chosen :
    (crtc : Crtc) (i : ModeInfo) (o : Option ModeInfo) (info : Information)
    → 0 < i.hdisplay
    → Chosen o info
    → Chosen (pick crtc i o) (add_mode crtc i info)
unfolding add_mode
add_mode-Chosen crtc i o info p k = Chosen-modes (pick crtc i o) _ _ (
    choose-Chosen (is_current crtc i) i (or_else o (if i.is_preferred then some i else none)) _ p
      (prefer-Chosen i.is_preferred i o info p k))

-- The choice over all the modes.
abbrev reference_from : Crtc → List ModeInfo → Option ModeInfo → Option ModeInfo
reference_from crtc is o =
    or_else (last_where (is_current crtc) is) (or_else o (first_where (λ i. i.is_preferred) is))

or_else-pick :
    (i : ModeInfo) (l f o : Option ModeInfo) (cur pref : Bool)
    → or_else l (or_else (if cur then some i else or_else o (if pref then some i else none)) f)
      ≡ or_else (or_else l (if cur then some i else none)) (or_else o (if pref then some i else f))
or_else-pick i (some j) f o cur pref = refl
or_else-pick i none f o true pref = refl
or_else-pick i none f (some j) false pref = refl
or_else-pick i none f none false true = refl
or_else-pick i none f none false false = refl

add_modes-Chosen :
    (crtc : Crtc) (is : List ModeInfo) (o : Option ModeInfo) (info : Information)
    → All (λ i. 0 < i.hdisplay) is
    → Chosen o info
    → Chosen (reference_from crtc is o) (add_modes crtc is info)
unfolding add_modes
add_modes-Chosen crtc [] none info p k = k
add_modes-Chosen crtc [] (some m) info p k = k
add_modes-Chosen crtc (i ∷ is) o info p k =
    subst (λ (q : Option ModeInfo). Chosen q (add_modes crtc is (add_mode crtc i info)))
      (or_else-pick i (last_where (is_current crtc) is) (first_where (λ i. i.is_preferred) is) o
        (is_current crtc i) i.is_preferred)
      (add_modes-Chosen crtc is (pick crtc i o) (add_mode crtc i info) p.1
        (add_mode-Chosen crtc i o info p.0 k))

default_mode-Chosen :
    (is : List ModeInfo) (o : Option ModeInfo) (info : Information)
    → All (λ i. 0 < i.hdisplay) is
    → Chosen o info
    → Chosen (or_else o (head? is)) (default_mode is info)
unfolding default_mode
default_mode-Chosen [] none info p k = k
default_mode-Chosen [] (some m) info p k = k
default_mode-Chosen (i ∷ is) none info p k =
    subst (Chosen (some i))
      (sym (if-true _ _ (info.width == 0 && info.height == 0) (ground (arith, k.1, k.2))))
      (refl, refl, refl, p.0)
default_mode-Chosen (i ∷ is) (some m) info p k =
    subst (Chosen (some m))
      (sym (if-false _ _ (info.width == 0 && info.height == 0) (ground (arith, k.1, k.3)))) k

-- The last mode that the crtc has now, or else the first preferred one, or else the first.
abbrev pub reference_mode : Crtc → List ModeInfo → Option ModeInfo
reference_mode crtc is =
    or_else (or_else (last_where (is_current crtc) is) (first_where (λ i. i.is_preferred) is))
      (head? is)

-- Where the modes of a connector are wider than 0, the mode of its information is the reference one,
-- and the size is that mode's: the last mode that the crtc has now, or else the first preferred one,
-- or else the first; with no modes there is none, and the size is 0 by 0.
pub information-mode :
    (connector : Connector) (crtc : Crtc)
    → All (λ i. 0 < i.hdisplay) connector.modes
    → Chosen (reference_mode crtc connector.modes) (information connector crtc)
unfolding information
information-mode connector crtc p =
    default_mode-Chosen connector.modes (reference_from crtc connector.modes none) _ p
      (add_modes-Chosen crtc connector.modes none _ p (refl, refl, refl))
