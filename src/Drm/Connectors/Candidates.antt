-- ===== src/Drm/Connectors/Candidates.antt =====
-- The encoders and the crtcs that connectors can get.
use mathlib.Core.Path.{subst}
use wlc.Base.{
  ℕ, zero, suc, ◌+◌, ◌≡◌, ◌∙◌, sym, refl, ap, ◌⊎◌, inl, inr, true, false, ◌||◌, not, Option, none,
  some, List, [], ◌∷◌, ◌++◌, All, contains, get_elem?, arith, if-cases, if-false,
}
use wlc.Base.Bits.{has_bit}
use wlc.Drm.Connectors.{
  or_else, and_then, Connector, Encoder, Crtc, Card, Information, first_encoder,
  find_encoder_for_connector, free_crtc, find_crtc_for_encoder, is_usable,
}

-- A crtc that is free for an encoder: listed at an index that the encoder allows, and unused.
abbrev pub IsFree : Card → Encoder → List ℕ → ℕ → Type 0
IsFree k e used i =
    (n : ℕ) × (get_elem? k.crtcs n ≡ some i)
    × (has_bit e.possible_crtcs n ≡ true)
    × (contains used i ≡ false)

-- The crtc of an encoder: the one that drives it already if there is one, or else a free one.
abbrev pub Drives : Card → List ℕ → Encoder → ℕ → Type 0
Drives k used e i =
    ((c : Crtc) × (k.get_crtc e.crtc_id ≡ some c) × (i ≡ e.crtc_id))
    ⊎ ((k.get_crtc e.crtc_id ≡ none) × IsFree k e used i)

-- No crtc can be had for an encoder: none drives it, and none that is free can be got.
abbrev pub IsStarved : Card → Encoder → List ℕ → Type 0
IsStarved k e used =
    (k.get_crtc e.crtc_id ≡ none)
    × ((n i : ℕ)
        → get_elem? k.crtcs n ≡ some i
        → has_bit e.possible_crtcs n ≡ true
        → contains used i ≡ false
        → k.get_crtc i ≡ none)

-- The encoder of a connector: the one that it names, or else the first of the card that can be got.
abbrev pub IsEncoder : Card → Connector → Encoder → Type 0
IsEncoder k connector e =
    (k.get_encoder connector.encoder_id ≡ some e)
    ⊎ ((k.get_encoder connector.encoder_id ≡ none)
        × (before : List ℕ) × (i : ℕ) × (after : List ℕ) × (k.encoders ≡ before ++ i ∷ after)
        × (k.get_encoder i ≡ some e)
        × All (λ j. k.get_encoder j ≡ none) before)

-- A connector that gets no output: it is unusable, or has no encoder, or no crtc for it.
abbrev pub IsPassed : Card → List ℕ → Connector → Type 0
IsPassed k used connector =
    (is_usable connector ≡ false)
    ⊎ (((k.get_encoder connector.encoder_id ≡ none) × All (λ j. k.get_encoder j ≡ none) k.encoders)
        ⊎ ((e : Encoder) × IsEncoder k connector e × IsStarved k e used))

-- The information of a connector, with a crtc of its encoder.
abbrev pub IsAssigned : Card → List ℕ → Connector → Information → Type 0
IsAssigned k used connector info =
    (is_usable connector ≡ true)
    × (info.connector ≡ connector.connector_id)
    × ((e : Encoder) × IsEncoder k connector e × Drives k used e info.crtc)

-- A value that is found, and where.
or_else-cases {ℓ} :
    {A : Type ℓ} (o p : Option A) (a : A)
    → or_else o p ≡ some a
    → (o ≡ some a) ⊎ ((o ≡ none) × (p ≡ some a))
or_else-cases none p a h = inr (refl, h)
or_else-cases (some b) p a h = inl h

and_then-some {ℓ κ} :
    {A : Type ℓ} {B : Type κ} (o : Option A) (f : A → Option B) (b : B)
    → and_then o f ≡ some b
    → (a : A) × (o ≡ some a) × (f a ≡ some b)
and_then-some none f b h = cc
and_then-some (some a) f b h = (a, refl, h)

shift_plus : (c n : ℕ) → c + suc n ≡ suc c + n
shift_plus c n = omega arith

zero_plus : (n : ℕ) → n ≡ 0 + n
zero_plus n = omega arith

plus_zero : (c : ℕ) → c + 0 ≡ c
plus_zero c = omega arith

module _ (k : Card) (e : Encoder) (used : List ℕ) where
  found-IsFree :
      (c i : ℕ) (crtc : Crtc)
      → get_elem? k.crtcs (c + 0) ≡ some i
      → contains used i || not (has_bit e.possible_crtcs c) ≡ false
      → k.get_crtc i ≡ some crtc
      → IsFree k e used crtc.crtc_id
  found-IsFree c i crtc at f g =
      let here : get_elem? k.crtcs c ≡ some i =
        subst (λ (m : ℕ). get_elem? k.crtcs m ≡ some i) (plus_zero c) at in
      let allowed : has_bit e.possible_crtcs c ≡ true = ground (arith, f) in
      let unused : contains used i ≡ false = ground (arith, f) in
      let free : IsFree k e used i = (c, here, allowed, unused) in
      subst (IsFree k e used) (sym (k.get_crtc_lem i crtc g)) free

  -- The crtcs from an index on.
  free_crtc-IsFree :
      (c : ℕ) (is : List ℕ) (crtc : Crtc)
      → ((n i : ℕ) → get_elem? is n ≡ some i → get_elem? k.crtcs (c + n) ≡ some i)
      → free_crtc k e used c is ≡ some crtc
      → IsFree k e used crtc.crtc_id
  unfolding free_crtc
  free_crtc-IsFree c [] crtc at = λ h. absurd (ground (arith, h))
  free_crtc-IsFree c (i ∷ is) crtc at =
      let rest : Option Crtc = free_crtc k e used (suc c) is in
      let later : rest ≡ some crtc → IsFree k e used crtc.crtc_id =
        free_crtc-IsFree (suc c) is crtc (λ n j h.
          subst (λ (m : ℕ). get_elem? k.crtcs m ≡ some j) (shift_plus c n) (at (suc n) j h)) in
      if-cases (λ (r : Option Crtc). r ≡ some crtc → IsFree k e used crtc.crtc_id)
        (contains used i || not (has_bit e.possible_crtcs c)) rest (or_else (k.get_crtc i) rest)
        (λ t. later)
        (λ f h. elim (or_else-cases (k.get_crtc i) rest crtc h) [
          | inl g ↦ found-IsFree c i crtc (at 0 i refl) f g
          | inr g ↦ later g.1
        ])

  pub find_crtc_for_encoder-Drives :
      (crtc : Crtc) → find_crtc_for_encoder k e used ≡ some crtc → Drives k used e crtc.crtc_id
  unfolding find_crtc_for_encoder
  find_crtc_for_encoder-Drives crtc h =
      elim (or_else-cases (k.get_crtc e.crtc_id) (free_crtc k e used 0 k.crtcs) crtc h) [
        | inl g ↦ inl (crtc, g, k.get_crtc_lem e.crtc_id crtc g)
        | inr g ↦ inr (
          g.0,
          free_crtc-IsFree 0 k.crtcs crtc
              (λ n i h'. subst (λ (m : ℕ). get_elem? k.crtcs m ≡ some i) (zero_plus n) h') g.1,
        )
      ]

-- Nothing is found, and so there was nothing.
pub or_else-none {ℓ} : {A : Type ℓ} (o p : Option A) → or_else o p ≡ none → (o ≡ none) × (p ≡ none)
or_else-none none p h = (refl, h)
or_else-none (some a) p h = cc

first_encoder-first :
    (k : Card) (is : List ℕ) (e : Encoder)
    → first_encoder k is ≡ some e
    → (before : List ℕ) × (i : ℕ) × (after : List ℕ) × (is ≡ before ++ i ∷ after)
      × (k.get_encoder i ≡ some e)
      × All (λ j. k.get_encoder j ≡ none) before
unfolding first_encoder
first_encoder-first k [] e h = cc
first_encoder-first k (i ∷ is) e h =
    elim (or_else-cases (k.get_encoder i) (first_encoder k is) e h) [
      | inl g ↦ ([], i, is, refl, g, tt)
      | inr (n, g) ↦
          let (before, j, after, at, got, none_before) = first_encoder-first k is e g in
          (i ∷ before, j, after, ap (◌∷◌ i) at, got, (n, none_before))
    ]

pub first_encoder-none :
    (k : Card) (is : List ℕ) → first_encoder k is ≡ none → All (λ j. k.get_encoder j ≡ none) is
unfolding first_encoder
first_encoder-none k [] h = tt
first_encoder-none k (i ∷ is) h =
    let (n, g) = or_else-none (k.get_encoder i) (first_encoder k is) h in
    (n, first_encoder-none k is g)

pub find_encoder-IsEncoder :
    (k : Card) (c : Connector) (e : Encoder)
    → find_encoder_for_connector k c ≡ some e
    → IsEncoder k c e
unfolding find_encoder_for_connector
find_encoder-IsEncoder k c e h =
    elim (or_else-cases (k.get_encoder c.encoder_id) (first_encoder k k.encoders) e h) [
      | inl g ↦ inl g
      | inr (n, g) ↦
          let (before, i, after, at, got, clear) = first_encoder-first k k.encoders e g in
          inr (n, before, i, after, at, got, clear)
    ]

-- No crtc from an index on.
free_crtc-none :
    (k : Card) (e : Encoder) (used : List ℕ) (c : ℕ) (is : List ℕ)
    → free_crtc k e used c is ≡ none
    → (n i : ℕ) → get_elem? is n ≡ some i
    → has_bit e.possible_crtcs (c + n) ≡ true
    → contains used i ≡ false
    → k.get_crtc i ≡ none
unfolding free_crtc
free_crtc-none k e used c [] h n i at b u = cc
free_crtc-none k e used c (j ∷ is) h zero i at b u =
    let same : j ≡ i = cc in
    let allowed : has_bit e.possible_crtcs c ≡ true =
      subst (λ (m : ℕ). has_bit e.possible_crtcs m ≡ true) (plus_zero c) b in
    let unused : contains used j ≡ false = ap (contains used) same ∙ u in
    let taken : contains used j || not (has_bit e.possible_crtcs c) ≡ false =
      ground (arith, allowed, unused) in
    ap k.get_crtc (sym same)
    ∙ (or_else-none (k.get_crtc j) _
        (sym (if-false _ _ (contains used j || not (has_bit e.possible_crtcs c)) taken) ∙ h)).0
free_crtc-none k e used c (j ∷ is) h (suc n) i at b u =
    let rest : free_crtc k e used (suc c) is ≡ none =
      if-cases (λ (r : Option Crtc). r ≡ none → free_crtc k e used (suc c) is ≡ none)
        (contains used j || not (has_bit e.possible_crtcs c)) _ _ (λ t g. g)
        (λ f g. (or_else-none (k.get_crtc j) _ g).1) h in
    free_crtc-none k e used (suc c) is rest n i at
      (subst (λ (m : ℕ). has_bit e.possible_crtcs m ≡ true) (shift_plus c n) b) u

pub find_crtc-IsStarved :
    (k : Card) (e : Encoder) (used : List ℕ)
    → find_crtc_for_encoder k e used ≡ none
    → IsStarved k e used
unfolding find_crtc_for_encoder
find_crtc-IsStarved k e used h =
    let (n, f) = or_else-none (k.get_crtc e.crtc_id) (free_crtc k e used 0 k.crtcs) h in
    (
      n,
      λ m i at b u.
          free_crtc-none k e used 0 k.crtcs f m i at
            (subst (λ (q : ℕ). has_bit e.possible_crtcs q ≡ true) (zero_plus m) b) u,
    )
