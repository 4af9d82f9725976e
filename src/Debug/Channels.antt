-- ===== src/Debug/Channels.antt =====
-- A channel is active where one of the names of the list begins with its name.
use wlc.Base.{
  ℕ, ◌≡◌, ◌∙◌, sym, refl, ap, inl, inr, Bool, true, false, ◌&&◌, ◌||◌, List, [], ◌∷◌, starts_with,
  contains, any, arith, if◌then◌else◌, ◌==◌, Bool-cases,
}
use wlc.Debug.{Scan, active, inactive, past_end, comma, scan}

-- The name at the start of a text, and those after each comma.
abbrev pub first_name : List ℕ → List ℕ
first_name [] = []
first_name (c ∷ s) = if c == comma then [] else c ∷ first_name s

abbrev pub later_names : List ℕ → List (List ℕ)
later_names [] = []
later_names (c ∷ s) = if c == comma then first_name s ∷ later_names s else later_names s

abbrev pub names : List ℕ → List (List ℕ)
names s = first_name s ∷ later_names s

-- Whether a text ends after a comma, or with the start that is given.
abbrev pub is_closed : Bool → List ℕ → Bool
is_closed b [] = b
is_closed b (c ∷ s) = is_closed (c == comma) s

starts_with-first_name :
    (name s : List ℕ)
    → contains name comma ≡ false
    → starts_with name s ≡ starts_with name (first_name s)
starts_with-first_name [] s h = refl
starts_with-first_name (n ∷ name) [] h = refl
starts_with-first_name (n ∷ name) (c ∷ s) h = elim (Bool-cases (c == comma)) [
  | inl y ↦ ground (arith, h, y)
  | inr f ↦ ground (arith, h, f, starts_with-first_name name s)
]

-- What the scan should find.
abbrev pub found : List ℕ → Bool → List ℕ → Scan
found name at_start s =
    if (at_start && starts_with name (first_name s)) || any (starts_with name) (later_names s)
    then active
    else if is_closed at_start s
    then inactive
    else past_end

module _ (name : List ℕ) (c : ℕ) (s : List ℕ) where
  found-within : found name false (c ∷ s) ≡ found name (c == comma) s
  found-within = elim (Bool-cases (c == comma)) [
    | inl y ↦ ground (arith, y)
    | inr f ↦ ground (arith, f)
  ]

  found-start :
      found name true (c ∷ s)
      ≡ (if starts_with name (first_name (c ∷ s)) then active else found name (c == comma) s)
  found-start = elim (Bool-cases (starts_with name (first_name (c ∷ s)))) [
    | inl t ↦ ground (arith, t)
    | inr n ↦ elim (Bool-cases (c == comma)) [
      | inl y ↦ ground (arith, y, n)
      | inr f ↦ ground (arith, f, n)
    ]
  ]

-- For a name that has no comma and is not empty, the scan of a text finds the channel active exactly if
-- one of the names between the commas begins with it; if none does, it ends well where the text is
-- empty or ends with a comma, and reads past the end of every other text.
pub scan-found :
    (n : ℕ) (name : List ℕ) (at_start : Bool) (s : List ℕ)
    → contains (n ∷ name) comma ≡ false
    → scan (n ∷ name) at_start s ≡ found (n ∷ name) at_start s
unfolding scan
scan-found n name true [] h = refl
scan-found n name false [] h = refl
scan-found n name true (c ∷ s) h =
    let full : List ℕ = n ∷ name in
    ap (λ (b : Bool). if b then active else scan full (c == comma) s)
      (starts_with-first_name full (c ∷ s) h)
    ∙ ap (λ (r : Scan). if starts_with full (first_name (c ∷ s)) then active else r)
        (scan-found n name (c == comma) s h)
    ∙ sym (found-start full c s)
scan-found n name false (c ∷ s) h =
    scan-found n name (c == comma) s h ∙ sym (found-within (n ∷ name) c s)
