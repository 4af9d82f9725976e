-- ===== src/Compositor/Output/Choice.antt =====
-- The mode that an output gets.
use wlc.Base.{
  ◌∙◌, ap, sym, dec_lt, All-map, ℕ, zero, suc, ◌+◌, ◌≡◌, ◌<◌, ◌≤◌, ◌⊎◌, inl, inr, refl, Option,
  none, some, List, [], ◌∷◌, arith, get_elem?, if◌then◌else◌, All,
}
use wlc.Compositor.World.{Mode}
use wlc.Compositor.Output.Modes.{area, consider, Choice, consider_all, choose_mode}

-- The last mode that is marked as current, counted from `i`.
unfoldable pub last_current : ℕ → List Mode → Option ℕ
last_current i [] = none
last_current i (m ∷ ms) = elim (last_current (suc i) ms) [
  | some j ↦ some j
  | none ↦ if m.current then some i else none
]

-- The first mode that is marked as preferred.
unfoldable pub first_preferred : ℕ → List Mode → Option ℕ
first_preferred i [] = none
first_preferred i (m ∷ ms) =
    let rest = first_preferred (suc i) ms in if m.preferred then some i else rest

abbrev pub or_else : Option ℕ → Option ℕ → Option ℕ
or_else none b = b
or_else (some a) b = some a

active-consider_all :
    (i : ℕ) (ms : List Mode) (c : Choice)
    → (consider_all i ms c).active
      ≡ or_else (last_current i ms) (or_else c.active (first_preferred i ms))
unfolding consider_all last_current first_preferred
active-consider_all i [] c = ground arith
active-consider_all i (m ∷ ms) c = ground (arith, active-consider_all (suc i) ms (consider i m c))

largest-consider_all :
    (i : ℕ) (ms : List Mode) (c : Choice)
    → (c.largest ≤ (consider_all i ms c).largest)
      × All (λ m. area m ≤ (consider_all i ms c).largest) ms
unfolding consider_all consider
largest-consider_all i [] c = (omega arith, tt)
largest-consider_all i (m ∷ ms) c =
    let (low, rest) = largest-consider_all (suc i) ms (consider i m c) in
    (ground (arith, low), (ground (arith, low), rest))

-- What the loop leaves in `fallback`.
abbrev Fallback : ℕ → List Mode → Choice → Choice → Type 0
Fallback i ms c d =
    ((d.fallback ≡ c.fallback) × (d.largest ≡ c.largest))
    ⊎ ((k : ℕ) × (m : Mode) × (d.fallback ≡ some (i + k))
        × (get_elem? ms k ≡ some m)
        × (area m ≡ d.largest)
        × (c.largest < area m))

consider-larger :
    (i : ℕ) (m : Mode) (c : Choice)
    → c.largest < area m
    → ((consider i m c).fallback ≡ some i) × ((consider i m c).largest ≡ area m)
unfolding consider
consider-larger i m c h = (ground arith, ground arith)

consider-smaller :
    (i : ℕ) (m : Mode) (c : Choice)
    → area m ≤ c.largest
    → ((consider i m c).fallback ≡ c.fallback) × ((consider i m c).largest ≡ c.largest)
unfolding consider
consider-smaller i m c h = (ground arith, ground arith)

consider_all-Fallback :
    (i : ℕ) (ms : List Mode) (c : Choice) → Fallback i ms c (consider_all i ms c)
unfolding consider_all
consider_all-Fallback i [] c = inl (refl, refl)
consider_all-Fallback i (m ∷ ms) c =
    step (consider_all-Fallback (suc i) ms (consider i m c)) (dec_lt c.largest (area m))
  where
    step :
        Fallback (suc i) ms (consider i m c) (consider_all (suc i) ms (consider i m c))
        → Dec (c.largest < area m)
        → Fallback i (m ∷ ms) c (consider_all (suc i) ms (consider i m c))
    step (inl (f, l)) (yes h) =
        let (g, a) = consider-larger i m c h in
        inr (zero, m, f ∙ g ∙ ap some (omega arith), refl, sym (l ∙ a), h)
    step (inl (f, l)) (no h) =
        let (g, a) = consider-smaller i m c (omega arith) in inl (f ∙ g, l ∙ a)
    step (inr (k, n, f, g, l, lt)) (yes h) =
        let (u, a) = consider-larger i m c h in
        inr (suc k, n, f ∙ ap some (omega arith), g, l, omega arith)
    step (inr (k, n, f, g, l, lt)) (no h) =
        let (u, a) = consider-smaller i m c (omega arith) in
        inr (suc k, n, f ∙ ap some (omega arith), g, l, omega arith)

-- The mode that `wlc_output_set_information` chooses is the last one marked as current; without such,
-- the first one marked as preferred.
pub choose_mode_marked :
    (ms : List Mode) (i : ℕ)
    → or_else (last_current 0 ms) (first_preferred 0 ms) ≡ some i
    → choose_mode ms ≡ some i
unfolding choose_mode
choose_mode_marked ms i e =
    ground
      (arith, e, active-consider_all 0 ms (record { active = none; largest = 0; fallback = none }))

-- Where no mode is marked, the chosen one has the largest area of all, which is not 0; and none is
-- chosen only where every area is 0.
choose_mode_unmarked :
    (ms : List Mode)
    → or_else (last_current 0 ms) (first_preferred 0 ms) ≡ none
    → ((choose_mode ms ≡ none) × All (λ m. area m ≡ 0) ms)
      ⊎ ((i : ℕ) × (m : Mode) × (choose_mode ms ≡ some i)
          × (get_elem? ms i ≡ some m)
          × (0 < area m)
          × All (λ n. area n ≤ area m) ms)
unfolding choose_mode
choose_mode_unmarked ms e = go (consider_all-Fallback 0 ms start)
  where
    start : Choice
    start = record { active = none; largest = 0; fallback = none }

    unmarked : (consider_all 0 ms start).active ≡ none
    unmarked = ground (arith, e, active-consider_all 0 ms start)

    bounded : All (λ m. area m ≤ (consider_all 0 ms start).largest) ms
    bounded = (largest-consider_all 0 ms start).1

    go :
        Fallback 0 ms start (consider_all 0 ms start)
        → ((choose_mode ms ≡ none) × All (λ m. area m ≡ 0) ms)
          ⊎ ((i : ℕ) × (m : Mode) × (choose_mode ms ≡ some i)
              × (get_elem? ms i ≡ some m)
              × (0 < area m)
              × All (λ n. area n ≤ area m) ms)
    go (inl (f, l)) = inl (rw unmarked f, All-map ms (λ m h. omega arith) bounded)
    go (inr (k, m, f, g, l, lt)) = inr (
      k,
      m,
      rw unmarked (f ∙ ap some (omega arith)),
      g,
      lt,
      All-map ms (λ n h. omega arith) bounded,
    )
