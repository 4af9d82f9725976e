-- ===== src/Xwayland/Conversions/Answered.antt =====
-- A target that X11 is told of is answered with a type that the source offers.
use Prim.Native.String.{String}
use text.Mathlib.TextEquality.{eq_iff}
use text.Mathlib.TextPositions.{eq_refl}
use mathlib.Core.Path.{subst}
use wlc.Base.{
  ℕ, zero, suc, ◌≤◌, ◌≡◌, ◌≢◌, ◌∙◌, sym, refl, ap, ◌⊎◌, inl, inr, Bool, true, false, ◌&&◌, ◌||◌,
  Option, none, some, List, [], ◌∷◌, ◌++◌, ◌==◌, any, All, contains, arith, Bool-cases, if-cases,
  if-true, if-false,
}
use wlc.Xwayland.Conversions.{
  str_eq, Candidate, Atoms, has_slash, cut, name_for_atom, search_map, wl_hit, named_target,
  collect_targets, send_selection_targets, table_type, send_type, targets_listed, type_asked,
  refused, selection_reply,
}
use wlc.Xwayland.Conversions.Listed.{listed_again}

abbrev pub mem : String → List String → Bool
mem m types = any (λ t. str_eq t m) types

-- An entry in use stands for one of the types.
abbrev pub Backed : List String → Candidate → Type 0
Backed types e = e.wl_to_x11 && e.used ≡ true → mem e.mime_type types ≡ true

abbrev Included : List String → String → Type 0
Included types t = (m : String) → str_eq t m ≡ true → mem m types ≡ true

module _ {A : Type 0} (out : Candidate → A) (types : List String) (t : String)
    (inc : Included types t) where
  hit-Backed : (e : Candidate) → wl_hit t e ≡ true → Backed types (record e { used = true })
  hit-Backed e h u = inc e.mime_type (ground (arith, h))

  search_map-Backed_first :
      (es : List Candidate) → All (Backed types) (search_map true (wl_hit t) out es).1
  unfolding search_map
  search_map-Backed_first [] = tt
  search_map-Backed_first (e ∷ es) =
      if-cases (λ (r : List A × List Candidate × Bool). All (Backed types) r.1) (wl_hit t e) _ _
        (λ h. (hit-Backed e h, search_map-Backed_first es))
        (λ n. ((λ u. absurd (ground (arith, u))), search_map-Backed_first es))

  search_map-Backed :
      (es : List Candidate)
      → All (Backed types) es
      → All (Backed types) (search_map false (wl_hit t) out es).1
  unfolding search_map
  search_map-Backed [] k = tt
  search_map-Backed (e ∷ es) k =
      if-cases (λ (r : List A × List Candidate × Bool). All (Backed types) r.1) (wl_hit t e) _ _
        (λ h. (hit-Backed e h, k.1)) (λ n. (k.0, search_map-Backed es k.1))

-- An entry in use for a target.
abbrev in_use : Atoms → ℕ → Candidate → Bool
in_use x a e = e.wl_to_x11 && a == x.atom e.atom_name && e.used

module _ (x : Atoms) (t : String) (a : ℕ) where
  search_map-keeps :
      (es : List Candidate)
      → any (in_use x a) es ≡ true
      → any (in_use x a) (search_map false (wl_hit t) (λ e. x.atom e.atom_name) es).1 ≡ true
  unfolding search_map
  search_map-keeps [] k = k
  search_map-keeps (e ∷ es) k =
      if-cases (λ (r : List ℕ × List Candidate × Bool). any (in_use x a) r.1 ≡ true) (wl_hit t e) _
        _ (λ h. ground (arith, k, h)) (λ n. ground (arith, k, search_map-keeps es))

  search_map-in_use :
      (first : Bool) (es : List Candidate)
      → contains (search_map first (wl_hit t) (λ e. x.atom e.atom_name) es).0 a ≡ true
      → any (in_use x a) (search_map first (wl_hit t) (λ e. x.atom e.atom_name) es).1 ≡ true
  unfolding search_map
  search_map-in_use first [] = λ k. absurd (ground (arith, k))
  search_map-in_use true (e ∷ es) =
      if-cases
        (λ (r : List ℕ × List Candidate × Bool).
          contains r.0 a ≡ true → any (in_use x a) r.1 ≡ true)
        (wl_hit t e) _ _ (λ h k. ground (arith, k, h, search_map-in_use true es))
        (λ n k. ground (arith, k, search_map-in_use true es))
  search_map-in_use false (e ∷ es) =
      if-cases
        (λ (r : List ℕ × List Candidate × Bool).
          contains r.0 a ≡ true → any (in_use x a) r.1 ≡ true)
        (wl_hit t e) _ _ (λ h k. ground (arith, k, h))
        (λ n k. ground (arith, k, search_map-in_use false es))

contains-append : (xs ys : List ℕ) (a : ℕ) → contains (xs ++ ys) a ≡ contains xs a || contains ys a
contains-append [] ys a = refl
contains-append (x ∷ xs) ys a = ground (arith, contains-append xs ys a)

-- A target is in use or the name of one of the types.
Known : Atoms → List String → ℕ → List Candidate → Type 0
Known x types a es =
    (any (in_use x a) es ≡ true)
    ⊎ ((t : String) × (mem t types ≡ true) × (x.atom_for_name t ≢ 0) × (x.atom_for_name t ≡ a))

module _ (x : Atoms) (all : List String) (a : ℕ) where
  named_target-eq :
      (t : String) (found : Bool)
      → contains (named_target x t found) a ≡ true
      → (x.atom_for_name t ≢ 0) × (x.atom_for_name t ≡ a)
  named_target-eq t found k = (λ e. absurd (ground (arith, k, e)), ground (arith, k))

  -- What is in use stays in use while the other types are looked up.
  collect_targets-keeps :
      (types : List String) (es : List Candidate)
      → any (in_use x a) es ≡ true
      → any (in_use x a) (collect_targets x false types es).1 ≡ true
  unfolding collect_targets
  collect_targets-keeps [] es k = k
  collect_targets-keeps (t ∷ types) es k =
      collect_targets-keeps types _ (search_map-keeps x t a es k)

  collect_targets-Known :
      (first : Bool) (types : List String) (es : List Candidate)
      → All (λ t. mem t all ≡ true) types
      → contains (collect_targets x first types es).0 a ≡ true
      → Known x all a (collect_targets x first types es).1
  unfolding collect_targets Known
  collect_targets-Known first [] es m k = absurd (ground (arith, k))
  collect_targets-Known first (t ∷ types) es m k =
      let found = search_map first (wl_hit t) (λ e. x.atom e.atom_name) es in
      let rest = collect_targets x false types found.1 in
      let named = named_target x t found.2 in
      elim (Bool-cases (contains found.0 a)) [
        | inl y ↦ inl (collect_targets-keeps types found.1 (search_map-in_use x t a first es y))
        | inr n ↦ elim (Bool-cases (contains named a)) [
          | inl y ↦ let e = named_target-eq t found.2 y in inr (t, m.0, e.0, e.1)
          | inr n' ↦ collect_targets-Known false types found.1 m.1 (
              ground (
                arith,
                k,
                n,
                n',
                contains-append (found.0 ++ named) rest.0 a,
                contains-append found.0 named a,
              ))
        ]
      ]

  table_type-in_use :
      (es : List Candidate)
      → All (Backed all) es
      → any (in_use x a) es ≡ true
      → (t : String) × (table_type x a es ≡ some t) × (mem t all ≡ true)
  unfolding table_type
  table_type-in_use [] b k = absurd (ground (arith, k))
  table_type-in_use (e ∷ es) b k =
      if-cases (λ (r : Option String). (t : String) × (r ≡ some t) × (mem t all ≡ true))
        (e.wl_to_x11 && a == x.atom e.atom_name && e.used) _ _
        (λ h. (e.mime_type, refl, b.0 (ground (arith, h))))
        (λ n. table_type-in_use es b.1 (ground (arith, k, n)))

  table_type-none : (es : List Candidate) → any (in_use x a) es ≡ false → table_type x a es ≡ none
  unfolding table_type
  table_type-none [] k = refl
  table_type-none (e ∷ es) k =
      if-cases (λ (r : Option String). r ≡ none) (e.wl_to_x11 && a == x.atom e.atom_name && e.used)
        _ _ (λ h. absurd (ground (arith, h, k))) (λ n. table_type-none es (ground (arith, k, n)))

  collect_targets-Backed :
      (types : List String) (es : List Candidate)
      → All (Included all) types
      → All (Backed all) es
      → All (Backed all) (collect_targets x false types es).1
  unfolding collect_targets
  collect_targets-Backed [] es i b = b
  collect_targets-Backed (t ∷ types) es i b =
      collect_targets-Backed types _ i.1
        (search_map-Backed (λ e. x.atom e.atom_name) all t i.0 es b)

-- Each type is one of the types.
Included-All :
    (all ys : List String)
    → ((m : String) → mem m ys ≡ true → mem m all ≡ true)
    → All (Included all) ys
Included-All all [] f = tt
Included-All all (t ∷ ys) f =
    ((λ m e. f m (ground (arith, e))), Included-All all ys (λ m e. f m (ground (arith, e))))

mem-All :
    (all ys : List String)
    → ((m : String) → mem m ys ≡ true → mem m all ≡ true)
    → All (λ t. mem t all ≡ true) ys
mem-All all [] f = tt
mem-All all (t ∷ ys) f =
    (f t (ground (arith, eq_refl t)), mem-All all ys (λ m e. f m (ground (arith, e))))

-- The number of bytes of a text.
abbrev pub size : String → ℕ
size String.[] = 0
size (String.◌∷◌ c s) = suc (size s)

cut-whole : (n : ℕ) (s : String) → size s ≤ n → cut n s ≡ s
unfolding cut
cut-whole zero String.[] h = refl
cut-whole zero (String.◌∷◌ c s) h = absurd (omega arith)
cut-whole (suc n) String.[] h = refl
cut-whole (suc n) (String.◌∷◌ c s) h = ap (String.◌∷◌ c) (cut-whole n s (omega arith))

-- A type that can be told by its name: it has a slash, and its name fits into the buffer.
abbrev pub IsNamed : String → Type 0
IsNamed m = (has_slash m ≡ true) × (size m ≤ 255)

mem-IsNamed : (m : String) (ts : List String) → All IsNamed ts → mem m ts ≡ true → IsNamed m
mem-IsNamed m [] k e = absurd (ground (arith, e))
mem-IsNamed m (t ∷ ts) k e = elim (Bool-cases (str_eq t m)) [
  | inl y ↦ subst IsNamed ((eq_iff t m).0 y) k.0
  | inr n ↦ mem-IsNamed m ts k.1 (ground (arith, e, n))
]

-- A target that is not TARGETS.
module _ (x : Atoms) (t : String) (types : List String) (es : List Candidate) (a : ℕ)
    (names : (m : String) → x.atom_for_name m ≢ 0 → x.atom_name (x.atom_for_name m) ≡ some m)
    (named : All IsNamed (t ∷ types))
    (told : contains (collect_targets x true (t ∷ types) es).0 a ≡ true) where
  table : List Candidate
  table = (collect_targets x true (t ∷ types) es).1

  type_sent : (m : String) × (send_type x a table ≡ some m) × (mem m (t ∷ types) ≡ true)
  unfolding send_type name_for_atom collect_targets Known table
  type_sent =
      let all : List String = t ∷ types in
      let inc = Included-All all all (λ m e. e) in
      let backed : All (Backed all) table =
        collect_targets-Backed x all a types _ inc.1
          (search_map-Backed_first (λ e. x.atom e.atom_name) all t inc.0 es) in
      let known = collect_targets-Known x all a true all es (mem-All all all (λ m e. e)) told in
      let from_table = table_type-in_use x all a table backed in
      elim (Bool-cases (any (in_use x a) table)) [
        | inl y ↦ let (m, e, i) = from_table y in (m, ground (arith, e), i)
        | inr n ↦ elim known [
          | inl y ↦ absurd (ground (arith, y, n))
          | inr (m, i, nz, e) ↦
              let (slash, short) = mem-IsNamed m all named i in
              let got : x.atom_name a ≡ some m = ap x.atom_name (sym e) ∙ names m nz in
              (
                m,
                ground (arith, table_type-none x all a table n, got, slash, cut-whole 255 m short),
                i,
              )
        ]
      ]

-- Where the source has types, each with a slash and of at most 255 bytes, and the X server keeps the
-- names of its atoms: for each target that X11 is told of, TARGETS among them, a request for it is
-- answered: for TARGETS with the same list, and for any other the source is asked for one of its types.
pub targets_are_answered :
    (x : Atoms) (t : String) (types : List String) (es : List Candidate) (a : ℕ)
    → ((m : String) → x.atom_for_name m ≢ 0 → x.atom_name (x.atom_for_name m) ≡ some m)
    → All IsNamed (t ∷ types)
    → contains (send_selection_targets x (t ∷ types) es).0 a ≡ true
    → let told = send_selection_targets x (t ∷ types) es in
      ((a ≡ x.targets) × (selection_reply x (t ∷ types) told.1 a ≡ targets_listed told.0))
      ⊎ ((a ≢ x.targets)
          × (m : String) × (selection_reply x (t ∷ types) told.1 a ≡ type_asked m)
          × (mem m (t ∷ types) ≡ true))
unfolding selection_reply send_selection_targets table
targets_are_answered x t types es a names named k = elim (Bool-cases (a == x.targets)) [
  | inl y ↦ inl (
    ground (arith, y),
    if-true _ _ (a == x.targets) y ∙ ap targets_listed (listed_again x (t ∷ types) es),
  )
  | inr n ↦
      let (m, e, i) = type_sent x t types es a names named (ground (arith, k, n)) in
      inr (
        (λ z. absurd (ground (arith, z, n))),
        m,
        if-false _ _ (a == x.targets) n
            ∙ ap (λ (o : Option String). elim o [ none ↦ refused | some s ↦ type_asked s ]) e,
        i,
      )
]
