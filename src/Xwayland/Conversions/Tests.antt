-- ===== src/Xwayland/Conversions/Tests.antt =====
-- A source of two types, one of them in the table.
use Prim.Native.String.{String}
use text.Mathlib.TextEquality.{eq_iff}
use wlc.Base.{
  ℕ, ◌≡◌, ◌≢◌, ◌⊎◌, ◌∙◌, sym, refl, ap, inl, inr, true, none, some, List, [], ◌∷◌, if◌then◌else◌,
  ◌==◌, Bool-cases, if-true, if-false, arith,
}
use wlc.Xwayland.Conversions.{
  str_eq, AtomName, text_atom, utf8_string_atom, string_atom, Candidate, conversions_map, Atoms,
  cut, send_selection_targets, get_selection_targets, data_source_target, targets_listed,
  type_asked, selection_reply,
}
use wlc.Xwayland.Conversions.Answered.{mem, targets_are_answered}

abbrev server_atom : AtomName → ℕ
server_atom text_atom = 1
server_atom utf8_string_atom = 2
server_atom string_atom = 3

abbrev server : Atoms
server = record {
  atom = server_atom;
  atom_for_name = λ t. if str_eq t "image/png" then 9 else 0;
  targets = 20;
  atom_name = λ a. if a == 9 then some "image/png" else none;
}

server_names :
    (m : String) → server.atom_for_name m ≢ 0 → server.atom_name (server.atom_for_name m) ≡ some m
server_names m nz = elim (Bool-cases (str_eq m "image/png")) [
  | inl y ↦
      ap server.atom_name (if-true 9 0 (str_eq m "image/png") y)
      ∙ ap some (sym ((eq_iff m "image/png").0 y))
  | inr n ↦ absurd (nz (if-false 9 0 (str_eq m "image/png") n))
]

abbrev offered : List String
offered = "text/plain" ∷ "image/png" ∷ []

told_targets : (send_selection_targets server offered conversions_map).0 ≡ 20 ∷ 1 ∷ 3 ∷ 9 ∷ []
unfolding send_selection_targets
told_targets = refl

-- Where the X11 owner has UTF8_STRING only, the type of that entry is asked for by its own name,
-- which no atom has here, and any other type by UTF8_STRING.
asks_for_own_type :
    data_source_target server "text/plain;charset=utf-8"
      (get_selection_targets server (2 ∷ []) conversions_map).1
    ≡ 0
unfolding data_source_target get_selection_targets
asks_for_own_type = refl

asks_for_other_type :
    data_source_target server "image/png" (get_selection_targets server (2 ∷ []) conversions_map).1
    ≡ 2
unfolding data_source_target get_selection_targets
asks_for_other_type = refl

-- The buffer for the name of an atom has room for 255 bytes.
cut_name : cut 3 "a/bcd" ≡ "a/b"
unfolding cut
cut_name = refl

abbrev told : List ℕ × List Candidate
told = send_selection_targets server offered conversions_map

targets_are_answered_example :
    ((9 ≡ server.targets) × (selection_reply server offered told.1 9 ≡ targets_listed told.0))
    ⊎ ((9 ≢ server.targets)
        × (m : String) × (selection_reply server offered told.1 9 ≡ type_asked m)
        × (mem m offered ≡ true))
unfolding send_selection_targets
targets_are_answered_example =
    targets_are_answered server "text/plain" ("image/png" ∷ []) conversions_map 9 server_names
      ((refl, omega arith), ((refl, omega arith), tt)) refl
