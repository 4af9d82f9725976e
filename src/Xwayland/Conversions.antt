-- ===== src/Xwayland/Conversions.antt =====
-- src/xwayland/selection.c: which atom of X11 stands for which type of Wayland, both ways. The flags
-- `used` of the table are the state between the list of targets and the request for one.
pub mod Listed
pub mod Answered
mod Tests
use Prim.Native.String.{String}
use Prim.Native.Char.{code}
pub use text.Mathlib.Text.{◌==◌ as str_eq}
use wlc.Base.{
  ℕ, zero, suc, ◌≡◌, Bool, true, false, ◌&&◌, ◌||◌, not, Option, none, some, List, [], ◌∷◌, ◌++◌,
  if◌then◌else◌, ◌==◌, any,
}

-- The names of atoms that the table has.
pub data AtomName : Type 0 where
  text_atom utf8_string_atom string_atom : AtomName

-- `struct conversion_candidate`.
pub record Candidate : Type 0 where
  pub x11_to_wl : Bool
  pub wl_to_x11 : Bool
  pub atom_name : AtomName
  pub mime_type : String
  pub used : Bool

abbrev candidate : Bool → Bool → AtomName → String → Candidate
candidate x w a t = record {
  x11_to_wl = x;
  wl_to_x11 = w;
  atom_name = a;
  mime_type = t;
  used = false;
}

abbrev pub conversions_map : List Candidate
conversions_map =
    candidate true true text_atom "text/plain"
    ∷ candidate true true utf8_string_atom "text/plain;charset=utf-8"
    ∷ candidate true true string_atom "text/plain;charset=iso-8859-1"
    ∷ candidate false true string_atom "text/plain"
    ∷ candidate false true text_atom "text/plain;charset=iso-8859-1"
    ∷ candidate true false utf8_string_atom "text/plain"
    ∷ candidate false true text_atom "text/plain;charset=utf-8"
    ∷ []

-- The X server's atoms: those that the compositor has made, with that of TARGETS; the one that it gives
-- to a name, 0 for XCB_ATOM_NONE where it cannot; and the name of an atom, none where it has none.
pub record Atoms : Type 0 where
  pub atom : AtomName → ℕ
  pub targets : ℕ
  pub atom_for_name : String → ℕ
  pub atom_name : ℕ → Option String

-- `strchr(name, '/') != NULL`.
abbrev pub has_slash : String → Bool
has_slash String.[] = false
has_slash (String.◌∷◌ c s) = (code c == b'/') || has_slash s

-- What `snprintf` writes of a text into a buffer of one byte more; a character is a byte here.
unfoldable pub cut : ℕ → String → String
cut zero s = String.[]
cut (suc n) String.[] = String.[]
cut (suc n) (String.◌∷◌ c s) = String.◌∷◌ c (cut n s)

-- The buffer has 256 bytes.
unfoldable pub name_for_atom : Atoms → ℕ → String
unfolding cut
name_for_atom x a = elim (x.atom_name a) [ none ↦ String.[] | some s ↦ cut 255 s ]

-- The inner loop over the table, for one type or one atom, where `hit` is the test and `out` what is
-- added to the list. Only for the first item does it run through the whole table, and reset the flags.
unfoldable pub search_map {ℓ} :
    {A : Type ℓ}
    → Bool
    → (Candidate → Bool)
    → (Candidate → A)
    → List Candidate
    → List A × List Candidate × Bool
search_map first hit out [] = ([], [], false)
search_map first hit out (e ∷ es) =
    let rest = search_map first hit out es in
    if hit e
    then (if first
        then (out e ∷ rest.0, record e { used = true } ∷ rest.1, true)
        else (out e ∷ [], record e { used = true } ∷ es, true))
    else (rest.0, (if first then record e { used = false } else e) ∷ rest.1, rest.2)

abbrev pub wl_hit : String → Candidate → Bool
wl_hit type e = e.wl_to_x11 && str_eq type e.mime_type

abbrev pub x11_hit : Atoms → ℕ → Candidate → Bool
x11_hit x value e = e.x11_to_wl && x.atom e.atom_name == value

-- A type that is not in the table goes by its own name.
abbrev pub named_target : Atoms → String → Bool → List ℕ
named_target x type found =
    if found then [] else if x.atom_for_name type == 0 then [] else x.atom_for_name type ∷ []

-- The loop over the types: the targets, and the table that is left.
unfoldable pub collect_targets :
    Atoms → Bool → List String → List Candidate → List ℕ × List Candidate
unfolding search_map
collect_targets x first [] es = ([], es)
collect_targets x first (type ∷ types) es =
    let found = search_map first (wl_hit type) (λ e. x.atom e.atom_name) es in
    let rest = collect_targets x false types found.1 in
    (found.0 ++ named_target x type found.2 ++ rest.0, rest.1)

-- The targets that X11 is told of, for the types of the source.
unfoldable pub send_selection_targets :
    Atoms → List String → List Candidate → List ℕ × List Candidate
unfolding collect_targets
send_selection_targets x types es =
    let r = collect_targets x true types es in (x.targets ∷ r.0, r.1)

abbrev pub named_type : Atoms → ℕ → Bool → List String
named_type x value found =
    if found
    then []
    else if has_slash (name_for_atom x value)
    then name_for_atom x value ∷ []
    else []

-- The types of the source that stands for the clipboard of X11. `first` is false from the start.
unfoldable pub get_selection_targets :
    Atoms → List ℕ → List Candidate → List String × List Candidate
unfolding search_map name_for_atom
get_selection_targets x [] es = ([], es)
get_selection_targets x (value ∷ values) es =
    let found = search_map false (x11_hit x value) (λ e. e.mime_type) es in
    let rest = get_selection_targets x values found.1 in
    (found.0 ++ named_type x value found.2 ++ rest.0, rest.1)

-- The atom that `data_source_send` asks the X11 owner of the clipboard for. The first entry in use whose
-- type is not the one asked for is taken.
unfoldable pub data_source_target : Atoms → String → List Candidate → ℕ
data_source_target x type [] = x.atom_for_name type
data_source_target x type (e ∷ es) =
    if e.x11_to_wl && not (str_eq type e.mime_type) && e.used
    then x.atom e.atom_name
    else data_source_target x type es

-- The type that `send_selection_data` asks the source for.
unfoldable pub table_type : Atoms → ℕ → List Candidate → Option String
table_type x target [] = none
table_type x target (e ∷ es) =
    if e.wl_to_x11 && target == x.atom e.atom_name && e.used
    then some e.mime_type
    else table_type x target es

unfoldable pub send_type : Atoms → ℕ → List Candidate → Option String
unfolding table_type name_for_atom
send_type x target es = elim (table_type x target es) [
  | none ↦ if has_slash (name_for_atom x target) then some (name_for_atom x target) else none
  | some t ↦ some t
]

-- What a request for a target leads to: the list of the targets, a type that the source is asked for,
-- or a refusal.
pub data Reply : Type 0 where
  targets_listed : List ℕ → Reply
  type_asked : String → Reply
  refused : Reply

-- `handle_selection_request` for a source with types, where its pipe can be made.
unfoldable pub selection_reply : Atoms → List String → List Candidate → ℕ → Reply
unfolding send_selection_targets send_type
selection_reply x types es target =
    if target == x.targets
    then targets_listed (send_selection_targets x types es).0
    else elim (send_type x target es) [ none ↦ refused | some t ↦ type_asked t ]
