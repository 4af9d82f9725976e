-- ===== src/Xwayland/Conversions/Listed.antt =====
-- The targets that X11 is told of stay the same.
use Prim.Native.String.{String}
use wlc.Base.{
  ℕ, ◌≡◌, ◌∙◌, sym, refl, ap, inl, inr, Bool, true, false, List, [], ◌∷◌, ◌++◌, arith, Bool-cases,
  if-cases, if-elim,
}
use wlc.Xwayland.Conversions.{
  Candidate, Atoms, search_map, wl_hit, named_target, collect_targets, send_selection_targets,
}

-- The flags of the table apart, nothing in it changes, and the targets do not depend on the flags.
forget : List Candidate → List Candidate
forget [] = []
forget (e ∷ es) = record e { used = false } ∷ forget es

forget-forget : (es : List Candidate) → forget (forget es) ≡ forget es
unfolding forget
forget-forget [] = refl
forget-forget (e ∷ es) = ap (◌∷◌ (record e { used = false })) (forget-forget es)

module _ (x : Atoms) (t : String) where
  out : Candidate → ℕ
  out e = x.atom e.atom_name

  search : Bool → List Candidate → List ℕ × List Candidate × Bool
  search first es = search_map first (wl_hit t) out es

  forget-search : (first : Bool) (es : List Candidate) → forget (search first es).1 ≡ forget es
  unfolding search_map forget search
  forget-search first [] = refl
  forget-search first (e ∷ es) =
      let ih = ap (◌∷◌ (record e { used = false })) (forget-search first es) in
      if-cases
        (λ (r : List ℕ × List Candidate × Bool). forget r.1 ≡ record e { used = false } ∷ forget es)
        (wl_hit t e) _ _
        (λ h.
          if-elim
            (λ (r : List ℕ × List Candidate × Bool).
              forget r.1 ≡ record e { used = false } ∷ forget es)
            first _ _ ih refl)
        (λ n.
          if-elim
            (λ (c : Candidate).
              forget (c ∷ (search first es).1) ≡ record e { used = false } ∷ forget es)
            first (record e { used = false }) e ih ih)

  search-forget :
      (first : Bool) (es : List Candidate)
      → ((search first es).0 ≡ (search first (forget es)).0)
        × ((search first es).2 ≡ (search first (forget es)).2)
  unfolding search_map forget search out
  search-forget first [] = (refl, refl)
  search-forget first (e ∷ es) =
      let (p, q) = search-forget first es in
      elim (Bool-cases (wl_hit t e)) [
        | inl h ↦ (ground (arith, h, p), ground (arith, h))
        | inr n ↦ (ground (arith, n, p), ground (arith, n, q))
      ]

forget-collect :
    (x : Atoms) (first : Bool) (types : List String) (es : List Candidate)
    → forget (collect_targets x first types es).1 ≡ forget es
unfolding collect_targets search out
forget-collect x first [] es = refl
forget-collect x first (t ∷ types) es =
    forget-collect x false types (search x t first es).1 ∙ forget-search x t first es

collect-forget :
    (x : Atoms) (first : Bool) (types : List String) (es : List Candidate)
    → (collect_targets x first types es).0 ≡ (collect_targets x first types (forget es)).0
unfolding collect_targets search out
collect-forget x first [] es = refl
collect-forget x first (t ∷ types) es =
    let a = search x t first es in
    let b = search x t first (forget es) in
    let (p, q) = search-forget x t first es in
    let same : forget a.1 ≡ forget b.1 =
      forget-search x t first es ∙ sym (forget-search x t first (forget es) ∙ forget-forget es) in
    let rest : (collect_targets x false types a.1).0 ≡ (collect_targets x false types b.1).0 =
      collect-forget x false types a.1
      ∙ ap (λ (fs : List Candidate). (collect_targets x false types fs).0) same
      ∙ sym (collect-forget x false types b.1) in
    ap (λ (l : List ℕ). (l ++ named_target x t a.2) ++ (collect_targets x false types a.1).0) p
    ∙ ap (λ (f : Bool). (b.0 ++ named_target x t f) ++ (collect_targets x false types a.1).0) q
    ∙ ap (λ (l : List ℕ). (b.0 ++ named_target x t b.2) ++ l) rest

-- The targets are listed again as they were.
pub listed_again :
    (x : Atoms) (types : List String) (es : List Candidate)
    → (send_selection_targets x types (send_selection_targets x types es).1).0
      ≡ (send_selection_targets x types es).0
unfolding send_selection_targets
listed_again x types es =
    let fs = (collect_targets x true types es).1 in
    ap (◌∷◌ x.targets) (
      collect-forget x true types fs
      ∙ ap (λ (gs : List Candidate). (collect_targets x true types gs).0)
          (forget-collect x true types es)
      ∙ sym (collect-forget x true types es))
