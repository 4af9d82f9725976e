-- ===== src/Seat/Selection/Alive.antt =====
-- The selection of a client is a source that is there.
use mathlib.Core.Path.{subst}
use wlc.Base.{
  ℕ, suc, ◌≡◌, ◌∙◌, sym, refl, ap, inl, inr, Bool, true, false, ◌&&◌, ◌||◌, not, Option, none, some,
  List, [], ◌∷◌, if◌then◌else◌, ◌==◌, arith, Bool-cases, if-elim, if-true, if-false,
}
use wlc.Seat.Selection.{
  Source, client_source, custom_source, x11_source, same_source, holds, selection_signal, Manager,
  tell, make_offer, manager_offer, cancel_source, change_source, set_source, set_selection,
  destroy_source, add_type, create_source, set_custom_selection, focus_client, SelectionRequest,
  create, add, select, destroy, select_custom, select_x11, focus, selection_request,
  selection_requests,
}

abbrev pub IsAlive : Option Source → (ℕ → Bool) → Type 0
IsAlive o alive = (r : ℕ) → holds o (client_source r) ≡ true → alive r ≡ true

abbrev pub HasLiveSource : Manager → Type 0
HasLiveSource m = IsAlive m.source m.is_alive

-- The events and the offers leave the source and the resources.
abbrev Keeps : Option Source → (ℕ → Bool) → Manager → Type 0
Keeps o alive m = (m.source ≡ o) × (m.is_alive ≡ alive)

make_offer-Keeps :
    (memory : Bool) (c : ℕ) (o : Option Source) (m : Manager)
    → Keeps m.source m.is_alive (make_offer memory c o m)
unfolding make_offer
make_offer-Keeps memory c none m = (refl, refl)
make_offer-Keeps true c (some s) m = (refl, refl)
make_offer-Keeps false c (some s) m = (refl, refl)

manager_offer-Keeps :
    (memory : Bool) (c : ℕ) (m : Manager) → Keeps m.source m.is_alive (manager_offer memory c m)
unfolding manager_offer
manager_offer-Keeps memory c m =
    if-elim (Keeps m.source m.is_alive) (m.has_device c) (make_offer memory c m.source m) m
      (make_offer-Keeps memory c m.source m) (refl, refl)

change_source-Keeps :
    (o p : Option Source) (m : Manager)
    → p ≡ m.source
    → Keeps o m.is_alive
        (tell (selection_signal o ∷ []) (record (cancel_source p m) { source = o }))
unfolding cancel_source
change_source-Keeps o none m e = (refl, refl)
change_source-Keeps o (some s) m e = (refl, refl)

pub set_source-Keeps :
    (memory : Bool) (o : Option Source) (m : Manager) → Keeps o m.is_alive (set_source memory o m)
unfolding set_source change_source
set_source-Keeps memory o m =
    let m1 : Manager = change_source o m in
    let k : Keeps o m.is_alive m1 = change_source-Keeps o m.source m refl in
    let l = manager_offer-Keeps memory m1.focused m1 in
    if-elim (Keeps o m.is_alive) (m1.focused == 0) m1 (manager_offer memory m1.focused m1) k
      (l.0 ∙ k.0, l.1 ∙ k.1)

-- What keeps them keeps the selection alive.
live :
    (o : Option Source) (alive : ℕ → Bool) (m : Manager)
    → Keeps o alive m
    → IsAlive o alive
    → HasLiveSource m
live o alive m k a r h =
    ap (λ (f : ℕ → Bool). f r) k.1
    ∙ a r (sym (ap (λ (p : Option Source). holds p (client_source r)) k.0) ∙ h)

set_selection-live :
    (memory : Bool) (c : ℕ) (r : Option ℕ) (m : Manager)
    → HasLiveSource m
    → HasLiveSource (set_selection memory c r m)
unfolding set_selection
set_selection-live memory c none m a = a
set_selection-live memory c (some r) m a = elim (Bool-cases (m.is_alive r)) [
  | inl t ↦
      let m1 : Manager = set_source memory (some (client_source r)) m in
      let k = set_source-Keeps memory (some (client_source r)) m in
      let l = manager_offer-Keeps memory c m1 in
      let chosen : HasLiveSource (manager_offer memory c m1) =
        live (some (client_source r)) m.is_alive (manager_offer memory c m1) (l.0 ∙ k.0, l.1 ∙ k.1)
          (λ x h. let at : r ≡ x = ground (arith, h) in ap m.is_alive (sym at) ∙ t) in
      if-elim HasLiveSource (not (m.is_alive r) || holds m.source (client_source r)) m
        (manager_offer memory c m1) a chosen
  | inr f ↦
      subst HasLiveSource
        (sym (
          if-true m _ (not (m.is_alive r) || holds m.source (client_source r)) (ground (arith, f))))
        a
]

-- A destroyed source is not the selection.
abbrev Spares : ℕ → Manager → Type 0
Spares r m =
    (x : ℕ) → holds m.source (client_source x) ≡ true → (r == x ≡ false) × (m.is_alive x ≡ true)

Spares-forget :
    (r : ℕ) (m : Manager)
    → Spares r m
    → HasLiveSource (record m { is_alive = λ x. if r == x then false else m.is_alive x })
Spares-forget r m k x h = if-false false (m.is_alive x) (r == x) (k x h).0 ∙ (k x h).1

destroy_source-live :
    (memory : Bool) (r : ℕ) (m : Manager)
    → HasLiveSource m
    → HasLiveSource (destroy_source memory r m)
unfolding destroy_source
destroy_source-live memory r m a =
    let m1 : Manager = set_source memory none m in
    let test : Bool = m.is_alive r && holds m.source (client_source r) in
    let m2 : Manager = if test then m1 else m in
    let spared : Spares r m2 = elim (Bool-cases (holds m.source (client_source r))) [
      | inl h ↦ subst (Spares r) (sym (if-true m1 m test (ground (arith, h, a r h)))) (λ x y.
          absurd (
            ground (
              arith,
              sym y
                  ∙ ap (λ (p : Option Source). holds p (client_source x))
                      (set_source-Keeps memory none m).0,
            )))
      | inr n ↦ subst (Spares r) (sym (if-false m1 m test (ground (arith, n)))) (λ x h. (
        elim (Bool-cases (r == x)) [
          | inl e ↦
              let at : r ≡ x = ground (arith, e) in
              absurd
                (ground (arith, sym n ∙ ap (λ (y : ℕ). holds m.source (client_source y)) at ∙ h))
          | inr e ↦ e
        ],
        a x h,
      ))
    ] in
    Spares-forget r m2 spared

create_source-live : (r : ℕ) (m : Manager) → HasLiveSource m → HasLiveSource (create_source r m)
unfolding create_source
create_source-live r m a x h = ground (arith, a x h)

selection_request-live :
    (memory : Bool) (r : SelectionRequest) (m : Manager)
    → HasLiveSource m
    → HasLiveSource (selection_request memory r m)
unfolding selection_request add_type set_custom_selection focus_client
selection_request-live memory (create r) m a =
    if-elim HasLiveSource (m.is_alive r) m (create_source r m) a (create_source-live r m a)
selection_request-live memory (add r t) m a = if-elim HasLiveSource (m.is_alive r) _ m a a
selection_request-live memory (select c r) m a = set_selection-live memory c r m a
selection_request-live memory (destroy r) m a = destroy_source-live memory r m a
selection_request-live memory (select_custom ts) m a =
    let n : ℕ = m.next_custom in
    let made : Manager = record m {
      next_custom = suc n;
      types = λ s. if same_source s (custom_source n) then ts else m.types s;
    } in
    live (some (custom_source n)) m.is_alive (set_source memory (some (custom_source n)) made)
      (set_source-Keeps memory (some (custom_source n)) made) (λ r h. absurd (ground (arith, h)))
selection_request-live memory (select_x11 true) m a =
    live (some x11_source) m.is_alive (set_source memory (some x11_source) m)
      (set_source-Keeps memory (some x11_source) m) (λ r h. absurd (ground (arith, h)))
selection_request-live memory (select_x11 false) m a =
    live none m.is_alive (set_source memory none m) (set_source-Keeps memory none m)
      (λ r h. absurd (ground (arith, h)))
selection_request-live memory (focus c) m a =
    let m1 : Manager = record m { focused = c } in
    if-elim HasLiveSource (c == 0) m1 (manager_offer memory c m1) a
      (live m.source m.is_alive (manager_offer memory c m1) (manager_offer-Keeps memory c m1) a)

-- However clients, the program and X11 change the selection, and whatever sources clients destroy by a
-- request: a selection of a client is a source that is there.
pub selection_requests-HasLiveSource :
    (memory : Bool) (rs : List SelectionRequest) (m : Manager)
    → HasLiveSource m
    → HasLiveSource (selection_requests memory rs m)
unfolding selection_requests
selection_requests-HasLiveSource memory [] m a = a
selection_requests-HasLiveSource memory (r ∷ rs) m a =
    selection_requests-HasLiveSource memory rs (selection_request memory r m)
      (selection_request-live memory r m a)
