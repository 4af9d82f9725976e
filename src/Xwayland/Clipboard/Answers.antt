-- ===== src/Xwayland/Clipboard/Answers.antt =====
-- Each X11 client that asks for the selection is answered.
use wlc.Base.{
  ℕ, ◌≡◌, ◌∙◌, sym, refl, ap, Bool, true, false, ◌||◌, not, Option, none, some, List, [], ◌∷◌, ◌++◌,
  arith, if◌then◌else◌, ◌==◌, if-elim, if-cases, if-true, if-false,
}
use mathlib.Core.List.{append-nil}
use wlc.Xwayland.Clipboard.{
  Notify, Clipboard, Changed, no_source, own_source, other_source, selection_changed,
  xfixes_selection_notify, send_selection_notify, ClipboardRequest, piped, send_selection_data,
  handle_selection_request, recv_data_source, data_source_send, get_selection_data, drop_transfers,
  ClipboardSteps, here, asked, received, cleared, passed, got, sourced, changed, owned,
}

abbrev pub requestors : List Notify → List ℕ
requestors [] = []
requestors (n ∷ ns) = n.requestor ∷ requestors ns

requestors-append :
    (ns : List Notify) (n : Notify) → requestors (ns ++ n ∷ []) ≡ requestors ns ++ n.requestor ∷ []
requestors-append [] n = refl
requestors-append (m ∷ ns) n = ap (λ (xs : List ℕ). m.requestor ∷ xs) (requestors-append ns n)

-- The client whose data is on its way.
abbrev pub waiting : Clipboard → List ℕ
waiting c = if c.data_event_source then c.data_requestor ∷ [] else []

-- The clients that were answered, then the one that waits, are those that asked.
abbrev pub Answered : List ℕ → Clipboard → Type 0
Answered rs c = requestors c.notifies ++ waiting c ≡ rs

-- The ways in which a request ends.
module _ (r : ClipboardRequest) (rs : List ℕ) (c : Clipboard) (idle : c.data_event_source ≡ false)
    (k : Answered rs c) (watched : r.watched ≡ true) where
  before : requestors c.notifies ≡ rs
  before =
      sym (append-nil (requestors c.notifies))
      ∙ ap (λ (xs : List ℕ). requestors c.notifies ++ xs)
          (sym (if-false (c.data_requestor ∷ []) [] c.data_event_source idle))
      ∙ k

  notified :
      (property target : ℕ)
      → Answered (rs ++ r.requestor ∷ []) (send_selection_notify r.requestor property target c)
  notified property target =
      ap
        (λ (xs : List ℕ).
          requestors (
            c.notifies
            ++ record { requestor = r.requestor; property = property; target = target } ∷ [])
          ++ xs)
        (if-false (c.data_requestor ∷ []) [] c.data_event_source idle)
      ∙ append-nil _
      ∙ requestors-append c.notifies _
      ∙ ap (λ (xs : List ℕ). xs ++ r.requestor ∷ []) before

  piped-Answered : (p : Option (ℕ × ℕ)) → Answered (rs ++ r.requestor ∷ []) (piped r p c)
  piped-Answered none = notified 0 r.target
  piped-Answered (some (i, o)) =
      if-elim (Answered (rs ++ r.requestor ∷ [])) r.has_type _ _
        (ap (λ (xs : List ℕ). requestors c.notifies ++ xs)
            (if-true (r.requestor ∷ []) [] r.watched watched)
          ∙ ap (λ (xs : List ℕ). xs ++ r.requestor ∷ []) before)
        (notified 0 r.target)

  handle_selection_request-Answered :
      (r.is_targets ≡ true → c.has_source ≡ true)
      → Answered (rs ++ r.requestor ∷ []) (handle_selection_request r c)
  unfolding handle_selection_request send_selection_data
  handle_selection_request-Answered s =
      let P : Clipboard → Type 0 = Answered (rs ++ r.requestor ∷ []) in
      if-elim P (not r.is_clipboard) _ _ (notified 0 r.target) (
        if-elim P (r.requestor == c.window) _ _ (notified 0 r.target) (
          if-cases P r.is_targets _ _
            (λ t.
              if-cases P c.has_source _ _ (λ y. notified r.property r.target)
                (λ n. absurd (ground (arith, s t, n))))
            (λ f. if-elim P c.has_source _ _ (piped-Answered r.pipe) (notified 0 r.target))))

recv_data_source-Answered :
    (success : Bool) (rs : List ℕ) (c : Clipboard)
    → c.data_event_source ≡ true
    → Answered rs c
    → Answered rs (recv_data_source success c)
unfolding recv_data_source
recv_data_source-Answered success rs c busy k =
    append-nil _
    ∙ requestors-append c.notifies _
    ∙ ap (λ (xs : List ℕ). requestors c.notifies ++ xs)
        (sym (if-true (c.data_requestor ∷ []) [] c.data_event_source busy))
    ∙ k

drop_transfers-Answered :
    (rs : List ℕ) (c : Clipboard)
    → c.data_event_source ≡ false
    → Answered rs c
    → Answered rs (drop_transfers c)
unfolding drop_transfers
drop_transfers-Answered rs c idle k =
    ap (λ (xs : List ℕ). requestors c.notifies ++ xs)
      (sym (if-false (c.data_requestor ∷ []) [] c.data_event_source idle))
    ∙ k

selection_changed-Answered :
    (s : Changed) (rs : List ℕ) (c : Clipboard)
    → Answered rs c
    → Answered rs (selection_changed s c)
unfolding selection_changed
selection_changed-Answered no_source rs c k =
    if-elim (Answered rs) (c.clipboard_owner == c.window) _ c k k
selection_changed-Answered own_source rs c k = k
selection_changed-Answered other_source rs c k = k

-- From a clipboard that waits for nothing: the X11 clients that were answered, in order, with the one
-- whose data is on its way, are those that asked for the selection. So each request is answered once,
-- whether the data could be had or not, if no client asks and no targets come during a transfer,
-- targets are asked for while there is a source, and the event loop takes each descriptor.
pub ClipboardSteps-Answered :
    {c d : Clipboard} {rs : List ℕ}
    → ClipboardSteps c rs d
    → Answered [] c
    → requestors d.notifies ++ waiting d ≡ rs
unfolding xfixes_selection_notify data_source_send get_selection_data
ClipboardSteps-Answered here k = k
ClipboardSteps-Answered (asked {rs} {d} r s idle has watched) k =
    handle_selection_request-Answered r rs d idle (ClipboardSteps-Answered s k) watched has
ClipboardSteps-Answered (received {rs} {d} b s busy) k =
    recv_data_source-Answered b rs d busy (ClipboardSteps-Answered s k)
ClipboardSteps-Answered (cleared {rs} {d} s idle) k =
    drop_transfers-Answered rs d idle (ClipboardSteps-Answered s k)
ClipboardSteps-Answered (passed {rs} {d} b fd s) k =
    if-elim (Answered rs) b _ d (ClipboardSteps-Answered s k) (ClipboardSteps-Answered s k)
ClipboardSteps-Answered (got {rs} {d} b s) k =
    if-elim (Answered rs) b _ d (ClipboardSteps-Answered s k) (ClipboardSteps-Answered s k)
ClipboardSteps-Answered (sourced b s) k = ClipboardSteps-Answered s k
ClipboardSteps-Answered (changed {rs} {d} s' s) k =
    selection_changed-Answered s' rs d (ClipboardSteps-Answered s k)
ClipboardSteps-Answered (owned {rs} {d} b o s) k =
    if-elim (Answered rs) (not b || o == d.window) d _ (ClipboardSteps-Answered s k)
      (ClipboardSteps-Answered s k)
