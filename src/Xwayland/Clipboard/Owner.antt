-- ===== src/Xwayland/Clipboard/Owner.antt =====
-- The owner of the clipboard that the compositor remembers is never its own window.
use wlc.Base.{
  ℕ, ◌≡◌, false, ◌||◌, not, Option, none, some, arith, ◌==◌, if-elim, if-cases, if-false,
}
use wlc.Xwayland.Clipboard.{
  Clipboard, Changed, no_source, own_source, other_source, selection_changed,
  xfixes_selection_notify, ClipboardRequest, piped, send_selection_data, handle_selection_request,
  recv_data_source, data_source_send, get_selection_data, drop_transfers, ClipboardRun, start,
  requested, readable, targets_came, data_wanted, data_came, source_set, signalled, owner_told,
}

-- The owner is not the window, and the window is not 0.
abbrev pub IsOwned : Clipboard → Type 0
IsOwned c = (c.clipboard_owner == c.window ≡ false) × (0 == c.window ≡ false)

piped-IsOwned :
    (r : ClipboardRequest) (p : Option (ℕ × ℕ)) (c : Clipboard) → IsOwned c → IsOwned (piped r p c)
piped-IsOwned r none c k = k
piped-IsOwned r (some (i, o)) c k = if-elim IsOwned r.has_type _ _ k k

handle_selection_request-IsOwned :
    (r : ClipboardRequest) (c : Clipboard) → IsOwned c → IsOwned (handle_selection_request r c)
unfolding handle_selection_request send_selection_data
handle_selection_request-IsOwned r c k = if-elim IsOwned (not r.is_clipboard) _ _ k (
    if-elim IsOwned (r.requestor == c.window) _ _ k (
      if-elim IsOwned r.is_targets _ _ (if-elim IsOwned c.has_source _ c k k)
        (if-elim IsOwned c.has_source _ _ (piped-IsOwned r r.pipe c k) k)))

selection_changed-IsOwned :
    (s : Changed) (c : Clipboard) → IsOwned c → IsOwned (selection_changed s c)
unfolding selection_changed
selection_changed-IsOwned no_source c k =
    if-elim IsOwned (c.clipboard_owner == c.window) _ c (k.1, k.1) k
selection_changed-IsOwned own_source c k = k
selection_changed-IsOwned other_source c k = k

ClipboardRun-IsOwned : {c d : Clipboard} → ClipboardRun c d → IsOwned c → IsOwned d
unfolding xfixes_selection_notify data_source_send get_selection_data recv_data_source
    drop_transfers
ClipboardRun-IsOwned start k = k
ClipboardRun-IsOwned (requested {d} r s) k =
    handle_selection_request-IsOwned r d (ClipboardRun-IsOwned s k)
ClipboardRun-IsOwned (readable b s) k = ClipboardRun-IsOwned s k
ClipboardRun-IsOwned (targets_came s) k = ClipboardRun-IsOwned s k
ClipboardRun-IsOwned (data_wanted {d} b fd s) k =
    if-elim IsOwned b _ d (ClipboardRun-IsOwned s k) (ClipboardRun-IsOwned s k)
ClipboardRun-IsOwned (data_came {d} b s) k =
    if-elim IsOwned b _ d (ClipboardRun-IsOwned s k) (ClipboardRun-IsOwned s k)
ClipboardRun-IsOwned (source_set b s) k = ClipboardRun-IsOwned s k
ClipboardRun-IsOwned (signalled {d} s' s) k =
    selection_changed-IsOwned s' d (ClipboardRun-IsOwned s k)
ClipboardRun-IsOwned (owner_told {d} b o s) k =
    let k' = ClipboardRun-IsOwned s k in
    if-cases IsOwned (not b || o == d.window) d _ (λ t. k') (λ f. (ground (arith, f), k'.1))

-- Where the remembered owner of the clipboard is not the compositor's window at first, nor is 0 that
-- window: after any requests, answers, transfers, targets, changes of the source and of the owner, in
-- any order, the end of the selection changes nothing, so that the clipboard of X11 is not given up,
-- although the compositor may own it.
pub selection_end_changes_nothing :
    {c d : Clipboard}
    → ClipboardRun c d
    → c.clipboard_owner == c.window ≡ false
    → 0 == c.window ≡ false
    → selection_changed no_source d ≡ d
unfolding selection_changed
selection_end_changes_nothing {d} s f z =
    if-false _ d (d.clipboard_owner == d.window) (ClipboardRun-IsOwned s (f, z)).0
