-- ===== src/Xwayland/Clipboard/Tests.antt =====
-- An X11 client that is sent the selection, and one whose target has no type.
use wlc.Base.{◌≡◌, refl, true, false, none, some, [], ◌∷◌, ◌++◌}
use wlc.Xwayland.Clipboard.{
  Clipboard, no_source, selection_changed, ClipboardRequest, handle_selection_request,
  recv_data_source, ClipboardSteps, here, asked, received, ClipboardRun, start, requested, readable,
}
use wlc.Xwayland.Clipboard.Answers.{requestors, waiting, ClipboardSteps-Answered}
use wlc.Xwayland.Clipboard.Owner.{selection_end_changes_nothing}

abbrev idle_clipboard : Clipboard
idle_clipboard = record {
  window = 2;
  has_source = true;
  clipboard_owner = 0;
  data_requestor = 0;
  data_request_property = 0;
  data_request_target = 0;
  data_event_source = false;
  send_fd = none;
  recv_fd = none;
  open_fds = [];
  notifies = [];
  owners = [];
}

abbrev paste : ClipboardRequest
paste = record {
  is_clipboard = true;
  requestor = 30;
  property = 4;
  target = 5;
  is_targets = false;
  pipe = some (11, 12);
  has_type = true;
  watched = true;
}

abbrev asked_once : Clipboard
asked_once = handle_selection_request paste idle_clipboard

abbrev sent_once : Clipboard
sent_once = recv_data_source true asked_once

sent_once-ClipboardSteps : ClipboardSteps idle_clipboard (30 ∷ []) sent_once
unfolding handle_selection_request
sent_once-ClipboardSteps = received true (asked paste here refl (λ t. refl) refl) refl

-- The end of the pipe that was read stays open.
still_open : sent_once.open_fds ≡ 11 ∷ []
unfolding handle_selection_request recv_data_source
still_open = refl

-- Without a type for the target both ends stay open.
both_open :
    (handle_selection_request (record paste { has_type = false }) idle_clipboard).open_fds
    ≡ 11 ∷ 12 ∷ []
unfolding handle_selection_request
both_open = refl

-- A second request during the transfer takes the first client's place: it gets the answers of both.
first_is_forgotten :
    requestors
      (recv_data_source true (
        handle_selection_request
          (record paste { requestor = 31; pipe = some (13, 14) })
          asked_once)).notifies
    ≡ 31 ∷ []
unfolding handle_selection_request recv_data_source
first_is_forgotten = refl

ClipboardSteps-Answered_example : requestors sent_once.notifies ++ waiting sent_once ≡ 30 ∷ []
ClipboardSteps-Answered_example = ClipboardSteps-Answered sent_once-ClipboardSteps refl

-- The second request comes during the transfer of the first.
abbrev asked_twice : Clipboard
asked_twice =
    recv_data_source true
      (handle_selection_request (record paste { requestor = 31; pipe = some (13, 14) }) asked_once)

asked_twice-ClipboardRun : ClipboardRun idle_clipboard asked_twice
asked_twice-ClipboardRun =
    readable true
      (requested (record paste { requestor = 31; pipe = some (13, 14) }) (requested paste start))

selection_end_changes_nothing_example : selection_changed no_source asked_twice ≡ asked_twice
selection_end_changes_nothing_example =
    selection_end_changes_nothing asked_twice-ClipboardRun refl refl
