-- ===== src/Xwayland/Clipboard.antt =====
-- src/xwayland/selection.c: the clipboard's owner on the side of X11, the requests of X11 clients for
-- the selection of Wayland, and the descriptors by which data is passed. Which type belongs to a target
-- is the matter of Conversions.
pub mod Answers
pub mod Owner
mod Tests
use wlc.Base.{
  ℕ, ◌≡◌, Bool, true, false, ◌&&◌, ◌||◌, not, Option, none, some, List, [], ◌∷◌, ◌++◌, erase,
  if◌then◌else◌, ◌==◌,
}

-- `xcb_selection_notify_event_t`; the property is 0 for XCB_ATOM_NONE.
pub record Notify : Type 0 where
  pub requestor : ℕ
  pub property : ℕ
  pub target : ℕ

-- `struct wlc_xwm_selection`, with the window of the compositor, whether the seat has a source, the
-- descriptors that are open, what is sent, and the owners that the X server is asked to set.
pub record Clipboard : Type 0 where
  pub window : ℕ
  pub has_source : Bool
  pub clipboard_owner : ℕ
  pub data_requestor : ℕ
  pub data_request_property : ℕ
  pub data_request_target : ℕ
  pub data_event_source : Bool
  pub send_fd : Option ℕ
  pub recv_fd : Option ℕ
  pub open_fds : List ℕ
  pub notifies : List Notify
  pub owners : List ℕ

abbrev pub close_fd : Option ℕ → List ℕ → List ℕ
close_fd none fds = fds
close_fd (some fd) fds = erase fds fd

-- The source that the signal `selection` tells of: none, that of the clipboard itself, or another.
pub data Changed : Type 0 where
  no_source own_source other_source : Changed

unfoldable pub selection_changed : Changed → Clipboard → Clipboard
selection_changed no_source c =
    if c.clipboard_owner == c.window
    then record c { clipboard_owner = 0; owners = c.owners ++ 0 ∷ [] }
    else c
selection_changed own_source c = c
selection_changed other_source c = record c { owners = c.owners ++ c.window ∷ [] }

-- What `handle_xfixes_selection_notify` keeps; `is_clipboard` is whether the event is of that
-- selection. The calls that follow are not part of the clipboard.
unfoldable pub xfixes_selection_notify : Bool → ℕ → Clipboard → Clipboard
xfixes_selection_notify is_clipboard owner c =
    if not is_clipboard || owner == c.window then c else record c { clipboard_owner = owner }

abbrev pub send_selection_notify : ℕ → ℕ → ℕ → Clipboard → Clipboard
send_selection_notify requestor property target c = record c {
  notifies =
      c.notifies ++ record { requestor = requestor; property = property; target = target } ∷ [];
}

-- `xcb_selection_request_event_t`; what `pipe` returns, the ends for reading and for writing; whether a
-- type belongs to the target; and whether the event loop takes the descriptor.
pub record ClipboardRequest : Type 0 where
  pub is_clipboard : Bool
  pub requestor : ℕ
  pub property : ℕ
  pub target : ℕ
  pub is_targets : Bool
  pub pipe : Option (ℕ × ℕ)
  pub has_type : Bool
  pub watched : Bool

-- The source takes the end for writing and closes it.
abbrev pub start_transfer : ClipboardRequest → ℕ × ℕ → Clipboard → Clipboard
start_transfer r (in_fd, out_fd) c =
    let opened : Clipboard = record c { open_fds = in_fd ∷ out_fd ∷ c.open_fds } in
    if r.has_type
    then record opened {
      recv_fd = some in_fd;
      data_requestor = r.requestor;
      data_request_property = r.property;
      data_request_target = r.target;
      data_event_source = r.watched;
      open_fds = in_fd ∷ c.open_fds;
    }
    else send_selection_notify r.requestor 0 r.target opened

abbrev pub piped : ClipboardRequest → Option (ℕ × ℕ) → Clipboard → Clipboard
piped r none c = send_selection_notify r.requestor 0 r.target c
piped r (some p) c = start_transfer r p c

unfoldable pub send_selection_data : ClipboardRequest → Clipboard → Clipboard
send_selection_data r c =
    if c.has_source then piped r r.pipe c else send_selection_notify r.requestor 0 r.target c

unfoldable pub handle_selection_request : ClipboardRequest → Clipboard → Clipboard
unfolding send_selection_data
handle_selection_request r c =
    if not r.is_clipboard
    then send_selection_notify r.requestor 0 r.target c
    else if r.requestor == c.window
    then send_selection_notify r.requestor 0 r.target c
    else if r.is_targets
    then (if c.has_source then send_selection_notify r.requestor r.property r.target c else c)
    else send_selection_data r c

-- The data has come, or reading it failed.
unfoldable pub recv_data_source : Bool → Clipboard → Clipboard
recv_data_source success c =
    record (send_selection_notify c.data_requestor (if success then c.data_request_property else 0)
      c.data_request_target c) {
        data_event_source = false;
        data_request_property = 0;
        data_request_target = 0;
        data_requestor = 0;
      }

-- `data_source_send`; `has_target` is whether there is an atom for the type.
unfoldable pub data_source_send : Bool → ℕ → Clipboard → Clipboard
data_source_send has_target fd c =
    if has_target
    then record c { open_fds = fd ∷ close_fd c.send_fd c.open_fds; send_fd = some fd }
    else c

-- `get_selection_data`, where a descriptor waits for the data of the X11 owner.
unfoldable pub get_selection_data : Bool → Clipboard → Clipboard
get_selection_data replied c =
    if replied then record c { open_fds = close_fd c.send_fd c.open_fds; send_fd = none } else c

-- What `get_selection_targets` does to the descriptors, where the targets can be read.
unfoldable pub drop_transfers : Clipboard → Clipboard
drop_transfers c = record c {
  open_fds = close_fd c.recv_fd (close_fd c.send_fd c.open_fds);
  send_fd = none;
  recv_fd = none;
  data_event_source = false;
}

-- What happens to the clipboard, with the X11 clients that ask for the selection, in order: no client
-- asks, and no new targets come, while data is on its way, a client asks for the targets while there is
-- a source, and the event loop takes each descriptor.
pub data ClipboardSteps (c : Clipboard) : List ℕ → Clipboard → Type 0 where
  here : ClipboardSteps c [] c
  asked :
      {rs : List ℕ} {d : Clipboard} (r : ClipboardRequest)
      → ClipboardSteps c rs d
      → d.data_event_source ≡ false
      → (r.is_targets ≡ true → d.has_source ≡ true)
      → r.watched ≡ true
      → ClipboardSteps c (rs ++ r.requestor ∷ []) (handle_selection_request r d)
  received :
      {rs : List ℕ} {d : Clipboard} (success : Bool)
      → ClipboardSteps c rs d
      → d.data_event_source ≡ true
      → ClipboardSteps c rs (recv_data_source success d)
  cleared :
      {rs : List ℕ} {d : Clipboard}
      → ClipboardSteps c rs d
      → d.data_event_source ≡ false
      → ClipboardSteps c rs (drop_transfers d)
  passed :
      {rs : List ℕ} {d : Clipboard} (has_target : Bool) (fd : ℕ)
      → ClipboardSteps c rs d
      → ClipboardSteps c rs (data_source_send has_target fd d)
  got :
      {rs : List ℕ} {d : Clipboard} (replied : Bool)
      → ClipboardSteps c rs d
      → ClipboardSteps c rs (get_selection_data replied d)
  sourced :
      {rs : List ℕ} {d : Clipboard} (has_source : Bool)
      → ClipboardSteps c rs d
      → ClipboardSteps c rs (record d { has_source = has_source })
  changed :
      {rs : List ℕ} {d : Clipboard} (s : Changed)
      → ClipboardSteps c rs d
      → ClipboardSteps c rs (selection_changed s d)
  owned :
      {rs : List ℕ} {d : Clipboard} (is_clipboard : Bool) (owner : ℕ)
      → ClipboardSteps c rs d
      → ClipboardSteps c rs (xfixes_selection_notify is_clipboard owner d)

-- Any such events, in any order and without these conditions.
pub data ClipboardRun (c : Clipboard) : Clipboard → Type 0 where
  start : ClipboardRun c c
  requested :
      {d : Clipboard} (r : ClipboardRequest)
      → ClipboardRun c d
      → ClipboardRun c (handle_selection_request r d)
  readable :
      {d : Clipboard} (success : Bool)
      → ClipboardRun c d
      → ClipboardRun c (recv_data_source success d)
  targets_came : {d : Clipboard} → ClipboardRun c d → ClipboardRun c (drop_transfers d)
  data_wanted :
      {d : Clipboard} (has_target : Bool) (fd : ℕ)
      → ClipboardRun c d
      → ClipboardRun c (data_source_send has_target fd d)
  data_came :
      {d : Clipboard} (replied : Bool)
      → ClipboardRun c d
      → ClipboardRun c (get_selection_data replied d)
  source_set :
      {d : Clipboard} (has_source : Bool)
      → ClipboardRun c d
      → ClipboardRun c (record d { has_source = has_source })
  signalled :
      {d : Clipboard} (s : Changed) → ClipboardRun c d → ClipboardRun c (selection_changed s d)
  owner_told :
      {d : Clipboard} (is_clipboard : Bool) (owner : ℕ)
      → ClipboardRun c d
      → ClipboardRun c (xfixes_selection_notify is_clipboard owner d)
