-- ===== src/Session/Fd/Tests.antt =====
-- The theorems on src/session/fd.c at a small table.
use wlc.Base.{
  ℕ, ◌≡◌, ◌≢◌, ◌↔◌, refl, Bool, true, false, none, some, List, [], ◌∷◌, ◌++◌, arith, get_elem?, set,
  if◌then◌else◌, starts_with,
}
use wlc.Base.Int.{pos}
use wlc.Session.System.{FilePath, Stat, set_master, drop_master, close, Os}
use wlc.Session.Fd.{
  Fd, Helper, Allow, done, undefined, allow, is_closed, find_slot, fd_last, fd_drm, fd_input,
  dev_dri_card, minus_one, fd_open, fd_close, deactivate,
}
use wlc.Session.Fd.Open.{fd_open_allowed, fd_open-undefined}
use wlc.Session.Fd.Close.{fd_close_after_open}
use wlc.Session.Fd.Switch.{drops_until, deactivate_keeps_inputs}
use wlc.Session.Fd.Protocol.{
  open_file, close_file, deactivate_tty, Client, handle_request, communicate,
}
use wlc.Session.Fd.Requests.{IsValid, delivered, communicate-IsValid}

abbrev card0 : FilePath
card0 = dev_dri_card ++ b'0' ∷ []

abbrev card0_stat : Stat
card0_stat = record { st_dev = 6; st_ino = 9; rdev_major = 226 }

abbrev answers : Bool → Os
answers dropped = record {
  stat = λ path. if starts_with dev_dri_card path then some card0_stat else none;
  open_file = λ path flags. pos 5;
  master_set = λ fd. true;
  master_dropped = λ fd. dropped;
  revoked = λ fd. true;
  acknowledged = true;
  display_released = true;
  vt_activated = λ vt. true;
  input_major = 13;
}

abbrev os : Os
os = answers true

abbrev never : Fd
never = record { st_dev = 0; st_ino = 0; fd = minus_one; type = 0 }

abbrev keyboard : Fd
keyboard = record { st_dev = 6; st_ino = 20; fd = pos 4; type = fd_input }

abbrev card : Fd
card = record { st_dev = 6; st_ino = 9; fd = pos 5; type = fd_drm }

abbrev table : List Fd → Helper
table fds = record { fds = fds; tty = record { is_open = true; vt = 2 }; calls = [] }

abbrev before : Helper
before = table (keyboard ∷ never ∷ [])

abbrev after : Helper
after = record {
  fds = keyboard ∷ card ∷ [];
  tty = record { is_open = true; vt = 2 };
  calls = set_master (pos 5) ∷ [];
}

opens : fd_open os before card0 2 fd_drm ≡ done (pos 5, after)
unfolding fd_open find_slot
opens = refl

fd_open_allowed_example :
    (a : Allow) × (st : Stat) × (get_elem? (allow os) fd_drm ≡ some a)
    × (starts_with a.base card0 ≡ true)
    × (os.stat card0 ≡ some st)
    × (st.rdev_major ≡ a.major)
    × (pos 5 ≡ os.open_file card0 2)
fd_open_allowed_example = fd_open_allowed os before card0 2 fd_drm (pos 5) after refl opens

fd_open-undefined_example :
    (fd_open os before card0 2 fd_last ≡ undefined)
    ↔ ((fd_last ≡ fd_last) × (find_slot is_closed before.fds ≢ none))
fd_open-undefined_example = fd_open-undefined os before card0 2 fd_last

fd_close_after_open_example :
    (i : ℕ) × (closed : Fd) × (is_closed closed ≡ true)
    × ((fd_close after 6 9).fds ≡ set before.fds i closed)
    × ((fd_close after 6 9).calls ≡ after.calls ++ (drop_master (pos 5) ∷ close (pos 5) ∷ []))
fd_close_after_open_example =
    fd_close_after_open os before card0 2 fd_drm (pos 5) after refl opens card0_stat refl
      (refl, (refl, tt))

-- A device that is open twice: after the first request to close it, the second closes nothing.
abbrev half_closed : Helper
half_closed = table (record card { fd = minus_one } ∷ record card { fd = pos 7 } ∷ [])

second_close : (fd_close half_closed 6 9).fds ≡ half_closed.fds
unfolding find_slot fd_close
second_close = refl

deactivate_keeps_inputs_example :
    deactivate (answers false) after
    ≡ (false, record after { calls = after.calls ++ drops_until (answers false) after.fds })
deactivate_keeps_inputs_example = deactivate_keeps_inputs (answers false) after refl

before-IsValid : IsValid 2 before
before-IsValid = record { slots = refl; known = (λ e. omega arith, (λ e. omega arith, tt)) }

communicate-IsValid_example :
    (h' : Helper) × (communicate os before
        (open_file card0 2 fd_drm ∷ deactivate_tty ∷ close_file 6 9 ∷ [])
      ≡ done h')
    × IsValid 2 h'
communicate-IsValid_example =
    communicate-IsValid 2 os before
      (open_file card0 2 fd_drm ∷ deactivate_tty ∷ close_file 6 9 ∷ [])
      (λ e. absurd (omega arith), (tt, (tt, tt))) before-IsValid

abbrev client : Client
client = record {
  has_logind = false;
  logind_open = λ path flags. minus_one;
  tty_os = os;
  tty = record { is_open = true; vt = 2 };
  ask = λ r. delivered (handle_request os before minus_one r);
}
