-- ===== src/Session/Fd.antt =====
-- src/session/fd.c: the privileged helper opens, closes and revokes device files for the
-- compositor, which asks it over a socket.
pub mod Slots
pub mod Open
pub mod Close
pub mod Switch
pub mod Protocol
pub mod Requests
mod Tests
use wlc.Base.{
  ℕ, suc, Bool, true, false, ◌&&◌, ◌||◌, not, Option, none, some, List, [], ◌∷◌, ◌++◌, ltb, ◌==◌,
  if◌then◌else◌, get_elem?, set, starts_with,
}
use wlc.Base.Int.{ℤ, pos, negsuc, ltb_ℤ}
use wlc.Session.System.{FilePath, Stat, Call, set_master, drop_master, revoke, close, Os}
use wlc.Session.Tty.{Tty, tty_activate, tty_deactivate}

-- `enum wlc_fd_type`; a request may carry any number.
abbrev pub fd_input : ℕ
fd_input = 0

abbrev pub fd_drm : ℕ
fd_drm = 1

abbrev pub fd_last : ℕ
fd_last = 2

-- `struct wlc_fd`
pub record Fd : Type 0 where
  pub st_dev : ℕ
  pub st_ino : ℕ
  pub fd : ℤ
  pub type : ℕ

-- The static `wlc` with the state of the tty, and the calls made so far, oldest first.
pub record Helper : Type 0 where
  pub fds : List Fd
  pub tty : Tty
  pub calls : List Call

abbrev pub minus_one : ℤ
minus_one = negsuc 0

abbrev pub is_closed : Fd → Bool
is_closed s = ltb_ℤ s.fd (pos 0)

abbrev pub drm_major : ℕ
drm_major = 226

pub record Allow : Type 0 where
  pub base : List ℕ
  pub major : ℕ

abbrev pub dev_input : List ℕ
dev_input = b'/' ∷ b'd' ∷ b'e' ∷ b'v' ∷ b'/' ∷ b'i' ∷ b'n' ∷ b'p' ∷ b'u' ∷ b't' ∷ b'/' ∷ []

abbrev pub dev_dri_card : List ℕ
dev_dri_card =
    b'/' ∷ b'd' ∷ b'e' ∷ b'v' ∷ b'/' ∷ b'd' ∷ b'r' ∷ b'i' ∷ b'/' ∷ b'c' ∷ b'a' ∷ b'r' ∷ b'd' ∷ []

-- The static array `allow[WLC_FD_LAST]`.
abbrev pub allow : Os → List Allow
allow os =
    record { base = dev_input; major = os.input_major }
    ∷ record { base = dev_dri_card; major = drm_major }
    ∷ []

-- The first index at which a test holds: a `for` loop with a `break`.
unfoldable pub find_slot : (Fd → Bool) → List Fd → Option ℕ
find_slot p [] = none
find_slot p (s ∷ ss) =
    let rest = find_slot p ss in
    if p s then some 0 else elim rest [ none ↦ none | some i ↦ some (suc i) ]

-- `undefined` is a read past the end of `allow`.
pub data Run (A : Type 0) : Type 0 where
  done : A → Run A
  undefined : Run A

-- The file is opened, and the slot filled.
pub fill_slot : Os → Helper → ℕ → ℤ → ℕ → Stat → ℤ × Helper
fill_slot os h i fd type st = if ltb_ℤ fd (pos 0) then (fd, h) else (
  fd,
  record h {
    fds = set h.fds i (record { st_dev = st.st_dev; st_ino = st.st_ino; fd = fd; type = type });
    calls = h.calls ++ (if type == fd_drm then set_master fd ∷ [] else []);
  },
)

open_stat : Os → Helper → ℕ → FilePath → ℕ → ℕ → Allow → Option Stat → ℤ × Helper
open_stat os h i path flags type a none = (minus_one, h)
open_stat os h i path flags type a (some st) =
    if st.rdev_major == a.major
    then fill_slot os h i (os.open_file path flags) type st
    else (minus_one, h)

open_allowed : Os → Helper → ℕ → FilePath → ℕ → ℕ → Option Allow → Run (ℤ × Helper)
open_allowed os h i path flags type none = undefined
open_allowed os h i path flags type (some a) =
    if starts_with a.base path
    then done (open_stat os h i path flags type a (os.stat path))
    else done (minus_one, h)

open_at : Os → Helper → FilePath → ℕ → ℕ → Option ℕ → Run (ℤ × Helper)
open_at os h path flags type none = done (minus_one, h)
open_at os h path flags type (some i) =
    if ltb fd_last type
    then done (minus_one, h)
    else open_allowed os h i path flags type (get_elem? (allow os) type)

unfoldable pub fd_open : Os → Helper → FilePath → ℕ → ℕ → Run (ℤ × Helper)
unfolding open_at open_allowed open_stat fill_slot
fd_open os h path flags type = open_at os h path flags type (find_slot is_closed h.fds)

pub close_slot : Helper → ℕ → Option Fd → Helper
close_slot h i none = h
close_slot h i (some s) = record h {
  fds = set h.fds i (record s { fd = minus_one });
  calls = h.calls ++ ((if s.type == fd_drm then drop_master s.fd ∷ [] else []) ++ close s.fd ∷ []);
}

pub close_at : Helper → Option ℕ → Helper
close_at h none = h
close_at h (some i) = close_slot h i (get_elem? h.fds i)

abbrev pub is_device : ℕ → ℕ → Fd → Bool
is_device dev ino s = s.st_dev == dev && s.st_ino == ino

unfoldable pub fd_close : Helper → ℕ → ℕ → Helper
unfolding close_at close_slot
fd_close h dev ino = close_at h (find_slot (is_device dev ino) h.fds)

-- The loop of `activate`: whether it ran to its end, and the calls it made.
unfoldable pub set_masters : Os → List Fd → Bool × List Call
set_masters os [] = (true, [])
set_masters os (s ∷ ss) =
    let (ok, cs) = set_masters os ss in
    if is_closed s || not (s.type == fd_drm)
    then (ok, cs)
    else if os.master_set s.fd
    then (ok, set_master s.fd ∷ cs)
    else (false, set_master s.fd ∷ [])

unfoldable pub activate : Os → Helper → Bool × Helper
unfolding set_masters tty_activate
activate os h =
    let (ok, cs) = set_masters os h.fds in
    let (acked, ds) = tty_activate os in
    if ok
    then (acked, record h { calls = h.calls ++ (cs ++ ds) })
    else (false, record h { calls = h.calls ++ cs })

-- The first loop of `deactivate`.
unfoldable pub drop_masters : Os → List Fd → Bool × List Call
drop_masters os [] = (true, [])
drop_masters os (s ∷ ss) =
    let (ok, cs) = drop_masters os ss in
    if is_closed s || not (s.type == fd_drm)
    then (ok, cs)
    else if os.master_dropped s.fd
    then (ok, drop_master s.fd ∷ cs)
    else (false, drop_master s.fd ∷ [])

-- The second loop of `deactivate`, which also rewrites the table.
unfoldable pub revoke_inputs : Os → List Fd → Bool × List Fd × List Call
revoke_inputs os [] = (true, [], [])
revoke_inputs os (s ∷ ss) =
    let (ok, ss', cs) = revoke_inputs os ss in
    if is_closed s || not (s.type == fd_input)
    then (ok, s ∷ ss', cs)
    else if os.revoked s.fd
    then (ok, record s { fd = minus_one } ∷ ss', revoke s.fd ∷ close s.fd ∷ cs)
    else (false, s ∷ ss, revoke s.fd ∷ [])

unfoldable pub deactivate : Os → Helper → Bool × Helper
unfolding drop_masters revoke_inputs tty_deactivate
deactivate os h =
    let (dropped, cs) = drop_masters os h.fds in
    let (revoked, fds, ds) = revoke_inputs os h.fds in
    let (released, es) = tty_deactivate os in
    if dropped
    then if revoked
      then (released, record h { fds = fds; calls = h.calls ++ (cs ++ (ds ++ es)) })
      else (false, record h { fds = fds; calls = h.calls ++ (cs ++ ds) })
    else (false, record h { calls = h.calls ++ cs })
