-- ===== src/Session/Fd/Protocol.antt =====
-- src/session/fd.c: the messages between the compositor and the helper, the helper's loop, and the
-- calls of the compositor's side.
use wlc.Base.{
  ℕ, Bool, true, false, ◌&&◌, Option, none, some, List, [], ◌∷◌, ◌++◌, if◌then◌else◌, take, ◌==◌,
}
use wlc.Base.Int.{ℤ}
use wlc.Session.System.{FilePath, Os, drop_master, close, Call}
use wlc.Session.Tty.{tty_activate, tty_deactivate, tty_activate_vt, Tty}
use wlc.Session.Fd.{
  Fd, Helper, Run, done, undefined, fd_open, fd_close, activate, deactivate, minus_one, is_closed,
  fd_drm,
}

pub data MsgType : Type 0 where
  type_check type_fd_open type_fd_close type_activate type_deactivate type_activate_vt : MsgType

-- `struct msg_request`: the type and its member of the union.
pub data Request : Type 0 where
  check : Request
  open_file : FilePath → ℕ → ℕ → Request
  close_file : ℕ → ℕ → Request
  activate_tty : Request
  deactivate_tty : Request
  activate_vt : ℕ → Request

unfoldable pub type_of : Request → MsgType
type_of check = type_check
type_of (open_file path flags type) = type_fd_open
type_of (close_file dev ino) = type_fd_close
type_of activate_tty = type_activate
type_of deactivate_tty = type_deactivate
type_of (activate_vt vt) = type_activate_vt

-- `struct msg_response` with the descriptor that `write_fd` passes beside it. The two members of
-- the union are one Boolean.
pub record Response : Type 0 where
  pub type : MsgType
  pub granted : Bool
  pub fd : ℤ

-- The helper after a request, with what it writes to the socket. `sock_fd` is the descriptor that
-- came with the request.
unfoldable pub handle_request : Os → Helper → ℤ → Request → Run (Option Response × Helper)
handle_request os h sock_fd check =
    done (some (record { type = type_check; granted = false; fd = sock_fd }), h)
handle_request os h sock_fd (open_file path flags type) = elim (fd_open os h path flags type) [
  | undefined ↦ undefined
  | done (fd, h') ↦ done (some (record { type = type_fd_open; granted = false; fd = fd }), h')
]
handle_request os h sock_fd (close_file dev ino) = done (none, fd_close h dev ino)
handle_request os h sock_fd activate_tty =
    let (ok, h') = activate os h in
    done (some (record { type = type_activate; granted = ok; fd = sock_fd }), h')
handle_request os h sock_fd deactivate_tty =
    let (ok, h') = deactivate os h in
    done (some (record { type = type_deactivate; granted = ok; fd = sock_fd }), h')
handle_request os h sock_fd (activate_vt vt) =
    let (ok, cs) = tty_activate_vt os h.tty vt in
    done (
      some (record { type = type_activate_vt; granted = ok; fd = sock_fd }),
      record h { calls = h.calls ++ cs },
    )

-- The last loop of `communicate`: what is closed when the compositor is gone.
unfoldable pub close_all : List Fd → List Call
close_all [] = []
close_all (s ∷ ss) =
    (if is_closed s
      then []
      else (if s.type == fd_drm then drop_master s.fd ∷ [] else []) ++ close s.fd ∷ [])
    ++ close_all ss

-- `communicate`: the requests that arrive until the compositor is gone, each without a descriptor.
unfoldable pub communicate : Os → Helper → List Request → Run Helper
unfolding handle_request close_all
communicate os h [] = done (record h { calls = h.calls ++ close_all h.fds })
communicate os h (r ∷ rs) = elim (handle_request os h minus_one r) [
  | undefined ↦ undefined
  | done (answer, h') ↦ communicate os h' rs
]

-- What `recv_fd` delivers: `none` if `select` times out, otherwise whether a whole response came.
pub record Received : Type 0 where
  pub whole : Bool
  pub response : Response

abbrev pub same_type : MsgType → MsgType → Bool
same_type type_check type_check = true
same_type type_fd_open type_fd_open = true
same_type type_fd_close type_fd_close = true
same_type type_activate type_activate = true
same_type type_deactivate type_deactivate = true
same_type type_activate_vt type_activate_vt = true
same_type _ _ = false

-- The result, the descriptor and the Boolean that the caller reads.
unfoldable pub read_response : Option Received → MsgType → Bool × ℤ × Bool
read_response none expected = (false, minus_one, false)
read_response (some r) expected =
    (r.whole && same_type r.response.type expected, r.response.fd, r.response.granted)

-- The compositor's side. `has_logind` sends the calls to logind instead; `logind` is what it
-- answers; `ask` is what comes back for a request.
pub record Client : Type 0 where
  pub has_logind : Bool
  pub logind_open : FilePath → ℕ → ℤ
  pub tty_os : Os
  pub tty : Tty
  pub ask : Request → Option Received

unfoldable pub wlc_fd_open : Client → FilePath → ℕ → ℕ → ℤ
unfolding read_response
wlc_fd_open c path flags type =
    if c.has_logind
    then c.logind_open path flags
    else let (ok, fd, granted) =
        read_response (c.ask (open_file (take 32 path) flags type)) type_fd_open in
      if ok then fd else minus_one

unfoldable pub wlc_fd_activate : Client → Bool
unfolding read_response tty_activate
wlc_fd_activate c =
    if c.has_logind
    then (tty_activate c.tty_os).0
    else let (ok, fd, granted) = read_response (c.ask activate_tty) type_activate in ok && granted

unfoldable pub wlc_fd_deactivate : Client → Bool
unfolding read_response tty_deactivate
wlc_fd_deactivate c =
    if c.has_logind
    then (tty_deactivate c.tty_os).0
    else let (ok, fd, granted) = read_response (c.ask deactivate_tty) type_deactivate in
      ok && granted

unfoldable pub wlc_fd_activate_vt : Client → ℕ → Bool
unfolding read_response tty_activate_vt
wlc_fd_activate_vt c vt =
    if c.has_logind
    then (tty_activate_vt c.tty_os c.tty vt).0
    else let (ok, fd, granted) = read_response (c.ask (activate_vt vt)) type_activate_vt in
      ok && granted
