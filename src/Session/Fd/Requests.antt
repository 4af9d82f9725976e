-- ===== src/Session/Fd/Requests.antt =====
-- The helper over whole requests and runs: what it answers, and what its table holds.
use wlc.Base.{
  ℕ, suc, zero, ◌<◌, ◌≡◌, ◌≢◌, ◌⊎◌, inl, inr, refl, ap, ◌∙◌, true, false, Option, none, some, List,
  [], ◌∷◌, arith, length, get_elem?, set, All, length-set, if◌then◌else◌, take, Option-cases,
  Bool-cases,
}
use wlc.Base.Int.{ℤ, ltb_ℤ, pos}
use wlc.Session.System.{Os, FilePath}
use wlc.Session.Tty.{tty_activate_vt}
use wlc.Session.Fd.{
  Fd, Helper, Allow, Run, done, undefined, is_closed, fd_last, minus_one, fd_open, fd_close,
  activate, deactivate, revoke_inputs, find_slot, close_at, close_slot, is_device, allow,
}
use wlc.Session.Fd.Open.{fd_open-Opened, fd_open_refused, fill_slot-fds, fd_open-undefined}
use wlc.Session.Fd.Protocol.{
  Request, check, open_file, close_file, activate_tty, deactivate_tty, activate_vt, Response,
  Received, type_fd_open, type_fd_close, type_of, handle_request, communicate, Client, wlc_fd_open,
  wlc_fd_activate, wlc_fd_deactivate, wlc_fd_activate_vt,
}

-- What may come back for a request: nothing for the one to close a file, and otherwise a response of
-- the request's type.
abbrev pub Answers : Request → Option Response → Type 0
Answers r none = type_of r ≡ type_fd_close
Answers r (some a) = (a.type ≡ type_of r) × (type_of r ≢ type_fd_close)

-- The helper answers every request but the one to close a file, and its answer has the type of
-- the request.
pub handle_request-Answers :
    (os : Os) (h : Helper) (sock_fd : ℤ) (r : Request) (answer : Option Response) (h' : Helper)
    → handle_request os h sock_fd r ≡ done (answer, h')
    → Answers r answer
unfolding handle_request type_of
handle_request-Answers os h k check none h' e = ground (arith, e)
handle_request-Answers os h k (close_file dev ino) none h' e = refl
handle_request-Answers os h k _ none h' e = absurd (ground (arith, e))
handle_request-Answers os h k (close_file dev ino) (some a) h' e = absurd (ground (arith, e))
handle_request-Answers os h k _ (some a) h' e = (ground (arith, e), λ x. cc)

-- The table keeps its slots, and an open slot is of one of the two known types.
abbrev pub IsKnown : Fd → Type 0
IsKnown s = is_closed s ≡ false → s.type < fd_last

pub record IsValid (n : ℕ) (h : Helper) : Type 0 where
  pub slots : length h.fds ≡ n
  pub known : All IsKnown h.fds

All-set {ℓ κ} :
    {A : Type ℓ} (P : A → Type κ) (xs : List A) (i : ℕ) (v : A)
    → P v
    → All P xs
    → All P (set xs i v)
All-set P [] i v pv h = h
All-set P (x ∷ xs) zero v pv h = (pv, h.1)
All-set P (x ∷ xs) (suc i) v pv h = (h.0, All-set P xs i v pv h.1)

in_range : (os : Os) (t : ℕ) (a : Allow) → get_elem? (allow os) t ≡ some a → t < fd_last
in_range os zero a e = omega arith
in_range os (suc zero) a e = omega arith
in_range os (suc (suc t)) a e = cc

Run-cases : {A : Type 0} (x : Run A) → (x ≡ undefined) ⊎ ((a : A) × (x ≡ done a))
Run-cases undefined = inl refl
Run-cases (done a) = inr (a, refl)

fd_open-IsValid :
    (n : ℕ) (os : Os) (h : Helper) (path : FilePath) (flags type : ℕ) (fd : ℤ) (h' : Helper)
    → fd_open os h path flags type ≡ done (fd, h')
    → IsValid n h
    → IsValid n h'
fd_open-IsValid n os h path flags type fd h' e v = elim (Bool-cases (ltb_ℤ fd (pos 0))) [
  | inl bad ↦ rw (fd_open_refused os h path flags type fd h' bad e) v
  | inr good ↦
      let o = fd_open-Opened os h path flags type fd h' good e in
      let st = o.st in
      let new : Fd = record { st_dev = st.st_dev; st_ino = st.st_ino; fd = fd; type = type } in
      let table : h'.fds ≡ set h.fds o.slot new =
        ap (λ (x : Helper). x.fds) o.filled ∙ fill_slot-fds os h o.slot fd type st good in
      record {
        slots = rw (table, length-set h.fds o.slot new) v.slots;
        known = rw table (
            All-set IsKnown h.fds o.slot new (λ open_slot. in_range os type o.rule o.known)
              v.known);
      }
]

activate-fds : (os : Os) (h : Helper) → (activate os h).1.fds ≡ h.fds
unfolding activate
activate-fds os h = ground arith

revoke_inputs-length : (os : Os) (ss : List Fd) → length (revoke_inputs os ss).1 ≡ length ss
unfolding revoke_inputs
revoke_inputs-length os [] = refl
revoke_inputs-length os (s ∷ ss) = ground (arith, revoke_inputs-length os ss)

revoke_inputs-IsKnown :
    (os : Os) (ss : List Fd) → All IsKnown ss → All IsKnown (revoke_inputs os ss).1
unfolding revoke_inputs
revoke_inputs-IsKnown os [] k = tt
revoke_inputs-IsKnown os (s ∷ ss) k = ground (arith, revoke_inputs-IsKnown os ss k.1)

deactivate-IsValid : (n : ℕ) (os : Os) (h : Helper) → IsValid n h → IsValid n (deactivate os h).1
unfolding deactivate
deactivate-IsValid n os h v =
    ground (arith, revoke_inputs-length os h.fds, revoke_inputs-IsKnown os h.fds v.known)

get-IsKnown : (ss : List Fd) (i : ℕ) (s : Fd) → All IsKnown ss → get_elem? ss i ≡ some s → IsKnown s
get-IsKnown [] i s k e = cc
get-IsKnown (x ∷ ss) zero s k e = ground (arith, e, k.0)
get-IsKnown (x ∷ ss) (suc i) s k e = get-IsKnown ss i s k.1 e

close_slot-IsValid :
    (n : ℕ) (h : Helper) (i : ℕ) (o : Option Fd) → IsValid n h → IsValid n (close_slot h i o)
unfolding close_slot
close_slot-IsValid n h i none v = v
close_slot-IsValid n h i (some s) v = record {
  slots = rw (length-set h.fds i (record s { fd = minus_one })) v.slots;
  known = All-set IsKnown h.fds i (record s { fd = minus_one }) (λ e. cc) v.known;
}

fd_close-IsValid : (n : ℕ) (h : Helper) (dev ino : ℕ) → IsValid n h → IsValid n (fd_close h dev ino)
unfolding fd_close
fd_close-IsValid n h dev ino v = elim (Option-cases (find_slot (is_device dev ino) h.fds)) [
  | inl e ↦ rw (e, close_at) v
  | inr (i, e) ↦ rw (e, close_at) (close_slot-IsValid n h i (get_elem? h.fds i) v)
]

-- No request changes the number of slots, and each leaves every open slot with one of the two known
-- types.
pub handle_request-IsValid :
    (n : ℕ) (os : Os) (h : Helper) (sock_fd : ℤ) (r : Request) (answer : Option Response)
    (h' : Helper)
    → handle_request os h sock_fd r ≡ done (answer, h')
    → IsValid n h
    → IsValid n h'
unfolding handle_request
handle_request-IsValid n os h k check answer h' e v = ground (arith, e)
handle_request-IsValid n os h k (open_file path flags type) answer h' e v =
    elim (Run-cases (fd_open os h path flags type)) [
      | inl u ↦ absurd (ground (arith, e, u))
      | inr (x, d) ↦ fd_open-IsValid n os h path flags type x.0 h' (ground (arith, e, d)) v
    ]
handle_request-IsValid n os h k (close_file dev ino) answer h' e v =
    let same : h' ≡ fd_close h dev ino = ground (arith, e) in
    rw same (fd_close-IsValid n h dev ino v)
handle_request-IsValid n os h k activate_tty answer h' e v =
    let same : h' ≡ (activate os h).1 = ground (arith, e) in
    rw same
      (record { slots = rw (activate-fds os h) v.slots; known = rw (activate-fds os h) v.known })
handle_request-IsValid n os h k deactivate_tty answer h' e v =
    let same : h' ≡ (deactivate os h).1 = ground (arith, e) in rw same (deactivate-IsValid n os h v)
handle_request-IsValid n os h k (activate_vt vt) answer h' e v = ground (arith, e)

-- The request does not name the type `WLC_FD_LAST`.
abbrev pub AvoidsLast : Request → Type 0
AvoidsLast (open_file path flags type) = type ≢ fd_last
AvoidsLast _ = Unit {0}

handle_request_done :
    (os : Os) (h : Helper) (k : ℤ) (r : Request)
    → AvoidsLast r
    → (x : Option Response × Helper) × (handle_request os h k r ≡ done x)
unfolding handle_request
handle_request_done os h k check a = (_, refl)
handle_request_done os h k (open_file path flags type) a =
    elim (Run-cases (fd_open os h path flags type)) [
      | inl u ↦ absurd (a ((fd_open-undefined os h path flags type).0 u).0)
      | inr (x, d) ↦ (
        (some (record { type = type_fd_open; granted = false; fd = x.0 }), x.1),
        rw (d, handle_request),
      )
    ]
handle_request_done os h k (close_file dev ino) a = (_, refl)
handle_request_done os h k activate_tty a = (_, refl)
handle_request_done os h k deactivate_tty a = (_, refl)
handle_request_done os h k (activate_vt vt) a = (_, refl)

-- A run of the helper, from a table with a number of slots of which the open ones are of known
-- types, over requests of which none opens a file under the type `WLC_FD_LAST`, reads nothing past
-- the allow list, and ends with a table that has its slots and open ones of known types only.
pub communicate-IsValid :
    (n : ℕ) (os : Os) (h : Helper) (rs : List Request)
    → All AvoidsLast rs
    → IsValid n h
    → (h' : Helper) × (communicate os h rs ≡ done h') × IsValid n h'
unfolding communicate
communicate-IsValid n os h [] a v = (_, refl, record { slots = v.slots; known = v.known })
communicate-IsValid n os h (r ∷ rs) a v =
    let (x, e) = handle_request_done os h minus_one r a.0 in
    let v' = handle_request-IsValid n os h minus_one r x.0 x.1 e v in
    let (h', rest, w) = communicate-IsValid n os x.1 rs a.1 v' in (h', rw (e, communicate) rest, w)

-- What a compositor gets that asks this helper over a socket that loses nothing: `write_fd` passes
-- no negative descriptor, and `recv_fd` then leaves -1.
abbrev pub delivered : Run (Option Response × Helper) → Option Received
delivered undefined = none
delivered (done (none, h)) = none
delivered (done (some a, h)) = some (record {
  whole = true;
  response = record a { fd = if ltb_ℤ a.fd (pos 0) then minus_one else a.fd };
})

-- Without logind, and over a socket that loses nothing, `wlc_fd_open` gives the compositor the
-- descriptor that the helper's `fd_open` returns for the first 32 bytes of the path, or -1 where
-- that is negative.
wlc_fd_open-fd_open :
    (os : Os) (h : Helper) (c : Client) (path : FilePath) (flags type : ℕ) (fd : ℤ) (h' : Helper)
    → c.has_logind ≡ false
    → ((r : Request) → c.ask r ≡ delivered (handle_request os h minus_one r))
    → fd_open os h (take 32 path) flags type ≡ done (fd, h')
    → wlc_fd_open c path flags type ≡ (if ltb_ℤ fd (pos 0) then minus_one else fd)
unfolding wlc_fd_open handle_request
wlc_fd_open-fd_open os h c path flags type fd h' off socket e =
    rw (off, socket (open_file (take 32 path) flags type), e, handle_request)

-- Without logind, and over a socket that loses nothing, `wlc_fd_activate`, `wlc_fd_deactivate` and
-- `wlc_fd_activate_vt` tell the compositor whether the helper's `activate`, `deactivate` and
-- `wlc_tty_activate_vt` succeeded.
wlc_fd_switches :
    (os : Os) (h : Helper) (c : Client) (vt : ℕ)
    → c.has_logind ≡ false
    → ((r : Request) → c.ask r ≡ delivered (handle_request os h minus_one r))
    → (wlc_fd_activate c ≡ (activate os h).0)
      × (wlc_fd_deactivate c ≡ (deactivate os h).0)
      × (wlc_fd_activate_vt c vt ≡ (tty_activate_vt os h.tty vt).0)
unfolding wlc_fd_activate wlc_fd_deactivate wlc_fd_activate_vt handle_request
wlc_fd_switches os h c vt off socket = (
  rw (off, socket activate_tty),
  rw (off, socket deactivate_tty),
  rw (off, socket (activate_vt vt)),
)
