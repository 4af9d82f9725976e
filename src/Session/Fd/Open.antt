-- ===== src/Session/Fd/Open.antt =====
-- `fd_open`: what the helper opens, and what a refusal leaves behind.
use wlc.Base.{
  ◌∙◌, ℕ, ◌≡◌, ◌≢◌, ◌↔◌, inl, inr, refl, ap, true, false, Option, none, some, arith, length,
  get_elem?, set, length-set, get_elem?-set_self, get_elem?-set_ne, Bool-cases, Option-cases,
  starts_with, ltb,
}
use wlc.Base.Int.{ℤ, pos, ltb_ℤ}
use wlc.Session.Fd.Slots.{find_slot-some}
use wlc.Session.System.{FilePath, Stat, Os}
use wlc.Session.Fd.{
  Fd, Helper, Allow, done, undefined, allow, is_closed, find_slot, fd_last, fill_slot, open_stat,
  open_allowed, open_at, fd_open,
}

-- What a call that returns a descriptor went through.
pub record Opened (os : Os) (h : Helper) (path : FilePath) (flags type : ℕ) (fd : ℤ) (h' : Helper)
    : Type 0 where
  pub slot : ℕ
  pub rule : Allow
  pub st : Stat
  pub was_free : find_slot is_closed h.fds ≡ some slot
  pub known : get_elem? (allow os) type ≡ some rule
  pub prefix : starts_with rule.base path ≡ true
  pub exists : os.stat path ≡ some st
  pub major : st.rdev_major ≡ rule.major
  pub opened : fd ≡ os.open_file path flags
  pub filled : h' ≡ (fill_slot os h slot fd type st).1

module _ (os : Os) (h : Helper) (path : FilePath) (flags type : ℕ) (fd : ℤ) (h' : Helper)
    (valid : ltb_ℤ fd (pos 0) ≡ false) where
  open_at-Opened :
      (i : ℕ) (o : Option Allow) (s : Option Stat)
      → find_slot is_closed h.fds ≡ some i
      → get_elem? (allow os) type ≡ o
      → os.stat path ≡ s
      → open_allowed os h i path flags type o ≡ done (fd, h')
      → Opened os h path flags type fd h'
  unfolding open_allowed open_stat fill_slot
  open_at-Opened i none s ei eo es e = absurd (ground (arith, e))
  open_at-Opened i (some a) none ei eo es e = absurd (ground (arith, e, es, valid))
  open_at-Opened i (some a) (some st) ei eo es e = record {
    slot = i;
    rule = a;
    st = st;
    was_free = ei;
    known = eo;
    prefix = ground (arith, e, es, valid);
    exists = es;
    major = ground (arith, e, es, valid);
    opened = ground (arith, e, es, valid);
    filled = ground (arith, e, es, valid);
  }

  pub fd_open-Opened :
      fd_open os h path flags type ≡ done (fd, h') → Opened os h path flags type fd h'
  unfolding fd_open
  fd_open-Opened e = elim (Option-cases (find_slot is_closed h.fds)) [
    | inl f ↦ absurd (ground (arith, e, f, valid))
    | inr (i, f) ↦ elim (Bool-cases (ltb fd_last type)) [
      | inl big ↦ absurd (ground (arith, e, f, big, valid))
      | inr small ↦
          open_at-Opened i (get_elem? (allow os) type) (os.stat path) f refl refl
            (rw (f, open_at, small) at e)
    ]
  ]

-- Inversion of a slot that is filled with a descriptor.
pub fill_slot-fds :
    (os : Os) (h : Helper) (i : ℕ) (fd : ℤ) (type : ℕ) (st : Stat)
    → ltb_ℤ fd (pos 0) ≡ false
    → (fill_slot os h i fd type st).1.fds
      ≡ set h.fds i (record { st_dev = st.st_dev; st_ino = st.st_ino; fd = fd; type = type })
unfolding fill_slot
fill_slot-fds os h i fd type st v = rw v

-- When `fd_open` returns a descriptor, the slot that it took was closed and holds the new entry;
-- every other slot is as it was, and the table has as many slots as before.
fd_open_stores :
    (os : Os) (h : Helper) (path : FilePath) (flags type : ℕ) (fd : ℤ) (h' : Helper)
    → ltb_ℤ fd (pos 0) ≡ false
    → fd_open os h path flags type ≡ done (fd, h')
    → (i : ℕ) × (old : Fd) × (new : Fd) × (get_elem? h.fds i ≡ some old)
      × (is_closed old ≡ true)
      × (get_elem? h'.fds i ≡ some new)
      × (new.fd ≡ fd)
      × (new.type ≡ type)
      × ((j : ℕ) → i ≢ j → get_elem? h'.fds j ≡ get_elem? h.fds j)
      × (length h'.fds ≡ length h.fds)
fd_open_stores os h path flags type fd h' valid e =
    let o = fd_open-Opened os h path flags type fd h' valid e in
    let st = o.st in
    let new : Fd = record { st_dev = st.st_dev; st_ino = st.st_ino; fd = fd; type = type } in
    let (lt, found) = find_slot-some is_closed h.fds o.slot o.was_free in
    let (old, at, closed) = found in
    let table : h'.fds ≡ set h.fds o.slot new =
      ap (λ (x : Helper). x.fds) o.filled ∙ fill_slot-fds os h o.slot fd type st valid in
    (
      o.slot,
      old,
      new,
      at,
      closed,
      rw table (get_elem?-set_self h.fds o.slot new lt),
      refl,
      refl,
      λ j ne. rw table (get_elem?-set_ne h.fds new ne),
      rw table (length-set h.fds o.slot new),
    )

-- A descriptor is returned only for a path that begins with the prefix allowed to its type, and
-- for an existing device whose major number is the one allowed to its type.
pub fd_open_allowed :
    (os : Os) (h : Helper) (path : FilePath) (flags type : ℕ) (fd : ℤ) (h' : Helper)
    → ltb_ℤ fd (pos 0) ≡ false
    → fd_open os h path flags type ≡ done (fd, h')
    → (a : Allow) × (st : Stat) × (get_elem? (allow os) type ≡ some a)
      × (starts_with a.base path ≡ true)
      × (os.stat path ≡ some st)
      × (st.rdev_major ≡ a.major)
      × (fd ≡ os.open_file path flags)
fd_open_allowed os h path flags type fd h' valid e =
    let o = fd_open-Opened os h path flags type fd h' valid e in
    (o.rule, o.st, o.known, o.prefix, o.exists, o.major, o.opened)

-- A call of `fd_open` that returns a negative number leaves the table and the tty alone and makes
-- no call with an effect.
pub fd_open_refused :
    (os : Os) (h : Helper) (path : FilePath) (flags type : ℕ) (fd : ℤ) (h' : Helper)
    → ltb_ℤ fd (pos 0) ≡ true
    → fd_open os h path flags type ≡ done (fd, h')
    → h' ≡ h
unfolding fd_open
fd_open_refused os h path flags type fd h' bad e = ground (arith, e, bad)

-- `fd_open` reads past the end of its allow list exactly when a slot is free and the requested type
-- is `WLC_FD_LAST`.
pub fd_open-undefined :
    (os : Os) (h : Helper) (path : FilePath) (flags type : ℕ)
    → (fd_open os h path flags type ≡ undefined)
      ↔ ((type ≡ fd_last) × (find_slot is_closed h.fds ≢ none))
unfolding fd_open
fd_open-undefined os h path flags type = (ground arith, ground arith)
