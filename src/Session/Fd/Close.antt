-- ===== src/Session/Fd/Close.antt =====
-- `fd_close`: which slot it closes.
use wlc.Base.{
  ℕ, ◌≡◌, refl, ap, ◌∙◌, true, false, some, List, [], ◌∷◌, ◌++◌, arith, get_elem?, set, All,
  get_elem?-set_self, if◌then◌else◌, ◌==◌,
}
use wlc.Base.Int.{ℤ, pos, ltb_ℤ}
use wlc.Session.System.{FilePath, Os, drop_master, close, Stat}
use wlc.Session.Fd.{
  Fd, Helper, done, find_slot, is_device, is_closed, fd_open, fd_close, close_at, close_slot,
  fill_slot, fd_drm, minus_one,
}
use wlc.Session.Fd.Slots.{find_slot-some, find_slot-none, find_slot-set, set-set, set-get_elem?}
use wlc.Session.Fd.Open.{fd_open-Opened, fill_slot-fds}

-- A request to close a device that no slot has held changes nothing and closes nothing.
pub fd_close_unknown :
    (h : Helper) (dev ino : ℕ)
    → All (λ s. is_device dev ino s ≡ false) h.fds
    → fd_close h dev ino ≡ h
unfolding fd_close
fd_close_unknown h dev ino none_of = rw (find_slot-none (is_device dev ino) h.fds none_of)

-- A closed slot keeps its device numbers. Where the first slot with the numbers of the request is
-- closed already, the request closes no slot, whatever the slots behind it hold.
fd_close_stale :
    (h : Helper) (dev ino i : ℕ) (s : Fd)
    → find_slot (is_device dev ino) h.fds ≡ some i
    → get_elem? h.fds i ≡ some s
    → s.fd ≡ minus_one
    → (fd_close h dev ino).fds ≡ h.fds
unfolding fd_close
fd_close_stale h dev ino i s found at closed =
    rw (found, close_at, at, close_slot) (ap (set h.fds i) same_slot ∙ set-get_elem? h.fds i s at)
  where
    same_slot : record s { fd = minus_one } ≡ s
    same_slot = ground (arith, closed)

close_at-found :
    (h : Helper) (dev ino i : ℕ) (s : Fd)
    → find_slot (is_device dev ino) h.fds ≡ some i
    → get_elem? h.fds i ≡ some s
    → (fd_close h dev ino).fds ≡ set h.fds i (record s { fd = minus_one })
unfolding fd_close
close_at-found h dev ino i s found at = rw (found, close_at, at, close_slot)

calls-found :
    (h : Helper) (dev ino i : ℕ) (s : Fd)
    → find_slot (is_device dev ino) h.fds ≡ some i
    → get_elem? h.fds i ≡ some s
    → (fd_close h dev ino).calls
      ≡ h.calls ++ ((if s.type == fd_drm then drop_master s.fd ∷ [] else []) ++ close s.fd ∷ [])
unfolding fd_close
calls-found h dev ino i s found at = rw (found, close_at, at, close_slot)

-- A device that no slot has held is opened and closed again: the slot that it took is closed, all
-- others are as before the call of `fd_open`, and the last call is `close` of the descriptor, after
-- `drmDropMaster` if the descriptor is of a drm device.
pub fd_close_after_open :
    (os : Os) (h : Helper) (path : FilePath) (flags type : ℕ) (fd : ℤ) (h' : Helper)
    → ltb_ℤ fd (pos 0) ≡ false
    → fd_open os h path flags type ≡ done (fd, h')
    → (st : Stat) → os.stat path ≡ some st
    → All (λ s. is_device st.st_dev st.st_ino s ≡ false) h.fds
    → (i : ℕ) × (closed : Fd) × (is_closed closed ≡ true)
      × ((fd_close h' st.st_dev st.st_ino).fds ≡ set h.fds i closed)
      × ((fd_close h' st.st_dev st.st_ino).calls
          ≡ h'.calls ++ ((if type == fd_drm then drop_master fd ∷ [] else []) ++ close fd ∷ []))
fd_close_after_open os h path flags type fd h' valid e st known fresh =
    let o = fd_open-Opened os h path flags type fd h' valid e in
    let new : Fd = record { st_dev = st.st_dev; st_ino = st.st_ino; fd = fd; type = type } in
    let (lt, old) = find_slot-some is_closed h.fds o.slot o.was_free in
    let same_st : o.st ≡ st = ground (arith, o.exists, known) in
    let table : h'.fds ≡ set h.fds o.slot new =
      ap (λ (x : Helper). x.fds) o.filled
      ∙ ap (λ (x : Stat). (fill_slot os h o.slot fd type x).1.fds) same_st
      ∙ fill_slot-fds os h o.slot fd type st valid in
    let found : find_slot (is_device st.st_dev st.st_ino) h'.fds ≡ some o.slot = rw table (
      find_slot-set (is_device st.st_dev st.st_ino) h.fds o.slot new fresh lt
        (is_device_self st.st_dev st.st_ino)) in
    let at : get_elem? h'.fds o.slot ≡ some new =
      rw table (get_elem?-set_self h.fds o.slot new lt) in
    (
      o.slot,
      record new { fd = minus_one },
      refl,
      close_at-found h' st.st_dev st.st_ino o.slot new found at
          ∙ ap (λ (xs : List Fd). set xs o.slot (record new { fd = minus_one })) table
          ∙ set-set h.fds o.slot new (record new { fd = minus_one }),
      calls-found h' st.st_dev st.st_ino o.slot new found at,
    )
  where
    is_device_self :
        (d n : ℕ) → is_device d n (record { st_dev = d; st_ino = n; fd = fd; type = type }) ≡ true
    is_device_self d n = ground arith
