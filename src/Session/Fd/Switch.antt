-- ===== src/Session/Fd/Switch.antt =====
-- `activate` and `deactivate`: the descriptors across a switch of the virtual terminal.
use wlc.Base.{
  ◌&&◌, any, ◌≡◌, ◌↔◌, refl, Bool, true, false, ◌||◌, not, List, [], ◌∷◌, ◌++◌, arith, All,
  if◌then◌else◌, ◌==◌,
}
use wlc.Session.System.{Call, drop_master, revoke, close, release_display, Os}
use wlc.Session.Fd.{
  Fd, Helper, is_closed, fd_input, fd_drm, minus_one, set_masters, activate, drop_masters,
  revoke_inputs, deactivate,
}

-- An open descriptor of a drm device, and of an input device.
abbrev pub is_drm : Fd → Bool
is_drm s = not (is_closed s || not (s.type == fd_drm))

abbrev pub is_input : Fd → Bool
is_input s = not (is_closed s || not (s.type == fd_input))

-- The calls for all open drm descriptors, and for all open input descriptors.
pub all_drops : List Fd → List Call
all_drops [] = []
all_drops (s ∷ ss) = if is_drm s then drop_master s.fd ∷ all_drops ss else all_drops ss

pub all_revokes : List Fd → List Call
all_revokes [] = []
all_revokes (s ∷ ss) = (if is_input s then revoke s.fd ∷ close s.fd ∷ [] else []) ++ all_revokes ss

-- The table with every open input descriptor closed.
pub without_inputs : List Fd → List Fd
without_inputs [] = []
without_inputs (s ∷ ss) =
    (if is_input s then record s { fd = minus_one } else s) ∷ without_inputs ss

module _ (os : Os) where
  set_masters_iff :
      (ss : List Fd)
      → ((set_masters os ss).0 ≡ true) ↔ All (λ s. is_drm s ≡ true → os.master_set s.fd ≡ true) ss
  unfolding set_masters
  set_masters_iff [] = (λ e. tt, λ u. refl)
  set_masters_iff (s ∷ ss) =
      let (forth, back) = set_masters_iff ss in
      (λ e. (λ d. ground arith, forth (ground arith)), λ (m, rest). ground (arith, back rest, m))

  -- `activate` succeeds exactly when the master of every open drm descriptor could be set and the
  -- terminal acknowledged.
  pub activate_iff :
      (h : Helper)
      → ((activate os h).0 ≡ true)
        ↔ (All (λ s. is_drm s ≡ true → os.master_set s.fd ≡ true) h.fds × (os.acknowledged ≡ true))
  unfolding activate
  activate_iff h =
      let (forth, back) = set_masters_iff h.fds in
      (λ e. (forth (ground arith), ground arith), λ (m, a). ground (arith, back m, a))

  drop_masters-calls :
      (ss : List Fd) → (drop_masters os ss).0 ≡ true → (drop_masters os ss).1 ≡ all_drops ss
  unfolding drop_masters all_drops
  drop_masters-calls [] e = refl
  drop_masters-calls (s ∷ ss) e = ground (arith, drop_masters-calls ss)

  revoke_inputs-all :
      (ss : List Fd)
      → (revoke_inputs os ss).0 ≡ true
      → ((revoke_inputs os ss).1 ≡ without_inputs ss) × ((revoke_inputs os ss).2 ≡ all_revokes ss)
  unfolding revoke_inputs without_inputs all_revokes
  revoke_inputs-all [] e = (refl, refl)
  revoke_inputs-all (s ∷ ss) e = ground (arith, revoke_inputs-all ss)

  -- When `deactivate` succeeds, every open input descriptor has been revoked and closed and no other
  -- slot has changed; the masters of all open drm descriptors were dropped before the first
  -- revocation, and the terminal was released last.
  deactivate_succeeds :
      (h : Helper)
      → (deactivate os h).0 ≡ true
      → ((deactivate os h).1.fds ≡ without_inputs h.fds)
        × ((deactivate os h).1.calls
            ≡ h.calls ++ (all_drops h.fds ++ (all_revokes h.fds ++ release_display ∷ [])))
  unfolding deactivate
  deactivate_succeeds h e =
      let d : (drop_masters os h.fds).0 ≡ true = ground (arith, e) in
      let r : (revoke_inputs os h.fds).0 ≡ true = ground (arith, e) in
      let (fds, calls) = revoke_inputs-all h.fds r in
      rw (d, r, fds, calls, drop_masters-calls h.fds d) (refl, refl)

-- The calls of the first loop, up to the one that fails.
pub drops_until : Os → List Fd → List Call
drops_until os [] = []
drops_until os (s ∷ ss) =
    (if is_drm s then drop_master s.fd ∷ [] else [])
    ++ (if is_drm s && not (os.master_dropped s.fd) then [] else drops_until os ss)

drop_masters-until : (os : Os) (ss : List Fd) → (drop_masters os ss).1 ≡ drops_until os ss
unfolding drop_masters drops_until
drop_masters-until os [] = refl
drop_masters-until os (s ∷ ss) = ground (arith, drop_masters-until os ss)

drop_masters_fails :
    (os : Os) (ss : List Fd)
    → any (λ s. (is_drm s && not (os.master_dropped s.fd))) ss ≡ true
    → (drop_masters os ss).0 ≡ false
unfolding drop_masters
drop_masters_fails os [] e = cc
drop_masters_fails os (s ∷ ss) e = ground (arith, drop_masters_fails os ss)

-- When the master of some open drm descriptor cannot be dropped, `deactivate` fails before it touches
-- an input descriptor: the table is as it was, and the only calls are those that drop masters, up to
-- the one that failed.
pub deactivate_keeps_inputs :
    (os : Os) (h : Helper)
    → any (λ s. is_drm s && not (os.master_dropped s.fd)) h.fds ≡ true
    → deactivate os h ≡ (false, record h { calls = h.calls ++ drops_until os h.fds })
unfolding deactivate
deactivate_keeps_inputs os h e = rw (drop_masters_fails os h.fds e, drop_masters-until os h.fds)
