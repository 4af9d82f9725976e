-- ===== src/Session/System.antt =====
-- What the privileged helper of src/session asks of the system: files, drm and the virtual terminal.
-- The answers are parameters; the calls with an effect are recorded in the order in which they are
-- made.
use wlc.Base.{ℕ, Bool, Option, List}
use wlc.Base.Int.{ℤ}

-- A C string is the list of its bytes.
abbrev pub FilePath : Type 0
FilePath = List ℕ

pub record Stat : Type 0 where
  pub st_dev : ℕ
  pub st_ino : ℕ
  pub rdev_major : ℕ

-- drmSetMaster, drmDropMaster, ioctl EVIOCREVOKE, close; ioctl VT_RELDISP with VT_ACKACQ and with
-- 1, ioctl VT_ACTIVATE.
pub data Call : Type 0 where
  set_master drop_master revoke close : ℤ → Call
  acknowledge release_display : Call
  vt_activate : ℕ → Call

-- A `Bool` is whether the call succeeds.
pub record Os : Type 0 where
  pub stat : FilePath → Option Stat
  pub open_file : FilePath → ℕ → ℤ
  pub master_set : ℤ → Bool
  pub master_dropped : ℤ → Bool
  pub revoked : ℤ → Bool
  pub acknowledged : Bool
  pub display_released : Bool
  pub vt_activated : ℕ → Bool
  pub input_major : ℕ
