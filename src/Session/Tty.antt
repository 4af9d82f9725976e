-- ===== src/Session/Tty.antt =====
-- src/session/tty.c: the calls by which the helper gives up, takes and switches the virtual terminal.
use wlc.Base.{ℕ, Bool, false, ◌||◌, not, List, [], ◌∷◌, ◌==◌, if◌then◌else◌}
use wlc.Session.System.{Call, acknowledge, release_display, vt_activate, Os}

-- `wlc.tty >= 0`, and the terminal that was opened.
pub record Tty : Type 0 where
  pub is_open : Bool
  pub vt : ℕ

unfoldable pub tty_activate : Os → Bool × List Call
tty_activate os = (os.acknowledged, acknowledge ∷ [])

unfoldable pub tty_deactivate : Os → Bool × List Call
tty_deactivate os = (os.display_released, release_display ∷ [])

unfoldable pub tty_activate_vt : Os → Tty → ℕ → Bool × List Call
tty_activate_vt os t vt =
    if not t.is_open || vt == t.vt then (false, []) else (os.vt_activated vt, vt_activate vt ∷ [])
