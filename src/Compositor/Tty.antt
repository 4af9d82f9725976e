-- ===== src/Compositor/Tty.antt =====
-- src/compositor/compositor.c: the handshake with the session when the virtual terminal is switched.
-- `wlc_fd_*` and the idle source are events of the world.
use wlc.Base.{Bool, true, false, not, if◌then◌else◌, ◌==◌, any}
use wlc.Compositor.World.{
  Output, World, idle, activating, deactivating, emit, fd_activate, fd_deactivate, fd_activate_vt,
}

-- `o->bsurface.display`
abbrev pub has_surface : Output → Bool
has_surface o = not (o.bsurface.display == 0)

unfoldable pub idle_vt_switch : World → World
idle_vt_switch w = record (emit (fd_activate_vt w.vt) w) { vt = 0; idle_vt = false }

unfoldable pub activate_tty : World → World
activate_tty w = elim w.tty [ activating ↦ emit fd_activate (record w { tty = idle }) | _ ↦ w ]

unfoldable pub deactivate_tty : World → World
deactivate_tty w = elim w.tty [
  | deactivating ↦
      if any has_surface w.outputs
      then w
      else if w.vt == 0
      then emit fd_deactivate (record w { tty = idle })
      else record w { tty = idle; idle_vt = true }
  | _ ↦ w
]

unfoldable pub respond_tty_activate : World → World
unfolding activate_tty deactivate_tty
respond_tty_activate w = elim w.tty [
  | activating ↦ activate_tty w
  | deactivating ↦ deactivate_tty w
  | idle ↦ w
]
