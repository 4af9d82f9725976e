-- ===== src/Xwayland/Windows/Tests.antt =====
-- A window of X11 from its creation to its end.
use wlc.Base.{ℕ, ◌≡◌, refl, true, false, ◌||◌, not, none, some, [], arith, ◌==◌}
use wlc.Xwayland.Windows.{
  X11Window, Xwm, no_window, paired_view, add_window, surface_message, set_active, focus_in, Found,
  XwmSteps, here, next, created, linked,
}
use wlc.Xwayland.Windows.Linked.{IsPaired}
use wlc.Xwayland.Windows.Paired.{XwmSteps-IsPaired}
use wlc.Xwayland.Windows.Focus.{Follows, focus_is_kept}

abbrev no_windows : Xwm
no_windows = record {
  paired = λ x. none;
  unpaired = λ x. none;
  focus = 0;
  is_view = λ h. h == 5;
  x11 = λ h. no_window;
  calls = [];
}

no_windows-IsPaired : IsPaired no_windows
no_windows-IsPaired = record {
  waits = λ x win h. absurd (ground (arith, h));
  held = λ x h p v. absurd (ground (arith, p));
}

abbrev a_surface : Found
a_surface = record { surface = true; width = 800; height = 600; depth = 32; view = some 5 }

abbrev made : Xwm
made = add_window 7 false no_windows

abbrev shown : Xwm
shown = surface_message a_surface 7 3 made

made-XwmSteps : XwmSteps no_windows made
unfolding paired_view
made-XwmSteps = next here (created 7 false no_windows refl)

shown-XwmSteps : XwmSteps no_windows shown
unfolding add_window
shown-XwmSteps = next made-XwmSteps (linked a_surface 7 3 made (λ h e x p. ground (arith, p)))

shown_view : paired_view 7 shown ≡ some 5
unfolding paired_view surface_message add_window
shown_view = refl

XwmSteps-IsPaired_example :
    IsPaired shown
    × ((x y h : ℕ) → paired_view x shown ≡ some h → paired_view y shown ≡ some h → x ≡ y)
XwmSteps-IsPaired_example = XwmSteps-IsPaired shown-XwmSteps no_windows-IsPaired

abbrev a_window : X11Window
a_window = record no_window { id = 9 }

abbrev focused_window : Xwm
focused_window = record no_windows { focus = 7 }

focus_is_kept_example :
    Follows 8 focused_window (focus_in 8 focused_window)
    × ((focus_in 8 focused_window).focus ≡ focused_window.focus)
    × Follows 7 focused_window (set_active a_window true focused_window).1
    × ((set_active a_window true focused_window).0
        ≡ not (a_window.id == 0 || a_window.override_redirect))
focus_is_kept_example = focus_is_kept 8 a_window true focused_window (λ e. ground (arith, e))
