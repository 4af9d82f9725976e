-- ===== src/Xwayland/Windows.antt =====
-- src/xwayland/xwm.c: the windows of X11, each waiting for its surface (unpaired) or held by the view of
-- that surface (paired), and the focus. The X server and the compositor's views are parameters.
pub mod Linked
pub mod Paired
pub mod Focus
mod Tests
use wlc.Base.{
  ℕ, ◌≡◌, Bool, true, false, ◌&&◌, ◌||◌, not, Option, none, some, List, [], ◌∷◌, ◌++◌, leb,
  if◌then◌else◌, ◌==◌,
}

-- `struct wlc_x11_window`.
pub record X11Window : Type 0 where
  pub id : ℕ
  pub surface_id : ℕ
  pub override_redirect : Bool
  pub has_delete_window : Bool
  pub has_alpha : Bool
  pub paired : Bool

-- Calls of the X server.
pub data XCall : Type 0 where
  set_input_focus : ℕ → XCall
  take_focus : ℕ → XCall
  raise_window : ℕ → XCall
  delete_window : ℕ → XCall
  kill_client : ℕ → XCall

-- `struct wlc_xwm`, with the field `x11` of each view by the handle of the view, and which handles are
-- those of views. The tables hold handles of views and windows, by the id of the window.
pub record Xwm : Type 0 where
  pub paired : ℕ → Option ℕ
  pub unpaired : ℕ → Option X11Window
  pub focus : ℕ
  pub is_view : ℕ → Bool
  pub x11 : ℕ → X11Window
  pub calls : List XCall

abbrev pub no_window : X11Window
no_window = record {
  id = 0;
  surface_id = 0;
  override_redirect = false;
  has_delete_window = false;
  has_alpha = false;
  paired = false;
}

abbrev pub put {ℓ} : {A : Type ℓ} → ℕ → A → (ℕ → A) → ℕ → A
put i a f j = if i == j then a else f j

-- The view whose window it is, and the window itself.
unfoldable pub paired_view : ℕ → Xwm → Option ℕ
paired_view window w = elim (w.paired window) [
  | none ↦ none
  | some h ↦ if w.is_view h then some h else none
]

unfoldable pub paired_for_id : ℕ → Xwm → Option X11Window
unfolding paired_view
paired_for_id window w = elim (paired_view window w) [ none ↦ none | some h ↦ some (w.x11 h) ]

abbrev pub clear_view : Option ℕ → Xwm → Xwm
clear_view none w = w
clear_view (some h) w = record w { x11 = put h no_window w.x11 }

unfoldable pub remove_window_for_id : ℕ → Xwm → Xwm
unfolding paired_view
remove_window_for_id window w =
    let w1 : Xwm = record w { focus = if w.focus == window then 0 else w.focus } in
    let w2 : Xwm = clear_view (paired_view window w) w1 in
    record w2 { paired = put window none w2.paired; unpaired = put window none w2.unpaired }

unfoldable pub add_window : ℕ → Bool → Xwm → Xwm
add_window window override_redirect w = record w {
  unpaired =
      put window (some (record no_window { id = window; override_redirect = override_redirect }))
        w.unpaired;
}

unfoldable pub focus_window : ℕ → Bool → Xwm → Xwm
focus_window window force w =
    if not force && w.focus == window
    then w
    else if window == 0
    then record w { focus = 0; calls = w.calls ++ set_input_focus 0 ∷ [] }
    else record w {
      focus = window;
      calls = w.calls ++ take_focus window ∷ set_input_focus window ∷ raise_window window ∷ [];
    }

-- The connection is there.
unfoldable pub set_active : X11Window → Bool → Xwm → Bool × Xwm
unfolding focus_window
set_active win active w =
    if win.id == 0 || win.override_redirect
    then (false, w)
    else if active
    then (true, focus_window win.id false w)
    else if win.id == w.focus
    then (true, focus_window 0 false w)
    else (true, w)

unfoldable pub close : X11Window → Xwm → Xwm
close win w = if win.id == 0 then w else record w {
  calls =
      w.calls ++ (if win.has_delete_window then delete_window win.id else kill_client win.id) ∷ [];
}

-- What `link_surface` learns: whether the surface is there, the size and the depth of the window, and
-- the view that the surface has or gets, none if it may have none.
pub record Found : Type 0 where
  pub surface : Bool
  pub width : ℕ
  pub height : ℕ
  pub depth : ℕ
  pub view : Option ℕ

-- The window becomes that of the view. Its properties are not read here.
abbrev pub pair : ℕ → X11Window → Xwm → Xwm
pair h win w = record w {
  x11 = put h (record win { paired = true }) w.x11;
  paired = put win.id (some h) w.paired;
  unpaired = put win.id none w.unpaired;
}

unfoldable pub pair_or_close : Option ℕ → X11Window → Xwm → Xwm
unfolding close remove_window_for_id
pair_or_close none win w = remove_window_for_id win.id (close win w)
pair_or_close (some h) win w = pair h win w

unfoldable pub link_surface : Found → X11Window → Xwm → Xwm
unfolding pair_or_close remove_window_for_id
link_surface f win w =
    let win' : X11Window = record win { has_alpha = f.depth == 32 } in
    if not f.surface
    then w
    else if win.override_redirect && (leb f.width 1 && leb f.height 1)
    then remove_window_for_id win.id w
    else pair_or_close f.view win' w

-- The message WL_SURFACE_ID, for a window that is unpaired.
unfoldable pub surface_message : Found → ℕ → ℕ → Xwm → Xwm
unfolding link_surface
surface_message f window surface_id w = elim (w.unpaired window) [
  | none ↦ w
  | some win ↦
      let win' : X11Window = record win { surface_id = surface_id } in
      link_surface f win' (record w { unpaired = put window (some win') w.unpaired })
]

-- MAP_NOTIFY: a window that is known takes over the flag, and one that is not is added.
unfoldable pub map_notify : ℕ → Bool → Xwm → Xwm
unfolding paired_view add_window
map_notify window override_redirect w = elim (paired_view window w) [
  | some h ↦ record w {
    x11 = put h (record (w.x11 h) { override_redirect = override_redirect }) w.x11;
  }
  | none ↦ elim (w.unpaired window) [
    | some win ↦ record w {
      unpaired =
          put window (some (record win { override_redirect = override_redirect })) w.unpaired;
    }
    | none ↦ add_window window override_redirect w
  ]
]

-- FOCUS_IN: a client that takes the focus loses it to the window that has it.
unfoldable pub focus_in : ℕ → Xwm → Xwm
unfolding focus_window
focus_in window w =
    if not (w.focus == 0) && not (w.focus == window) then focus_window w.focus true w else w

-- No entry of the table holds the handle. The steps below are those where this is so of a view that is
-- made and of a view that a window is linked to; the code checks neither. The X server makes no window
-- whose id is that of a window with a view.
abbrev pub IsUnheld : ℕ → Xwm → Type 0
IsUnheld h w = (x : ℕ) → w.paired x ≡ some h → ⊥

pub data XwmStep : Xwm → Xwm → Type 0 where
  created :
      (x : ℕ) (override_redirect : Bool) (w : Xwm)
      → paired_view x w ≡ none
      → XwmStep w (add_window x override_redirect w)
  mapped :
      (x : ℕ) (override_redirect : Bool) (w : Xwm) → XwmStep w (map_notify x override_redirect w)
  removed : (x : ℕ) (w : Xwm) → XwmStep w (remove_window_for_id x w)
  linked :
      (f : Found) (x surface_id : ℕ) (w : Xwm)
      → ((h : ℕ) → f.view ≡ some h → IsUnheld h w)
      → XwmStep w (surface_message f x surface_id w)
  activated : (win : X11Window) (active : Bool) (w : Xwm) → XwmStep w (set_active win active w).1
  focused : (x : ℕ) (w : Xwm) → XwmStep w (focus_in x w)
  view_made :
      (h : ℕ) (w : Xwm) → IsUnheld h w → XwmStep w (record w { is_view = put h true w.is_view })
  view_gone : (h : ℕ) (w : Xwm) → XwmStep w (record w { is_view = put h false w.is_view })

pub data XwmSteps (w : Xwm) : Xwm → Type 0 where
  here : XwmSteps w w
  next : {u v : Xwm} → XwmSteps w u → XwmStep u v → XwmSteps w v
