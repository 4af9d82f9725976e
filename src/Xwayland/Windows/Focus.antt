-- ===== src/Xwayland/Windows/Focus.antt =====
-- The window that the X server gives the focus, after the calls of the window manager.
use wlc.Base.{
  ℕ, ◌≡◌, ◌≢◌, sym, refl, Bool, true, false, ◌&&◌, ◌||◌, not, List, [], ◌∷◌, ◌++◌, arith, ◌==◌,
  if-cases,
}
use mathlib.Core.List.{append-nil}
use wlc.Xwayland.Windows.{
  X11Window, Xwm, XCall, set_input_focus, take_focus, raise_window, delete_window, kill_client,
  focus_window, set_active, focus_in,
}

-- The focus of the server after the calls, from the one it had.
abbrev pub server_focus : ℕ → List XCall → ℕ
server_focus x [] = x
server_focus x (set_input_focus y ∷ cs) = server_focus y cs
server_focus x (take_focus y ∷ cs) = server_focus x cs
server_focus x (raise_window y ∷ cs) = server_focus x cs
server_focus x (delete_window y ∷ cs) = server_focus x cs
server_focus x (kill_client y ∷ cs) = server_focus x cs

-- What an operation asks of the server: calls after which the server's focus, which was `x`, is the one
-- that the window manager keeps.
abbrev pub Follows : ℕ → Xwm → Xwm → Type 0
Follows x w v = (cs : List XCall) × (v.calls ≡ w.calls ++ cs) × (server_focus x cs ≡ v.focus)

focus_window-Follows :
    (y : ℕ) (force : Bool) (x : ℕ) (w : Xwm)
    → (force ≡ false → x ≡ w.focus)
    → Follows x w (focus_window y force w)
unfolding focus_window
focus_window-Follows y force x w e =
    if-cases (Follows x w) (not force && w.focus == y) w _
      (λ t. ([], sym (append-nil w.calls), e (ground (arith, t))))
      (λ f.
        if-cases (Follows x w) (y == 0) _ _ (λ t. (set_input_focus 0 ∷ [], refl, refl))
          (λ f. (take_focus y ∷ set_input_focus y ∷ raise_window y ∷ [], refl, refl)))

focus-focus_window : (y : ℕ) (force : Bool) (w : Xwm) → (focus_window y force w).focus ≡ y
unfolding focus_window
focus-focus_window y force w =
    if-cases (λ (v : Xwm). v.focus ≡ y) (not force && w.focus == y) w _ (λ t. ground (arith, t))
      (λ f. if-cases (λ (v : Xwm). v.focus ≡ y) (y == 0) _ _ (λ t. ground (arith, t)) (λ f. refl))

same-Follows : (w : Xwm) → Follows w.focus w w
same-Follows w = ([], sym (append-nil w.calls), refl)

focus_in-Follows :
    (x : ℕ) (w : Xwm) → w.focus ≢ 0 → Follows x w (focus_in x w) × ((focus_in x w).focus ≡ w.focus)
unfolding focus_in
focus_in-Follows x w n =
    if-cases (λ (v : Xwm). Follows x w v × (v.focus ≡ w.focus))
      (not (w.focus == 0) && not (w.focus == x)) (focus_window w.focus true w) w
      (λ t. (
        focus_window-Follows w.focus true x w (λ e. absurd (ground (arith, e))),
        focus-focus_window w.focus true w,
      ))
      (λ f.
        let at : x ≡ w.focus = ground (arith, f, n) in (([], sym (append-nil w.calls), at), refl))

set_active-Follows :
    (win : X11Window) (active : Bool) (w : Xwm)
    → Follows w.focus w (set_active win active w).1
      × ((set_active win active w).0 ≡ not (win.id == 0 || win.override_redirect))
unfolding set_active
set_active-Follows win active w =
    let bad : Bool = win.id == 0 || win.override_redirect in
    let P : Bool × Xwm → Type 0 = λ r. Follows w.focus w r.1 × (r.0 ≡ not bad) in
    if-cases P bad (false, w) _ (λ t. (same-Follows w, ground (arith, t)))
      (λ f.
        let ok : true ≡ not bad = ground (arith, f) in
        if-cases P active (true, focus_window win.id false w) _
          (λ t. (focus_window-Follows win.id false w.focus w (λ e. refl), ok))
          (λ f'.
            if-cases P (win.id == w.focus) (true, focus_window 0 false w) (true, w)
              (λ t. (focus_window-Follows 0 false w.focus w (λ e. refl), ok))
              (λ g. (same-Follows w, ok))))

-- Where the window manager gave a window the focus and the server reports any window with the focus,
-- the calls that follow give the focus back to the first, which stays the one of the window manager;
-- and activating or deactivating a window leaves the server's focus and the window manager's the same,
-- if they were, and its answer tells whether the window can be active.
pub focus_is_kept :
    (x : ℕ) (win : X11Window) (active : Bool) (w : Xwm)
    → w.focus ≢ 0
    → Follows x w (focus_in x w)
      × ((focus_in x w).focus ≡ w.focus)
      × Follows w.focus w (set_active win active w).1
      × ((set_active win active w).0 ≡ not (win.id == 0 || win.override_redirect))
focus_is_kept x win active w n =
    let back = focus_in-Follows x w n in
    let kept = set_active-Follows win active w in (back.0, back.1, kept.0, kept.1)
