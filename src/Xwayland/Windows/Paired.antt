-- ===== src/Xwayland/Windows/Paired.antt =====
-- A window of X11 is unpaired or the window of one view.
use wlc.Base.{
  ℕ, ◌≡◌, ◌∙◌, sym, refl, ap, inl, inr, Bool, true, false, ◌&&◌, ◌||◌, not, Option, none, some,
  arith, ◌==◌, Bool-cases, if-elim, if-false,
}
use wlc.Xwayland.Windows.{
  X11Window, Xwm, put, paired_view, add_window, focus_window, set_active, Found, link_surface,
  surface_message, map_notify, focus_in, IsUnheld, XwmStep, created, mapped, removed, linked,
  activated, focused, view_made, view_gone, XwmSteps, here, next,
}
use wlc.Xwayland.Windows.Linked.{
  IsPaired, paired_view-some, add_window-IsPaired, remove_window_for_id-IsPaired,
  link_surface-IsPaired,
}

-- A window that is unpaired changes, its id apart.
rewait-IsPaired :
    (x : ℕ) (win win' : X11Window) (w : Xwm)
    → w.unpaired x ≡ some win
    → win'.id ≡ win.id
    → IsPaired w
    → IsPaired (record w { unpaired = put x (some win') w.unpaired })
rewait-IsPaired x win win' w e i k = record {
  waits = λ y v h. ground (arith, h, k.waits y v, k.waits x win e, i);
  held = λ y h p v.
      let q = k.held y h p v in
      elim (Bool-cases (x == y)) [
        | inl t ↦
            let at : x ≡ y = ground (arith, t) in
            absurd (ground (arith, sym e ∙ ap w.unpaired at ∙ q.2))
        | inr n ↦ (q.0, q.1, if-false _ (w.unpaired y) (x == y) n ∙ q.2)
      ];
}

-- A window of a view changes, its id and its being paired apart.
reheld-IsPaired :
    (h : ℕ) (win' : X11Window) (w : Xwm)
    → win'.id ≡ (w.x11 h).id
    → win'.paired ≡ (w.x11 h).paired
    → IsPaired w
    → IsPaired (record w { x11 = put h win' w.x11 })
reheld-IsPaired h win' w i p k = record {
  waits = k.waits;
  held = λ y h' q v. elim (Bool-cases (h == h')) [
    | inl t ↦
        let at : h ≡ h' = ground (arith, t) in ground (arith, t, k.held y h' q v, i, p, ap w.x11 at)
    | inr n ↦ ground (arith, n, k.held y h' q v)
  ];
}

surface_message-IsPaired :
    (f : Found) (x s : ℕ) (w : Xwm) (o : Option X11Window)
    → w.unpaired x ≡ o
    → ((h : ℕ) → f.view ≡ some h → IsUnheld h w)
    → IsPaired w
    → IsPaired (elim o as (λ q. Xwm) [
      | none ↦ w
      | some win ↦
          let win' : X11Window = record win { surface_id = s } in
          link_surface f win' (record w { unpaired = put x (some win') w.unpaired })
    ])
surface_message-IsPaired f x s w none e u k = k
surface_message-IsPaired f x s w (some win) e u k =
    let win' : X11Window = record win { surface_id = s } in
    link_surface-IsPaired f win' (record w { unpaired = put x (some win') w.unpaired }) u
      (rewait-IsPaired x win win' w e refl k)

unknown-IsPaired :
    (x : ℕ) (o : Bool) (w : Xwm) (p : Option X11Window)
    → w.unpaired x ≡ p
    → paired_view x w ≡ none
    → IsPaired w
    → IsPaired (elim p as (λ q. Xwm) [
      | some win ↦ record w {
        unpaired = put x (some (record win { override_redirect = o })) w.unpaired;
      }
      | none ↦ add_window x o w
    ])
unknown-IsPaired x o w none e n k = add_window-IsPaired x o w n k
unknown-IsPaired x o w (some win) e n k =
    rewait-IsPaired x win (record win { override_redirect = o }) w e refl k

map_cases-IsPaired :
    (x : ℕ) (o : Bool) (w : Xwm) (p : Option ℕ)
    → paired_view x w ≡ p
    → IsPaired w
    → IsPaired (elim p as (λ q. Xwm) [
      | some h ↦ record w { x11 = put h (record (w.x11 h) { override_redirect = o }) w.x11 }
      | none ↦ elim (w.unpaired x) as (λ q. Xwm) [
        | some win ↦ record w {
          unpaired = put x (some (record win { override_redirect = o })) w.unpaired;
        }
        | none ↦ add_window x o w
      ]
    ])
map_cases-IsPaired x o w none e k = unknown-IsPaired x o w (w.unpaired x) refl e k
map_cases-IsPaired x o w (some h) e k =
    reheld-IsPaired h (record (w.x11 h) { override_redirect = o }) w refl refl k

map_notify-IsPaired : (x : ℕ) (o : Bool) (w : Xwm) → IsPaired w → IsPaired (map_notify x o w)
unfolding map_notify
map_notify-IsPaired x o w k = map_cases-IsPaired x o w (paired_view x w) refl k

focus_window-IsPaired :
    (x : ℕ) (force : Bool) (w : Xwm) → IsPaired w → IsPaired (focus_window x force w)
unfolding focus_window
focus_window-IsPaired x force w k = if-elim IsPaired (not force && w.focus == x) w _ k (
    if-elim IsPaired (x == 0) _ _ (record { waits = k.waits; held = k.held })
      (record { waits = k.waits; held = k.held }))

set_active-IsPaired :
    (win : X11Window) (active : Bool) (w : Xwm) → IsPaired w → IsPaired (set_active win active w).1
unfolding set_active
set_active-IsPaired win active w k =
    let P : Bool × Xwm → Type 0 = λ r. IsPaired r.1 in
    if-elim P (win.id == 0 || win.override_redirect) (false, w) _ k
      (if-elim P active (true, focus_window win.id false w) _
        (focus_window-IsPaired win.id false w k)
        (if-elim P (win.id == w.focus) (true, focus_window 0 false w) (true, w)
          (focus_window-IsPaired 0 false w k) k))

XwmStep-IsPaired : {w v : Xwm} → XwmStep w v → IsPaired w → IsPaired v
unfolding surface_message focus_in
XwmStep-IsPaired (created x o w e) k = add_window-IsPaired x o w e k
XwmStep-IsPaired (mapped x o w) k = map_notify-IsPaired x o w k
XwmStep-IsPaired (removed x w) k = remove_window_for_id-IsPaired x w k
XwmStep-IsPaired (linked f x s w u) k = surface_message-IsPaired f x s w (w.unpaired x) refl u k
XwmStep-IsPaired (activated win active w) k = set_active-IsPaired win active w k
XwmStep-IsPaired (focused x w) k =
    if-elim IsPaired (not (w.focus == 0) && not (w.focus == x)) (focus_window w.focus true w) w
      (focus_window-IsPaired w.focus true w k) k
XwmStep-IsPaired (view_made h w u) k = record {
  waits = k.waits;
  held = λ y h' p v. elim (Bool-cases (h == h')) [
    | inl t ↦ let at : h ≡ h' = ground (arith, t) in absurd (u y (p ∙ ap some (sym at)))
    | inr n ↦ k.held y h' p (sym (if-false _ (w.is_view h') (h == h') n) ∙ v)
  ];
}
XwmStep-IsPaired (view_gone h w) k = record {
  waits = k.waits;
  held = λ y h' p v. elim (Bool-cases (h == h')) [
    | inl t ↦ absurd (ground (arith, t, v))
    | inr n ↦ k.held y h' p (sym (if-false _ (w.is_view h') (h == h') n) ∙ v)
  ];
}

one_view :
    (v : Xwm)
    → IsPaired v
    → (x y h : ℕ) → paired_view x v ≡ some h
    → paired_view y v ≡ some h
    → x ≡ y
one_view v k x y h p q =
    let (p', a) = paired_view-some x h v p in
    let (q', b) = paired_view-some y h v q in sym (k.held x h p' a).0 ∙ (k.held y h q' b).0

-- Where each view that is made, and each that a window is linked to, has a handle that no entry of the
-- table has, and no window is created under the id of one with a view: a window that is unpaired is not
-- the window of a view, a view that holds a window by the table has that window in its field and marked
-- as paired, and so no two windows have the same view. This is kept while windows are created, mapped,
-- removed, linked, activated and focused, and while views are made and go.
pub XwmSteps-IsPaired :
    {w v : Xwm}
    → XwmSteps w v
    → IsPaired w
    → IsPaired v × ((x y h : ℕ) → paired_view x v ≡ some h → paired_view y v ≡ some h → x ≡ y)
XwmSteps-IsPaired {v} here k = (k, one_view v k)
XwmSteps-IsPaired {v} (next r s) k =
    let k' = XwmStep-IsPaired s (XwmSteps-IsPaired r k).0 in (k', one_view v k')
