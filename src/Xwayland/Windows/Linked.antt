-- ===== src/Xwayland/Windows/Linked.antt =====
-- A window that is made, linked to a surface or removed.
use wlc.Base.{
  ℕ, ◌≡◌, ◌∙◌, sym, refl, ap, inl, inr, Bool, true, false, ◌&&◌, not, Option, none, some, List,
  arith, if◌then◌else◌, ◌==◌, leb, Bool-cases, Option-cases, if-elim, if-false,
}
use wlc.Xwayland.Windows.{
  XCall, X11Window, Xwm, put, paired_view, clear_view, remove_window_for_id, add_window, close,
  Found, pair, pair_or_close, link_surface, IsUnheld,
}

pub record IsPaired (w : Xwm) : Type 0 where
  pub waits : (x : ℕ) (win : X11Window) → w.unpaired x ≡ some win → win.id ≡ x
  pub held :
      (x h : ℕ)
      → w.paired x ≡ some h
      → w.is_view h ≡ true
      → ((w.x11 h).id ≡ x) × ((w.x11 h).paired ≡ true) × (w.unpaired x ≡ none)

pub paired_view-some :
    (x h : ℕ) (w : Xwm) → paired_view x w ≡ some h → (w.paired x ≡ some h) × (w.is_view h ≡ true)
unfolding paired_view
paired_view-some x h w e = elim (Option-cases (w.paired x)) [
  | inl n ↦ absurd (ground (arith, e, n))
  | inr (h', p) ↦ ground (arith, e, p)
]

paired_view-of :
    (x h : ℕ) (w : Xwm) → w.paired x ≡ some h → w.is_view h ≡ true → paired_view x w ≡ some h
unfolding paired_view
paired_view-of x h w p v = ground (arith, p, v)

-- What does not touch the tables and the views.
IsPaired-focus :
    (w : Xwm) (f : ℕ) (cs : List XCall) → IsPaired w → IsPaired (record w { focus = f; calls = cs })
IsPaired-focus w f cs k = record { waits = k.waits; held = k.held }

pub add_window-IsPaired :
    (x : ℕ) (o : Bool) (w : Xwm) → paired_view x w ≡ none → IsPaired w → IsPaired (add_window x o w)
unfolding add_window
add_window-IsPaired x o w e k = record {
  waits = λ y win h. ground (arith, h, k.waits y win);
  held = λ y h p v.
      let q = k.held y h p v in
      let known : paired_view y w ≡ some h = paired_view-of y h w p v in
      elim (Bool-cases (x == y)) [
        | inl t ↦
            let at : x ≡ y = ground (arith, t) in
            absurd (ground (arith, sym e ∙ ap (λ (z : ℕ). paired_view z w) at ∙ known))
        | inr n ↦ (q.0, q.1, if-false _ (w.unpaired y) (x == y) n ∙ q.2)
      ];
}

clear_view-IsPaired :
    (x : ℕ) (o : Option ℕ) (w : Xwm)
    → ((h : ℕ) → o ≡ some h → (w.x11 h).id ≡ x)
    → IsPaired w
    → IsPaired (
        let w2 : Xwm = clear_view o w in
        record w2 { paired = put x none w2.paired; unpaired = put x none w2.unpaired })
clear_view-IsPaired x none w f k = record {
  waits = λ y win h. ground (arith, h, k.waits y win);
  held = λ y h p v. ground (arith, p, k.held y h, v);
}
clear_view-IsPaired x (some h0) w f k = record {
  waits = λ y win h. ground (arith, h, k.waits y win);
  held = λ y h p v. ground (arith, p, k.held y h, v, f h0 refl, ap w.x11);
}

pub remove_window_for_id-IsPaired :
    (x : ℕ) (w : Xwm) → IsPaired w → IsPaired (remove_window_for_id x w)
unfolding remove_window_for_id
remove_window_for_id-IsPaired x w k =
    let w1 : Xwm = record w { focus = if w.focus == x then 0 else w.focus } in
    clear_view-IsPaired x (paired_view x w) w1
      (λ h e. let (p, v) = paired_view-some x h w e in (k.held x h p v).0)
      (record { waits = k.waits; held = k.held })

close-IsPaired : (win : X11Window) (w : Xwm) → IsPaired w → IsPaired (close win w)
unfolding close
close-IsPaired win w k =
    if-elim IsPaired (win.id == 0) w _ k (record { waits = k.waits; held = k.held })

pair-IsPaired :
    (h : ℕ) (win : X11Window) (w : Xwm) → IsUnheld h w → IsPaired w → IsPaired (pair h win w)
pair-IsPaired h win w u k = record {
  waits = λ y win' e. ground (arith, e, k.waits y win');
  held = λ y h' p v. elim (Bool-cases (win.id == y)) [
    | inl t ↦ let at : h ≡ h' = ground (arith, t, p) in ground (arith, t, at, ap w.x11 at)
    | inr n ↦ elim (Bool-cases (h == h')) [
      | inl t ↦
          let at : h ≡ h' = ground (arith, t) in
          absurd (u y (sym (if-false _ (w.paired y) (win.id == y) n) ∙ p ∙ ap some (sym at)))
      | inr m ↦
          let q = k.held y h' (sym (if-false _ (w.paired y) (win.id == y) n) ∙ p) v in
          ground (arith, n, m, q)
    ]
  ];
}

linked_or_closed :
    (o : Option ℕ) (win : X11Window) (w : Xwm)
    → ((h : ℕ) → o ≡ some h → IsUnheld h w)
    → IsPaired w
    → IsPaired (pair_or_close o win w)
unfolding pair_or_close
linked_or_closed none win w u k =
    remove_window_for_id-IsPaired win.id (close win w) (close-IsPaired win w k)
linked_or_closed (some h) win w u k = pair-IsPaired h win w (u h refl) k

pub link_surface-IsPaired :
    (f : Found) (win : X11Window) (w : Xwm)
    → ((h : ℕ) → f.view ≡ some h → IsUnheld h w)
    → IsPaired w
    → IsPaired (link_surface f win w)
unfolding link_surface
link_surface-IsPaired f win w u k =
    let win' : X11Window = record win { has_alpha = f.depth == 32 } in
    let other : Xwm = pair_or_close f.view win' w in
    let gone : Xwm = remove_window_for_id win.id w in
    if-elim IsPaired (not f.surface) w _ k (
      if-elim IsPaired (win.override_redirect && (leb f.width 1 && leb f.height 1)) gone other
        (remove_window_for_id-IsPaired win.id w k) (linked_or_closed f.view win' w u k))

-- Without the condition on the handle the pairing is shared: a second window that is linked to a view
-- with a window has the same view as the first.
pub link_surface-shared :
    (f : Found) (win : X11Window) (w : Xwm) (x h : ℕ)
    → paired_view x w ≡ some h
    → f.surface ≡ true
    → win.override_redirect ≡ false
    → f.view ≡ some h
    → (paired_view x (link_surface f win w) ≡ some h)
      × (paired_view win.id (link_surface f win w) ≡ some h)
unfolding link_surface paired_view pair_or_close
link_surface-shared f win w x h p s o v =
    let (q, a) = paired_view-some x h w p in
    (ground (arith, p, q, a, s, o, v), ground (arith, p, q, a, s, o, v))
