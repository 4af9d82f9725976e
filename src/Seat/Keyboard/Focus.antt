-- ===== src/Seat/Keyboard/Focus.antt =====
-- Where the keys go: the focus of the keyboard.
use wlc.Base.{
  ℕ, ◌≡◌, ◌≢◌, refl, sym, ap, ◌∙◌, inl, inr, Bool, false, ◌&&◌, none, some, List, [], ◌∷◌, ◌++◌,
  arith, if◌then◌else◌, ◌==◌, Bool-cases,
}
use wlc.Chck.{IterPool}
use wlc.Seat.Keyboard.{
  Xkb, Clients, Keyboard, focus_resource, focus_resources, keyboard_focus, defocus, focus_view,
  reset_repeat, keys_where,
}
use wlc.Seat.Keyboard.Repeat.{HasMemory}

-- Whether a resource is there and of a client.
abbrev pub serves : Clients → ℕ → ℕ → Bool
serves l owner r = l.is_alive r && l.client r == owner

front-back : (xs : List ℕ) (x : ℕ) (ys : List ℕ) → (xs ++ x ∷ []) ++ ys ≡ xs ++ x ∷ ys
front-back [] x ys = refl
front-back (z ∷ xs) x ys = ap (◌∷◌ z) (front-back xs x ys)

end : (xs : List ℕ) → xs ++ [] ≡ xs
end [] = refl
end (x ∷ xs) = ap (◌∷◌ x) (end xs)

focused-focus_resource :
    (c : IterPool) (x : Xkb) (r : ℕ) (b : Keyboard)
    → HasMemory c
    → (focus_resource c x r b).focused_resources ≡ b.focused_resources ++ r ∷ []
unfolding focus_resource
focused-focus_resource c x r b memory =
    let (new, e) = memory b.focused_resources r in
    ground (arith, e, c.push_back_lem b.focused_resources new r e)

focused-focus_resources :
    (c : IterPool) (x : Xkb) (l : Clients) (owner : ℕ) (rs : List ℕ) (b : Keyboard)
    → HasMemory c
    → (focus_resources c x l owner rs b).focused_resources
      ≡ b.focused_resources ++ keys_where (serves l owner) rs
unfolding focus_resources
focused-focus_resources c x l owner [] b memory = sym (end b.focused_resources)
focused-focus_resources c x l owner (r ∷ rs) b memory = elim (Bool-cases (serves l owner r)) [
  | inl y ↦
      let taken : (if serves l owner r then focus_resource c x r b else b)
          ≡ focus_resource c x r b =
        ground (arith, y) in
      let kept : r ∷ keys_where (serves l owner) rs ≡ keys_where (serves l owner) (r ∷ rs) =
        ground (arith, y) in
      ap (λ (k : Keyboard). (focus_resources c x l owner rs k).focused_resources) taken
      ∙ focused-focus_resources c x l owner rs (focus_resource c x r b) memory
      ∙ ap (λ (fs : List ℕ). fs ++ keys_where (serves l owner) rs)
          (focused-focus_resource c x r b memory)
      ∙ front-back b.focused_resources r (keys_where (serves l owner) rs)
      ∙ ap (λ (fs : List ℕ). b.focused_resources ++ fs) kept
  | inr n ↦
      let passed : (if serves l owner r then focus_resource c x r b else b) ≡ b =
        ground (arith, n) in
      let dropped : keys_where (serves l owner) rs ≡ keys_where (serves l owner) (r ∷ rs) =
        ground (arith, n) in
      ap (λ (k : Keyboard). (focus_resources c x l owner rs k).focused_resources) passed
      ∙ focused-focus_resources c x l owner rs b memory
      ∙ ap (λ (fs : List ℕ). b.focused_resources ++ fs) dropped
]

-- The keyboard without a repeat that is to come, as `wlc_keyboard_focus` makes it.
abbrev settled : Keyboard → Keyboard
settled b = if b.repeating then b else reset_repeat b

resources-settled : (b : Keyboard) → (settled b).resources ≡ b.resources
unfolding reset_repeat
resources-settled b = ground arith

defocus-fields :
    (l : Clients) (new : ℕ) (b : Keyboard)
    → ((defocus l new b).resources ≡ b.resources)
      × ((defocus l new b).focused_resources ≡ [])
      × ((defocus l new b).focused_view ≡ 0)
unfolding defocus
defocus-fields l new b = ground arith

left-fields :
    (l : Clients) (view : ℕ) (b : Keyboard)
    → ((defocus l view (settled b)).resources ≡ b.resources)
      × ((defocus l view (settled b)).focused_resources ≡ [])
      × ((defocus l view (settled b)).focused_view ≡ 0)
left-fields l view b =
    let (same_resources, none_focused, no_view) = defocus-fields l view (settled b) in
    (same_resources ∙ resources-settled b, none_focused, no_view)

-- A view with a surface that gets the focus, which it had not, gets all of it: the focused view is
-- that view, and keys go to exactly the keyboard resources of its client that are still there, in
-- order, if memory does not run out.
keyboard_focus_moves :
    (c : IterPool) (x : Xkb) (l : Clients) (view owner : ℕ) (b : Keyboard)
    → HasMemory c
    → view ≢ 0
    → b.focused_view ≢ view
    → l.surface_client view ≡ some owner
    → ((keyboard_focus c x l view b).focused_view ≡ view)
      × ((keyboard_focus c x l view b).focused_resources ≡ keys_where (serves l owner) b.resources)
unfolding keyboard_focus focus_view
keyboard_focus_moves c x l view owner b memory there moves surface =
    let (same_resources, none_focused, no_view) = left-fields l view b in
    let not_same : (b.focused_view == view) ≡ false = ground (arith, moves) in
    let shown : (if view == 0 then none else l.surface_client view) ≡ some owner =
      ground (arith, there, surface) in
    rw (not_same, focus_view, shown)
      (
        refl,
        focused-focus_resources c x l owner (defocus l view (settled b)).resources
              (defocus l view (settled b)) memory
            ∙ ap
                (λ (fs : List ℕ).
                  fs ++ keys_where (serves l owner) (defocus l view (settled b)).resources)
                none_focused
            ∙ ap (keys_where (serves l owner)) same_resources,
      )

-- Where the focus is to move to no view, or to one without a surface, no view keeps it and keys go
-- to no resource.
pub keyboard_focus_leaves :
    (c : IterPool) (x : Xkb) (l : Clients) (view : ℕ) (b : Keyboard)
    → b.focused_view ≢ view
    → (if view == 0 then none else l.surface_client view) ≡ none
    → ((keyboard_focus c x l view b).focused_view ≡ 0)
      × ((keyboard_focus c x l view b).focused_resources ≡ [])
unfolding keyboard_focus focus_view
keyboard_focus_leaves c x l view b moves nobody =
    let (same_resources, none_focused, no_view) = left-fields l view b in
    let not_same : (b.focused_view == view) ≡ false = ground (arith, moves) in
    rw (not_same, focus_view, nobody) (no_view, none_focused)
