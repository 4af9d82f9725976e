-- ===== src/Seat/Keyboard/Timer.antt =====
-- The repeat timer over all operations of the keyboard.
use wlc.Base.{
  ℕ, inl, inr, Option-cases, if◌then◌else◌, ◌==◌, ◌&&◌, ◌<◌, ◌≡◌, refl, Bool, true, false, none,
  List, [], ◌∷◌, arith,
}
use wlc.Chck.{IterPool}
use wlc.Seat.Keyboard.{
  Xkb, Clients, Keyboard, begin_repeat, reset_repeat, keyboard_update, update_modifiers,
  request_key, offer_key, seat_handle_key, press_all, cb_repeat, rested, stopped, keys_where,
  keyboard_focus, defocus, focus_view, focus_resource, focus_resources,
}
use wlc.Seat.Keyboard.Repeat.{IsArmed}

-- The fields that the timer depends on.
abbrev SameTimer : Keyboard → Keyboard → Type 0
SameTimer a b =
    (a.delay ≡ b.delay) × (a.rate ≡ b.rate) × (a.repeat ≡ b.repeat) × (a.timer ≡ b.timer)

SameTimer-IsArmed : (a b : Keyboard) → SameTimer a b → IsArmed b → IsArmed a
SameTimer-IsArmed a b (d, r, p, t) v = record {
  delay = ground (arith, d, v.delay);
  rate = ground (arith, r, v.rate);
  armed = λ e. ground (arith, e, p, t, v.armed);
  disarmed = λ e. ground (arith, e, p, t, v.disarmed);
}

IsArmed-if : (t : Bool) (a d : Keyboard) → IsArmed a → IsArmed d → IsArmed (if t then a else d)
IsArmed-if true a d v w = v
IsArmed-if false a d v w = w

begin_repeat-IsArmed :
    (focused : Bool) (b : Keyboard) → IsArmed b → IsArmed (begin_repeat focused b)
unfolding begin_repeat
begin_repeat-IsArmed focused b v = record {
  delay = v.delay;
  rate = v.rate;
  armed = λ e. ground (arith, v.delay, v.rate);
  disarmed = λ e. ground (arith, e);
}

reset_repeat-IsArmed : (b : Keyboard) → IsArmed b → IsArmed (reset_repeat b)
unfolding reset_repeat
reset_repeat-IsArmed b v = record {
  delay = ground (arith, v.delay);
  rate = ground (arith, v.rate);
  armed = λ e. ground (arith, e, v.armed);
  disarmed = λ e. ground (arith, e, v.disarmed);
}

update_modifiers-SameTimer :
    (x : Xkb) (l : Clients) (b : Keyboard) → SameTimer (update_modifiers x l b) b
unfolding update_modifiers
update_modifiers-SameTimer x l b = ground arith

defocus-SameTimer : (l : Clients) (new : ℕ) (b : Keyboard) → SameTimer (defocus l new b) b
unfolding defocus
defocus-SameTimer l new b = ground arith

request_key-IsArmed :
    (x : Xkb) (l : Clients) (key : ℕ) (pressed : Bool) (b : Keyboard)
    → IsArmed b
    → IsArmed (request_key x l key pressed b).1
unfolding request_key
request_key-IsArmed x l key pressed b v = record {
  delay = ground (arith, v.delay);
  rate = ground (arith, v.rate);
  armed = λ e. ground (arith, e, v.delay, v.rate, v.armed);
  disarmed = λ e. ground (arith, e, v.disarmed);
}

keyboard_update-IsArmed :
    (c : IterPool) (key : ℕ) (pressed : Bool) (b : Keyboard)
    → IsArmed b
    → IsArmed (keyboard_update c key pressed b).1
unfolding keyboard_update
keyboard_update-IsArmed c key pressed b v = record {
  delay = ground (arith, v.delay);
  rate = ground (arith, v.rate);
  armed = λ e. ground (arith, e, v.armed);
  disarmed = λ e. ground (arith, e, v.disarmed);
}

-- The last steps of `seat_handle_key` on a keyboard and the one that `request_key` makes of it.
offer_key-IsArmed :
    (x : Xkb) (l : Clients) (key : ℕ) (pressed : Bool) (b : Keyboard)
    → IsArmed b
    → IsArmed (offer_key x l key pressed b)
unfolding offer_key
offer_key-IsArmed x l key pressed b v =
    let w = SameTimer-IsArmed (update_modifiers x l b) b (update_modifiers-SameTimer x l b) v in
    let z = request_key-IsArmed x l key pressed (update_modifiers x l b) w in
    record {
      delay = ground (arith, w.delay, z.delay);
      rate = ground (arith, w.rate, z.rate);
      armed = λ e. ground (arith, e, w.armed, z.armed);
      disarmed = λ e. ground (arith, e, w.disarmed, z.disarmed);
    }

seat_handle_key-IsArmed :
    (c : IterPool) (x : Xkb) (l : Clients) (key : ℕ) (pressed : Bool) (b : Keyboard)
    → IsArmed b
    → IsArmed (seat_handle_key c x l key pressed b)
unfolding seat_handle_key
seat_handle_key-IsArmed c x l key pressed b v =
    let w = keyboard_update-IsArmed c key pressed b v in
    let z = offer_key-IsArmed x l key pressed (keyboard_update c key pressed b).1 w in
    record {
      delay = ground (arith, w.delay, z.delay);
      rate = ground (arith, w.rate, z.rate);
      armed = λ e. ground (arith, e, w.armed, z.armed);
      disarmed = λ e. ground (arith, e, w.disarmed, z.disarmed);
    }

press_all-IsArmed :
    (c : IterPool) (x : Xkb) (l : Clients) (ks : List ℕ) (b : Keyboard)
    → IsArmed b
    → IsArmed (press_all c x l ks b)
unfolding press_all
press_all-IsArmed c x l [] b v = v
press_all-IsArmed c x l (k ∷ ks) b v =
    press_all-IsArmed c x l ks (seat_handle_key c x l k true b)
      (seat_handle_key-IsArmed c x l k true b v)

stopped-IsArmed :
    (b : Keyboard) → b.repeat ≡ false → b.timer ≡ 0 → 0 < b.delay → 0 < b.rate → IsArmed b
stopped-IsArmed b off none_set delay rate = record {
  delay = delay;
  rate = rate;
  armed = λ e. absurd (ground (arith, e, off));
  disarmed = λ e. none_set;
}

cb_repeat-IsArmed :
    (c : IterPool) (x : Xkb) (l : Clients) (b : Keyboard) → IsArmed b → IsArmed (cb_repeat c x l b)
unfolding cb_repeat rested
cb_repeat-IsArmed c x l b v =
    IsArmed-if b.has_keymap (press_all c x l (keys_where x.repeats b.keys) (rested c x b))
      (stopped b)
      (press_all-IsArmed c x l (keys_where x.repeats b.keys) (rested c x b)
        (stopped-IsArmed (rested c x b) refl refl v.delay v.rate))
      (stopped-IsArmed (stopped b) refl refl v.delay v.rate)

focus_resource-IsArmed :
    (c : IterPool) (x : Xkb) (r : ℕ) (b : Keyboard) → IsArmed b → IsArmed (focus_resource c x r b)
unfolding focus_resource
focus_resource-IsArmed c x r b v = record {
  delay = ground (arith, v.delay);
  rate = ground (arith, v.rate);
  armed = λ e. ground (arith, e, v.delay, v.rate, v.armed);
  disarmed = λ e. ground (arith, e, v.disarmed);
}

focus_resources-IsArmed :
    (c : IterPool) (x : Xkb) (l : Clients) (owner : ℕ) (rs : List ℕ) (b : Keyboard)
    → IsArmed b
    → IsArmed (focus_resources c x l owner rs b)
unfolding focus_resources
focus_resources-IsArmed c x l owner [] b v = v
focus_resources-IsArmed c x l owner (r ∷ rs) b v =
    let here : Bool = l.is_alive r && l.client r == owner in
    focus_resources-IsArmed c x l owner rs (if here then focus_resource c x r b else b)
      (IsArmed-if here (focus_resource c x r b) b (focus_resource-IsArmed c x r b v) v)

focus_view-IsArmed :
    (c : IterPool) (x : Xkb) (l : Clients) (view : ℕ) (b : Keyboard)
    → IsArmed b
    → IsArmed (focus_view c x l view b)
unfolding focus_view
focus_view-IsArmed c x l view b v =
    elim (Option-cases (if view == 0 then none else l.surface_client view)) [
      | inl e ↦ rw (focus_view, e) v
      | inr (owner, e) ↦
          let w = focus_resources-IsArmed c x l owner b.resources b v in
          rw (focus_view, e)
            (record { delay = w.delay; rate = w.rate; armed = w.armed; disarmed = w.disarmed })
    ]

keyboard_focus-IsArmed :
    (c : IterPool) (x : Xkb) (l : Clients) (view : ℕ) (b : Keyboard)
    → IsArmed b
    → IsArmed (keyboard_focus c x l view b)
unfolding keyboard_focus
keyboard_focus-IsArmed c x l view b v =
    let a : Keyboard = if b.repeating then b else reset_repeat b in
    let w = IsArmed-if b.repeating b (reset_repeat b) v (reset_repeat-IsArmed b v) in
    IsArmed-if (b.focused_view == view) b (focus_view c x l view (defocus l view a)) v (
      focus_view-IsArmed c x l view (defocus l view a)
        (SameTimer-IsArmed (defocus l view a) a (defocus-SameTimer l view a) w))

-- What happens to a keyboard: a key event, a change of focus, the repeat timer.
pub data KeyboardStep (c : IterPool) (x : Xkb) (l : Clients) : Keyboard → Keyboard → Type 0 where
  key_event :
      {b : Keyboard}
      → (key : ℕ) (pressed : Bool) → KeyboardStep c x l b (seat_handle_key c x l key pressed b)
  focus_event : {b : Keyboard} → (view : ℕ) → KeyboardStep c x l b (keyboard_focus c x l view b)
  repeat_timeout : {b : Keyboard} → KeyboardStep c x l b (cb_repeat c x l b)

pub data KeyboardSteps (c : IterPool) (x : Xkb) (l : Clients) : Keyboard → Keyboard → Type 0 where
  stay : {b : Keyboard} → KeyboardSteps c x l b b
  step :
      {a b d : Keyboard}
      → KeyboardSteps c x l a b
      → KeyboardStep c x l b d
      → KeyboardSteps c x l a d

-- Through any key events, changes of focus and runs of the repeat timer, the timer stays armed
-- exactly while a repeat is to come, if the delay and the rate are not 0.
pub KeyboardSteps-IsArmed :
    (c : IterPool) (x : Xkb) (l : Clients) (a b : Keyboard)
    → KeyboardSteps c x l a b
    → IsArmed a
    → IsArmed b
KeyboardSteps-IsArmed c x l a b stay v = v
KeyboardSteps-IsArmed c x l a b (step {b = d} s (key_event key pressed)) v =
    seat_handle_key-IsArmed c x l key pressed d (KeyboardSteps-IsArmed c x l a d s v)
KeyboardSteps-IsArmed c x l a b (step {b = d} s (focus_event view)) v =
    keyboard_focus-IsArmed c x l view d (KeyboardSteps-IsArmed c x l a d s v)
KeyboardSteps-IsArmed c x l a b (step {b = d} s repeat_timeout) v =
    cb_repeat-IsArmed c x l d (KeyboardSteps-IsArmed c x l a d s v)
