-- ===== src/Seat/Keyboard/Tests.antt =====
-- The theorems on the keyboard at a small one.
use wlc.Base.{
  ℕ, ◌≡◌, refl, true, false, not, none, some, List, [], ◌∷◌, ◌++◌, arith, count, if◌then◌else◌,
  ◌==◌,
}
use wlc.Chck.{unbounded}
use wlc.Seat.Keys.{Unique}
use wlc.Seat.Keyboard.{Xkb, Clients, Keyboard, cb_repeat, seat_handle_key, keys_where}
use wlc.Seat.Keyboard.Repeat.{IsArmed, keys-cb_repeat}
use wlc.Seat.Keyboard.Timer.{stay, step, key_event, repeat_timeout, KeyboardSteps-IsArmed}

-- All keys repeat but 42, a modifier.
abbrev xkb : Xkb
xkb = record {
  repeats = λ k. not (k == 42);
  depressed = λ s. 0;
  latched = λ s. 0;
  locked = λ s. 0;
  group = λ s. 0;
  active_leds = λ s. [];
  mod_indices = some 0 ∷ none ∷ [];
  either_mod = λ a b. a;
  is_function_key = λ k. false;
}

abbrev clients : Clients
clients = record {
  is_alive = λ r. not (r == 9);
  client = λ r. if r == 3 then 2 else 1;
  is_view = λ v. not (v == 0);
  surface_client = λ v. some 1;
  is_x11 = λ v. false;
  is_popup = λ v. false;
  handles = λ v k p. k == 50;
  current_vt = 1;
  switch_mods = 12;
}

abbrev keyboard : Keyboard
keyboard = record {
  has_keymap = true;
  resources = 2 ∷ 3 ∷ 4 ∷ 9 ∷ [];
  keys = 50 ∷ 42 ∷ 51 ∷ [];
  timer = 660;
  focused_resources = [];
  focused_view = 0;
  depressed = 0;
  latched = 0;
  locked = 0;
  group = 0;
  mods = 0;
  leds = 0;
  delay = 660;
  rate = 25;
  xkb = [];
  repeat = true;
  repeating = false;
  is_focus_repeat = false;
  events = [];
}

keyboard-IsArmed : IsArmed keyboard
keyboard-IsArmed = record {
  delay = omega arith;
  rate = omega arith;
  armed = λ e. omega arith;
  disarmed = λ e. absurd (ground (arith, e));
}

keyboard-Unique : Unique (50 ∷ 42 ∷ 51 ∷ [])
keyboard-Unique k = ground arith

abbrev two_keys : List ℕ
two_keys = 7 ∷ 8 ∷ []

keys-cb_repeat_example :
    ((cb_repeat unbounded xkb clients keyboard).keys
      ≡ keys_where (λ k. not (xkb.repeats k)) keyboard.keys ++ keys_where xkb.repeats keyboard.keys)
    × ((k : ℕ) → count (cb_repeat unbounded xkb clients keyboard).keys k ≡ count keyboard.keys k)
keys-cb_repeat_example =
    keys-cb_repeat unbounded xkb clients keyboard (λ keys k. (keys ++ k ∷ [], refl)) refl
      keyboard-Unique

abbrev focused : Keyboard
focused = record keyboard { focused_view = 5; focused_resources = 2 ∷ 4 ∷ [] }

KeyboardSteps-IsArmed_example :
    IsArmed
      (cb_repeat unbounded xkb clients (seat_handle_key unbounded xkb clients 60 true keyboard))
KeyboardSteps-IsArmed_example =
    KeyboardSteps-IsArmed unbounded xkb clients keyboard
      (cb_repeat unbounded xkb clients (seat_handle_key unbounded xkb clients 60 true keyboard))
      (step (step stay (key_event 60 true)) repeat_timeout) keyboard-IsArmed
