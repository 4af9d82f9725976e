-- ===== src/Seat/Keyboard.antt =====
-- src/compositor/seat/keyboard.c: focus, key repeat and modifiers, and `seat_handle_key` of
-- src/compositor/seat/seat.c. libxkbcommon, the resources of the clients, the views and the callback
-- of the interface are parameters; the callback changes no keyboard.
pub mod Repeat
pub mod Focus
pub mod Timer
mod Tests
use wlc.Base.{
  ℕ, ◌+◌, Bool, true, false, ◌&&◌, ◌||◌, not, Option, none, some, List, [], ◌∷◌, ◌++◌,
  if◌then◌else◌, ◌==◌,
}
use wlc.Chck.{IterPool, or_same}
use wlc.Seat.Keys.{update_keys}
use wlc.Seat.Keymap.{get_mod_mask, get_led_mask}

-- The state of libxkbcommon is what the updates so far, oldest first, make of it.
abbrev pub XkbState : Type 0
XkbState = List (ℕ × Bool)

-- `xkb_keymap_key_repeats`, `xkb_state_serialize_mods`, `xkb_state_serialize_layout`,
-- `xkb_state_led_index_is_active` on the leds of the keymap, the indices of its modifiers, and
-- whether the keysym of a key without modifiers is one of F1 to F12. `either_mod` is the bitwise or.
pub record Xkb : Type 0 where
  pub repeats : ℕ → Bool
  pub depressed : XkbState → ℕ
  pub latched : XkbState → ℕ
  pub locked : XkbState → ℕ
  pub group : XkbState → ℕ
  pub active_leds : XkbState → List Bool
  pub mod_indices : List (Option ℕ)
  pub either_mod : ℕ → ℕ → ℕ
  pub is_function_key : ℕ → Bool

-- The clients: whether a keyboard resource is still there and whose it is; whether a view is there,
-- the client of its surface, if it has one, and its kinds. `handles` is what the callback
-- `keyboard.key` returns for the focused view, the key and whether it is pressed; `current_vt` is
-- that of the tty, and `switch_mods` the mask of control and alt.
pub record Clients : Type 0 where
  pub is_alive : ℕ → Bool
  pub client : ℕ → ℕ
  pub is_view : ℕ → Bool
  pub surface_client : ℕ → Option ℕ
  pub is_x11 : ℕ → Bool
  pub is_popup : ℕ → Bool
  pub handles : ℕ → ℕ → Bool → Bool
  pub current_vt : ℕ
  pub switch_mods : ℕ

-- `switch_vt` carries the key; the terminal to switch to is that minus 58.
pub data KeyEvent : Type 0 where
  send_key : ℕ → ℕ → Bool → KeyEvent
  send_leave : ℕ → KeyEvent
  send_enter : ℕ → List ℕ → KeyEvent
  send_modifiers : ℕ → KeyEvent
  view_focus : ℕ → Bool → KeyEvent
  x11_inactive : ℕ → KeyEvent
  close_view : ℕ → KeyEvent
  asked : ℕ → Bool → KeyEvent
  switch_vt : ℕ → KeyEvent

-- `struct wlc_keyboard`. `timer` is the delay the repeat timer was last armed with, 0 if it is not
-- armed; `focused_view` is 0 for none; `is_focus_repeat` is `state.focused`.
pub record Keyboard : Type 0 where
  pub has_keymap : Bool
  pub resources : List ℕ
  pub keys : List ℕ
  pub timer : ℕ
  pub focused_resources : List ℕ
  pub focused_view : ℕ
  pub depressed : ℕ
  pub latched : ℕ
  pub locked : ℕ
  pub group : ℕ
  pub mods : ℕ
  pub leds : ℕ
  pub delay : ℕ
  pub rate : ℕ
  pub xkb : XkbState
  pub repeat : Bool
  pub repeating : Bool
  pub is_focus_repeat : Bool
  pub events : List KeyEvent

abbrev pub post : List KeyEvent → Keyboard → Keyboard
post es b = record b { events = b.events ++ es }

-- One event for every resource of a list that is still there.
abbrev pub to_alive : Clients → (ℕ → KeyEvent) → List ℕ → List KeyEvent
to_alive l e [] = []
to_alive l e (r ∷ rs) = if l.is_alive r then e r ∷ to_alive l e rs else to_alive l e rs

abbrev pub release_events : Clients → List ℕ → List ℕ → List KeyEvent
release_events l rs [] = []
release_events l rs (k ∷ ks) = to_alive l (λ r. send_key r k false) rs ++ release_events l rs ks

unfoldable pub send_release_for_keys : Clients → Keyboard → Keyboard
send_release_for_keys l b = post (release_events l b.focused_resources b.keys) b

unfoldable pub begin_repeat : Bool → Keyboard → Keyboard
begin_repeat focused b = record b {
  repeat = true;
  is_focus_repeat = focused;
  timer = if b.repeating then b.rate else b.delay;
}

unfoldable pub reset_repeat : Keyboard → Keyboard
reset_repeat b =
    if b.repeat
    then record b { timer = 0; repeating = false; is_focus_repeat = false; repeat = false }
    else b

abbrev pub same_client : Option ℕ → Option ℕ → Bool
same_client (some a) (some b) = a == b
same_client _ _ = false

-- What `defocus` sends to a view with a surface.
abbrev pub leave_events : Clients → ℕ → Keyboard → List KeyEvent
leave_events l new b =
    (if l.is_x11 b.focused_view && (new == 0 || not (l.is_x11 new))
      then x11_inactive b.focused_view ∷ []
      else [])
    ++ (to_alive l send_leave b.focused_resources
        ++ (view_focus b.focused_view false
            ∷ (if not (l.is_x11 b.focused_view)
                  && l.is_popup b.focused_view
                  && not (
                      same_client (l.surface_client b.focused_view)
                        (if new == 0 then none else l.surface_client new))
                then close_view b.focused_view ∷ []
                else [])))

-- `new` is 0 for no new focus.
unfoldable pub defocus : Clients → ℕ → Keyboard → Keyboard
unfolding send_release_for_keys
defocus l new b =
    let b1 = if l.is_view b.focused_view then send_release_for_keys l b else b in
    let b2 : Keyboard = elim (l.surface_client b.focused_view) [
      | none ↦ b1
      | some c ↦ if l.is_view b.focused_view then post (leave_events l new b) b1 else b1
    ] in
    record b2 { focused_resources = []; focused_view = 0 }

-- The keys that do not repeat, and those that do.
abbrev pub keys_where : (ℕ → Bool) → List ℕ → List ℕ
keys_where p [] = []
keys_where p (k ∷ ks) = if p k then k ∷ keys_where p ks else keys_where p ks

abbrev pub is_empty : List ℕ → Bool
is_empty [] = true
is_empty (k ∷ ks) = false

-- The round of `focus_view` for one resource of the client.
unfoldable pub focus_resource : IterPool → Xkb → ℕ → Keyboard → Keyboard
unfolding begin_repeat
focus_resource c x r b =
    let quiet = if b.has_keymap then keys_where (λ k. not (x.repeats k)) b.keys else [] in
    let loud = if b.has_keymap then keys_where x.repeats b.keys else [] in
    let b' = record b {
      focused_resources = or_same (c.push_back b.focused_resources r) b.focused_resources;
      events = b.events ++ (send_modifiers r ∷ send_enter r quiet ∷ []);
    } in
    if is_empty loud then b' else begin_repeat true b'

unfoldable pub focus_resources : IterPool → Xkb → Clients → ℕ → List ℕ → Keyboard → Keyboard
unfolding focus_resource
focus_resources c x l owner [] b = b
focus_resources c x l owner (r ∷ rs) b =
    focus_resources c x l owner rs
      (if l.is_alive r && l.client r == owner then focus_resource c x r b else b)

unfoldable pub focus_view : IterPool → Xkb → Clients → ℕ → Keyboard → Keyboard
unfolding focus_resources
focus_view c x l view b = elim (if view == 0 then none else l.surface_client view) [
  | none ↦ b
  | some owner ↦
      post (view_focus view true ∷ [])
        (record (focus_resources c x l owner b.resources b) { focused_view = view })
]

unfoldable pub update_modifiers : Xkb → Clients → Keyboard → Keyboard
update_modifiers x l b =
    let depressed = x.depressed b.xkb in
    let latched = x.latched b.xkb in
    let locked = x.locked b.xkb in
    let group = x.group b.xkb in
    let b1 = record b {
      depressed = depressed;
      latched = latched;
      locked = locked;
      group = group;
      events = b.events ++ to_alive l send_modifiers b.focused_resources;
    } in
    if depressed == b.depressed && latched == b.latched && locked == b.locked && group == b.group
    then b
    else if b.has_keymap
    then record b1 {
      mods = get_mod_mask x.mod_indices (x.either_mod depressed latched);
      leds = get_led_mask (x.active_leds b.xkb);
    }
    else b1

unfoldable pub request_key : Xkb → Clients → ℕ → Bool → Keyboard → Bool × Keyboard
unfolding begin_repeat
request_key x l key pressed b =
    let b' = post (asked key pressed ∷ []) b in
    if l.handles b.focused_view key pressed
    then (false, if pressed && b.has_keymap && x.repeats key then begin_repeat false b' else b')
    else (true, b')

unfoldable pub keyboard_update : IterPool → ℕ → Bool → Keyboard → Bool × Keyboard
unfolding reset_repeat
keyboard_update c key pressed b =
    let (changed, keys) = update_keys c b.keys key pressed in
    let b' = record b { xkb = b.xkb ++ (key, pressed) ∷ []; keys = keys } in
    (changed, if changed then reset_repeat b' else b')

unfoldable pub keyboard_key : Clients → ℕ → Bool → Keyboard → Keyboard
keyboard_key l key pressed b = post (to_alive l (λ r. send_key r key pressed) b.focused_resources) b

unfoldable pub keyboard_focus : IterPool → Xkb → Clients → ℕ → Keyboard → Keyboard
unfolding reset_repeat defocus focus_view
keyboard_focus c x l view b =
    if b.focused_view == view
    then b
    else focus_view c x l view (defocus l view (if b.repeating then b else reset_repeat b))

-- `seat_handle_key` after `wlc_keyboard_update`.
unfoldable pub offer_key : Xkb → Clients → ℕ → Bool → Keyboard → Keyboard
unfolding update_modifiers request_key keyboard_key
offer_key x l key pressed b =
    let b1 = update_modifiers x l b in
    let (free, b2) = request_key x l key pressed b1 in
    if b1.mods == l.switch_mods && x.is_function_key key
    then (if pressed && not (l.current_vt + 58 == key) then post (switch_vt key ∷ []) b1 else b1)
    else if free
    then keyboard_key l key pressed b2
    else b2

unfoldable pub seat_handle_key : IterPool → Xkb → Clients → ℕ → Bool → Keyboard → Keyboard
unfolding keyboard_update offer_key
seat_handle_key c x l key pressed b =
    let (changed, b') = keyboard_update c key pressed b in
    if changed then offer_key x l key pressed b' else b'

-- The presses that `cb_repeat` emits, in order.
unfoldable pub press_all : IterPool → Xkb → Clients → List ℕ → Keyboard → Keyboard
unfolding seat_handle_key
press_all c x l [] b = b
press_all c x l (k ∷ ks) b = press_all c x l ks (seat_handle_key c x l k true b)

-- The keys that are put back without an event.
unfoldable pub keep_all : IterPool → List ℕ → List ℕ → List ℕ
keep_all c [] keys = keys
keep_all c (k ∷ ks) keys = keep_all c ks (update_keys c keys k true).1

abbrev pub up : List ℕ → XkbState
up [] = []
up (k ∷ ks) = (k, false) ∷ up ks

-- The first part of `cb_repeat`: the keys are moved away and the repeat ends.
abbrev pub stopped : Keyboard → Keyboard
stopped b = record b {
  keys = [];
  timer = 0;
  is_focus_repeat = false;
  repeat = false;
  repeating = true;
}

-- Its first loop: the keys that repeat go up, the others are put back.
unfoldable pub rested : IterPool → Xkb → Keyboard → Keyboard
unfolding keep_all
rested c x b = record (stopped b) {
  xkb = b.xkb ++ up (keys_where x.repeats b.keys);
  keys = keep_all c (keys_where (λ k. not (x.repeats k)) b.keys) [];
}

unfoldable pub cb_repeat : IterPool → Xkb → Clients → Keyboard → Keyboard
unfolding rested press_all
cb_repeat c x l b =
    if b.has_keymap then press_all c x l (keys_where x.repeats b.keys) (rested c x b) else stopped b
