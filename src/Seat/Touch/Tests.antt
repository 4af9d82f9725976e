-- ===== src/Seat/Touch/Tests.antt =====
-- The theorem on touches, at two views that overlap.
use wlc.Base.{ℕ, ◌≡◌, refl, true, false, Option, none, some, [], ◌∷◌, if◌then◌else◌, ◌==◌}
use wlc.Base.Int.{pos, ◌+ℤ◌}
use wlc.Geometry.{Point}
use wlc.Seat.Touch.{Target, Touch, TouchWorld, sent_down, asked, pointer_motion, down, touch_input}

-- View 1 is below view 2, which is of client 8 and smaller.
abbrev view : ℕ → Option Target
view h =
    if h == 1
    then some (record {
      visible = true;
      bounds = record {
        origin = record { x = pos 0; y = pos 0 };
        size = record { w = 50; h = 50 };
      };
      client = some 7;
    })
    else if h == 2
    then some (record {
      visible = true;
      bounds = record {
        origin = record { x = pos 10; y = pos 10 };
        size = record { w = 20; h = 20 };
      };
      client = some 8;
    })
    else none

abbrev client_of : ℕ → Option ℕ
client_of r = if r == 3 then some 7 else if r == 4 then some 8 else none

abbrev at : Point
at = record { x = pos 15; y = pos 15 }

abbrev idle_touch : Touch
idle_touch = record { focus = 0; resources = 3 ∷ 4 ∷ []; events = [] }

-- The interface handles what begins on the second slot.
abbrev seat : TouchWorld
seat = record {
  fixed = λ c. c;
  view = view;
  client_of = client_of;
  views = some (1 ∷ 2 ∷ []);
  callback = some (λ focused time type slot p. slot == 1);
}

-- The resource of the client of view 2 gets the event.
begun :
    (touch_input seat 99 down 0 (some at) idle_touch).events
    ≡ asked 2 99 down 0 at ∷ pointer_motion 99 true ∷ sent_down 4 99 0 at ∷ []
unfolding touch_input ◌+ℤ◌
begun = refl

-- A second finger does not move the focus, and goes to no client here.
second :
    (touch_input seat 99 down 1 (some at) idle_touch).events
    ≡ asked 0 99 down 1 at ∷ pointer_motion 99 false ∷ []
unfolding touch_input
second = refl
