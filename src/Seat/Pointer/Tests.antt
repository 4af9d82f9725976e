-- ===== src/Seat/Pointer/Tests.antt =====
-- The theorem on the focus of the pointer, at two clients.
use wlc.Base.{true, none, some, [], ◌∷◌, if◌then◌else◌, ◌==◌}
use wlc.Seat.Pointer.{PointerSurface, Around, Pointer, corner}

-- Surface 5 is of client 1, surface 6 of client 2; so are the resources 11 and 12.
abbrev second : PointerSurface
second = record { parent_view = 60; client = some 2 }

abbrev two_clients : Around
two_clients = record {
  client_of = λ r. if r == 11 then some 1 else if r == 12 then some 2 else none;
  surface = λ s.
      if s == 5
      then some (record { parent_view = 50; client = some 1 })
      else if s == 6
      then some second
      else none;
  view = λ v. none;
  is_inside = λ v. true;
  position = λ s. (3, 4);
}

abbrev on_first : Pointer
on_first = record {
  resources = 11 ∷ 12 ∷ [];
  tip = corner;
  surface = 0;
  focused_resources = 11 ∷ [];
  focused_surface = 5;
  focused_view = 50;
  events = [];
}
