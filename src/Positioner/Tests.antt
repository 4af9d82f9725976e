-- ===== src/Positioner/Tests.antt =====
-- The theorems on positioners at small requests.
use wlc.Base.{refl, List, [], ◌∷◌}
use wlc.Base.Int.{pos}
use wlc.Positioner.{new_positioner, set_size, set_offset, requests, PositionerRequest}
use wlc.Positioner.Requests.{IsValid, requests-IsValid}

abbrev two_requests : List PositionerRequest
two_requests = set_size (pos 3) (pos 4) ∷ set_offset (pos 1) (pos 1) ∷ []

requests-IsValid_example : IsValid (requests two_requests new_positioner).1
requests-IsValid_example =
    requests-IsValid two_requests new_positioner
      (record { size = λ e. cc; anchor_rect = λ e. cc; anchor = refl; gravity = refl })
