-- ===== src/Positioner/Requests.antt =====
-- What the requests of a client make of a positioner.
use wlc.Base.{
  ◌≤◌, ◌≡◌, ◌⊎◌, inl, inr, refl, Bool, true, false, ◌||◌, some, List, [], ◌∷◌, arith, Bool-cases,
}
use wlc.Base.Int.{pos, ltb_ℤ}
use wlc.Geometry.{Size, Geometry}
use wlc.Positioner.{
  Positioner, new_positioner, same_axis, PositionerRequest, set_size, set_anchor_rect, set_anchor,
  set_gravity, set_constraint_adjustment, set_offset, request, requests, get_xdg_positioner,
  popup_size,
}

abbrev pub IsPositive : Size → Type 0
IsPositive s = (1 ≤ s.w) × (1 ≤ s.h)

pub record IsValid (p : Positioner) : Type 0 where
  pub size : p.has_size ≡ true → IsPositive p.size
  pub anchor_rect : p.has_anchor_rect ≡ true → IsPositive p.anchor_rect.size
  pub anchor : same_axis p.anchor ≡ false
  pub gravity : same_axis p.gravity ≡ false

request-IsValid : (r : PositionerRequest) (p : Positioner) → IsValid p → IsValid (request r p).1
unfolding request
request-IsValid (set_size width height) p v = record {
  size = λ e. ground (arith, e, v.size);
  anchor_rect = λ e. ground (arith, e, v.anchor_rect);
  anchor = ground (arith, v.anchor);
  gravity = ground (arith, v.gravity);
}
request-IsValid (set_anchor_rect x y width height) p v = record {
  size = λ e. ground (arith, e, v.size);
  anchor_rect = λ e. ground (arith, e, v.anchor_rect);
  anchor = ground (arith, v.anchor);
  gravity = ground (arith, v.gravity);
}
request-IsValid (set_anchor a) p v = record {
  size = λ e. ground (arith, e, v.size);
  anchor_rect = λ e. ground (arith, e, v.anchor_rect);
  anchor = ground (arith, v.anchor);
  gravity = ground (arith, v.gravity);
}
request-IsValid (set_gravity g) p v = record {
  size = λ e. ground (arith, e, v.size);
  anchor_rect = λ e. ground (arith, e, v.anchor_rect);
  anchor = ground (arith, v.anchor);
  gravity = ground (arith, v.gravity);
}
request-IsValid (set_constraint_adjustment a) p v = record {
  size = v.size;
  anchor_rect = v.anchor_rect;
  anchor = v.anchor;
  gravity = v.gravity;
}
request-IsValid (set_offset x y) p v = record {
  size = v.size;
  anchor_rect = v.anchor_rect;
  anchor = v.anchor;
  gravity = v.gravity;
}

-- After any requests of a client on a valid positioner, such as a new one: a size and an anchor
-- rectangle that are marked as set are at least 1 by 1, and neither the anchor nor the gravity has
-- both edges of an axis.
pub requests-IsValid :
    (rs : List PositionerRequest) (p : Positioner) → IsValid p → IsValid (requests rs p).1
unfolding requests
requests-IsValid [] p v = v
requests-IsValid (r ∷ rs) p v = elim (Bool-cases (request r p).0) [
  | inl y ↦ rw y (request-IsValid r p v)
  | inr n ↦ rw n (requests-IsValid rs (request r p).1 (request-IsValid r p v))
]

-- The values of a request that the protocol forbids.
abbrev pub is_bad : PositionerRequest → Bool
is_bad (set_size width height) = ltb_ℤ width (pos 1) || ltb_ℤ height (pos 1)
is_bad (set_anchor_rect x y width height) = ltb_ℤ width (pos 1) || ltb_ℤ height (pos 1)
is_bad (set_anchor a) = same_axis a
is_bad (set_gravity g) = same_axis g
is_bad _ = false

-- A request posts an error exactly when its values are forbidden, and changes nothing then; sent
-- twice it has the effect of being sent once.
pub request_twice :
    (r : PositionerRequest) (p : Positioner)
    → ((request r p).0 ≡ is_bad r)
      × (is_bad r ≡ true → (request r p).1 ≡ p)
      × (request r (request r p).1 ≡ request r p)
unfolding request
request_twice (set_size width height) p = ground arith
request_twice (set_anchor_rect x y width height) p = ground arith
request_twice (set_anchor a) p = ground arith
request_twice (set_gravity g) p = ground arith
request_twice (set_constraint_adjustment a) p = ground arith
request_twice (set_offset x y) p = ground arith

-- A popup that `get_xdg_positioner_for_handle` finds a positioner for, after requests of a client on
-- a new one, is configured with a size of at least 1 by 1 or with that of the given geometry.
popup_size-get_xdg_positioner :
    (rs : List PositionerRequest) (p : Positioner) (g : Geometry)
    → get_xdg_positioner (some (requests rs new_positioner).1) ≡ some p
    → IsPositive (popup_size (some p) g)
      ⊎ ((popup_size (some p) g ≡ g.size) × (p.has_anchor_rect ≡ true))
unfolding get_xdg_positioner popup_size
popup_size-get_xdg_positioner rs p g e = go (requests-IsValid rs new_positioner fresh)
  where
    fresh : IsValid new_positioner
    fresh = record { size = λ e. cc; anchor_rect = λ e. cc; anchor = refl; gravity = refl }

    go :
        IsValid (requests rs new_positioner).1
        → IsPositive (popup_size (some p) g)
          ⊎ ((popup_size (some p) g ≡ g.size) × (p.has_anchor_rect ≡ true))
    go v = elim (Bool-cases p.has_size) [
      | inl y ↦ inl (ground (arith, e, y, v.size))
      | inr n ↦ inr (ground (arith, e, n))
    ]
