-- ===== src/Seat/Keymap.antt =====
-- src/compositor/seat/keymap.c: the masks of modifiers and leds. The indices that libxkbcommon gives
-- to the modifiers are a list, in which none is XKB_MOD_INVALID; an index is below 32.
use wlc.Base.{ℕ, suc, ◌+◌, ◌^◌, Bool, false, Option, none, some, List, [], ◌∷◌, if◌then◌else◌}
use wlc.Base.Bits.{has_bit}

abbrev pub is_in : ℕ → Option ℕ → Bool
is_in mask none = false
is_in mask (some j) = has_bit mask j

-- The sum of the bits `2 ^ i` of the tests that hold, from bit `i` on: the loops of
-- `wlc_keymap_get_mod_mask` and `wlc_keymap_get_led_mask`, in which each bit is set at most once.
unfoldable pub mask_from : ℕ → List Bool → ℕ
mask_from i [] = 0
mask_from i (b ∷ bs) = (if b then 2 ^ i else 0) + mask_from (suc i) bs

abbrev pub tests : ℕ → List (Option ℕ) → List Bool
tests mask [] = []
tests mask (m ∷ ms) = is_in mask m ∷ tests mask ms

unfoldable pub get_mod_mask : List (Option ℕ) → ℕ → ℕ
unfolding mask_from
get_mod_mask mods mask = mask_from 0 (tests mask mods)

-- `actives` tells which leds are active.
unfoldable pub get_led_mask : List Bool → ℕ
unfolding mask_from
get_led_mask actives = mask_from 0 actives
