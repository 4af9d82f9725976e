-- ===== src/Compositor/Output/Modes.antt =====
-- src/compositor/output.c: `wlc_output_set_information`, which chooses the mode, and
-- `wlc_output_set_resolution_ptr`. A width or height is below 2^31.
use wlc.Base.{
  ℕ, suc, ◌*◌, ◌/◌, ◌%◌, ◌^◌, Bool, true, false, ◌&&◌, ◌||◌, not, Option, none, some, List, [], ◌∷◌,
  if◌then◌else◌, ◌==◌, ltb, get_elem?, set,
}
use wlc.Geometry.{Size, size_equals}
use wlc.Compositor.World.{Output, Mode}
use wlc.Compositor.Output.{schedule_repaint}

-- `mode->width * mode->height`, as a `uint32_t`.
abbrev pub area : Mode → ℕ
area m = m.width * m.height % 2 ^ 32

-- The variables of the loop over the modes; none stands for UINT_MAX.
pub record Choice : Type 0 where
  pub active : Option ℕ
  pub largest : ℕ
  pub fallback : Option ℕ

abbrev pub is_none : Option ℕ → Bool
is_none none = true
is_none (some i) = false

-- One round, at index `i`.
unfoldable pub consider : ℕ → Mode → Choice → Choice
consider i m c = record {
  active = if m.current || (is_none c.active && m.preferred) then some i else c.active;
  largest = if ltb c.largest (area m) then area m else c.largest;
  fallback = if ltb c.largest (area m) then some i else c.fallback;
}

unfoldable pub consider_all : ℕ → List Mode → Choice → Choice
unfolding consider
consider_all i [] c = c
consider_all i (m ∷ ms) c = consider_all (suc i) ms (consider i m c)

unfoldable pub choose_mode : List Mode → Option ℕ
unfolding consider_all
choose_mode ms =
    let c = consider_all 0 ms (record { active = none; largest = 0; fallback = none }) in
    if is_none c.active then c.fallback else c.active

-- Whether `wlc_output_set_resolution_ptr` goes through. The product overflows `size_t` in
-- `chck_mul_ofsz`.
unfoldable pub resolution_changes : Size → ℕ → Output → Bool
unfolding size_equals
resolution_changes r scale o =
    not (r.w == 0 || r.h == 0 || scale == 0)
    && not (o.scale == scale && size_equals r o.resolution)
    && ltb (r.w / scale * (r.h / scale)) (2 ^ 64)

unfoldable pub set_resolution : Size → ℕ → Output → Output
unfolding resolution_changes schedule_repaint
set_resolution r scale o =
    if resolution_changes r scale o
    then schedule_repaint (record o {
      resolution = r;
      virtual = record { w = r.w / scale; h = r.h / scale };
      scale = scale;
    })
    else o

-- The chosen mode is marked as current, and its size becomes the resolution. A list of modes
-- without a choice aborts in the source; here the output keeps its old resolution.
unfoldable pub set_mode : Option Mode → ℕ → List Mode → Output → Output
unfolding set_resolution
set_mode none i ms o = o
set_mode (some m) i ms o =
    let size : Size = record { w = m.width; h = m.height } in
    set_resolution size o.scale
      (record o { mode = some i; mode_size = size; modes = set ms i (record m { current = true }) })

-- `wlc_output_set_information` on the modes of the given information.
unfoldable pub set_information : List Mode → Output → Output
unfolding choose_mode set_mode
set_information ms o = elim (choose_mode ms) [
  | none ↦ record o { modes = ms; mode = none }
  | some i ↦ set_mode (get_elem? ms i) i ms (record o { modes = ms; mode = none })
]
