-- ===== src/Debug/Tests.antt =====
-- The channel "xwm" in three values of the variable.
use Prim.Native.String.{String}
use Prim.Native.Char.{code}
use wlc.Base.{ℕ, ◌≡◌, refl, true, false, List, [], ◌∷◌}
use wlc.Debug.{active, inactive, past_end, scan, Channel}

abbrev codes : String → List ℕ
codes String.[] = []
codes (String.◌∷◌ c s) = code c ∷ codes s

abbrev xwm : Channel
xwm = record { name = codes "xwm"; is_active = false; checked = false }

is_listed : scan (codes "xwm") true (codes "focus,xwm") ≡ active
unfolding scan
is_listed = refl

is_not_listed : scan (codes "xwm") true (codes "focus,") ≡ inactive
unfolding scan
is_not_listed = refl

-- The usual value for another channel is read past its end.
reads_past_end : scan (codes "xwm") true (codes "focus") ≡ past_end
unfolding scan
reads_past_end = refl
