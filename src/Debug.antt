-- ===== src/Debug.antt =====
-- src/wlc.c: wlc_dlog, which looks the name of a channel up in the variable WLC_DEBUG. A text is the
-- list of its bytes before the NUL.
pub mod Channels
mod Tests
use wlc.Base.{
  ℕ, Bool, true, false, ◌&&◌, ◌||◌, Option, none, some, List, [], ◌∷◌, starts_with, if◌then◌else◌,
  ◌==◌,
}

-- Whether the channel is active; or the scan has gone past the NUL and reads what is not the text's.
pub data Scan : Type 0 where
  active inactive past_end : Scan

abbrev pub comma : ℕ
comma = b','

-- The loop over the text, at the start of a name or within one. `strcspn` stops at the comma or at the
-- NUL, and the loop goes on one byte further. `chck_cstrneq` is true of a text that begins with the
-- name.
unfoldable pub scan : List ℕ → Bool → List ℕ → Scan
scan name true [] = inactive
scan name false [] = past_end
scan name at_start (c ∷ s) =
    let rest = scan name (c == comma) s in
    if at_start && starts_with name (c ∷ s) then active else rest

-- `channels[dbg]`.
pub record Channel : Type 0 where
  pub name : List ℕ
  pub is_active : Bool
  pub checked : Bool

abbrev pub scan_variable : List ℕ → Option (List ℕ) → Scan
scan_variable name none = inactive
scan_variable name (some s) = scan name true s

-- A result of the scan, kept in the channel; none is a read past the end.
unfoldable pub checked_channel : Channel → Scan → Option (Bool × Channel)
checked_channel c active = some (true, record c { is_active = true; checked = true })
checked_channel c inactive = some (false, record c { is_active = false; checked = true })
checked_channel c past_end = none

-- Whether the message is logged, and the channel after it.
unfoldable pub dlog : Option (List ℕ) → Channel → Option (Bool × Channel)
unfolding scan checked_channel
dlog variable c =
    if c.checked then some (c.is_active, c) else checked_channel c (scan_variable c.name variable)
