-- ===== src/Prelude/Ascii.antt =====
-- Methods of `str` on ASCII bytes: letter case, prefixes, search, trimming, lines.
use Prim.Native.Nat.{ℕ, ◌+◌, ◌-◌}
use mathlib.Core.Bool.{Bool, false, ◌&&◌, ◌||◌}
use mathlib.Core.List.{List, [], ◌∷◌, map, reverse}
use mathlib.Core.Option.{Option, none, some}
use randall_flare.Prelude.Order.{Bytes, bytes_ord, is_eq}
use randall_flare.Prelude.Tests.{leb, ◌==◌, if◌then◌else◌}
use randall_flare.Prelude.Text.{starts_with, split}

abbrev pub is_upper : ℕ → Bool
is_upper b = leb 65 b && leb b 90

abbrev pub is_lower : ℕ → Bool
is_lower b = leb 97 b && leb b 122

abbrev pub is_digit : ℕ → Bool
is_digit b = leb 48 b && leb b 57

-- `b.is_ascii_alphabetic()`, `is_ascii_alphanumeric` and `is_ascii_hexdigit`.
abbrev pub is_alphabetic : ℕ → Bool
is_alphabetic b = is_upper b || is_lower b

abbrev pub is_alphanumeric : ℕ → Bool
is_alphanumeric b = is_alphabetic b || is_digit b

abbrev pub is_hexdigit : ℕ → Bool
is_hexdigit b = is_digit b || ((leb 97 b && leb b 102) || (leb 65 b && leb b 70))

unfoldable pub lower : ℕ → ℕ
lower b = if is_upper b then b + 32 else b

unfoldable pub upper : ℕ → ℕ
upper b = if is_lower b then b - 32 else b

-- `s.to_ascii_lowercase()` and `s.to_ascii_uppercase()`.
unfoldable pub to_lower : Bytes → Bytes
unfolding lower
to_lower s = map lower s

unfoldable pub to_upper : Bytes → Bytes
unfolding upper
to_upper s = map upper s

-- `a.eq_ignore_ascii_case(b)`.
abbrev pub eq_ignore_case : Bytes → Bytes → Bool
eq_ignore_case a b = is_eq (to_lower a) (to_lower b)

-- `s.strip_prefix(p)`.
unfoldable pub strip_prefix : Bytes → Bytes → Option Bytes
strip_prefix s [] = some s
strip_prefix [] (p ∷ ps) = none
strip_prefix (x ∷ s) (p ∷ ps) = let rest = strip_prefix s ps in if x == p then rest else none

-- `s.contains(sub)` for a text, and for one byte.
unfoldable pub contains : Bytes → Bytes → Bool
contains [] sub = starts_with [] sub
contains (x ∷ s) sub = starts_with (x ∷ s) sub || contains s sub

unfoldable pub has_byte : ℕ → Bytes → Bool
has_byte c [] = false
has_byte c (x ∷ s) = (x == c) || has_byte c s

-- `s.trim_start_matches(p)`, `s.trim_end_matches(p)` and `s.trim_matches(p)` for a test on bytes.
unfoldable pub trim_start_by : (ℕ → Bool) → Bytes → Bytes
trim_start_by p [] = []
trim_start_by p (x ∷ s) = let rest = trim_start_by p s in if p x then rest else x ∷ s

unfoldable pub trim_end_by : (ℕ → Bool) → Bytes → Bytes
unfolding trim_start_by
trim_end_by p s = reverse (trim_start_by p (reverse s))

unfoldable pub trim_by : (ℕ → Bool) → Bytes → Bytes
unfolding trim_start_by trim_end_by
trim_by p s = trim_end_by p (trim_start_by p s)

-- `s.lines()`: the parts between line feeds, less one carriage return at the end of each and less
-- an empty part at the end.
abbrev pub drop_return : Bytes → Bytes
drop_return s = elim (reverse s) [ [] ↦ [] | x ∷ r ↦ if x == 13 then reverse r else s ]

-- A carriage return belongs to the line end only where a line feed follows.
unfoldable pub lines_of : List Bytes → List Bytes
lines_of [] = []
lines_of ([] ∷ []) = []
lines_of ((x ∷ s) ∷ []) = (x ∷ s) ∷ []
lines_of (part ∷ next ∷ parts) = drop_return part ∷ lines_of (next ∷ parts)

unfoldable pub lines : Bytes → List Bytes
unfolding lines_of split
lines s = lines_of (split 10 s)
