-- ===== src/Prelude/Text.antt =====
-- Texts as their UTF-8 bytes.
use Prim.Native.Nat.{ℕ, zero, suc, ◌+◌, ◌-◌, ◌*◌, ◌/◌, ◌%◌}
use Prim.Native.Char.{code}
use Prim.Native.String.{String}
use mathlib.Core.Bool.{Bool, true, false, ◌&&◌, ◌||◌}
use mathlib.Core.List.{List, [], ◌∷◌, reverse}
use mathlib.Core.Option.{Option, none, some}
use randall_flare.Prelude.Order.{Bytes}
use randall_flare.Prelude.Tests.{ltb, leb, ◌==◌, if◌then◌else◌, u32_mod}

-- The bytes of an ASCII literal.
abbrev pub ascii : String → Bytes
ascii String.[] = []
ascii (String.◌∷◌ c s) = code c ∷ ascii s

-- Decimal digits in front of `acc`; a number has fewer digits than its value plus one.
unfoldable pub decimal_onto : ℕ → ℕ → Bytes → Bytes
decimal_onto zero n acc = acc
decimal_onto (suc fuel) n acc =
    let rest = decimal_onto fuel (n / 10) ((48 + n % 10) ∷ acc) in
    if ltb n 10 then (48 + n) ∷ acc else rest

unfoldable pub decimal : ℕ → Bytes
unfolding decimal_onto
decimal n = decimal_onto (n + 1) n []

-- `s.starts_with(prefix)`.
unfoldable pub starts_with : Bytes → Bytes → Bool
starts_with s [] = true
starts_with [] (p ∷ ps) = false
starts_with (x ∷ s) (p ∷ ps) = (x == p) && starts_with s ps

-- `n.to_le_bytes()` for a number of `width` bytes.
unfoldable pub le_bytes : ℕ → ℕ → Bytes
le_bytes zero n = []
le_bytes (suc width) n = (n % 256) ∷ le_bytes width (n / 256)

-- `s.split(c)` for a one-byte `c`: one part more than there are `c` in it.
unfoldable pub split : ℕ → Bytes → List Bytes
split c [] = [] ∷ []
split c (x ∷ s) =
    let rest = split c s in
    if x == c
    then [] ∷ rest
    else elim rest [ [] ↦ (x ∷ []) ∷ [] | part ∷ parts ↦ (x ∷ part) ∷ parts ]

-- `s.split_once(c)`.
unfoldable pub split_once : ℕ → Bytes → Option (Bytes × Bytes)
split_once c [] = none
split_once c (x ∷ s) =
    let rest = split_once c s in
    if x == c then some ([], s) else elim rest [ none ↦ none | some (a, b) ↦ some (x ∷ a, b) ]

-- `s.split_whitespace()` for ASCII text: the parts between white space that are not empty.
abbrev pub is_space : ℕ → Bool
is_space x = (x == 32) || ((9 == x) || ((10 == x) || ((11 == x) || ((12 == x) || (13 == x)))))

-- `word` is the part that was begun, in reverse.
unfoldable pub words_from : Bytes → Bytes → List Bytes
words_from [] [] = []
words_from (y ∷ word) [] = reverse (y ∷ word) ∷ []
words_from word (x ∷ s) =
    let skip = words_from [] s in
    let go_on = words_from (x ∷ word) s in
    let cut = reverse word ∷ skip in
    if is_space x then elim word [ [] ↦ skip | _ ∷ _ ↦ cut ] else go_on

-- `s.parse::<u32>()` by the digits so far; an optional `+`, digits, and no overflow.
unfoldable pub digits_onto : ℕ → Bytes → Option ℕ
digits_onto n [] = some n
digits_onto n (x ∷ s) =
    let rest = digits_onto (10 * n + (x - 48)) s in
    if leb 48 x && leb x 57 then (if ltb (10 * n + (x - 48)) u32_mod then rest else none) else none

unfoldable pub parse_u32 : Bytes → Option ℕ
parse_u32 [] = none
parse_u32 (x ∷ s) =
    let unsigned = digits_onto 0 (x ∷ s) in
    let signed = digits_onto 0 s in
    if x == 43 then elim s [ [] ↦ none | _ ∷ _ ↦ signed ] else unsigned

-- `s.trim()` for ASCII text.
unfoldable pub trim_start : Bytes → Bytes
trim_start [] = []
trim_start (x ∷ s) = let rest = trim_start s in if is_space x then rest else x ∷ s

unfoldable pub trim : Bytes → Bytes
unfolding trim_start
trim s = reverse (trim_start (reverse (trim_start s)))
