-- ===== src/Cron.antt =====
-- crates/rf-core/src/cron.rs: cron expressions of five fields and the minutes at which they fire. Texts
-- are ASCII; an error is told apart by its kind and the text that it names, not by its message.
pub mod Rounds
mod Tests
use Prim.Native.Nat.{bit_or, bit_and}
use randall_flare.Prelude.{
  ℕ, zero, suc, ◌+◌, ◌-◌, ◌*◌, ◌/◌, ◌%◌, ◌^◌, Option, none, some, Bool, true, false, not, ◌&&◌,
  ◌||◌, List, [], ◌∷◌, map, ltb, leb, ◌==◌, if◌then◌else◌, length, any, u32_mod,
}
use randall_flare.Prelude.Order.{Bytes, bytes_ord, is_eq}
use randall_flare.Prelude.Result.{Result, ok, err, ◌>>=◌}
use randall_flare.Prelude.Text.{ascii, starts_with, split, split_once, words_from, parse_u32}

pub record CronExpr : Type 0 where
  pub minute : ℕ
  pub hour : ℕ
  pub dom : ℕ
  pub month : ℕ
  pub dow : ℕ
  pub dom_star : Bool
  pub dow_star : Bool

pub data CronParseError : Type 0 where
  bad_step zero_step bad_range bad_value out_of_range empty_field : Bytes → CronParseError
  field_count : ℕ → CronParseError

abbrev pub or_err : Option ℕ → CronParseError → Result CronParseError ℕ
or_err none e = err e
or_err (some n) e = ok n

unfoldable pub is_star : Bytes → Bool
is_star field =
    is_eq field (ascii "*") || (starts_with field (ascii "*/") && not (any (λ x. x == 44) field))

abbrev pub nonzero : ℕ → Bytes → Result CronParseError ℕ
nonzero n part = if n == 0 then err (CronParseError.zero_step part) else ok n

-- The range and the step of a part.
unfoldable pub parse_step : Bytes → Result CronParseError (Bytes × ℕ)
parse_step part = elim (split_once 47 part) [
  | none ↦ ok (part, 1)
  | some (range, s) ↦ or_err (parse_u32 s) (CronParseError.bad_step part) >>= λ n.
      nonzero n part >>= λ step. ok (range, step)
]

-- The lowest and the highest value of a range.
unfoldable pub parse_range : Bytes → Bytes → ℕ → ℕ → Result CronParseError (ℕ × ℕ)
parse_range part range min max =
    if is_eq range (ascii "*") then ok (min, max) else elim (split_once 45 range) [
      | some (a, b) ↦ or_err (parse_u32 a) (CronParseError.bad_range part) >>= λ lo.
          or_err (parse_u32 b) (CronParseError.bad_range part) >>= λ hi. ok (lo, hi)
      | none ↦ or_err (parse_u32 range) (CronParseError.bad_value range) >>= λ v. ok (v, v)
    ]

-- `while v <= hi`, whose sum wraps, by the rounds that are left.
unfoldable pub set_bits : ℕ → ℕ → ℕ → ℕ → ℕ → ℕ
set_bits zero mask v hi step = mask
set_bits (suc rounds) mask v hi step =
    let rest = set_bits rounds (bit_or mask (2 ^ v)) ((v + step) % u32_mod) hi step in
    if leb v hi then rest else mask

-- One round of the loop over the parts.
unfoldable pub parse_part : ℕ → ℕ → ℕ → Bytes → Result CronParseError ℕ
unfolding parse_step parse_range
parse_part mask min max part = parse_step part >>= λ (range, step).
    parse_range part range min max >>= λ (lo, hi).
    if ltb lo min || (ltb max hi || ltb hi lo)
    then err (CronParseError.out_of_range part)
    else ok (set_bits (hi + 1) mask lo hi step)

unfoldable pub parse_parts : ℕ → ℕ → ℕ → List Bytes → Result CronParseError ℕ
parse_parts mask min max [] = ok mask
parse_parts mask min max (part ∷ parts) =
    parse_part mask min max part >>= λ mask'. parse_parts mask' min max parts

unfoldable pub parse_field : Bytes → ℕ → ℕ → Result CronParseError (ℕ × Bool)
parse_field field min max = parse_parts 0 min max (split 44 field) >>= λ mask.
    if mask == 0 then err (CronParseError.empty_field field) else ok (mask, is_star field)

-- The month, the day and the weekday, 0 for Sunday, of a day since the epoch that is not before it:
-- `matches` asks for no other.
unfoldable pub civil : ℕ → ℕ × ℕ × ℕ × ℕ
civil days =
    let dow = (days % 7 + 4) % 7 in
    let z = days + 719468 in
    let era = z / 146097 in
    let doe = z - era * 146097 in
    let yoe = (doe - doe / 1460 + doe / 36524 - doe / 146096) / 365 in
    let y = yoe + era * 400 in
    let doy = doe - (365 * yoe + yoe / 4 - yoe / 100) in
    let mp = (5 * doy + 2) / 153 in
    let d = doy - (153 * mp + 2) / 5 + 1 in
    let m = if ltb mp 10 then mp + 3 else mp - 9 in (if leb m 2 then y + 1 else y, m, d, dow)

-- `fields[4].replace('7', "0")`.
abbrev pub sunday_alias : Bytes → Bytes
sunday_alias s = map (λ x. if x == 55 then 48 else x) s

unfoldable pub parse_fields : List Bytes → Result CronParseError CronExpr
parse_fields (f0 ∷ f1 ∷ f2 ∷ f3 ∷ f4 ∷ []) = parse_field f0 0 59 >>= λ (minute, _).
    parse_field f1 0 23 >>= λ (hour, _). parse_field f2 1 31 >>= λ (dom, dom_star).
    parse_field f3 1 12 >>= λ (month, _). parse_field (sunday_alias f4) 0 6 >>= λ (dow, dow_star).
    ok (record {
      minute = minute;
      hour = hour % u32_mod;
      dom = dom % u32_mod;
      month = month % 2 ^ 16;
      dow = dow % 2 ^ 8;
      dom_star = dom_star;
      dow_star = dow_star;
    })
parse_fields fields = err (CronParseError.field_count (length fields))

unfoldable pub parse : Bytes → Result CronParseError CronExpr
unfolding parse_fields
parse s = parse_fields (words_from [] s)

-- `mask & (1 << v) != 0`.
abbrev pub has : ℕ → ℕ → Bool
has mask v = not (bit_and mask (2 ^ v) == 0)

-- The last `match` of `matches`.
abbrev pub day_hit : Bool → Bool → Bool → Bool → Bool
day_hit true true dom_hit dow_hit = true
day_hit false true dom_hit dow_hit = dom_hit
day_hit true false dom_hit dow_hit = dow_hit
day_hit false false dom_hit dow_hit = dom_hit || dow_hit

unfoldable pub matches : CronExpr → ℕ → Bool
matches e epoch_secs =
    let minutes = epoch_secs / 60 in
    let (y, month, day, dow) = civil (minutes / 60 / 24) in
    if not (has e.minute (minutes % 60))
    then false
    else if not (has e.hour (minutes / 60 % 24))
    then false
    else if not (has e.month month)
    then false
    else day_hit e.dom_star e.dow_star (has e.dom day) (has e.dow dow)
