-- ===== src/Cron/Tests.antt =====
-- Expressions that parse or do not, and a step that wraps.
use randall_flare.Prelude.{ℕ, ◌≤◌, ◌≡◌, refl, false, any, arith}
use randall_flare.Prelude.Order.{cmp_bytes}
use randall_flare.Prelude.Result.{ok, err}
use randall_flare.Prelude.Text.{ascii, starts_with, split, split_once, parse_u32, digits_onto}
use randall_flare.Cron.{
  CronParseError, parse_field, parse_parts, parse_part, parse_step, parse_range, set_bits, is_star,
  civil, sunday_alias,
}
use randall_flare.Cron.Rounds.{Ran, set_bits-Ran}

-- 2000-02-29 was a Tuesday.
leap_day : civil 11016 ≡ (2000, 2, 29, 2)
unfolding civil
leap_day = refl

every_third : parse_field (ascii "1-9/3") 0 59 ≡ ok (146, false)
unfolding parse_field parse_parts parse_part parse_step parse_range set_bits is_star split
    split_once parse_u32 digits_onto starts_with any cmp_bytes
every_third = refl

-- A step that wraps sets bits below the range.
wraps_down : set_bits 6 0 5 5 4294967294 ≡ 42
unfolding set_bits
wraps_down = refl

set_bits-Ran_example :
    (rounds : ℕ) × (rounds ≤ 6) × Ran 5 4294967294 0 5 rounds (set_bits 6 0 5 5 4294967294)
set_bits-Ran_example =
    set_bits-Ran 5 4294967294 0 5 (omega arith) (omega arith) (omega arith) (omega arith)

-- A range up to 7, and a step of 7, are refused: the alias of Sunday rewrites them first.
friday_to_sunday :
    parse_field (sunday_alias (ascii "5-7")) 0 6 ≡ err (CronParseError.out_of_range (ascii "5-0"))
unfolding parse_field parse_parts parse_part parse_step parse_range set_bits is_star split
    split_once parse_u32 digits_onto starts_with any cmp_bytes
friday_to_sunday = refl
