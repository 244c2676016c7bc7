-- ===== src/Exit/Spec.antt =====
-- The signed rule sets of crates/rf/src/exit.rs and the lines they are written in. A BTreeMap is a table in
-- key order.
use randall_flare.Prelude.{
  ℕ, ◌-◌, Option, none, some, Bool, true, false, not, ◌&&◌, ◌||◌, List, [], ◌∷◌, if◌then◌else◌, ltb,
  leb, ◌==◌, length, any, is_none, get_last?,
}
use randall_flare.Prelude.Order.{Bytes, bytes_ord, is_eq}
use randall_flare.Prelude.Int.{ℤ}
use randall_flare.Prelude.Result.{Result, ok, err, ◌>>=◌}
use randall_flare.Prelude.Table.{Table}
use randall_flare.Prelude.Text.{ascii, starts_with, trim, trim_start}
use randall_flare.Prelude.Ascii.{
  to_lower, strip_prefix, trim_by, trim_end_by, lines, is_alphabetic, is_alphanumeric,
}
use randall_flare.Exit.Errors.{ExitError}
use randall_flare.Exit.Address.{IpCidr}

pub data RuleFormat : Type 0 where
  auto surge clash : RuleFormat

pub data ExitTarget : Type 0 where
  direct reject nearest : ExitTarget
  node : Bytes → ExitTarget

pub record ExitRuleSpec : Type 0 where
  pub schema : ℕ
  pub description : Bytes
  pub enabled : Bool
  pub priority : ℤ
  pub format : RuleFormat
  pub config : Bytes
  pub providers : Table Bytes Bytes
  pub policy_exits : Table Bytes ExitTarget

pub data RuleMatcher : Type 0 where
  domain domain_suffix domain_keyword : Bytes → RuleMatcher
  ip_cidr : IpCidr → RuleMatcher
  match_all : RuleMatcher

pub record CompiledRule : Type 0 where
  pub matcher : RuleMatcher
  pub policy : Bytes

-- `//` opens a comment unless a colon stands before it; `prev` is the byte before.
abbrev is_colon : Option ℕ → Bool
is_colon none = false
is_colon (some x) = x == 58

unfoldable pub cut_slashes : Option ℕ → Bytes → Bytes
cut_slashes prev [] = []
cut_slashes prev (x ∷ []) = x ∷ []
cut_slashes prev (x ∷ y ∷ s) =
    let rest = cut_slashes (some x) (y ∷ s) in
    if (x == 47) && ((y == 47) && not (is_colon prev)) then [] else x ∷ rest

-- What stands before the first `c`.
unfoldable pub before : ℕ → Bytes → Bytes
before c [] = []
before c (x ∷ s) = let rest = before c s in if x == c then [] else x ∷ rest

unfoldable pub strip_comment : Bytes → Bytes
unfolding cut_slashes before
strip_comment value = before 35 (cut_slashes none value)

abbrev is_quote : ℕ → Bool
is_quote x = (x == 39) || (x == 34)

abbrev pub is_blank : Bytes → Bool
is_blank [] = true
is_blank (_ ∷ _) = false

abbrev non_blank : Bytes → Option Bytes
non_blank [] = none
non_blank (x ∷ s) = some (x ∷ s)

unfoldable pub normalized_line : Bytes → Bool → Option Bytes
unfolding strip_comment trim strip_prefix trim_by
normalized_line raw is_clash =
    let line = trim (strip_comment raw) in
    if is_blank line
    then none
    else if is_clash
    then elim (strip_prefix line (ascii "- ")) [
      | none ↦ none
      | some item ↦ non_blank (trim_by is_quote (trim item))
    ]
    else some line

-- The loop of `clash_rule_lines`, with the indent of the section that was found.
abbrev indent : Bytes → ℕ
indent raw = length raw - length (trim_start raw)

abbrev is_section : Bytes → Bool
is_section line = is_eq line (ascii "rules:") || is_eq line (ascii "payload:")

abbrev ends_section : ℕ → Bytes → Bytes → Bool
ends_section section raw line =
    leb (indent raw) section
    && (not (starts_with line (ascii "-"))
        && elim (get_last? line) [ none ↦ false | some x ↦ x == 58 ])

unfoldable pub clash_item : Bytes → Option Bytes
unfolding trim strip_prefix trim_by
clash_item line = elim (strip_prefix line (ascii "-")) [
  | none ↦ none
  | some item ↦ non_blank (trim (trim_by is_quote (trim item)))
]

unfoldable pub clash_from : Option ℕ → List Bytes → Result ExitError (List Bytes)
unfolding strip_comment trim trim_start clash_item
clash_from none [] = err ExitError.no_clash_section
clash_from (some section) [] = ok []
clash_from none (raw ∷ raws) =
    let line = trim (strip_comment raw) in
    let onward = clash_from none raws in
    let found = clash_from (some (indent raw)) raws in if is_section line then found else onward
clash_from (some section) (raw ∷ raws) =
    let line = trim (strip_comment raw) in
    let onward = clash_from (some section) raws in
    if is_blank line
    then onward
    else if ends_section section raw line
    then ok []
    else elim (clash_item line) [
      | none ↦ onward
      | some item ↦ onward >>= λ (items : List Bytes). ok (item ∷ items)
    ]

unfoldable pub clash_rule_lines : Bytes → Result ExitError (List Bytes)
unfolding clash_from lines
clash_rule_lines config = clash_from none (lines config)

unfoldable pub normalize_host : Bytes → Result ExitError Bytes
unfolding trim trim_end_by to_lower
normalize_host value =
    let host = to_lower (trim_end_by (λ x. x == 46) (trim value)) in
    if is_blank host
      || (ltb 253 (length host)
          || (starts_with host (ascii ".")
              || (elim (get_last? host) [ none ↦ false | some x ↦ x == 46 ]
                  || any (λ b. not (is_alphanumeric b || ((b == 46) || ((b == 45) || (b == 95)))))
                      host)))
    then err (ExitError.bad_host value)
    else ok host

unfoldable pub valid_provider_name : Bytes → Bool
unfolding strip_prefix
valid_provider_name value = elim (strip_prefix value (ascii "geoip:")) [
  | some code ↦ (length code == 2) && randall_flare.Prelude.all is_alphabetic code
  | none ↦
      starts_with value (ascii "https://")
      && (leb (length value) 2_048
          && not (any (λ b. (b == 13) || ((b == 10) || ((b == 0) || (b == 32)))) value))
]
