-- ===== src/Exit/Rules/Nesting.antt =====
-- The recursion of `parse_rule_line` (crates/rf/src/exit.rs) through the snapshots that rule sets name.
use randall_flare.Prelude.{
  ℕ, zero, suc, ◌≡◌, refl, inl, inr, ◌<◌, ◌≤◌, Option, none, some, Bool, true, false, ◌&&◌, ◌+◌,
  List, [], ◌∷◌, drop, All, arith, Bool-cases,
}
use randall_flare.Prelude.Order.{Bytes, bytes_ord, is_eq}
use randall_flare.Prelude.Result.{ok, err}
use randall_flare.Prelude.Table
use randall_flare.Prelude.Text.{ascii, trim, split}
use randall_flare.Prelude.Ascii.{lines, has_byte, to_upper}
use randall_flare.Exit.Errors.{ExitError}
use randall_flare.Exit.Address.{or_err}
use randall_flare.Exit.Spec.{ExitRuleSpec, is_blank, clash_rule_lines}
use randall_flare.Exit.Rules.{
  Compiled, each_line, part, parts_of, kind_of, policy_of, provider_lines, rule_set, listed_rule,
  parse_rule_line, is_clash, config_lines, compile,
}
use randall_flare.Exit.Rules.Ending.{
  Ended-bind, Ended-if, Ended-ok, Ended-err, each_line-Ended, every_line, or_err-Ended,
  bare_rule-Ended, plain_rule-Ended, final_rule-Ended, geoip-Ended, clash_from-Ended,
  provider_lines-Ended, Ended,
}

-- Whether a line names a rule set, and which snapshot.
unfoldable pub names_rule_set : Bytes → Bool
unfolding has_byte split trim to_upper
names_rule_set line = has_byte 44 line && is_eq (kind_of line) (ascii "RULE-SET")

abbrev pub snapshot_of : Bytes → Bytes
snapshot_of line = part 1 (parts_of line)

-- A measure of the snapshots that goes down from each one to those that its lines name.
abbrev pub Descends : (spec : ExitRuleSpec) → (Bytes → ℕ) → Type 0
Descends spec rank =
    (key content : Bytes) (ls : List Bytes)
    → Table.get spec.providers key ≡ some content
    → provider_lines content ≡ ok ls
    → All (λ l. names_rule_set l ≡ true → rank (snapshot_of l) < rank key) ls

module _ (spec : ExitRuleSpec) (rank : Bytes → ℕ) (down : Descends spec rank) where
  abbrev Covers : ℕ → Bytes → Type 0
  Covers fuel line = names_rule_set line ≡ true → rank (snapshot_of line) + 1 < fuel

  rule_set-Ended :
      (nested : Bytes → Bytes → Compiled) (fuel : ℕ) (value policy : Bytes)
      → rank value < fuel
      → ((l p : Bytes) → Covers fuel l → Ended (nested p l))
      → Ended (rule_set nested spec value policy)
  unfolding rule_set
  rule_set-Ended nested fuel value policy r h =
      Ended-if (is_blank policy) (err ExitError.no_rule_set_policy) _
        (Ended-err ExitError.no_rule_set_policy refl)
        (Ended-bind {A = Bytes}
          (or_err (ExitError.no_snapshot value) (Table.get spec.providers value)) _
          (or_err-Ended (ExitError.no_snapshot value) (Table.get spec.providers value) refl)
          λ content e.
            Ended-bind {A = List Bytes} (provider_lines content) _ (provider_lines-Ended content)
              λ ls f. each_line-Ended (nested policy) ls (
                cover ls
                  (down value content ls (or_err_ok (Table.get spec.providers value) content e) f)))
    where
      or_err_ok :
          (o : Option Bytes) (b : Bytes)
          → or_err (ExitError.no_snapshot value) o ≡ ok b
          → o ≡ some b
      or_err_ok none b e = absurd (cc)
      or_err_ok (some a) b e = cc

      cover :
          (ls : List Bytes)
          → All (λ l. names_rule_set l ≡ true → rank (snapshot_of l) < rank value) ls
          → All (λ l. Ended (nested policy l)) ls
      cover [] a = tt
      cover (l ∷ ls) a = (h l policy (λ e. let d = a.0 e in omega arith), cover ls a.1)

  listed_rule-Ended :
      (nested : Bytes → Bytes → Compiled) (line kind value policy : Bytes)
      → (is_eq kind (ascii "RULE-SET") ≡ true → Ended (rule_set nested spec value policy))
      → Ended (listed_rule nested spec line kind value policy)
  unfolding listed_rule
  listed_rule-Ended nested line kind value policy h =
      elim (Bool-cases (is_eq kind (ascii "RULE-SET"))) [
        | inl e ↦ rw (e, listed_rule) (h e)
        | inr e ↦
            rw (e, listed_rule)
              (Ended-if _ _ _ (geoip-Ended spec value policy) (
                Ended-if _ _ _ (final_rule-Ended value)
                  (Ended-if _ _ _ (Ended-err _ refl) (plain_rule-Ended kind value policy))))
      ]

  names :
      (line : Bytes)
      → has_byte 44 line ≡ true
      → is_eq (kind_of line) (ascii "RULE-SET") ≡ true
      → names_rule_set line ≡ true
  unfolding names_rule_set
  names line e r = rw (e, r) refl

  -- Fuel above the measure of the snapshot that is named is enough.
  parse_rule_line-Ended :
      (fuel : ℕ) (line : Bytes) (inherited : Option Bytes)
      → 0 < fuel
      → Covers fuel line
      → Ended (parse_rule_line fuel spec line inherited)
  unfolding parse_rule_line listed_rule names_rule_set
  parse_rule_line-Ended zero line inherited z h = absurd (omega arith)
  parse_rule_line-Ended (suc fuel) line inherited z h =
      let nested = λ (p l : Bytes). parse_rule_line fuel spec l (some p) in
      let policy = policy_of (drop 2 (parts_of line)) inherited in
      elim (Bool-cases (has_byte 44 line)) [
        | inr e ↦ rw (e, parse_rule_line) (bare_rule-Ended line inherited)
        | inl e ↦
            rw (e, parse_rule_line)
              (listed_rule-Ended nested line (kind_of line) (snapshot_of line) policy (λ r.
                rule_set-Ended nested fuel (snapshot_of line) policy
                  (let d = h (names line e r) in omega arith)
                  λ l p c.
                    parse_rule_line-Ended fuel l (some p)
                      (let d = h (names line e r) in omega arith) c))
      ]

  -- Where every snapshot names only snapshots of a lower measure, and no measure exceeds `depth`, a
  -- fuel of two more is enough: `compile` ends, with rules or with an error of the code.
  pub compile-Ended :
      (depth fuel : ℕ)
      → ((key : Bytes) → rank key ≤ depth)
      → depth + 2 ≤ fuel
      → Ended (compile fuel spec)
  unfolding compile config_lines clash_rule_lines
  compile-Ended depth fuel bound enough =
      Ended-bind (config_lines spec) _
        (Ended-if (is_clash spec) _ _ (clash_from-Ended none (lines spec.config)) (Ended-ok _))
        λ ls e.
          Ended-bind (each_line (λ line. parse_rule_line fuel spec line none) ls) _
            (every_line _ ls λ l.
              parse_rule_line-Ended fuel l none (omega arith)
                λ c. let d = bound (snapshot_of l) in omega arith)
            λ rules f. Ended-if _ _ _ (Ended-err ExitError.many_rules refl) (Ended-ok rules)

-- An inherited policy that is not empty leaves none empty.
policy_of-inherits :
    (parts : List Bytes) (p : Bytes)
    → is_blank p ≡ false
    → is_blank (policy_of parts (some p)) ≡ false
unfolding policy_of
policy_of-inherits [] p h = h
policy_of-inherits (q ∷ qs) p h = ground (arith, policy_of-inherits qs p h)

-- A snapshot whose first line names the snapshot itself never ends: at any depth of the recursion
-- the line asks for one more call.
pub self_inclusion-loops :
    (spec : ExitRuleSpec) (line content : Bytes) (rest : List Bytes) (fuel : ℕ) (policy : Bytes)
    → names_rule_set line ≡ true
    → Table.get spec.providers (snapshot_of line) ≡ some content
    → provider_lines content ≡ ok (line ∷ rest)
    → is_blank policy ≡ false
    → parse_rule_line fuel spec line (some policy) ≡ err ExitError.out_of_fuel
unfolding parse_rule_line listed_rule rule_set each_line names_rule_set
self_inclusion-loops spec line content rest zero policy n g l b = refl
self_inclusion-loops spec line content rest (suc fuel) policy n g l b =
    let p = policy_of (drop 2 (parts_of line)) (some policy) in
    let q = policy_of-inherits (drop 2 (parts_of line)) policy b in
    let again = self_inclusion-loops spec line content rest fuel p n g l q in
    let comma : has_byte 44 line ≡ true = ground arith in
    let kind : is_eq (kind_of line) (ascii "RULE-SET") ≡ true = ground arith in
    rw (comma, parse_rule_line, kind, listed_rule, q, rule_set, g, l, again) refl
