-- ===== src/Exit/Rules/Ending.antt =====
-- The parts of `parse_rule_line` (crates/rf/src/exit.rs) that do not call it end.
use randall_flare.Prelude.{
  ℕ, ◌≡◌, refl, Option, none, some, Bool, true, false, ◌||◌, ltb, length, List, [], ◌∷◌, ◌++◌,
  if◌then◌else◌, All, arith,
}
use randall_flare.Prelude.Order.{Bytes, bytes_ord, is_eq}
use randall_flare.Prelude.Result.{Result, ok, err, ◌>>=◌}
use randall_flare.Prelude.Table
use randall_flare.Prelude.Text.{ascii, trim}
use randall_flare.Prelude.Ascii.{lines, to_upper}
use randall_flare.Exit.Errors.{ExitError}
use randall_flare.Exit.Address.{parse_cidr, or_err, IpCidr}
use randall_flare.Exit.Spec.{
  ExitRuleSpec, RuleMatcher, is_blank, normalize_host, clash_from, clash_item, clash_rule_lines,
  strip_comment,
}
use randall_flare.Exit.Rules.{
  Compiled, push, each_line, bare_rule, suffix_of, provider_lines, uncommented, geoip, final_rule,
  plain_rule,
}

abbrev pub is_out_of_fuel : ExitError → Bool
is_out_of_fuel ExitError.out_of_fuel = true
is_out_of_fuel _ = false

-- The call ended, with rules or with an error of the code.
abbrev pub ran_out : {A : Type 0} → Result ExitError A → Bool
ran_out (ok _) = false
ran_out (err e) = is_out_of_fuel e

pub record Ended {A : Type 0} (r : Result ExitError A) : Type 0 where
  pub at : ran_out r ≡ false

pub Ended-bind :
    {A B : Type 0} (m : Result ExitError A) (f : A → Result ExitError B)
    → Ended m
    → ((a : A) → m ≡ ok a → Ended (f a))
    → Ended (m >>= f)
Ended-bind (ok a) f h k = k a refl
Ended-bind (err e) f h k = record { at = h.at }

pub Ended-if :
    {A : Type 0} (b : Bool) (x y : Result ExitError A)
    → Ended x
    → Ended y
    → Ended (if b then x else y)
Ended-if true x y h k = h
Ended-if false x y h k = k

pub Ended-ok : {A : Type 0} (a : A) → Ended {A = A} (ok a)
Ended-ok a = record { at = refl }

pub Ended-err : {A : Type 0} (e : ExitError) → is_out_of_fuel e ≡ false → Ended {A = A} (err e)
Ended-err e h = record { at = h }

pub each_line-Ended :
    (f : Bytes → Compiled) (ls : List Bytes) → All (λ l. Ended (f l)) ls → Ended (each_line f ls)
unfolding each_line
each_line-Ended f [] h = Ended-ok []
each_line-Ended f (l ∷ ls) h = Ended-bind (f l) _ h.0 λ rules e.
    Ended-bind (each_line f ls) _ (each_line-Ended f ls h.1) λ more e. Ended-ok (rules ++ more)

pub every_line :
    (f : Bytes → Compiled) (ls : List Bytes) → ((l : Bytes) → Ended (f l)) → Ended (each_line f ls)
every_line f ls h = each_line-Ended f ls (all_of ls)
  where
    all_of : (ls : List Bytes) → All (λ l. Ended (f l)) ls
    all_of [] = tt
    all_of (l ∷ ls) = (h l, all_of ls)

pub normalize_host-Ended : (s : Bytes) → Ended (normalize_host s)
unfolding normalize_host
normalize_host-Ended s = Ended-if _ _ _ (Ended-err _ refl) (Ended-ok _)

pub or_err-Ended :
    {A : Type 0} (e : ExitError) (o : Option A) → is_out_of_fuel e ≡ false → Ended (or_err e o)
or_err-Ended e none h = Ended-err e h
or_err-Ended e (some a) h = Ended-ok a

pub parse_cidr-Ended : (s : Bytes) → Ended (parse_cidr s)
unfolding parse_cidr
parse_cidr-Ended s = record { at = ground arith }

-- A host rule, whatever its matcher.
pub host_rule-Ended :
    (value policy : Bytes) (f : Bytes → RuleMatcher)
    → Ended (normalize_host value >>= λ host. push (f host) policy)
host_rule-Ended value policy f =
    Ended-bind (normalize_host value) _ (normalize_host-Ended value) λ h e. Ended-ok _

pub cidr_rule-Ended :
    (value policy : Bytes)
    → Ended (parse_cidr value >>= λ cidr. push (RuleMatcher.ip_cidr cidr) policy)
cidr_rule-Ended value policy =
    Ended-bind (parse_cidr value) _ (parse_cidr-Ended value) λ c e. Ended-ok _

pub bare_rule-Ended : (line : Bytes) (p : Option Bytes) → Ended (bare_rule line p)
unfolding bare_rule
bare_rule-Ended line none = Ended-err _ refl
bare_rule-Ended line (some p) = by_cidr (parse_cidr line)
  where
    by_suffix :
        (o : Option Bytes)
        → Ended (elim o [
          | some suffix ↦ normalize_host suffix >>= λ host. push (RuleMatcher.domain_suffix host) p
          | none ↦ normalize_host line >>= λ host. push (RuleMatcher.domain host) p
        ])
    by_suffix none = host_rule-Ended line p RuleMatcher.domain
    by_suffix (some s) = host_rule-Ended s p RuleMatcher.domain_suffix

    by_cidr :
        (r : Result ExitError IpCidr)
        → Ended (elim r [
          | ok cidr ↦ push (RuleMatcher.ip_cidr cidr) p
          | err _ ↦ elim (suffix_of line) [
            | some suffix ↦
                normalize_host suffix >>= λ host. push (RuleMatcher.domain_suffix host) p
            | none ↦ normalize_host line >>= λ host. push (RuleMatcher.domain host) p
          ]
        ])
    by_cidr (ok cidr) = Ended-ok _
    by_cidr (err _) = by_suffix (suffix_of line)

pub plain_rule-Ended : (kind value policy : Bytes) → Ended (plain_rule kind value policy)
unfolding plain_rule
plain_rule-Ended kind value policy =
    Ended-if (is_eq kind (ascii "DOMAIN")) _ _ (host_rule-Ended value policy RuleMatcher.domain) (
      Ended-if (is_eq kind (ascii "DOMAIN-SUFFIX")) _ _
        (host_rule-Ended value policy RuleMatcher.domain_suffix)
        (Ended-if (is_eq kind (ascii "DOMAIN-KEYWORD")) _ _
          (Ended-if (is_blank value || ltb 253 (length value)) (err ExitError.bad_keyword) _
            (Ended-err ExitError.bad_keyword refl) (Ended-ok _))
          (Ended-if (is_eq kind (ascii "IP-CIDR") || is_eq kind (ascii "IP-CIDR6")) _ (ok [])
            (cidr_rule-Ended value policy) (Ended-ok []))))

pub final_rule-Ended : (policy : Bytes) → Ended (final_rule policy)
unfolding final_rule
final_rule-Ended policy = Ended-if _ _ _ (Ended-err _ refl) (Ended-ok _)

pub geoip-Ended : (spec : ExitRuleSpec) (value policy : Bytes) → Ended (geoip spec value policy)
unfolding geoip
geoip-Ended spec value policy =
    let key = ascii "geoip:" ++ to_upper value in
    let missing = ExitError.no_geoip_snapshot key in
    Ended-if (is_blank policy) (err ExitError.no_geoip_policy) _
      (Ended-err ExitError.no_geoip_policy refl)
      (Ended-bind (or_err missing (Table.get spec.providers key)) _
        (or_err-Ended missing (Table.get spec.providers key) refl)
        λ content e. every_line _ (uncommented (lines content)) λ l. cidr_rule-Ended l policy)

pub clash_from-Ended : (o : Option ℕ) (ls : List Bytes) → Ended (clash_from o ls)
unfolding clash_from
clash_from-Ended none [] = Ended-err _ refl
clash_from-Ended (some n) [] = Ended-ok []
clash_from-Ended none (l ∷ ls) =
    Ended-if _ _ _ (clash_from-Ended (some _) ls) (clash_from-Ended none ls)
clash_from-Ended (some n) (l ∷ ls) = Ended-if _ _ _ (clash_from-Ended (some n) ls) (
    Ended-if _ _ _ (Ended-ok [])
      (with_item (clash_from-Ended (some n) ls) (clash_item (trim (strip_comment l)))))
  where
    with_item :
        Ended (clash_from (some n) ls)
        → (o : Option Bytes)
        → Ended (elim o [
          | none ↦ clash_from (some n) ls
          | some item ↦ clash_from (some n) ls >>= λ (items : List Bytes). ok (item ∷ items)
        ])
    with_item h none = h
    with_item h (some item) = Ended-bind (clash_from (some n) ls) _ h λ items e. Ended-ok _

pub provider_lines-Ended : (content : Bytes) → Ended (provider_lines content)
unfolding provider_lines clash_rule_lines
provider_lines-Ended content = Ended-if _ _ _ (clash_from-Ended none _) (Ended-ok _)
