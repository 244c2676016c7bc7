-- ===== src/Exit/Address.antt =====
-- IP addresses and CIDR blocks of crates/rf/src/exit.rs: `IpCidr` and `mask_ip`. An IPv4 address is its
-- u32 and an IPv6 address its u128, most significant octet first. The parsers of `std::net` are
-- written out.
pub mod Blocks
use randall_flare.Prelude.{
  ℕ, ◌+◌, ◌-◌, ◌*◌, ◌/◌, ◌^◌, ◌<◌, Option, none, some, Bool, true, false, ◌&&◌, ◌||◌, List, [], ◌∷◌,
  ◌++◌, ltb, leb, ◌==◌, if◌then◌else◌, length,
}
use randall_flare.Prelude.Order.{Bytes}
use randall_flare.Prelude.Result.{Result, ok, err, ◌>>=◌}
use randall_flare.Prelude.Text.{split, split_once, parse_u32, digits_onto}
use randall_flare.Prelude.Ascii.{is_digit, is_upper, is_hexdigit}
use randall_flare.Exit.Errors.{ExitError}

pub data IpAddr : Type 0 where
  v4 : ℕ → IpAddr
  v6 : ℕ → IpAddr

-- A decimal octet: one to three digits, no leading zero, at most 255.
unfoldable pub octet : Bytes → Option ℕ
unfolding digits_onto
octet [] = none
octet (x ∷ s) =
    if ltb 2 (length s) || ((x == 48) && ltb 0 (length s))
    then none
    else elim (digits_onto 0 (x ∷ s)) [ none ↦ none | some n ↦ if leb n 255 then some n else none ]

unfoldable pub octets : ℕ → List Bytes → Option ℕ
octets n [] = some n
octets n (p ∷ ps) = elim (octet p) [ none ↦ none | some x ↦ octets (n * 256 + x) ps ]

-- `s.parse::<Ipv4Addr>()`.
unfoldable pub parse_v4 : Bytes → Option ℕ
unfolding octets octet split
parse_v4 s = let parts = split 46 s in if length parts == 4 then octets 0 parts else none

abbrev hex_digit : ℕ → ℕ
hex_digit x = if is_digit x then x - 48 else (if is_upper x then x - 55 else x - 87)

unfoldable pub hex_onto : ℕ → Bytes → Option ℕ
hex_onto n [] = some n
hex_onto n (x ∷ s) =
    let rest = hex_onto (n * 16 + hex_digit x) s in if is_hexdigit x then rest else none

-- A group of 16 bits: one to four hexadecimal digits.
unfoldable pub group : Bytes → Option (List ℕ)
unfolding hex_onto
group p =
    if ltb 0 (length p) && ltb (length p) 5
    then elim (hex_onto 0 p) [ none ↦ none | some n ↦ some (n ∷ []) ]
    else none

-- An IPv4 address at the end stands for two groups, where `tail` allows it.
unfoldable pub embedded : Bool → Bytes → Option (List ℕ)
embedded tail p = elim (parse_v4 p) [
  | none ↦ none
  | some n ↦ if tail then some (n / 65536 ∷ (n - n / 65536 * 65536) ∷ []) else none
]

-- The groups between colons.
unfoldable pub groups : Bool → List Bytes → Option (List ℕ)
unfolding group embedded
groups tail [] = some []
groups tail (p ∷ []) = elim (group p) [ none ↦ embedded tail p | some g ↦ some g ]
groups tail (p ∷ q ∷ ps) = elim (group p) [
  | none ↦ none
  | some g ↦ elim (groups tail (q ∷ ps)) [ none ↦ none | some gs ↦ some (g ++ gs) ]
]

abbrev parts_of : Bytes → List Bytes
parts_of [] = []
parts_of (x ∷ s) = split 58 (x ∷ s)

unfoldable pub join_groups : ℕ → List ℕ → ℕ
join_groups n [] = n
join_groups n (g ∷ gs) = join_groups (n * 65536 + g) gs

-- `s.split_once("::")`.
unfoldable pub split_gap : Bytes → Option (Bytes × Bytes)
split_gap [] = none
split_gap (x ∷ []) = none
split_gap (x ∷ y ∷ s) =
    let rest = split_gap (y ∷ s) in
    if (x == 58) && (y == 58)
    then some ([], s)
    else elim rest [ none ↦ none | some (a, b) ↦ some (x ∷ a, b) ]

-- `s.parse::<Ipv6Addr>()`: eight groups, or `::` for one or more groups of zeros.
unfoldable pub parse_v6 : Bytes → Option ℕ
unfolding groups split_gap join_groups
parse_v6 s = elim (split_gap s) [
  | none ↦ elim (groups true (parts_of s)) [
    | none ↦ none
    | some gs ↦ if length gs == 8 then some (join_groups 0 gs) else none
  ]
  | some (a, b) ↦ elim (groups false (parts_of a)) [
    | none ↦ none
    | some hs ↦ elim (groups true (parts_of b)) [
      | none ↦ none
      | some ts ↦
          if leb (length hs + length ts) 7
          then some (join_groups 0 hs * 65536 ^ (8 - length hs) + join_groups 0 ts)
          else none
    ]
  ]
]

-- `s.parse::<IpAddr>()`.
unfoldable pub parse_ip : Bytes → Option IpAddr
unfolding parse_v4 parse_v6
parse_ip s = elim (parse_v4 s) [
  | some a ↦ some (IpAddr.v4 a)
  | none ↦ elim (parse_v6 s) [ some a ↦ some (IpAddr.v6 a) | none ↦ none ]
]

-- `bits & (MAX << (width - prefix))` keeps the highest `prefix` bits of `width`, where the prefix is at most
-- the width, as `IpCidr::parse` sees to; the shift is written as a division and a product.
unfoldable pub mask_bits : ℕ → ℕ → ℕ → ℕ
mask_bits width bits prefix =
    if prefix == 0 then 0 else bits / 2 ^ (width - prefix) * 2 ^ (width - prefix)

unfoldable pub mask_ip : IpAddr → ℕ → IpAddr
unfolding mask_bits
mask_ip (IpAddr.v4 bits) prefix = IpAddr.v4 (mask_bits 32 bits prefix)
mask_ip (IpAddr.v6 bits) prefix = IpAddr.v6 (mask_bits 128 bits prefix)

pub record IpCidr : Type 0 where
  pub network : IpAddr
  pub prefix : ℕ

abbrev pub width : IpAddr → ℕ
width (IpAddr.v4 _) = 32
width (IpAddr.v6 _) = 128

-- `prefix.parse::<u8>()`.
abbrev pub parse_u8 : Bytes → Option ℕ
parse_u8 s = elim (parse_u32 s) [ none ↦ none | some n ↦ if ltb n 256 then some n else none ]

abbrev pub or_err {ℓ} : {A : Type ℓ} → ExitError → Option A → Result ExitError A
or_err e none = err e
or_err e (some a) = ok a

-- `IpCidr::parse`.
unfoldable pub parse_cidr : Bytes → Result ExitError IpCidr
unfolding mask_ip parse_ip
parse_cidr value =
    or_err ExitError.cidr_without_prefix (split_once 47 value) >>= λ (p : Bytes × Bytes).
    or_err ExitError.bad_cidr_address (parse_ip p.0) >>= λ address.
    or_err ExitError.bad_cidr_prefix (parse_u8 p.1) >>= λ prefix.
    if ltb (width address) prefix
    then err ExitError.bad_cidr_prefix
    else ok (record { network = mask_ip address prefix; prefix = prefix })

-- The derived equality of addresses.
abbrev pub same_ip : IpAddr → IpAddr → Bool
same_ip (IpAddr.v4 a) (IpAddr.v4 b) = a == b
same_ip (IpAddr.v6 a) (IpAddr.v6 b) = a == b
same_ip _ _ = false

abbrev pub same_family : IpAddr → IpAddr → Bool
same_family (IpAddr.v4 _) (IpAddr.v4 _) = true
same_family (IpAddr.v6 _) (IpAddr.v6 _) = true
same_family _ _ = false

-- `IpCidr::contains`.
unfoldable pub cidr_contains : IpCidr → IpAddr → Bool
unfolding mask_ip
cidr_contains c address =
    same_family c.network address && same_ip (mask_ip address c.prefix) c.network
