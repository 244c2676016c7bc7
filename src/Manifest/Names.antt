-- ===== src/Manifest/Names.antt =====
-- The names, host names and paths that crates/rf-core/src/manifest.rs takes.
use randall_flare.Prelude.{
  ℕ, Option, none, some, Bool, true, false, not, ◌&&◌, ◌||◌, [], ◌∷◌, ltb, leb, ◌==◌, length, all,
  any, get_last?,
}
use randall_flare.Prelude.Order.{Bytes, bytes_ord, is_eq}
use randall_flare.Prelude.Text.{starts_with, split}

-- `b.is_ascii_lowercase() || b.is_ascii_digit() || b == b'-'`.
abbrev pub is_label_byte : ℕ → Bool
is_label_byte b = (leb 97 b && leb b 122) || ((leb 48 b && leb b 57) || (b == 45))

abbrev pub is_last : ℕ → Option ℕ → Bool
is_last c none = false
is_last c (some x) = x == c

-- `s.ends_with(c)`.
abbrev pub ends_with : Bytes → ℕ → Bool
ends_with s c = is_last c (get_last? s)

abbrev pub is_empty : Bytes → Bool
is_empty [] = true
is_empty (_ ∷ _) = false

unfoldable pub valid_name : Bytes → Bool
valid_name name =
    not (is_empty name)
    && (leb (length name) 63
        && (not (starts_with name (45 ∷ []))
            && (not (ends_with name 45) && all is_label_byte name)))

-- The test of a label of a host name is that of a worker name.
unfoldable pub valid_label : Bytes → Bool
valid_label label =
    not (is_empty label)
    && (leb (length label) 63
        && (not (starts_with label (45 ∷ []))
            && (not (ends_with label 45) && all is_label_byte label)))

unfoldable pub valid_hostname : Bytes → Bool
unfolding valid_label
valid_hostname h =
    not (is_empty h)
    && (leb (length h) 253
        && (not (starts_with h (46 ∷ []))
            && (not (ends_with h 46) && all valid_label (split 46 h))))

-- `part != "." && part != ".."` and not empty.
abbrev pub is_plain_part : Bytes → Bool
is_plain_part part =
    not (is_empty part) && (not (is_eq part (46 ∷ [])) && not (is_eq part (46 ∷ 46 ∷ [])))

abbrev pub is_control : ℕ → Bool
is_control b = ltb b 32 || (b == 127)

unfoldable pub valid_bundle_path : Bytes → Bool
valid_bundle_path path =
    not (is_empty path)
    && (leb (length path) 1024
        && (not (starts_with path (47 ∷ []))
            && (not (any (λ b. b == 92) path)
                && (not (any is_control path) && all is_plain_part (split 47 path)))))
