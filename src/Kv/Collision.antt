-- ===== src/Kv/Collision.antt =====
-- Two different entries of one rank in crates/rf-core/src/kv.rs: the hashed bytes of a value and of
-- its expiry stand side by side with nothing between them.
use randall_flare.Prelude.{◌≡◌, ◌≢◌, refl, ap, sym, none, some, [], ◌∷◌, ◌++◌, ℕ, false, arith}
use randall_flare.Prelude.Order.{Bytes, bytes_ord, not_gt_self, pair_ord}
use randall_flare.Prelude.Table
use randall_flare.Prelude.Table.{Table}
use randall_flare.Prelude.Table.Laws.{get-insert}
use randall_flare.Prelude.Text.{le_bytes}
use randall_flare.Hlc.{Hlc, hlc_ord}
use randall_flare.Identity.{Crypto, PublicId}
use randall_flare.Kv.{
  KvEntry, Namespace, entry, rank, beats, merge, digest, digest_input, value_hash,
}

-- A value with an expiry.
abbrev pub expiring : Hlc → PublicId → Bytes → ℕ → KvEntry
expiring hlc writer v exp = record {
  hlc = hlc;
  writer = writer;
  value = some v;
  expires_at_ms = some exp;
}

-- A value that ends in the bytes of that expiry, and never expires.
abbrev pub lasting : Hlc → PublicId → Bytes → ℕ → KvEntry
lasting hlc writer v exp = record {
  hlc = hlc;
  writer = writer;
  value = some (v ++ le_bytes 8 exp);
  expires_at_ms = none;
}

append_nil : (xs : Bytes) → xs ++ [] ≡ xs
append_nil [] = refl
append_nil (x ∷ xs) = ap (λ l. x ∷ l) (append_nil xs)

module _ (c : Crypto) where
  value_hash_collides :
      (hlc : Hlc) (writer : PublicId) (v : Bytes) (exp : ℕ)
      → value_hash c (lasting hlc writer v exp) ≡ value_hash c (expiring hlc writer v exp)
  unfolding value_hash
  value_hash_collides hlc writer v exp = ap (λ l. c.sha256 (1 ∷ l)) (append_nil _)

  rank_collides :
      (hlc : Hlc) (writer : PublicId) (v : Bytes) (exp : ℕ)
      → rank c (lasting hlc writer v exp) ≡ rank c (expiring hlc writer v exp)
  unfolding rank
  rank_collides hlc writer v exp =
      ap (λ h. (hlc, (writer.bytes, h))) (value_hash_collides hlc writer v exp)

  -- An entry does not beat one of its own rank.
  tie : (a b : KvEntry) → rank c a ≡ rank c b → beats c a b ≡ false
  unfolding beats
  tie a b e = rw e (not_gt_self (rank c b))

  digest_input-insert :
      (k : Bytes) (a b : KvEntry) (t : Table Bytes KvEntry)
      → rank c a ≡ rank c b
      → digest_input c (Table.insert k a t) ≡ digest_input c (Table.insert k b t)
  unfolding digest_input Table.insert rank
  digest_input-insert k a b [] e = ground arith
  digest_input-insert k a b ((j, w) ∷ t) e = ground (arith, digest_input-insert k a b t e)

  -- At a key that the namespace does not hold, a value with an expiry and the value that ends in the
  -- bytes of that expiry, written by one writer at one timestamp, keep whichever came first: two
  -- replicas that receive both in opposite orders hold different entries, and their digests are
  -- equal.
  pub expiry_diverges :
      (ns : Namespace) (k : Bytes) (hlc : Hlc) (writer : PublicId) (v : Bytes) (exp : ℕ)
      → entry ns k ≡ none
      → let x = expiring hlc writer v exp in
        let y = lasting hlc writer v exp in
        let first = (merge c (merge c ns k x).0 k y).0 in
        let second = (merge c (merge c ns k y).0 k x).0 in
        (entry first k ≡ some x)
        × (entry second k ≡ some y)
        × (x ≢ y)
        × (digest c first ≡ digest c second)
  unfolding entry merge digest
  expiry_diverges ns k hlc writer v exp h =
      let x = expiring hlc writer v exp in
      let y = lasting hlc writer v exp in
      let r = rank_collides hlc writer v exp in
      let keeps_x = tie y x r in
      let keeps_y = tie x y (sym r) in
      let at_x = get-insert k k x ns.entries in
      let at_y = get-insert k k y ns.entries in
      let self = bytes_ord.cmp_self k in
      let same = digest_input-insert k y x ns.entries r in
      (
        ground (arith, at_x, self, keeps_x),
        ground (arith, at_y, self, keeps_y),
        λ p. cc,
        ground (arith, at_x, at_y, self, keeps_x, keeps_y, same),
      )
