-- ===== src/Kv/Sync.antt =====
-- Anti-entropy of crates/rf-core/src/kv.rs: `dump` and `apply_dump` between two replicas, in any
-- order of arrival, and what equal ranks and equal digests leave open.
use randall_flare.Prelude.{◌≡◌, refl, ap, Option, none, some, [], ◌∷◌, ◌∙◌, arith}
use mathlib.Core.Path.{ap₂}
use mathlib.Core.Logic.{∥∥₁_elim}
use mathlib.Core.List.{Mem, Memᴰ, Perm, Permᴰ, mem-cons_of_mem}
use mathlib.Core.List.Permᴰ
use randall_flare.Prelude.Order.{Bytes, bytes_ord}
use randall_flare.Prelude.Table
use randall_flare.Prelude.Table.{Table, IsSorted}
use randall_flare.Prelude.Table.Laws.{get-Above}
use randall_flare.Identity.{Crypto}
use randall_flare.Kv.{KvEntry, Namespace, entry, merge, apply_dump, dump}
use randall_flare.Kv.Merging.{
  namespace_ext, join, merge-IsSorted, entry-merge, Unambiguous, merge_comm, beats_none, beats_asym,
  not_beats_self,
}

module _ (c : Crypto) where
  -- A register after an entry, if any, arrives for it.
  abbrev pub received : Option KvEntry → Option KvEntry → Option KvEntry
  received old none = old
  received old (some e) = some (join c old e)

  pub apply_dump-IsSorted :
      (ns : Namespace) (t : Table Bytes KvEntry)
      → IsSorted ns.entries
      → IsSorted (apply_dump c ns t).0.entries
  unfolding apply_dump
  apply_dump-IsSorted ns [] s = s
  apply_dump-IsSorted ns ((k, e) ∷ t) s =
      apply_dump-IsSorted (merge c ns k e).0 t (merge-IsSorted c ns k e s)

  -- Applying a dump joins, key by key, the register that the dump holds into the receiver's.
  pub entry-apply_dump :
      (ns : Namespace) (t : Table Bytes KvEntry) (j : Bytes)
      → IsSorted t
      → entry (apply_dump c ns t).0 j ≡ received (entry ns j) (Table.get t j)
  unfolding apply_dump Table.get
  entry-apply_dump ns [] j s = refl
  entry-apply_dump ns ((k, e) ∷ t) j s = ground (
    arith,
    entry-apply_dump (merge c ns k e).0 t j s.1,
    entry-merge c ns k j e,
    bytes_ord.cmp_eq k j,
    get-Above k t,
  )

  join_agree :
      (a b : KvEntry) → Unambiguous c a b → join c (some a) (join c (some b) a) ≡ join c (some b) a
  join_agree a b u = ground (arith, beats_none c a b u, beats_asym c a b, not_beats_self c a)

  received_agree :
      (x y : Option KvEntry)
      → ((p q : KvEntry) → x ≡ some p → y ≡ some q → Unambiguous c p q)
      → received x (received y x) ≡ received y x
  received_agree none none u = refl
  received_agree none (some q) u = refl
  received_agree (some p) none u = ground (arith, not_beats_self c p)
  received_agree (some p) (some q) u = ap some (join_agree p q (u p q refl refl))

  -- Two replicas, each in key order, agree after one applies the other's dump and sends its own back, if their entries
  -- for one key never are two of one rank.
  pub dump_apply_converges :
      (a b : Namespace)
      → IsSorted a.entries
      → IsSorted b.entries
      → ((k : Bytes) (x y : KvEntry) → entry a k ≡ some x → entry b k ≡ some y → Unambiguous c x y)
      → let b' = (apply_dump c b (dump a)).0 in (apply_dump c a (dump b')).0 ≡ b'
  dump_apply_converges a b s r u =
      let b' = (apply_dump c b (dump a)).0 in
      let r' = apply_dump-IsSorted b (dump a) r in
      namespace_ext _ _ (apply_dump-IsSorted a (dump b') s) r' λ k.
        unfold entry dump in
        ground (
          arith,
          entry-apply_dump a (dump b') k r',
          entry-apply_dump b (dump a) k s,
          received_agree (entry a k) (entry b k) (u k),
        )

  -- `apply_dump` without its count: one merge for each item.
  pub merged-apply_dump :
      (ns : Namespace) (k : Bytes) (e : KvEntry) (items : Table Bytes KvEntry)
      → (apply_dump c ns ((k, e) ∷ items)).0 ≡ (apply_dump c (merge c ns k e).0 items).0
  unfolding apply_dump
  merged-apply_dump ns k e items = refl

  -- No two of the items are different entries of one rank for one key.
  abbrev pub Consistent : Table Bytes KvEntry → Type 0
  Consistent items =
      (k : Bytes) (x y : KvEntry) → Mem (k, x) items → Mem (k, y) items → Unambiguous c x y

  apply_dump_perm :
      (ns : Namespace) {t u : Table Bytes KvEntry}
      → IsSorted ns.entries
      → Permᴰ t u
      → Consistent t
      → (apply_dump c ns t).0 ≡ (apply_dump c ns u).0
  unfolding apply_dump
  apply_dump_perm ns s Permᴰ.nil h = refl
  apply_dump_perm ns s (Permᴰ.cons {a = b'} {b = b} {l₁ = l} e d) h =
      ap (λ x. (apply_dump c ns (x ∷ l)).0) e
      ∙ apply_dump_perm (merge c ns b.0 b.1).0 (merge-IsSorted c ns b.0 b.1 s) d
          (λ k x y m n. h k x y (mem-cons_of_mem b' m) (mem-cons_of_mem b' n))
  apply_dump_perm ns s (Permᴰ.swap {a = a} {b = b} {l = l} e f) h =
      ap (λ (n : Namespace). (apply_dump c n l).0)
        (merge_comm c ns a.0 b.0 a.1 b.1 s (λ p.
          h a.0 a.1 b.1 ∣ Memᴰ.head refl ∣₁ (mem-cons_of_mem a ∣ Memᴰ.head (λ i. (p i, b.1)) ∣₁)))
      ∙ ap₂ (λ x y. (apply_dump c ns (x ∷ y ∷ l)).0) f e
  apply_dump_perm ns s (Permᴰ.trans p q) h =
      apply_dump_perm ns s p h
      ∙ apply_dump_perm ns s q
          (λ k x y m n. h k x y (Permᴰ.mem (Permᴰ.symm p) m) (Permᴰ.mem (Permᴰ.symm p) n))

  Namespace-set : IsSet Namespace
  Namespace-set = hlevel

  -- The order in which entries arrive does not matter: any two orders of the same items lead every
  -- replica from one namespace in key order to one namespace, if no two of the items are different entries of
  -- one rank for one key.
  pub apply_dump_any_order :
      (ns : Namespace) (t u : Table Bytes KvEntry)
      → IsSorted ns.entries
      → Perm t u
      → Consistent t
      → (apply_dump c ns t).0 ≡ (apply_dump c ns u).0
  apply_dump_any_order ns t u s p h = ∥∥₁_elim p (Namespace-set _ _) (λ d. apply_dump_perm ns s d h)
