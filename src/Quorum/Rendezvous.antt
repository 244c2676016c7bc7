-- ===== src/Quorum/Rendezvous.antt =====
-- `rendezvous_group` of crates/rf-core/src/quorum.rs: the nodes that replicate an object, by a hash of
-- both.
use mathlib.Core.Logic.{∥∥₁_elim}
use mathlib.Core.List.{Perm, Permᴰ, reverse}
use randall_flare.Prelude.{ℕ, ◌≡◌, ap, List, ◌∷◌, ◌++◌, map, take}
use randall_flare.Prelude.Order.{Bytes, bytes_ord, pair_ord}
use randall_flare.Prelude.Sorting.{sort, sort-Perm, map-Perm}
use randall_flare.Identity.{Crypto, PublicId}

abbrev Scored : Type 0
Scored = Bytes × Bytes

module _ (c : Crypto) where
  unfoldable pub score : Bytes → PublicId → Scored
  score object node = (c.sha256 (object ++ (0 ∷ node.bytes)), node.bytes)

  unfoldable pub rendezvous_group : Bytes → List PublicId → ℕ → List PublicId
  rendezvous_group object universe size =
      map (λ (p : Scored). record { bytes = p.1 })
        (take size (reverse (sort (map (score object) universe))))

  group_perm :
      (object : Bytes) (size : ℕ) {t u : List PublicId}
      → Permᴰ t u
      → rendezvous_group object t size ≡ rendezvous_group object u size
  unfolding rendezvous_group
  group_perm object size d =
      ap (λ l. map (λ (p : Scored). record { bytes = p.1 }) (take size (reverse l)))
        (sort-Perm (map-Perm (score object) d))

  group-set : IsSet (List PublicId)
  group-set = hlevel

  -- Nodes that know the same universe, in whatever order, pick the same group of an object.
  pub rendezvous_any_order :
      (object : Bytes) (size : ℕ) (t u : List PublicId)
      → Perm t u
      → rendezvous_group object t size ≡ rendezvous_group object u size
  rendezvous_any_order object size t u p =
      ∥∥₁_elim p (group-set _ _) (λ d. group_perm object size d)
