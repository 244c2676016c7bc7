-- ===== src/Resource/Chain.antt =====
-- Which candidates the chain test of `records` (crates/rf/src/resource.rs) lets in.
use randall_flare.Prelude.{
  ℕ, ◌≡◌, refl, sym, ap, subst, inl, inr, ◌⊎◌, ◌≤◌, ◌+◌, ◌-◌, ◌==◌, Option, none, some, Bool, true,
  false, List, [], ◌∷◌, is_none, arith, Bool-cases, Option-cases, All,
}
use randall_flare.Prelude.Order.{Bytes, bytes_ord, nat_ord, pair_ord, is_gt, is_eq}
use randall_flare.Prelude.Members.{In, All-In}
use randall_flare.Prelude.SortBy.{
  sort_by, Ascends, AtLeast, sort_by-Ascends, In-sort_by, sort_by-In,
}
use randall_flare.Prelude.Table
use randall_flare.Prelude.Table.{Table}
use randall_flare.Prelude.Table.Laws.{get-insert}
use randall_flare.Identity.{Crypto}
use randall_flare.Resource.{ResourceView, rank, chain_ok, connect, connect_group}

module _ (c : Crypto) (group : List ResourceView) where
  -- A candidate reaches a first version without a predecessor, each link being the digest of a
  -- candidate that is one version older.
  pub data IsConnected : ResourceView → Type 0 where
    genesis :
        (v : ResourceView)
        → In v group
        → v.resource.version ≡ 1
        → v.resource.prev ≡ none
        → IsConnected v
    next :
        (v u : ResourceView) (link : Bytes)
        → In v group
        → IsConnected u
        → v.resource.prev ≡ some link
        → c.hex link ≡ u.digest
        → v.resource.version ≡ u.resource.version + 1
        → IsConnected v

  one_le : (v : ResourceView) → IsConnected v → 1 ≤ v.resource.version
  one_le v (genesis _ i e p) = omega (arith, e)
  one_le v (next _ u link i d p h e) = omega (arith, e)

  -- Every digest that was let in is that of a connected candidate of the version noted.
  abbrev Noted : Table Bytes ℕ → Type 0
  Noted accepted =
      (digest : Bytes) (version : ℕ)
      → Table.get accepted digest ≡ some version
      → (u : ResourceView) × IsConnected u × (u.digest ≡ digest) × (u.resource.version ≡ version)

  chain_ok-IsConnected :
      (accepted : Table Bytes ℕ) (v : ResourceView)
      → Noted accepted
      → In v group
      → chain_ok c accepted v.resource ≡ true
      → IsConnected v
  unfolding chain_ok
  chain_ok-IsConnected accepted v noted i h = elim (Bool-cases (v.resource.version == 1)) [
    | inl e ↦ genesis v i (ground (arith, e)) (no_prev v.resource.prev (rw (e, chain_ok) at h))
    | inr e ↦ by_prev v.resource.prev refl (rw (e, chain_ok) at h)
  ]
    where
      no_prev : (o : Option Bytes) → is_none o ≡ true → o ≡ none
      no_prev none h = refl
      no_prev (some p) h = absurd (cc)

      by_prev :
          (o : Option Bytes)
          → v.resource.prev ≡ o
          → Path Bool
              (elim o [
                | none ↦ false
                | some previous ↦ elim (Table.get accepted (c.hex previous)) [
                  | none ↦ false
                  | some w ↦ w == v.resource.version - 1
                ]
              ])
              true
          → IsConnected v
      by_prev none p q = absurd (cc)
      by_prev (some link) p q = elim (Option-cases (Table.get accepted (c.hex link))) [
        | inl n ↦ absurd (let z = rw n at q in cc)
        | inr (w, g) ↦
            let (u, d, e, f) = noted (c.hex link) w g in
            let z = rw g at q in
            let one = one_le u d in next v u link i d p (sym e) (ground (arith, z, f, one))
      ]

  Noted-insert :
      (accepted : Table Bytes ℕ) (v : ResourceView)
      → Noted accepted
      → IsConnected v
      → Noted (Table.insert v.digest v.resource.version accepted)
  Noted-insert accepted v noted d digest version g = elim (Bool-cases (is_eq v.digest digest)) [
    | inl e ↦ (
      v,
      d,
      bytes_ord.cmp_eq v.digest digest (ground (arith, e)),
      ground (arith, g, e, get-insert v.digest digest v.resource.version accepted),
    )
    | inr e ↦
        noted digest version
          (ground (arith, g, e, get-insert v.digest digest v.resource.version accepted))
  ]

  All-connect :
      (accepted : Table Bytes ℕ) (vs : List ResourceView)
      → Noted accepted
      → ((v : ResourceView) → In v vs → In v group)
      → All IsConnected (connect c accepted vs)
  unfolding connect
  All-connect accepted [] noted sub = tt
  All-connect accepted (v ∷ vs) noted sub = elim (Bool-cases (chain_ok c accepted v.resource)) [
    | inr e ↦ rw (e, connect) (All-connect accepted vs noted (λ u i. sub u (inr i)))
    | inl e ↦
        let d = chain_ok-IsConnected accepted v noted (sub v (inl refl)) e in
        rw (e, connect)
          (
            d,
            All-connect (Table.insert v.digest v.resource.version accepted) vs
                (Noted-insert accepted v noted d) (λ u i. sub u (inr i)),
          )
  ]

  -- No digest belongs to candidates of two versions.
  abbrev pub SameVersions : Type 0
  SameVersions =
      (u v : ResourceView)
      → In u group
      → In v group
      → u.digest ≡ v.digest
      → u.resource.version ≡ v.resource.version

  -- Every connected candidate is still to come or noted.
  abbrev Settled : Table Bytes ℕ → List ResourceView → Type 0
  Settled accepted vs =
      (u : ResourceView)
      → IsConnected u
      → In u vs ⊎ (Table.get accepted u.digest ≡ some u.resource.version)

  In-group : (v : ResourceView) → IsConnected v → In v group
  In-group v (genesis _ i e p) = i
  In-group v (next _ u link i d p h e) = i

  -- What is older than the first of the rest has been noted.
  older_noted :
      (accepted : Table Bytes ℕ) (v u : ResourceView) (vs : List ResourceView)
      → AtLeast rank v vs
      → Settled accepted (v ∷ vs)
      → IsConnected u
      → v.resource.version ≡ u.resource.version + 1
      → Table.get accepted u.digest ≡ some u.resource.version
  older_noted accepted v u vs a settled d e = elim (settled u d) [
    | inr g ↦ g
    | inl (inl same) ↦
        absurd (let w = ap (λ (x : ResourceView). x.resource.version) same in omega (arith, w, e))
    | inl (inr i) ↦
        absurd
          (let le = All-In (λ q. is_gt (rank v) (rank q) ≡ false) u vs a i in ground (arith, le, e))
  ]

  connected_ok :
      (accepted : Table Bytes ℕ) (v : ResourceView) (vs : List ResourceView)
      → AtLeast rank v vs
      → Settled accepted (v ∷ vs)
      → IsConnected v
      → chain_ok c accepted v.resource ≡ true
  unfolding chain_ok
  connected_ok accepted v vs a settled (genesis _ i e p) = rw (e, p) refl
  connected_ok accepted v vs a settled (next _ u link i d p h e) =
      let g = older_noted accepted v u vs a settled d e in
      let one = one_le u d in
      let later : (v.resource.version == 1) ≡ false = ground (arith, one, e) in
      let older : (u.resource.version == v.resource.version - 1) ≡ true = ground (arith, e) in
      rw (later, p, h, g, older) refl

  Settled-insert :
      (accepted : Table Bytes ℕ) (v : ResourceView) (vs : List ResourceView)
      → SameVersions
      → In v group
      → Settled accepted (v ∷ vs)
      → Settled (Table.insert v.digest v.resource.version accepted) vs
  Settled-insert accepted v vs same i settled u d = elim (settled u d) [
    | inl (inl e) ↦ inr (
        rw e (
          ground (
            arith,
            get-insert v.digest v.digest v.resource.version accepted,
            bytes_ord.cmp_self v.digest,
          )))
    | inl (inr j) ↦ inl j
    | inr g ↦ inr (
        ground (
          arith,
          g,
          get-insert v.digest u.digest v.resource.version accepted,
          bytes_ord.cmp_eq v.digest u.digest,
          same v u i (In-group u d),
        ))
  ]

  Settled-skip :
      (accepted : Table Bytes ℕ) (v : ResourceView) (vs : List ResourceView)
      → (IsConnected v → ⊥)
      → Settled accepted (v ∷ vs)
      → Settled accepted vs
  Settled-skip accepted v vs apart settled u d = elim (settled u d) [
    | inl (inl e) ↦ absurd (apart (subst IsConnected e d))
    | inl (inr j) ↦ inl j
    | inr g ↦ inr g
  ]

  connect-complete :
      (accepted : Table Bytes ℕ) (vs : List ResourceView)
      → SameVersions
      → Ascends rank vs
      → ((v : ResourceView) → In v vs → In v group)
      → Settled accepted vs
      → (v : ResourceView) → In v vs
      → IsConnected v
      → In v (connect c accepted vs)
  unfolding connect
  connect-complete accepted [] same a sub settled v i d = i
  connect-complete accepted (w ∷ vs) same a sub settled v i d =
      elim (Bool-cases (chain_ok c accepted w.resource)) [
        | inl e ↦
            rw (e, connect)
              (elim i
                as (λ _.
                  In v (w ∷ connect c (Table.insert w.digest w.resource.version accepted) vs)) [
                    | inl p ↦ inl p
                    | inr j ↦ inr (
                        connect-complete (Table.insert w.digest w.resource.version accepted) vs same
                          a.1 (λ u k. sub u (inr k))
                          (Settled-insert accepted w vs same (sub w (inl refl)) settled) v j d)
                  ])
        | inr e ↦
            let apart : IsConnected w → ⊥ =
              λ k. let z = rw (connected_ok accepted w vs a.0 settled k) at e in cc in
            rw (e, connect)
              (connect-complete accepted vs same a.1 (λ u j. sub u (inr j))
                (Settled-skip accepted w vs apart settled) v (past apart i) d)
      ]
    where
      past : (IsConnected w → ⊥) → In v (w ∷ vs) → In v vs
      past apart (inl e) = absurd (apart (subst IsConnected e d))
      past apart (inr j) = j

  -- In any order of arrival, what the chain test lets in of a group of candidates is connected to a
  -- first version by candidates; and where no digest belongs to two versions, every connected candidate
  -- is let in.
  pub connect_group-IsConnected :
      ((v : ResourceView) → In v (connect_group c group) → IsConnected v)
      × (SameVersions → (v : ResourceView) → IsConnected v → In v (connect_group c group))
  unfolding connect_group Table.get
  connect_group-IsConnected = (
    λ v i.
        All-In IsConnected v (connect c [] (sort_by rank group))
          (All-connect [] (sort_by rank group) none_noted (λ u j. In-sort_by rank u group j)) i,
    λ same v d.
        connect-complete [] (sort_by rank group) same (sort_by-Ascends rank group)
          (λ u j. In-sort_by rank u group j) (λ u k. inl (sort_by-In rank u group (In-group u k))) v
          (sort_by-In rank v group (In-group v d)) d,
  )
    where
      none_noted : Noted []
      none_noted digest version g = absurd (cc)
