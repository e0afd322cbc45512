-- ===== src/Pool/Capacity.antt =====
-- The size of a pool: what `acquire` and `drop` of pool.rs do to the number of items.
use xiaozhi_esp32_server_rus.Common.{
  ℕ, ◌+◌, ◌≤◌, ◌≡◌, ◌↔◌, inl, inr, refl, true, List, [], ◌∷◌, ◌++◌, Option, none, some, arith, all,
  length, length-append, Option-cases,
}
use xiaozhi_esp32_server_rus.Common.Text.{Text}
use xiaozhi_esp32_server_rus.Common.Assoc.{Assoc, lookup, insert}
use xiaozhi_esp32_server_rus.Pool.{
  ResourcePool, PooledResource, PooledHandle, err, pool_full, entries, take_free, free_first,
  count_total, acquire, grow, drop,
}

module _ {T : Type 0} where
  length-take_free :
      (now : ℕ) (items : List (PooledResource T)) (r : T) (rest : List (PooledResource T))
      → take_free now items ≡ some (r, rest)
      → length rest ≡ length items
  unfolding take_free
  length-take_free now [] r rest e = cc
  length-take_free now (item ∷ items) r rest e = elim (Option-cases (take_free now items)) [
    | inl q ↦ ground (arith, q)
    | inr ((r', rest'), q) ↦ ground (arith, q, length-take_free now items r' rest' q)
  ]

  length-free_first :
      (now : ℕ) (items : List (PooledResource T)) → length (free_first now items) ≡ length items
  unfolding free_first
  length-free_first now [] = refl
  length-free_first now (item ∷ items) = ground (arith, length-free_first now items)

  count_total-insert :
      (key : Text) (items : List (PooledResource T)) (m : Assoc (List (PooledResource T)))
      → count_total (insert key items m) + length (entries key m) ≡ count_total m + length items
  unfolding count_total insert lookup
  count_total-insert key items [] = omega arith
  count_total-insert key items ((j, w) ∷ m) = ground (arith, count_total-insert key items m)

  length-concat :
      (items : List (PooledResource T)) (item : PooledResource T)
      → length (items ++ (item ∷ [])) ≡ length items + 1
  length-concat items item = omega (arith, length-append items (item ∷ []))

  grow_within :
      (p : ResourcePool T) (key : Text) (made : Option T) (now : ℕ)
      → count_total p.resources ≤ p.config.max_size
      → count_total (grow p key made now).0.resources ≤ p.config.max_size
  unfolding grow
  grow_within p key none now h = ground arith
  grow_within p key (some r) now h = ground (
    arith,
    count_total-insert key
        (entries key p.resources ++ (record { resource = r; last_used = now; in_use = true } ∷ []))
        p.resources,
    length-concat (entries key p.resources)
        (record { resource = r; last_used = now; in_use = true }),
  )

  -- `acquire` keeps the number of pooled items within `max_size`, whatever the factory answers, when
  -- it was within it before.
  acquire_within :
      (p : ResourcePool T) (key : Text) (made : Option T) (now : ℕ)
      → count_total p.resources ≤ p.config.max_size
      → count_total (acquire p key made now).0.resources ≤ p.config.max_size
  unfolding acquire
  acquire_within p key made now h = elim (Option-cases (take_free now (entries key p.resources))) [
    | inl e ↦ rw (e, acquire) (grow_within _ key made now h)
    | inr ((r, items), e) ↦
        rw (e, acquire)
          (omega (
            arith,
            count_total-insert key items p.resources,
            length-take_free now (entries key p.resources) r items e,
          ))
  ]

  -- Giving an item back neither adds an item nor removes one.
  count_total-drop :
      (p : ResourcePool T) (handle : PooledHandle T) (now : ℕ)
      → count_total (drop p handle now).resources ≡ count_total p.resources
  unfolding drop
  count_total-drop p handle now = elim (Option-cases (lookup handle.pool_key p.resources)) [
    | inl e ↦ rw (e, drop) refl
    | inr (items, e) ↦
        rw (e, drop)
          (ground (
            arith,
            e,
            count_total-insert handle.pool_key (free_first now items) p.resources,
            length-free_first now items,
          ))
  ]

  take_free-none :
      (now : ℕ) (items : List (PooledResource T))
      → (take_free now items ≡ none) ↔ (all (λ r. r.in_use) items ≡ true)
  unfolding take_free
  take_free-none now [] = ground arith
  take_free-none now (item ∷ items) = elim (Option-cases (take_free now items)) [
    | inl q ↦ ground (arith, q, take_free-none now items)
    | inr ((r, rest), q) ↦ ground (arith, q, take_free-none now items)
  ]

  -- `acquire` reports a full pool exactly when every item of the key is taken and the items of all
  -- keys together have reached `max_size`.
  acquire_full_iff :
      (p : ResourcePool T) (key : Text) (made : Option T) (now : ℕ)
      → ((acquire p key made now).1 ≡ err pool_full) ↔ (
          (all (λ r. r.in_use) (entries key p.resources) ≡ true)
          × (p.config.max_size ≤ count_total p.resources))
  unfolding acquire
  acquire_full_iff p key none now = elim (Option-cases (take_free now (entries key p.resources))) [
    | inl e ↦ rw (e, acquire) (ground (arith, e, take_free-none now (entries key p.resources)))
    | inr ((r, items), e) ↦
        rw (e, acquire) (ground (arith, e, take_free-none now (entries key p.resources)))
  ]
  acquire_full_iff p key (some t) now =
      elim (Option-cases (take_free now (entries key p.resources))) [
        | inl e ↦ rw (e, acquire) (ground (arith, e, take_free-none now (entries key p.resources)))
        | inr ((r, items), e) ↦
            rw (e, acquire) (ground (arith, e, take_free-none now (entries key p.resources)))
      ]
