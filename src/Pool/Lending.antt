-- ===== src/Pool/Lending.antt =====
-- Whom an item of pool.rs is lent to: `Drop` frees the first taken item of the key, which need not
-- be the item that the dropped handle holds.
use xiaozhi_esp32_server_rus.Common.{ℕ, ◌≡◌, refl, true, List, ◌∷◌, Option, some, arith}
use xiaozhi_esp32_server_rus.Common.Text.{Text, text_eq_refl}
use xiaozhi_esp32_server_rus.Common.Assoc.{lookup, lookup-insert}
use xiaozhi_esp32_server_rus.Pool.{
  ResourcePool, PooledResource, PooledHandle, ok, entries, take_free, free_first, acquire, drop,
}

module _ {T : Type 0} where
  acquire_found :
      (p : ResourcePool T) (key : Text) (made : Option T) (now : ℕ) (r : T)
      (rest : List (PooledResource T))
      → take_free now (entries key p.resources) ≡ some (r, rest)
      → (acquire p key made now).1 ≡ ok (record { resource = r; pool_key = key })
  unfolding acquire
  acquire_found p key made now r rest e = rw (e, acquire) refl

  -- When the first item of a key is taken, dropping any handle of that key frees this item, and the
  -- next acquire of the key hands its resource out again, also while the handle to which it was lent
  -- is still alive.
  pub acquire-drop_first :
      (p : ResourcePool T) (handle : PooledHandle T) (item : PooledResource T)
      (items : List (PooledResource T)) (made : Option T) (now later : ℕ)
      → lookup handle.pool_key p.resources ≡ some (item ∷ items)
      → item.in_use ≡ true
      → (acquire (drop p handle now) handle.pool_key made later).1
        ≡ ok (record { resource = item.resource; pool_key = handle.pool_key })
  unfolding acquire drop take_free free_first
  acquire-drop_first p handle item items made now later e taken =
      rw (e, drop)
        (acquire_found _ handle.pool_key made later item.resource
          (record item { in_use = true; last_used = later } ∷ items)
          (ground (
            arith,
            taken,
            text_eq_refl handle.pool_key,
            lookup-insert handle.pool_key handle.pool_key (free_first now (item ∷ items))
                p.resources,
          )))
