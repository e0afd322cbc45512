-- ===== src/Pool/Counting.antt =====
-- Items in use against handles that are alive, over any sequence of acquires and drops of pool.rs.
use xiaozhi_esp32_server_rus.Common.{
  ℕ, ◌+◌, ◌-◌, ◌≡◌, inl, inr, ap, ◌∙◌, true, List, [], ◌∷◌, ◌++◌, Option, none, some, arith,
  if◌then◌else◌, Option-cases,
}
use xiaozhi_esp32_server_rus.Common.Text.{Text, text_eq, text_eq_iff}
use xiaozhi_esp32_server_rus.Common.Assoc.{Assoc, lookup, insert, lookup-insert}
use xiaozhi_esp32_server_rus.Pool.{
  ResourcePool, PooledResource, PooledHandle, Result, ok, err, entries, take_free, free_first,
  acquire, grow, drop, in_use_count,
}

module _ {T : Type 0} where
  take_free_counts :
      (now : ℕ) (items : List (PooledResource T)) (r : T) (rest : List (PooledResource T))
      → take_free now items ≡ some (r, rest)
      → in_use_count rest ≡ in_use_count items + 1
  unfolding take_free
  take_free_counts now [] r rest e = cc
  take_free_counts now (item ∷ items) r rest e = elim (Option-cases (take_free now items)) [
    | inl q ↦ ground (arith, q)
    | inr ((r', rest'), q) ↦ ground (arith, q, take_free_counts now items r' rest' q)
  ]

  free_first_counts :
      (now : ℕ) (items : List (PooledResource T))
      → in_use_count (free_first now items) ≡ in_use_count items - 1
  unfolding free_first
  free_first_counts now [] = omega arith
  free_first_counts now (item ∷ items) = ground (arith, free_first_counts now items)

  concat_counts :
      (items : List (PooledResource T)) (r : T) (now : ℕ)
      → in_use_count (items ++ (record { resource = r; last_used = now; in_use = true } ∷ []))
        ≡ in_use_count items + 1
  concat_counts [] r now = omega arith
  concat_counts (item ∷ items) r now = ground (arith, concat_counts items r now)

  entries-insert :
      (key j : Text) (items : List (PooledResource T)) (m : Assoc (List (PooledResource T)))
      → entries j (insert key items m) ≡ (if text_eq key j then items else entries j m)
  entries-insert key j items m = ground (arith, lookup-insert key j items m)

  -- How many of a list of handles are for a key.
  abbrev handles_for : Text → List (PooledHandle T) → ℕ
  handles_for key [] = 0
  handles_for key (h ∷ hs) =
      let rest = handles_for key hs in if text_eq h.pool_key key then rest + 1 else rest

  handles_for-append :
      (key : Text) (hs ks : List (PooledHandle T))
      → handles_for key (hs ++ ks) ≡ handles_for key hs + handles_for key ks
  handles_for-append key [] ks = omega arith
  handles_for-append key (h ∷ hs) ks = ground (arith, handles_for-append key hs ks)

-- A pool and the handles that its clients hold.
pub record World (T : Type 0) : Type 0 where
  pub pool : ResourcePool T
  pub alive : List (PooledHandle T)

module _ {T : Type 0} where
  abbrev pub granted : List (PooledHandle T) → Result (PooledHandle T) → List (PooledHandle T)
  granted hs (ok h) = h ∷ hs
  granted hs (err e) = hs

-- One call: an acquire of any key, or the drop of a handle that is alive.
pub data Step {T : Type 0} : World T → World T → Type 0 where
  acquires :
      (w : World T) (key : Text) (made : Option T) (now : ℕ)
      → Step w (record {
        pool = (acquire w.pool key made now).0;
        alive = granted w.alive (acquire w.pool key made now).1;
      })
  drops :
      (w : World T) (before after : List (PooledHandle T)) (h : PooledHandle T) (now : ℕ)
      → w.alive ≡ before ++ (h ∷ after)
      → Step w (record { pool = drop w.pool h now; alive = before ++ after })

pub data Reach {T : Type 0} (w : World T) : World T → Type 0 where
  here : Reach w w
  next : {u v : World T} → Reach w u → Step u v → Reach w v

module _ {T : Type 0} where
  -- For each key as many items are in use as handles are alive.
  abbrev pub IsBalanced : World T → Type 0
  IsBalanced w =
      (key : Text) → in_use_count (entries key w.pool.resources) ≡ handles_for key w.alive

  grow-IsBalanced :
      (p : ResourcePool T) (hs : List (PooledHandle T)) (key : Text) (made : Option T) (now : ℕ)
      → IsBalanced (record { pool = p; alive = hs })
      → IsBalanced
          (record { pool = (grow p key made now).0; alive = granted hs (grow p key made now).1 })
  unfolding grow
  grow-IsBalanced p hs key none now b j = ground (arith, b j)
  grow-IsBalanced p hs key (some r) now b j = ground (
    arith,
    b j,
    entries-insert key j
        (entries key p.resources ++ (record { resource = r; last_used = now; in_use = true } ∷ []))
        p.resources,
    concat_counts (entries key p.resources) r now,
    text_eq_iff key j,
  )

  acquire-IsBalanced :
      (w : World T) (key : Text) (made : Option T) (now : ℕ)
      → IsBalanced w
      → IsBalanced (record {
        pool = (acquire w.pool key made now).0;
        alive = granted w.alive (acquire w.pool key made now).1;
      })
  unfolding acquire
  acquire-IsBalanced w key made now b j =
      elim (Option-cases (take_free now (entries key w.pool.resources))) [
        | inl e ↦ rw (e, acquire) (grow-IsBalanced _ w.alive key made now b j)
        | inr ((r, items), e) ↦
            rw (e, acquire)
              (ground (
                arith,
                b j,
                entries-insert key j items w.pool.resources,
                take_free_counts now (entries key w.pool.resources) r items e,
                text_eq_iff key j,
              ))
      ]

  drop-IsBalanced :
      (w : World T) (before after : List (PooledHandle T)) (h : PooledHandle T) (now : ℕ)
      → w.alive ≡ before ++ (h ∷ after)
      → IsBalanced w
      → IsBalanced (record { pool = drop w.pool h now; alive = before ++ after })
  unfolding drop
  drop-IsBalanced w before after h now e b j =
      elim (Option-cases (lookup h.pool_key w.pool.resources)) [
        | inl q ↦
            rw (q, drop)
              (ground (
                arith,
                q,
                b j,
                split j,
                handles_for-append j before after,
                text_eq_iff h.pool_key j,
              ))
        | inr (items, q) ↦
            rw (q, drop)
              (ground (
                arith,
                q,
                b j,
                split j,
                handles_for-append j before after,
                entries-insert h.pool_key j (free_first now items) w.pool.resources,
                free_first_counts now items,
                text_eq_iff h.pool_key j,
              ))
      ]
    where
      split : (k : Text) → handles_for k w.alive ≡ handles_for k before + handles_for k (h ∷ after)
      split k = ap (handles_for k) e ∙ handles_for-append k before (h ∷ after)

  Step-IsBalanced : {w v : World T} → Step w v → IsBalanced w → IsBalanced v
  Step-IsBalanced (acquires w key made now) b = acquire-IsBalanced w key made now b
  Step-IsBalanced (drops w before after h now e) b = drop-IsBalanced w before after h now e b

  -- After any sequence of acquires of any keys and drops of live handles, as many items of each key
  -- are in use as handles of that key are alive, when it was so before.
  pub Reach-IsBalanced : {w v : World T} → Reach w v → IsBalanced w → IsBalanced v
  Reach-IsBalanced here b = b
  Reach-IsBalanced (next r s) b = Step-IsBalanced s (Reach-IsBalanced r b)
