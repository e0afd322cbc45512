-- ===== src/Pool.antt =====
-- crates/xiaozhi-pool: pooled engine instances (pool.rs) and their counters (stats.rs, registry.rs).
pub mod Stats
pub mod Capacity
pub mod Counting
pub mod Lending
mod Tests
use xiaozhi_esp32_server_rus.Common.{
  ℕ, ◌+◌, ◌-◌, ◌≡◌, Bool, true, false, not, List, [], ◌∷◌, ◌++◌, map, Option, none, some, leb,
  if◌then◌else◌, length, keep,
}
use xiaozhi_esp32_server_rus.Common.Text.{Text, text_eq}
use xiaozhi_esp32_server_rus.Common.Assoc.{Assoc, lookup, insert}
use Stats.{PoolStats, record_acquire, record_release}

pub record ResourcePoolConfig : Type 0 where
  pub max_size : ℕ
  pub min_size : ℕ
  pub max_idle : ℕ

pub record PooledResource (T : Type 0) : Type 0 where
  pub resource : T
  pub last_used : ℕ
  pub in_use : Bool

pub record ResourcePool (T : Type 0) : Type 0 where
  pub resources : Assoc (List (PooledResource T))
  pub config : ResourcePoolConfig
  pub stats : PoolStats

pub record PooledHandle (T : Type 0) : Type 0 where
  pub resource : T
  pub pool_key : Text

pub data Error : Type 0 where
  pool_full factory_failed : Error

pub data Result {ℓ} (A : Type ℓ) : Type ℓ where
  ok : A → Result A
  err : Error → Result A

pub record PoolSnapshot : Type 0 where
  pub total_resources : ℕ
  pub available_resources : ℕ
  pub in_use_resources : ℕ
  pub max_size : ℕ
  pub min_size : ℕ
  pub max_idle : ℕ
  pub is_closed : Bool

module _ {T : Type 0} where
  -- `entry(key).or_default()`
  abbrev pub entries : Text → Assoc (List (PooledResource T)) → List (PooledResource T)
  entries key m = elim (lookup key m) [ none ↦ [] | some items ↦ items ]

  abbrev behind :
      PooledResource T → Option (T × List (PooledResource T)) → Option (T × List (PooledResource T))
  behind item none = none
  behind item (some (r, rest)) = some (r, item ∷ rest)

  -- The first item that is free, marked as taken, with the list that it stands in.
  pub take_free : ℕ → List (PooledResource T) → Option (T × List (PooledResource T))
  take_free now [] = none
  take_free now (item ∷ items) =
      let here = some (item.resource, record item { in_use = true; last_used = now } ∷ items) in
      let later = behind item (take_free now items) in if not item.in_use then here else later

  -- The first item that is taken, marked as free.
  pub free_first : ℕ → List (PooledResource T) → List (PooledResource T)
  free_first now [] = []
  free_first now (item ∷ items) =
      let rest = free_first now items in
      if item.in_use then record item { in_use = false; last_used = now } ∷ items else item ∷ rest

  pub count_total : Assoc (List (PooledResource T)) → ℕ
  count_total [] = 0
  count_total ((key, items) ∷ m) = length items + count_total m

  abbrev counted : ResourcePool T → Text → ResourcePool T
  counted p key = record p { stats = record_acquire p.stats key }

  -- Behind the search for a free item: the factory's answer is `none` where it failed.
  grow : ResourcePool T → Text → Option T → ℕ → ResourcePool T × Result (PooledHandle T)
  grow p key made now =
      if leb p.config.max_size (count_total p.resources) then (p, err pool_full) else elim made [
        | none ↦ (p, err factory_failed)
        | some r ↦ (
          record p {
            resources =
                insert key
                  (entries key p.resources
                    ++ (record { resource = r; last_used = now; in_use = true } ∷ []))
                  p.resources;
          },
          ok (record { resource = r; pool_key = key }),
        )
      ]

  -- One call of `acquire`, run without another call between its steps. `made` is what the factory
  -- answers, if it is asked.
  pub acquire : ResourcePool T → Text → Option T → ℕ → ResourcePool T × Result (PooledHandle T)
  unfolding grow
  acquire p key made now = elim (take_free now (entries key p.resources)) [
    | none ↦ grow (counted p key) key made now
    | some (r, items) ↦ (
      record p { stats = record_acquire p.stats key; resources = insert key items p.resources },
      ok (record { resource = r; pool_key = key }),
    )
  ]

  -- `Drop for PooledHandle`
  pub drop : ResourcePool T → PooledHandle T → ℕ → ResourcePool T
  drop p handle now = elim (lookup handle.pool_key p.resources) [
    | none ↦ record p { stats = record_release p.stats handle.pool_key }
    | some items ↦ record p {
      stats = record_release p.stats handle.pool_key;
      resources = insert handle.pool_key (free_first now items) p.resources;
    }
  ]

  abbrev pub in_use_count : List (PooledResource T) → ℕ
  in_use_count items = length (keep (λ r. r.in_use) items)

  snapshot_entries : ResourcePoolConfig → Assoc (List (PooledResource T)) → Assoc PoolSnapshot
  snapshot_entries c [] = []
  snapshot_entries c ((key, items) ∷ m) =
      (
        key,
        record {
          total_resources = length items;
          available_resources = length items - in_use_count items;
          in_use_resources = in_use_count items;
          max_size = c.max_size;
          min_size = c.min_size;
          max_idle = c.max_idle;
          is_closed = false;
        },
      )
      ∷ snapshot_entries c m

  runtime_snapshot : ResourcePool T → Assoc PoolSnapshot
  runtime_snapshot p = snapshot_entries p.config p.resources
