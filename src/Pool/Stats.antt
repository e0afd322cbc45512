-- ===== src/Pool/Stats.antt =====
-- crates/xiaozhi-pool/src/stats.rs and registry.rs: the counters of a pool.
use xiaozhi_esp32_server_rus.Common.{
  ℕ, ◌+◌, ◌-◌, ◌%◌, ◌≡◌, Bool, false, [], none, some, arith, if◌then◌else◌,
}
use xiaozhi_esp32_server_rus.Common.Text.{Text, text_eq}
use xiaozhi_esp32_server_rus.Common.Assoc.{Assoc, lookup, insert, lookup-insert}

pub record PoolEntryStats : Type 0 where
  pub acquires : ℕ
  releases : ℕ

pub record PoolStats : Type 0 where
  pub acquires : ℕ
  releases : ℕ
  pub per_pool : Assoc PoolEntryStats

abbrev pub fresh_entry : PoolEntryStats
fresh_entry = record { acquires = 0; releases = 0 }

abbrev pub no_stats : PoolStats
no_stats = record { acquires = 0; releases = 0; per_pool = [] }

-- `fetch_add(1)` and `+= 1` on `u64`.
abbrev bump : ℕ → ℕ
bump n = (n + 1) % 18446744073709551616

-- `entry(key).or_default()`
abbrev entry_of : Text → PoolStats → PoolEntryStats
entry_of key s = elim (lookup key s.per_pool) [ none ↦ fresh_entry | some e ↦ e ]

pub record_acquire : PoolStats → Text → PoolStats
record_acquire s key = record s {
  acquires = bump s.acquires;
  per_pool =
      insert key
        (record { acquires = bump (entry_of key s).acquires; releases = (entry_of key s).releases })
        s.per_pool;
}

pub record_release : PoolStats → Text → PoolStats
record_release s key = record s {
  releases = bump s.releases;
  per_pool =
      insert key
        (record { acquires = (entry_of key s).acquires; releases = bump (entry_of key s).releases })
        s.per_pool;
}

pub record CounterSnapshot : Type 0 where
  pub total_resources : ℕ
  pub available_resources : ℕ
  pub in_use_resources : ℕ
  pub max_size : ℕ
  pub min_size : ℕ
  pub max_idle : ℕ
  pub is_closed : Bool
  pub acquires : ℕ
  releases : ℕ
  pub pool_key : Text

-- registry.rs; `saturating_sub` is the subtraction of ℕ.
snapshot_from_counters : Text → ℕ → ℕ → ℕ → ℕ → ℕ → CounterSnapshot
snapshot_from_counters pool_key acquires releases max_size min_size max_idle = record {
  total_resources = acquires - releases;
  available_resources = 0;
  in_use_resources = acquires - releases;
  max_size = max_size;
  min_size = min_size;
  max_idle = max_idle;
  is_closed = false;
  acquires = acquires;
  releases = releases;
  pool_key = pool_key;
}

-- A recorded acquire counts one more for its own pool, and changes no other pool's counts.
entry-record_acquire :
    (s : PoolStats) (key j : Text)
    → entry_of j (record_acquire s key) ≡ (
        if text_eq key j
        then record {
          acquires = bump (entry_of key s).acquires;
          releases = (entry_of key s).releases;
        }
        else entry_of j s)
unfolding record_acquire
entry-record_acquire s key j = ground (
  arith,
  lookup-insert key j
      (record { acquires = bump (entry_of key s).acquires; releases = (entry_of key s).releases })
      s.per_pool,
)
