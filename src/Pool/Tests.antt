-- ===== src/Pool/Tests.antt =====
-- A pool of pool.rs with one key and room for two items.
use xiaozhi_esp32_server_rus.Common.{
  ℕ, ◌≤◌, ◌≡◌, refl, Bool, true, List, [], ◌∷◌, none, some, arith,
}
use xiaozhi_esp32_server_rus.Common.Text.{Text, codes, text_eq}
use xiaozhi_esp32_server_rus.Common.Assoc.{lookup, insert}
use xiaozhi_esp32_server_rus.Pool.Stats.{no_stats}
use xiaozhi_esp32_server_rus.Pool.{
  ResourcePool, PooledResource, PooledHandle, ok, count_total, acquire, take_free, free_first, drop,
}
use xiaozhi_esp32_server_rus.Pool.Counting.{
  World, acquires, here, next, IsBalanced, Reach-IsBalanced, granted,
}
use xiaozhi_esp32_server_rus.Pool.Lending.{acquire-drop_first}

abbrev vad : Text
vad = codes "vad"

abbrev item : ℕ → Bool → PooledResource ℕ
item r taken = record { resource = r; last_used = 0; in_use = taken }

abbrev pool_of : List (PooledResource ℕ) → ResourcePool ℕ
pool_of items = record {
  resources = (vad, items) ∷ [];
  config = record { max_size = 2; min_size = 0; max_idle = 1 };
  stats = no_stats;
}

abbrev handle : ℕ → PooledHandle ℕ
handle r = record { resource = r; pool_key = vad }

abbrev both_taken : ResourcePool ℕ
both_taken = pool_of (item 7 true ∷ item 8 true ∷ [])

-- The handle of 8 is dropped, and 7, which is still lent, is handed out again.
lent_twice : (acquire (drop both_taken (handle 8) 1) vad none 2).1 ≡ ok (handle 7)
unfolding acquire drop take_free free_first lookup insert text_eq
lent_twice = refl

full : count_total both_taken.resources ≤ 2
unfolding count_total
full = omega arith

acquire-drop_first_example : (acquire (drop both_taken (handle 8) 1) vad none 2).1 ≡ ok (handle 7)
unfolding lookup text_eq
acquire-drop_first_example =
    acquire-drop_first both_taken (handle 8) (item 7 true) (item 8 true ∷ []) none 1 2 refl refl

abbrev empty_world : World ℕ
empty_world = record {
  pool = record {
    resources = [];
    config = record { max_size = 2; min_size = 0; max_idle = 1 };
    stats = no_stats;
  };
  alive = [];
}

empty_world-IsBalanced : IsBalanced empty_world
unfolding lookup
empty_world-IsBalanced key = refl

abbrev lent_once : World ℕ
lent_once = record {
  pool = (acquire empty_world.pool vad (some 7) 1).0;
  alive = granted [] (acquire empty_world.pool vad (some 7) 1).1;
}

Reach-IsBalanced_example : IsBalanced lent_once
Reach-IsBalanced_example =
    Reach-IsBalanced (next here (acquires empty_world vad (some 7) 1)) empty_world-IsBalanced
