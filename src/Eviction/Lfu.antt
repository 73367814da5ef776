-- ===== src/Eviction/Lfu.antt =====
-- internal/eviction/lfu.go: the policy that lets the entry go that is used least.
pub mod History
use distributed_caching.Prelude.{
  ℕ, Bool, Option, Str, codes, Time, Int64, int64, inc64, ltb, ◌==◌, if◌then◌else◌,
}
use distributed_caching.Policy.{EvictionPolicy}
use distributed_caching.Eviction.Indexed.{
  Indexed, new_indexed, insert_entry, drop_entry, touch_entry, first_key,
}

-- What the order of the lfuEntry reads.
pub record Usage : Type 0 where
  pub freq : Int64
  pub accessed_at : Time

abbrev pub Lfu : Type 0
Lfu = Indexed Usage

-- `Less`
unfoldable pub lfu_less : Usage → Usage → Bool
lfu_less x y = if x.freq == y.freq then ltb x.accessed_at y.accessed_at else ltb x.freq y.freq

-- `NewLFU`
unfoldable pub new_lfu : Lfu
new_lfu = new_indexed (record { freq = int64 0; accessed_at = 0 })

abbrev pub use_again : Time → Usage → Usage
use_again now u = record { freq = inc64 u.freq; accessed_at = now }

unfoldable pub on_access : Time → Str → Lfu → Lfu
on_access now key l = touch_entry lfu_less (use_again now) key l

unfoldable pub on_insert : Time → Str → Lfu → Lfu
on_insert now key l = insert_entry lfu_less key (record { freq = int64 1; accessed_at = now }) l

unfoldable pub on_evict : Str → Lfu → Lfu
on_evict key l = drop_entry lfu_less key l

unfoldable pub evict : Lfu → Option Str
evict l = first_key l

unfoldable pub lfu_policy : EvictionPolicy
lfu_policy = record {
  State = Lfu;
  on_access = on_access;
  on_insert = λ now key expires_at. on_insert now key;
  on_evict = on_evict;
  evict = λ l. (evict l, l);
  name = codes "lfu";
}
