-- ===== src/Cache/Eviction.antt =====
-- internal/cache/eviction.go and the parts of Get in internal/cache/local_cache.go that run under
-- the lock. File operations are not modelled; sizes of files are at 0 or above.
pub mod Budget
use distributed_image_proces.Prelude.{
  has, ℕ, zero, suc, ◌+◌, ◌-◌, String, ◌&&◌, Option, none, some, List, ltb, if◌then◌else◌, lookup,
  insert, delete,
}
use distributed_image_proces.Cache.Policy.{EvictionPolicy}

pub record Entry : Type 0 where
  pub id : String
  pub path : String
  pub size : ℕ

-- A fetch under way; its path and error, which waiting callers read, are not modelled.
pub data Call : Type 0 where
  fetching : Call

-- The state of a Cache.
pub record Cache (P : Type 0) : Type 0 where
  pub max_bytes : ℕ
  pub cur_bytes : ℕ
  pub policy : P
  pub objects : List (String × Entry)
  pub inflight : List (String × Call)
  pub hits : ℕ
  pub misses : ℕ

-- How a round of evictLocked's loop ends: `crashed` is the nil dereference on an id with no object.
pub data Round (P : Type 0) : Type 0 where
  crashed : Round P
  finished : Cache P → Round P
  evicted : Cache P → Round P

-- What the first half of Get finds.
pub data Found : Type 0 where
  hit : String → Found
  joined : Found
  leads : Found

module _ {P : Type 0} (v : EvictionPolicy P) where
  -- What the loop's body leaves once Victim has named `id`, which has the entry `e`.
  unfoldable pub dropped : String → P → Entry → Cache P → Cache P
  dropped id p e c = record c {
    policy = v.remove id p;
    objects = delete id c.objects;
    cur_bytes = c.cur_bytes - e.size;
  }

  unfoldable pub drop_object : String → P → Cache P → Round P
  unfolding dropped
  drop_object id p c = elim (lookup id c.objects) [
    | none ↦ crashed
    | some e ↦ evicted (dropped id p e c)
  ]

  -- What evictLocked does with Victim's answer.
  unfoldable pub reclaim_as : Option String × P → Cache P → Round P
  unfolding drop_object
  reclaim_as (none, p) c = finished (record c { policy = p })
  reclaim_as (some id, p) c = drop_object id p c

  unfoldable pub reclaim_one : Cache P → Round P
  unfolding reclaim_as
  reclaim_one c = reclaim_as (v.victim c.policy) c

  unfoldable pub round : Cache P → Round P
  unfolding reclaim_one
  round c =
      if ltb c.max_bytes c.cur_bytes && ltb 1 (v.len c.policy) then reclaim_one c else finished c

  unfoldable pub evict : ℕ → Cache P → Option (Cache P)
  unfolding round
  evict zero c = none
  evict (suc fuel) c = elim (round c) [
    | crashed ↦ none
    | finished c' ↦ some c'
    | evicted c' ↦ evict fuel c'
  ]

  -- evictLocked
  unfoldable pub evict_locked : Cache P → Option (Cache P)
  unfolding evict
  evict_locked c = evict (suc (v.len c.policy)) c

  -- admit up to its call of evictLocked.
  unfoldable pub record_object : String → String → ℕ → Cache P → Cache P
  record_object id path size c = elim (lookup id c.objects) [
    | some e ↦ record c {
      cur_bytes = c.cur_bytes + size - e.size;
      objects = insert id (record e { size = size; path = path }) c.objects;
      policy = v.access id c.policy;
    }
    | none ↦ record c {
      objects = insert id (record { id = id; path = path; size = size }) c.objects;
      policy = v.add id c.policy;
      cur_bytes = c.cur_bytes + size;
    }
  ]

  -- admit
  unfoldable pub admit : String → String → ℕ → Cache P → Option (Cache P)
  unfolding record_object evict_locked
  admit id path size c = evict_locked (record_object id path size c)

  -- Get until it releases the lock for the first time.
  unfoldable pub begin_get : String → Cache P → Found × Cache P
  begin_get id c = elim (lookup id c.objects) [
    | some e ↦ (hit e.path, record c { policy = v.access id c.policy; hits = c.hits + 1 })
    | none ↦
        if has id c.inflight
        then (joined, c)
        else (leads, record c { inflight = insert id fetching c.inflight; misses = c.misses + 1 })
  ]

  -- Get of the leading caller after store, which gives a path and a size, or an error.
  unfoldable pub finish_get : String → Option (String × ℕ) → Cache P → Option (Cache P)
  unfolding admit
  finish_get id stored c =
      let c' = record c { inflight = delete id c.inflight } in
      elim stored [ none ↦ some c' | some (path, size) ↦ admit id path size c' ]
