-- ===== src/Cache/S3Fifo.antt =====
-- internal/cache/s3fifo.go. A queue is a list of ids with their reference counts, oldest first. The
-- map `nodes` is not kept apart: it has the ids of the two queues, and a node's queue is `inMain`.
pub mod Queues
pub mod Sweep
pub mod Laws
use distributed_image_proces.Prelude.{
  has, ℕ, zero, suc, ◌+◌, ◌-◌, ◌/◌, String, Bool, ◌||◌, Option, none, some, List, [], ◌∷◌, ◌++◌,
  ltb, leb, ◌==◌, if◌then◌else◌, length, lookup, insert, delete, sum_map,
}
use distributed_image_proces.Cache.Policy.{EvictionPolicy}
use distributed_image_proces.Cache.Ids.{contains, without}

abbrev pub Queue : Type 0
Queue = List (String × ℕ)

-- `ghost` is the FIFO of evicted ids, with `ghostSet` its elements.
pub record S3Fifo : Type 0 where
  pub small : Queue
  pub main : Queue
  pub ghost : List String
  pub ghost_cap : ℕ

-- NewS3FIFO
unfoldable pub new_s3fifo : S3Fifo
new_s3fifo = record { small = []; main = []; ghost = []; ghost_cap = 0 }

-- `PushBack`
unfoldable pub push_back : String → ℕ → Queue → Queue
push_back id freq q = q ++ (id, freq) ∷ []

unfoldable pub bump : ℕ → ℕ
bump freq = if ltb freq 3 then freq + 1 else freq

-- bump on the node of `id`, if the queue holds it.
unfoldable pub touch : String → Queue → Queue
unfolding bump
touch id q = elim (lookup id q) [ none ↦ q | some freq ↦ insert id (bump freq) q ]

-- `_, ok := p.nodes[id]`
unfoldable pub resident : String → S3Fifo → Bool
resident id p = has id p.small || has id p.main

-- Len
unfoldable pub len : S3Fifo → ℕ
len p = length p.small + length p.main

-- Access
unfoldable pub access : String → S3Fifo → S3Fifo
unfolding touch
access id p = record p { small = touch id p.small; main = touch id p.main }

-- The end of Add.
unfoldable pub raise_cap : S3Fifo → S3Fifo
unfolding len
raise_cap p = if ltb p.ghost_cap (len p) then record p { ghost_cap = len p } else p

-- Add's two ways to admit an id that is not resident.
unfoldable pub enter : String → S3Fifo → S3Fifo
unfolding contains without push_back
enter id p =
    if contains id p.ghost
    then record p { ghost = without id p.ghost; main = push_back id 0 p.main }
    else record p { small = push_back id 0 p.small }

-- Add
unfoldable pub add : String → S3Fifo → S3Fifo
unfolding resident access raise_cap enter
add id p = if resident id p then access id p else raise_cap (enter id p)

-- pushGhost's loop.
unfoldable pub trim : ℕ → List String → List String
trim cap [] = []
trim cap (x ∷ xs) = let rest = trim cap xs in if ltb cap (length (x ∷ xs)) then rest else x ∷ xs

-- pushGhost
unfoldable pub push_ghost : String → S3Fifo → S3Fifo
unfolding contains trim
push_ghost id p =
    if contains id p.ghost then p else record p { ghost = trim p.ghost_cap (p.ghost ++ id ∷ []) }

-- How one turn of Victim's loop ends: with a victim, with a promotion or a decay, or in `default`.
pub data Turn : Type 0 where
  evicted : String → S3Fifo → Turn
  moved : S3Fifo → Turn
  stuck : S3Fifo → Turn

-- evictSmall, on the small queue's content.
unfoldable pub evict_small : Queue → S3Fifo → Turn
unfolding push_back push_ghost
evict_small [] p = moved p
evict_small ((id, freq) ∷ q) p =
    if ltb 0 freq
    then moved (record p { small = q; main = push_back id freq p.main })
    else evicted id (push_ghost id (record p { small = q }))

-- evictMain, on the main queue's content.
unfoldable pub evict_main : Queue → S3Fifo → Turn
unfolding push_back
evict_main [] p = moved p
evict_main ((id, freq) ∷ q) p =
    if ltb 0 freq
    then moved (record p { main = push_back id (freq - 1) q })
    else evicted id (record p { main = q })

unfoldable pub target : S3Fifo → ℕ
unfolding len
target p = if ltb (len p / 10) 1 then 1 else len p / 10

unfoldable pub turn : S3Fifo → Turn
unfolding target evict_small evict_main
turn p =
    if leb (target p) (length p.small)
    then evict_small p.small p
    else if ltb 0 (length p.main)
    then evict_main p.main p
    else if ltb 0 (length p.small)
    then evict_small p.small p
    else stuck p

-- Victim's loop.
unfoldable pub reclaim : ℕ → S3Fifo → Option String × S3Fifo
unfolding turn
reclaim zero p = (none, p)
reclaim (suc fuel) p = elim (turn p) [
  | evicted id p' ↦ (some id, p')
  | moved p' ↦ reclaim fuel p'
  | stuck p' ↦ (none, p')
]

-- A bound on the loop's turns: a promotion takes an id from the small queue, and a decay takes a
-- reference.
unfoldable pub work : S3Fifo → ℕ
work p = length p.small + sum_map (λ n. n) p.small + sum_map (λ n. n) p.main

-- Victim
unfoldable pub victim : S3Fifo → Option String × S3Fifo
unfolding len reclaim work
victim p = if len p == 0 then (none, p) else reclaim (suc (work p)) p

-- Remove
unfoldable pub remove : String → S3Fifo → S3Fifo
remove id p =
    if has id p.main
    then record p { main = delete id p.main }
    else if has id p.small
    then record p { small = delete id p.small }
    else p

unfoldable pub s3fifo : EvictionPolicy S3Fifo
unfolding add access victim remove len
s3fifo = record { add = add; access = access; victim = victim; remove = remove; len = len }
