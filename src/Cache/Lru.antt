-- ===== src/Cache/Lru.antt =====
-- lruPolicy in internal/cache/policy.go: the ids, the most recently used in front. The map `els`
-- has the ids of the list.
pub mod Laws
use distributed_image_proces.Prelude.{
  String, Option, none, some, List, [], ◌∷◌, if◌then◌else◌, length,
}
use distributed_image_proces.Cache.Policy.{EvictionPolicy}
use distributed_image_proces.Cache.Ids.{contains, without}

abbrev pub LruPolicy : Type 0
LruPolicy = List String

-- NewLRU
unfoldable pub new_lru : LruPolicy
new_lru = []

-- `MoveToFront` of the element of `id`.
unfoldable pub move_to_front : String → LruPolicy → LruPolicy
unfolding without
move_to_front id p = id ∷ without id p

unfoldable pub add : String → LruPolicy → LruPolicy
unfolding contains move_to_front
add id p = if contains id p then move_to_front id p else id ∷ p

unfoldable pub access : String → LruPolicy → LruPolicy
unfolding contains move_to_front
access id p = if contains id p then move_to_front id p else p

-- `Back`
unfoldable pub back : LruPolicy → Option String
back [] = none
back (x ∷ []) = some x
back (x ∷ y ∷ ys) = back (y ∷ ys)

unfoldable pub victim : LruPolicy → Option String × LruPolicy
unfolding back
victim p = (back p, p)

unfoldable pub remove : String → LruPolicy → LruPolicy
unfolding contains without
remove id p = if contains id p then without id p else p

unfoldable pub lru_policy : EvictionPolicy LruPolicy
unfolding add access victim remove
lru_policy = record { add = add; access = access; victim = victim; remove = remove; len = length }
