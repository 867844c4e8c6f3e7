-- ===== src/Cluster/Ring.antt =====
-- internal/cluster/ring.go. The first 8 bytes of SHA-256 are parameters: `hash_key` of a key, and
-- `hash_vnode` of the text "<node>#<i>". sort.Slice is insertion sort by the hash, and sort.Search
-- gives the first virtual node of the sorted list whose hash is large enough.
pub mod Remap
use distributed_image_proces.Prelude.{
  ℕ, zero, suc, ◌+◌, String, ite, Option, none, some, List, [], ◌∷◌, ◌++◌, leb, if◌then◌else◌,
  string_discrete, ℤ, pos, pos_part, ltb_ℤ,
}
use distributed_image_proces.Cache.Ids.{contains, without}

pub record Vnode : Type 0 where
  pub hash : ℕ
  pub node_id : String

pub record Ring : Type 0 where
  pub vnodes : List Vnode
  pub nodes : List String
  pub vnodes_per : ℕ

abbrev pub default_vnodes_per_node : ℕ
default_vnodes_per_node = 150

-- NewRing
unfoldable pub new_ring : ℤ → Ring
new_ring vnodes_per = record {
  vnodes = [];
  nodes = [];
  vnodes_per = if ltb_ℤ (pos 0) vnodes_per then pos_part vnodes_per else default_vnodes_per_node;
}

unfoldable pub insert_vnode : Vnode → List Vnode → List Vnode
insert_vnode v [] = v ∷ []
insert_vnode v (w ∷ ws) =
    let rest = insert_vnode v ws in if leb v.hash w.hash then v ∷ w ∷ ws else w ∷ rest

unfoldable pub sort_vnodes : List Vnode → List Vnode
unfolding insert_vnode
sort_vnodes [] = []
sort_vnodes (v ∷ vs) = insert_vnode v (sort_vnodes vs)

-- The appended virtual nodes, from number `i` on.
unfoldable pub new_vnodes : (String → ℕ → ℕ) → String → ℕ → ℕ → List Vnode
new_vnodes hash_vnode id i zero = []
new_vnodes hash_vnode id i (suc n) =
    record { hash = hash_vnode id i; node_id = id } ∷ new_vnodes hash_vnode id (i + 1) n

-- Add
unfoldable pub add_node : (String → ℕ → ℕ) → String → Ring → Ring
unfolding contains sort_vnodes new_vnodes
add_node hash_vnode id r = if contains id r.nodes then r else record r {
  nodes = id ∷ r.nodes;
  vnodes = sort_vnodes (r.vnodes ++ new_vnodes hash_vnode id 0 r.vnodes_per);
}

-- Remove's filter.
unfoldable pub drop_vnodes : String → List Vnode → List Vnode
drop_vnodes id [] = []
drop_vnodes id (v ∷ vs) =
    let rest = drop_vnodes id vs in ite (string_discrete v.node_id id) rest (v ∷ rest)

-- Remove
unfoldable pub remove_node : String → Ring → Ring
unfolding without drop_vnodes
remove_node id r = record r { nodes = without id r.nodes; vnodes = drop_vnodes id r.vnodes }

-- `sort.Search` with the element at the index.
unfoldable pub first_from : ℕ → List Vnode → Option Vnode
first_from h [] = none
first_from h (v ∷ vs) = let rest = first_from h vs in if leb h v.hash then some v else rest

unfoldable pub first_vnode : List Vnode → Option Vnode
first_vnode [] = none
first_vnode (v ∷ vs) = some v

-- The virtual node that Lookup takes, with the wrap-around.
unfoldable pub owner_from : ℕ → List Vnode → Option Vnode
unfolding first_from first_vnode
owner_from h vs = elim (first_from h vs) [ some v ↦ some v | none ↦ first_vnode vs ]

-- Lookup; `none` is the error of an empty ring.
unfoldable pub lookup_node : (String → ℕ) → String → Ring → Option String
unfolding owner_from
lookup_node hash_key key r = elim (owner_from (hash_key key) r.vnodes) [
  | none ↦ none
  | some v ↦ some v.node_id
]
