-- ===== src/Cluster/Ring/Remap.antt =====
-- The owner of a key when a node leaves the ring.
use distributed_image_proces.Prelude.{
  ℕ, String, ◌≡◌, refl, sym, ap, ◌∙◌, ◌≢◌, inl, inr, if_pos, if_neg, none, some, List, [], ◌∷◌,
  arith, leb, Bool-cases, Option-cases, string_discrete,
}
use distributed_image_proces.Cluster.Ring.{
  Vnode, Ring, drop_vnodes, remove_node, first_from, first_vnode, owner_from, lookup_node,
}

drop_vnodes-first_from :
    (id : String) (h : ℕ) (vs : List Vnode) (v : Vnode)
    → v.node_id ≢ id
    → first_from h vs ≡ some v
    → first_from h (drop_vnodes id vs) ≡ some v
unfolding drop_vnodes first_from
drop_vnodes-first_from id h [] v n e = e
drop_vnodes-first_from id h (w ∷ ws) v n e = elim (Bool-cases (leb h w.hash)) [
  | inl g ↦
      let same : w ≡ v = ground (arith, e, g) in
      let keep : w.node_id ≢ id = λ q. n (sym (ap (λ x. x.node_id) same) ∙ q) in
      rw (drop_vnodes, if_neg _ keep, g) (ap some same)
  | inr g ↦ elim (string_discrete w.node_id id) [
    | yes p ↦
        rw (drop_vnodes, if_pos _ p) (drop_vnodes-first_from id h ws v n (ground (arith, e, g)))
    | no p ↦
        rw (drop_vnodes, if_neg _ p, g) (drop_vnodes-first_from id h ws v n (ground (arith, e, g)))
  ]
]

drop_vnodes-first_from-none :
    (id : String) (h : ℕ) (vs : List Vnode)
    → first_from h vs ≡ none
    → first_from h (drop_vnodes id vs) ≡ none
unfolding drop_vnodes first_from
drop_vnodes-first_from-none id h [] e = refl
drop_vnodes-first_from-none id h (w ∷ ws) e = ground (arith, drop_vnodes-first_from-none id h ws)

drop_vnodes-first_vnode :
    (id : String) (vs : List Vnode) (v : Vnode)
    → v.node_id ≢ id
    → first_vnode vs ≡ some v
    → first_vnode (drop_vnodes id vs) ≡ some v
unfolding drop_vnodes first_vnode
drop_vnodes-first_vnode id [] v n e = e
drop_vnodes-first_vnode id (w ∷ ws) v n e =
    let same : w ≡ v = ground arith in
    let keep : w.node_id ≢ id = λ q. n (sym (ap (λ x. x.node_id) same) ∙ q) in
    rw (drop_vnodes, if_neg _ keep) (rw same refl)

drop_vnodes-owner_from :
    (id : String) (h : ℕ) (vs : List Vnode) (v : Vnode)
    → v.node_id ≢ id
    → owner_from h vs ≡ some v
    → owner_from h (drop_vnodes id vs) ≡ some v
unfolding owner_from
drop_vnodes-owner_from id h vs v n e = elim (Option-cases (first_from h vs)) [
  | inl g ↦
      let head : first_vnode vs ≡ some v = ground (arith, e, g) in
      rw (owner_from, drop_vnodes-first_from-none id h vs g)
        (drop_vnodes-first_vnode id vs v n head)
  | inr (w, g) ↦
      let same : first_from h vs ≡ some v = ground (arith, e, g) in
      rw (owner_from, drop_vnodes-first_from id h vs v n same) refl
]

-- A key that belongs to another node keeps its node when a node is removed from the ring.
pub lookup_node-remove_node :
    (hash_key : String → ℕ) (key id owner : String) (r : Ring)
    → owner ≢ id
    → lookup_node hash_key key r ≡ some owner
    → lookup_node hash_key key (remove_node id r) ≡ some owner
unfolding lookup_node remove_node
lookup_node-remove_node hash_key key id owner r n e =
    elim (Option-cases (owner_from (hash_key key) r.vnodes)) [
      | inl g ↦ absurd (ground (arith, e, g))
      | inr (v, g) ↦
          let same : v.node_id ≡ owner = ground (arith, e, g) in
          rw
            (
              lookup_node,
              drop_vnodes-owner_from id (hash_key key) r.vnodes v (λ q. n (sym same ∙ q)) g,
            )
            (ap some same)
    ]
