-- ===== src/Cache/Eviction/Budget.antt =====
-- The books of the cache and its byte budget.
use distributed_image_proces.Prelude.{
  has, length-delete, sum_map-delete, subst, ℕ, zero, suc, ◌≤◌, ◌<◌, String, ◌≡◌, refl, ◌∙◌, ◌⊎◌,
  inl, inr, true, false, ◌&&◌, Option, some, arith, ltb, Bool-cases, Option-cases, length, lookup,
  lookup-insert, lookup-delete, length-insert, sum_map, sum_map-insert, at_key-le-sum_map, Distinct,
  insert-Distinct, delete-Distinct,
}
use distributed_image_proces.Cache.Policy.{EvictionPolicy, PolicyLaws, Reclaimed}
use distributed_image_proces.Cache.Eviction.{
  Entry, Cache, dropped, evicted, drop_object, reclaim_one, round, evict, evict_locked,
  record_object, admit, begin_get, reclaim_as,
}

module _ {P : Type 0} (v : EvictionPolicy P) (laws : PolicyLaws v) where
  -- The policy and the index agree on the residents, and the bytes add up.
  pub record Consistent (c : Cache P) : Type 0 where
    pub ok : laws.Ok c.policy
    pub same : (k : String) → laws.resident k c.policy ≡ has k c.objects
    pub count : v.len c.policy ≡ length c.objects
    pub distinct : Distinct c.objects
    pub bytes : c.cur_bytes ≡ sum_map (λ e. e.size) c.objects

  record_object-Consistent :
      (id path : String) (size : ℕ) (c : Cache P)
      → Consistent c
      → Consistent (record_object v id path size c)
  unfolding record_object
  record_object-Consistent id path size c w = elim (Option-cases (lookup id c.objects)) [
    | inl absent ↦
        let e : Entry = record { id = id; path = path; size = size } in
        let new_id : laws.resident id c.policy ≡ false = w.same id ∙ rw (has, absent) refl in
        rw (record_object, absent)
          (record {
            ok = laws.add_ok id c.policy w.ok;
            same = λ k. ground (
              arith,
              laws.add_resident k id c.policy w.ok,
              w.same k,
              lookup-insert k id e c.objects,
            );
            count = ground (
              arith,
              laws.add_len id c.policy w.ok,
              new_id,
              w.count,
              length-insert id e c.objects,
              absent,
            );
            distinct = insert-Distinct id e c.objects w.distinct;
            bytes = ground (arith, w.bytes, sum_map-insert (λ e. e.size) id e c.objects, absent);
          })
    | inr (e, present) ↦
        let u : Entry = record e { size = size; path = path } in
        rw (record_object, present)
          (record {
            ok = laws.access_ok id c.policy w.ok;
            same = λ k. ground (
              arith,
              laws.access_resident k id c.policy w.ok,
              w.same k,
              lookup-insert k id u c.objects,
              present,
            );
            count = ground (
              arith,
              laws.access_len id c.policy w.ok,
              w.count,
              length-insert id u c.objects,
              present,
            );
            distinct = insert-Distinct id u c.objects w.distinct;
            bytes = ground (
              arith,
              w.bytes,
              sum_map-insert (λ e. e.size) id u c.objects,
              at_key-le-sum_map (λ e. e.size) id c.objects,
              present,
            );
          })
  ]

  -- A round that evicts, and leaves one object less.
  record Evicts (c : Cache P) : Type 0 where
    next : Cache P
    runs : reclaim_one v c ≡ evicted next
    fine : Consistent next
    fewer : suc (v.len next.policy) ≡ v.len c.policy
    budget : next.max_bytes ≡ c.max_bytes

  reclaim_one-dropped :
      (c : Cache P) (id : String) (p : P) (e : Entry)
      → v.victim c.policy ≡ (some id, p)
      → lookup id c.objects ≡ some e
      → reclaim_one v c ≡ evicted (dropped v id p e c)
  unfolding reclaim_one drop_object
  reclaim_one-dropped c id p e h g = rw (reclaim_one, h, reclaim_as, drop_object, g) refl

  dropped-Consistent :
      (c : Cache P) (r : Reclaimed v laws.Ok laws.resident c.policy) (e : Entry)
      → lookup r.id c.objects ≡ some e
      → Consistent c
      → Consistent (dropped v r.id r.left e c)
  unfolding dropped
  dropped-Consistent c r e present w = record {
    ok = r.ok;
    same = λ k. ground (arith, r.gone k, w.same k, lookup-delete k r.id c.objects);
    count = ground (arith, r.fewer, w.count, length-delete r.id c.objects w.distinct, present);
    distinct = delete-Distinct r.id c.objects w.distinct;
    bytes =
        ground (arith, w.bytes, sum_map-delete (λ e. e.size) r.id c.objects w.distinct, present);
  }

  reclaim_one-Evicts :
      (c : Cache P) → Reclaimed v laws.Ok laws.resident c.policy → Consistent c → Evicts c
  unfolding dropped
  reclaim_one-Evicts c r w = elim (Option-cases (lookup r.id c.objects)) [
    | inl absent ↦ absurd (ground (arith, r.was, w.same r.id, absent))
    | inr (e, present) ↦ record {
      next = dropped v r.id r.left e c;
      runs = reclaim_one-dropped c r.id r.left e r.answer present;
      fine = dropped-Consistent c r e present w;
      fewer = r.fewer;
      budget = refl;
    }
  ]

  -- What eviction leaves: books in order, and a total within the budget or a single object.
  pub record Fits (max_bytes : ℕ) (r : Option (Cache P)) : Type 0 where
    pub after : Cache P
    pub returns : r ≡ some after
    pub fine : Consistent after
    pub within : (after.cur_bytes ≤ max_bytes) ⊎ (length after.objects ≤ 1)

  evict-again :
      (fuel : ℕ) (c c' : Cache P)
      → (ltb c.max_bytes c.cur_bytes && ltb 1 (v.len c.policy)) ≡ true
      → reclaim_one v c ≡ evicted c'
      → evict v (suc fuel) c ≡ evict v fuel c'
  unfolding evict round
  evict-again fuel c c' over e = rw (evict, round, over, e) refl

  evict-stops :
      (fuel : ℕ) (c : Cache P)
      → (ltb c.max_bytes c.cur_bytes && ltb 1 (v.len c.policy)) ≡ false
      → evict v (suc fuel) c ≡ some c
  unfolding evict round
  evict-stops fuel c h = rw (evict, round, h) refl

  evict-Fits :
      (fuel : ℕ) (c : Cache P)
      → v.len c.policy < fuel
      → Consistent c
      → Fits c.max_bytes (evict v fuel c)
  evict-Fits zero c h w = absurd (omega arith)
  evict-Fits (suc fuel) c h w =
      elim (Bool-cases (ltb c.max_bytes c.cur_bytes && ltb 1 (v.len c.policy))) [
        | inl over ↦
            let e : Evicts c = reclaim_one-Evicts c (laws.reclaim c.policy w.ok (ground arith)) w in
            let f : Fits e.next.max_bytes (evict v fuel e.next) =
              evict-Fits fuel e.next (omega (arith, e.fewer)) e.fine in
            record {
              after = f.after;
              returns = evict-again fuel c e.next over e.runs ∙ f.returns;
              fine = f.fine;
              within =
                  subst (λ m. (f.after.cur_bytes ≤ m) ⊎ (length f.after.objects ≤ 1)) e.budget
                    f.within;
            }
        | inr stop ↦ record {
          after = c;
          returns = evict-stops fuel c stop;
          fine = w;
          within = ground (arith, w.count);
        }
      ]

  -- evictLocked returns: no nil dereference and no endless loop.
  pub evict_locked-Fits : (c : Cache P) → Consistent c → Fits c.max_bytes (evict_locked v c)
  unfolding evict_locked
  evict_locked-Fits c w = evict-Fits (suc (v.len c.policy)) c (omega arith) w

  record_object-max_bytes :
      (id path : String) (size : ℕ) (c : Cache P)
      → (record_object v id path size c).max_bytes ≡ c.max_bytes
  unfolding record_object
  record_object-max_bytes id path size c = elim (Option-cases (lookup id c.objects)) [
    | inl e ↦ rw (record_object, e) refl
    | inr (_, e) ↦ rw (record_object, e) refl
  ]

  -- For every policy that keeps the promises, in a cache with its books in order, the
  -- admission of an object returns a cache with its books in order and, if more than one object is
  -- left, within the byte budget.
  pub admit-Fits :
      (id path : String) (size : ℕ) (c : Cache P)
      → Consistent c
      → Fits c.max_bytes (admit v id path size c)
  unfolding admit
  admit-Fits id path size c w =
      (subst (λ m. Fits m (evict_locked v (record_object v id path size c)))
        (record_object-max_bytes id path size c)
        (evict_locked-Fits (record_object v id path size c)
          (record_object-Consistent id path size c w)))

  -- The first half of a Get keeps the books in order.
  pub begin_get-Consistent :
      (id : String) (c : Cache P) → Consistent c → Consistent (begin_get v id c).1
  unfolding begin_get
  begin_get-Consistent id c w = elim (Option-cases (lookup id c.objects)) [
    | inl e ↦ elim (Bool-cases (has id c.inflight)) [
      | inl g ↦ rw (begin_get, e, g) w
      | inr g ↦
          rw (begin_get, e, g)
            (record {
              ok = w.ok;
              same = w.same;
              count = w.count;
              distinct = w.distinct;
              bytes = w.bytes;
            })
    ]
    | inr (x, e) ↦
        rw (begin_get, e)
          (record {
            ok = laws.access_ok id c.policy w.ok;
            same = λ k. laws.access_resident k id c.policy w.ok ∙ w.same k;
            count = laws.access_len id c.policy w.ok ∙ w.count;
            distinct = w.distinct;
            bytes = w.bytes;
          })
  ]
