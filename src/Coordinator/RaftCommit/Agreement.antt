-- ===== src/Coordinator/RaftCommit/Agreement.antt =====
-- The decisions of Decide and the records of the ledger.
use distributed_image_proces.Prelude.{
  some-inj, subst, ◌≡◌, sym, ap, ◌∙◌, inl, inr, Bool, true, false, Option, none, some, List, [],
  ◌∷◌, ◌++◌, arith, if◌then◌else◌, Bool-cases, Option-cases, All, ltb_ℤ,
}
use mathlib.Core.List.{Memᴰ}
use distributed_image_proces.Consensus.CommitFsm.{
  CommitCommand, Ledger, committed, apply_all, apply, decode_command,
}
use distributed_image_proces.Consensus.CommitFsm.Fencing.{AtLeast, apply-AtLeast_self}
use distributed_image_proces.Consensus.CommitFsm.Replicas.{apply_all-AtLeast}
use distributed_image_proces.Coordinator.RaftCommit.{
  Moment, decided, refused, Decision, geb_ℤ, settled, await_commit, propose, decide, from_record,
}

-- The record is the ledger's for the task, and its generation is not below the one asked for.
pub record Agreed (dec r : CommitCommand) (f : Ledger) : Type 0 where
  pub held : committed dec.task_id f ≡ some r
  pub fenced : ltb_ℤ r.generation dec.generation ≡ false

settled-held :
    (dec c : CommitCommand) (f : Ledger)
    → committed dec.task_id f ≡ some c
    → settled dec f ≡ (if geb_ℤ c.generation dec.generation then some c else none)
unfolding settled from_record
settled-held dec c f e = rw (settled, e)

settled-missing :
    (dec : CommitCommand) (f : Ledger) → committed dec.task_id f ≡ none → settled dec f ≡ none
unfolding settled
settled-missing dec f e = rw (settled, e)

settled-Agreed : (dec r : CommitCommand) (f : Ledger) → settled dec f ≡ some r → Agreed dec r f
settled-Agreed dec r f h = elim (Option-cases (committed dec.task_id f)) [
  | inl e ↦ absurd (ground (arith, settled-missing dec f e))
  | inr (c, e) ↦ elim (Bool-cases (ltb_ℤ c.generation dec.generation)) [
    | inl g ↦ absurd (ground (arith, settled-held dec c f e))
    | inr g ↦
        let same : c ≡ r = some-inj (ground (arith, settled-held dec c f e)) in
        subst (λ x. Agreed dec x f) same (record { held = e; fenced = g })
  ]
]

-- A ledger with a record at least as new settles the decision.
AtLeast-settled :
    (dec : CommitCommand) (f : Ledger)
    → AtLeast dec (committed dec.task_id f)
    → (r : CommitCommand) × (settled dec f ≡ some r)
AtLeast-settled dec f a = elim (Option-cases (committed dec.task_id f)) [
  | inl e ↦ absurd (rw e at a)
  | inr (c, e) ↦
      let g : ltb_ℤ c.generation dec.generation ≡ false = rw e at a in
      (c, rw (settled-held dec c f e) (ground (arith, g)))
]

module _ {B : Type 0} (encode : CommitCommand → Option B) (decode : B → Option CommitCommand) where
  -- What a look decides, and where the loop goes on.
  await_commit-settled :
      (dec r : CommitCommand) (bytes : B) (m : Moment B) (ms : List (Moment B)) (f : Ledger)
      (proposed : List B)
      → settled dec (apply_all decode m.entries f) ≡ some r
      → await_commit encode decode dec bytes (m ∷ ms) f proposed
        ≡ record { outcome = decided r; ledger = apply_all decode m.entries f; proposed = proposed }
  unfolding await_commit
  await_commit-settled dec r bytes m ms f proposed e = rw (await_commit, e)

  await_commit-ended :
      (dec : CommitCommand) (bytes : B) (m : Moment B) (ms : List (Moment B)) (f : Ledger)
      (proposed : List B)
      → settled dec (apply_all decode m.entries f) ≡ none
      → m.ended ≡ true
      → await_commit encode decode dec bytes (m ∷ ms) f proposed
        ≡ record { outcome = refused; ledger = apply_all decode m.entries f; proposed = proposed }
  unfolding await_commit
  await_commit-ended dec bytes m ms f proposed e d = rw (await_commit, e, d)

  await_commit-later :
      (dec : CommitCommand) (bytes : B) (m : Moment B) (ms : List (Moment B)) (f : Ledger)
      (proposed : List B)
      → settled dec (apply_all decode m.entries f) ≡ none
      → m.ended ≡ false
      → await_commit encode decode dec bytes (m ∷ ms) f proposed
        ≡ await_commit encode decode dec bytes ms
            (apply_all decode m.entries f)
            (if m.leader then proposed ++ bytes ∷ [] else proposed)
  unfolding await_commit
  await_commit-later dec bytes m ms f proposed e d = rw (await_commit, e, d)

  -- A decision answers with what the ledger holds.
  abbrev Honest : CommitCommand → Decision B → Type 0
  Honest dec d = (r : CommitCommand) → d.outcome ≡ decided r → Agreed dec r d.ledger

  decided-inj : (a b : CommitCommand) → decided a ≡ decided b → a ≡ b
  decided-inj a b h = cc

  answered-Honest :
      (dec r : CommitCommand) (f : Ledger) (proposed : List B)
      → settled dec f ≡ some r
      → Honest dec (record { outcome = decided r; ledger = f; proposed = proposed })
  answered-Honest dec r f proposed e q h =
      subst (λ x. Agreed dec x f) (decided-inj r q h) (settled-Agreed dec r f e)

  await_commit-Honest :
      (dec : CommitCommand) (bytes : B) (ms : List (Moment B)) (f : Ledger) (proposed : List B)
      → Honest dec (await_commit encode decode dec bytes ms f proposed)
  unfolding await_commit
  await_commit-Honest dec bytes [] f proposed = λ r h. absurd cc
  await_commit-Honest dec bytes (m ∷ ms) f proposed =
      elim (Option-cases (settled dec (apply_all decode m.entries f))) [
        | inr (r, e) ↦
            subst (Honest dec) (sym (await_commit-settled dec r bytes m ms f proposed e))
              (answered-Honest dec r (apply_all decode m.entries f) proposed e)
        | inl e ↦ elim (Bool-cases m.ended) [
          | inl d ↦
              subst (Honest dec) (sym (await_commit-ended dec bytes m ms f proposed e d))
                (λ r h. absurd cc)
          | inr d ↦ subst (Honest dec) (sym (await_commit-later dec bytes m ms f proposed e d)) (
              await_commit-Honest dec bytes ms (apply_all decode m.entries f)
                (if m.leader then proposed ++ bytes ∷ [] else proposed))
        ]
      ]

  propose-Honest :
      (dec : CommitCommand) (accepts : Bool) (ms : List (Moment B)) (f : Ledger)
      → Honest dec (propose encode decode dec accepts ms f)
  unfolding propose
  propose-Honest dec accepts ms f = elim (Option-cases (encode dec)) [
    | inl e ↦ rw (propose, e) (λ r h. absurd cc)
    | inr (bytes, e) ↦ elim (Bool-cases accepts) [
      | inl a ↦ rw (propose, e, a) (await_commit-Honest dec bytes ms f (bytes ∷ []))
      | inr a ↦ rw (propose, e, a) (λ r h. absurd cc)
    ]
  ]

  -- Whenever Decide returns a decision, whatever the log delivered meanwhile and whoever led, the
  -- decision is the record that the replica's ledger then holds for the task, and its generation is
  -- not below the one asked for.
  pub decide-Agreed :
      (dec r : CommitCommand) (leader accepts : Bool) (ms : List (Moment B)) (f : Ledger)
      → (decide encode decode dec leader accepts ms f).outcome ≡ decided r
      → Agreed dec r (decide encode decode dec leader accepts ms f).ledger
  unfolding decide
  decide-Agreed dec r leader accepts ms f =
      let honest : Honest dec (decide encode decode dec leader accepts ms f) =
        elim (Option-cases (settled dec f)) [
          | inr (q, e) ↦ rw (decide, e) (answered-Honest dec q f [] e)
          | inl e ↦ elim (Bool-cases leader) [
            | inl l ↦ rw (decide, e, l) (propose-Honest dec accepts ms f)
            | inr l ↦ rw (decide, e, l) (λ q h. absurd cc)
          ]
        ] in
      honest r

  abbrev pub Decides : Decision B → Type 0
  Decides d = (r : CommitCommand) × (d.outcome ≡ decided r)

  apply_all-delivered :
      (dec : CommitCommand) (bytes : B) (bs : List B) (f : Ledger)
      → decode_command decode bytes ≡ some dec
      → Memᴰ bytes bs
      → AtLeast dec (committed dec.task_id (apply_all decode bs f))
  unfolding apply_all
  apply_all-delivered dec bytes [] f d m = elim m [ ]
  apply_all-delivered dec bytes (b ∷ bs) f d (Memᴰ.head p) =
      apply_all-AtLeast decode dec dec.task_id bs (apply decode b f).1
        (apply-AtLeast_self decode b dec f (ap (decode_command decode) (sym p) ∙ d))
  apply_all-delivered dec bytes (b ∷ bs) f d (Memᴰ.tail m) =
      apply_all-delivered dec bytes bs (apply decode b f).1 d m

  await_commit-Decides :
      (dec : CommitCommand) (bytes : B) (before after : List (Moment B)) (m : Moment B) (f : Ledger)
      (proposed : List B)
      → decode_command decode bytes ≡ some dec
      → All (λ x. x.ended ≡ false) before
      → Memᴰ bytes m.entries
      → Decides (await_commit encode decode dec bytes (before ++ m ∷ after) f proposed)
  await_commit-Decides dec bytes [] after m f proposed d live there =
      let found =
        AtLeast-settled dec (apply_all decode m.entries f)
          (apply_all-delivered dec bytes m.entries f d there) in
      (
        found.0,
        ap (λ x. x.outcome) (await_commit-settled dec found.0 bytes m after f proposed found.1),
      )
  await_commit-Decides dec bytes (x ∷ before) after m f proposed d live there =
      elim (Option-cases (settled dec (apply_all decode x.entries f))) [
        | inr (r, e) ↦ (
          r,
          ap (λ y. y.outcome)
              (await_commit-settled dec r bytes x (before ++ m ∷ after) f proposed e),
        )
        | inl e ↦
            subst Decides
              (sym (await_commit-later dec bytes x (before ++ m ∷ after) f proposed e live.0))
              (await_commit-Decides dec bytes before after m (apply_all decode x.entries f)
                (if x.leader then proposed ++ bytes ∷ [] else proposed) d live.1 there)
      ]

  -- Decide on a leader whose first proposal the node accepts, of a command with a task id that the codec
  -- reads back from the proposed bytes, returns a decision once the log delivers these bytes, if its
  -- context has not ended at a look before that: whatever else the log delivers, and whether or not the
  -- node still leads.
  pub decide_delivered :
      (dec : CommitCommand) (bytes : B) (before after : List (Moment B)) (m : Moment B) (f : Ledger)
      → encode dec ≡ some bytes
      → decode_command decode bytes ≡ some dec
      → All (λ x. x.ended ≡ false) before
      → Memᴰ bytes m.entries
      → Decides (decide encode decode dec true true (before ++ m ∷ after) f)
  unfolding decide propose
  decide_delivered dec bytes before after m f e d live there = elim (Option-cases (settled dec f)) [
    | inr (r, s) ↦ (r, rw (decide, s))
    | inl s ↦
        rw (decide, s, propose, e)
          (await_commit-Decides dec bytes before after m f (bytes ∷ []) d live there)
  ]
