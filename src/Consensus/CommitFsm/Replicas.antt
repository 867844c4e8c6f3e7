-- ===== src/Consensus/CommitFsm/Replicas.antt =====
-- What a whole log leaves in the ledger.
use mathlib.Core.List.{Memᴰ}
use distributed_image_proces.Consensus.CommitFsm.Fencing.{
  AtLeast, apply-AtLeast, apply-AtLeast_self, winner, committed-record_command,
}
use distributed_image_proces.Consensus.CommitFsm.{
  CommitCommand, apply_all, Ledger, decode_command, committed, apply, record_command,
}
use distributed_image_proces.Prelude.{
  String, ◌≡◌, refl, sym, ap, ◌∙◌, ◌⊎◌, inl, inr, if_pos, if_neg, Option, none, some, List, [], ◌∷◌,
  arith, Bool-cases, Option-cases, string_discrete, All, lookup, ltb_ℤ,
}

module _ {B : Type 0} (decode : B → Option CommitCommand) where
  pub apply_all-AtLeast :
      (x : CommitCommand) (k : String) (bs : List B) (f : Ledger)
      → AtLeast x (committed k f)
      → AtLeast x (committed k (apply_all decode bs f))
  unfolding apply_all
  apply_all-AtLeast x k [] f h = h
  apply_all-AtLeast x k (b ∷ bs) f h =
      apply_all-AtLeast x k bs (apply decode b f).1 (apply-AtLeast decode b x k f h)

  -- Whatever the order of the log and the repetitions in it, once the log is applied the record of
  -- each task that a command of the log names has a generation no lower than that command's.
  pub apply_all-highest :
      (bs : List B) (f : Ledger)
      → All
          (λ b.
            (cmd : CommitCommand)
            → decode_command decode b ≡ some cmd
            → AtLeast cmd (committed cmd.task_id (apply_all decode bs f)))
          bs
  unfolding apply_all
  apply_all-highest [] f = tt
  apply_all-highest (b ∷ bs) f = (
    λ cmd e.
        apply_all-AtLeast cmd cmd.task_id bs (apply decode b f).1
          (apply-AtLeast_self decode b cmd f e),
    apply_all-highest bs (apply decode b f).1,
  )

  -- Each record was decoded from bytes of the log, under its own task.
  abbrev pub From : List B → Ledger → Type 0
  From bs f =
      (k : String) (c : CommitCommand)
      → committed k f ≡ some c
      → (b : B) × Memᴰ b bs × (decode_command decode b ≡ some c) × (c.task_id ≡ k)

  winner-cases :
      (o : Option CommitCommand) (cmd : CommitCommand)
      → (winner o cmd ≡ cmd) ⊎ (o ≡ some (winner o cmd))
  unfolding winner
  winner-cases none cmd = inl refl
  winner-cases (some cur) cmd = elim (Bool-cases (ltb_ℤ cur.generation cmd.generation)) [
    | inl h ↦ inl (rw h)
    | inr h ↦ inr (rw h)
  ]

  apply-From :
      (bs : List B) (b : B) (f : Ledger) → Memᴰ b bs → From bs f → From bs (apply decode b f).1
  unfolding apply
  apply-From bs b f m from k c h = elim (Option-cases (decode_command decode b)) [
    | inl e ↦ from k c (rw (e, apply) at h)
    | inr (cmd, e) ↦
        let h' : committed k (record_command cmd f) ≡ some c = rw (e, apply) at h in
        elim (string_discrete k cmd.task_id) [
          | no n ↦ from k c (
              rw (committed-record_command k cmd f, if_neg (string_discrete k cmd.task_id) n) at h')
          | yes p ↦
              let w : some (winner (committed cmd.task_id f) cmd) ≡ some c =
                rw (committed-record_command k cmd f, if_pos (string_discrete k cmd.task_id) p) at
                  h' in
              elim (winner-cases (committed cmd.task_id f) cmd) [
                | inl v ↦
                    let same : cmd ≡ c = ground arith in
                    (b, m, e ∙ ap some same, ap (λ x. x.task_id) (sym same) ∙ sym p)
                | inr v ↦ from k c (ap (λ j. committed j f) p ∙ (v ∙ w))
              ]
        ]
  ]

  apply_all-From_log :
      (full bs : List B) (f : Ledger)
      → ((b : B) → Memᴰ b bs → Memᴰ b full)
      → From full f
      → From full (apply_all decode bs f)
  unfolding apply_all
  apply_all-From_log full [] f part from = from
  apply_all-From_log full (b ∷ bs) f part from =
      apply_all-From_log full bs (apply decode b f).1 (λ c m. part c (Memᴰ.tail m))
        (apply-From full b f (part b (Memᴰ.head refl)) from)

  -- Every record of a ledger that starts empty was proposed: it was decoded from bytes of the log,
  -- and stands under its own task.
  pub apply_all-From : (bs : List B) → From bs (apply_all decode bs [])
  unfolding committed lookup
  apply_all-From bs = apply_all-From_log bs bs [] (λ b m. m) (λ k c h. cc)
