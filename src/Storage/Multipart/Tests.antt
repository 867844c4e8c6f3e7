-- ===== src/Storage/Multipart/Tests.antt =====
-- Uploads with one worker and parts of two bytes, and the theorems at them.
use distributed_image_proces.Prelude.{
  ℕ, String, ◌≡◌, refl, true, false, none, some, List, [], ◌∷◌, ◌==◌, count_if, arith,
}
use distributed_image_proces.Storage.Multipart.{
  Work, Part, reading, completed, Upload, start_upload, pick, UploadEvent, reads, drains,
  takes_work, leaves, uploads, fails, sends, completes, check_errors, end_reading, read_part,
  read_turn, take_work, leave, drain_result, complete_upload, upload_step, Running, begins, goes,
  insert_part, sort_parts,
}
use distributed_image_proces.Storage.Multipart.Capacity.{Running-reading}
use distributed_image_proces.Storage.Multipart.Parts.{Running-parts}

abbrev tag : Work → String
tag w = "t"

-- The state after some events; one that cannot happen changes nothing.
abbrev after : UploadEvent → Upload → Upload
unfolding upload_step read_turn read_part end_reading check_errors take_work leave drain_result
    complete_upload pick sort_parts insert_part
after e u = elim (upload_step tag 1 2 e u) [ none ↦ u | some u' ↦ u' ]

abbrev play : List UploadEvent → Upload → Upload
play [] u = u
play (e ∷ es) u = play es (after e u)

-- An upload of three bytes, in two parts.
abbrev at_end : Upload
unfolding start_upload
at_end =
    play
      (reads false
        ∷ takes_work
        ∷ uploads 0
        ∷ reads false
        ∷ sends 0
        ∷ drains
        ∷ takes_work
        ∷ uploads 0
        ∷ sends 0
        ∷ drains
        ∷ leaves
        ∷ completes true
        ∷ [])
      (start_upload 1 (5 ∷ 6 ∷ 7 ∷ []))

both_parts :
    at_end.main ≡ completed (record { num = 1; etag = "t" } ∷ record { num = 2; etag = "t" } ∷ [])
unfolding at_end after
both_parts = refl

-- The only worker fails after the look at the errors: the upload is completed without its part, and
-- without the part that nobody took.
abbrev failed_late : Upload
unfolding start_upload
failed_late =
    play
      (reads false
        ∷ takes_work
        ∷ uploads 0
        ∷ sends 0
        ∷ takes_work
        ∷ reads false
        ∷ takes_work
        ∷ fails 0
        ∷ drains
        ∷ completes true
        ∷ [])
      (start_upload 1 (5 ∷ 6 ∷ 7 ∷ []))

part_missing : failed_late.main ≡ completed (record { num = 1; etag = "t" } ∷ [])
unfolding failed_late after
part_missing = refl

whole-Running : Running tag 1 2 (5 ∷ 6 ∷ 7 ∷ []) at_end
unfolding upload_step read_turn read_part end_reading check_errors take_work leave drain_result
    complete_upload pick sort_parts insert_part start_upload at_end after
whole-Running = goes (completes true) refl (
    goes leaves refl (
      goes drains refl (
        goes (sends 0) refl (
          goes (uploads 0) refl (
            goes takes_work refl (
              goes drains refl (
                goes (sends 0) refl (
                  goes (reads false) refl (
                    goes (uploads 0) refl
                      (goes takes_work refl (goes (reads false) refl begins)))))))))))

Running-parts_example :
    count_if
      (λ (p : Part). p.num == 2)
      (record { num = 1; etag = "t" } ∷ record { num = 2; etag = "t" } ∷ [])
    ≡ count_if
        (λ (w : Work). w.num == 2)
        (record { num = 1; content = 5 ∷ 6 ∷ [] } ∷ record { num = 2; content = 7 ∷ [] } ∷ [])
unfolding at_end after start_upload
Running-parts_example =
    Running-parts tag (λ p. p.num == 2) 1 2 (5 ∷ 6 ∷ 7 ∷ [])
      (record { num = 1; content = 5 ∷ 6 ∷ [] } ∷ record { num = 2; content = 7 ∷ [] } ∷ [])
      (refl, omega arith, (refl, omega arith, refl)) whole-Running refl refl

abbrev seven_bytes : List ℕ
seven_bytes = 1 ∷ 2 ∷ 3 ∷ 4 ∷ 5 ∷ 6 ∷ 7 ∷ []

-- Three parts have been cut off, and there is no room for the fourth.
abbrev stuck : Upload
unfolding start_upload
stuck =
    play
      (reads false
        ∷ takes_work
        ∷ uploads 0
        ∷ sends 0
        ∷ reads false
        ∷ takes_work
        ∷ uploads 0
        ∷ reads false
        ∷ [])
      (start_upload 1 seven_bytes)

stuck-Running : Running tag 1 2 seven_bytes stuck
unfolding upload_step read_turn read_part end_reading check_errors take_work leave drain_result
    complete_upload pick start_upload stuck after
stuck-Running = goes (reads false) refl (
    goes (uploads 0) refl (
      goes takes_work refl (
        goes (reads false) refl (
          goes (sends 0) refl
            (goes (uploads 0) refl (goes takes_work refl (goes (reads false) refl begins)))))))

Running-reading_example : (rest : List ℕ) × (stuck.main ≡ reading rest)
Running-reading_example = Running-reading tag 1 2 seven_bytes (omega arith) stuck-Running
