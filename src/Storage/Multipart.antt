-- ===== src/Storage/Multipart.antt =====
-- internal/storage/multipart.go: MultipartUpload. Its goroutines take their steps in any order; the
-- store is the parameter `put_part`, the tag that it answers a part with, and the events that let a call
-- fail. Part numbers are left unbounded, the
-- chunk size is above 0 (at 0 the source reads for ever), and the texts of errors are left out.
pub mod Capacity
pub mod Crew
pub mod Pieces
pub mod Parts
mod Tests
use distributed_image_proces.Prelude.{
  ◌>>=◌, ◌≡◌, ℕ, zero, suc, ◌+◌, String, Bool, true, false, Option, none, some, List, [], ◌∷◌, ◌++◌,
  ltb, leb, if◌then◌else◌, length, take, drop,
}

pub record Work : Type 0 where
  pub num : ℕ
  pub content : List ℕ

pub record Part : Type 0 where
  pub num : ℕ
  pub etag : String

-- Where the calling goroutine stands: it cuts the bytes that are left into parts, it drains the results,
-- or it has returned: with the parts of the completed upload, or after an abort.
pub data Main : Type 0 where
  reading : List ℕ → Main
  draining : List Part → Main
  completed : List Part → Main
  aborted : Main

-- The two channels of work and of results, and the workers: those that wait for work, that upload a
-- part, that have a result to send, and that have sent an error and returned.
pub record Upload : Type 0 where
  pub main : Main
  pub part_num : ℕ
  pub work_ch : List Work
  pub result_ch : List Part
  pub idle : ℕ
  pub uploading : List Work
  pub sending : List Part
  pub failed : ℕ

-- The start, with the bytes that the reader has.
unfoldable pub start_upload : ℕ → List ℕ → Upload
start_upload concurrency bytes = record {
  main = reading bytes;
  part_num = 1;
  work_ch = [];
  result_ch = [];
  idle = concurrency;
  uploading = [];
  sending = [];
  failed = 0;
}

-- One element of a list, and the others.
unfoldable pub pick {ℓ} : {A : Type ℓ} → ℕ → List A → Option (A × List A)
pick i [] = none
pick zero (x ∷ xs) = some (x, xs)
pick (suc i) (x ∷ xs) = do r ← pick i xs; some (r.0, x ∷ r.1)

unfoldable pub insert_part : Part → List Part → List Part
insert_part p [] = p ∷ []
insert_part p (q ∷ qs) =
    let rest = insert_part p qs in if leb p.num q.num then p ∷ q ∷ qs else q ∷ rest

-- The sort of the parts.
unfoldable pub sort_parts : List Part → List Part
unfolding insert_part
sort_parts [] = []
sort_parts (p ∷ ps) = insert_part p (sort_parts ps)

-- The steps. `reads` is a turn of the caller's loop, which fails at the end of the bytes if its flag is
-- set, `checks` its look at the errors, `drains` a turn of the last loop, and `completes` the end of it,
-- with the answer of the store. A worker takes work, has a call of UploadPart succeed or fail, sends its
-- result, or leaves when the channel of work is closed.
pub data UploadEvent : Type 0 where
  reads : Bool → UploadEvent
  drains takes_work leaves : UploadEvent
  uploads fails sends : ℕ → UploadEvent
  completes : Bool → UploadEvent

-- After the loop: the look at errCh, which does not wait for the workers.
unfoldable pub check_errors : Upload → Upload
check_errors u =
    if ltb 0 u.failed then record u { main = aborted } else record u { main = draining [] }

-- The end of the input: an error of the reader aborts.
unfoldable pub end_reading : Bool → Upload → Upload
unfolding check_errors
end_reading broken u = if broken then record u { main = aborted } else check_errors u

-- A part is sent to the workers.
abbrev pub send_work : List ℕ → Upload → Upload
send_work chunk u = record u {
  work_ch = u.work_ch ++ record { num = u.part_num; content = chunk } ∷ [];
  part_num = u.part_num + 1;
}

-- A turn of the loop, on what ReadFull gives: the send waits for room in the channel.
unfoldable pub read_part : ℕ → ℕ → Bool → List ℕ → Upload → Option Upload
unfolding end_reading
read_part concurrency chunk_size broken [] u = some (end_reading broken u)
read_part concurrency chunk_size broken (b ∷ bs) u =
    let bytes = b ∷ bs in
    let u' = send_work (take chunk_size bytes) u in
    if ltb (length u.work_ch) concurrency
    then (if ltb (length bytes) chunk_size
        then some (end_reading broken u')
        else some (record u' { main = reading (drop chunk_size bytes) }))
    else none

unfoldable pub read_turn : ℕ → ℕ → Bool → Main → Upload → Option Upload
unfolding read_part
read_turn concurrency chunk_size broken (reading bytes) u =
    read_part concurrency chunk_size broken bytes u
read_turn concurrency chunk_size broken (draining ps) u = none
read_turn concurrency chunk_size broken (completed ps) u = none
read_turn concurrency chunk_size broken aborted u = none

-- A worker, at the channel of work.
unfoldable pub take_work : ℕ → List Work → Upload → Option Upload
take_work zero ws u = none
take_work (suc n) [] u = none
take_work (suc n) (w ∷ ws) u =
    some (record u { idle = n; work_ch = ws; uploading = w ∷ u.uploading })

-- The channel of work is closed once the caller has left its loop.
abbrev pub is_reading : Main → Bool
is_reading (reading bytes) = true
is_reading (draining ps) = false
is_reading (completed ps) = false
is_reading aborted = false

unfoldable pub leave : ℕ → List Work → Upload → Option Upload
leave zero ws u = none
leave (suc n) (w ∷ ws) u = none
leave (suc n) [] u = if is_reading u.main then none else some (record u { idle = n })

unfoldable pub drain_result : Main → List Part → Upload → Option Upload
drain_result (reading bytes) rs u = none
drain_result (draining ps) [] u = none
drain_result (draining ps) (r ∷ rs) u =
    some (record u { main = draining (ps ++ r ∷ []); result_ch = rs })
drain_result (completed ps) rs u = none
drain_result aborted rs u = none

-- No worker is left, so that the channel of results is closed, and it is empty.
abbrev pub drained : Upload → Bool
drained u = ltb (u.idle + length u.uploading + length u.sending + length u.result_ch) 1

-- CompleteMultipartUpload, and its error.
unfoldable pub complete_upload : Bool → Main → Upload → Option Upload
unfolding sort_parts
complete_upload accepted (reading bytes) u = none
complete_upload accepted (draining ps) u =
    if drained u
    then some (record u { main = if accepted then completed (sort_parts ps) else aborted })
    else none
complete_upload accepted (completed ps) u = none
complete_upload accepted aborted u = none

module _ (put_part : Work → String) where
  -- The result of an upload.
  abbrev pub part_of : Work → Part
  part_of w = record { num = w.num; etag = put_part w }

  unfoldable pub upload_step : ℕ → ℕ → UploadEvent → Upload → Option Upload
  unfolding read_turn take_work leave drain_result complete_upload pick
  upload_step concurrency chunk_size (reads broken) u =
      read_turn concurrency chunk_size broken u.main u
  upload_step concurrency chunk_size drains u = drain_result u.main u.result_ch u
  upload_step concurrency chunk_size takes_work u = take_work u.idle u.work_ch u
  upload_step concurrency chunk_size leaves u = leave u.idle u.work_ch u
  upload_step concurrency chunk_size (uploads i) u = do
    r ← pick i u.uploading
    some (record u { uploading = r.1; sending = part_of r.0 ∷ u.sending })
  upload_step concurrency chunk_size (fails i) u = do
    r ← pick i u.uploading
    some (record u { uploading = r.1; failed = u.failed + 1 })
  upload_step concurrency chunk_size (sends i) u =
      if ltb (length u.result_ch) concurrency
      then (do
        r ← pick i u.sending
        some (record u { sending = r.1; result_ch = u.result_ch ++ r.0 ∷ []; idle = u.idle + 1 }))
      else none
  upload_step concurrency chunk_size (completes accepted) u = complete_upload accepted u.main u

  -- The states of an upload of some bytes.
  pub data Running (concurrency chunk_size : ℕ) (bytes : List ℕ) : Upload → Type 0 where
    begins : Running concurrency chunk_size bytes (start_upload concurrency bytes)
    goes :
        {u u' : Upload} (e : UploadEvent)
        → upload_step concurrency chunk_size e u ≡ some u'
        → Running concurrency chunk_size bytes u
        → Running concurrency chunk_size bytes u'
