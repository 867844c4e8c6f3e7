-- ===== src/Formats/TfRecord.antt =====
-- internal/formats/tfrecord.go: the writer and the reader of TFRecord streams. A byte slice is a list
-- of numbers below 256, hash/crc32 is the parameter `crc`, and a stream that is read is what is left
-- of it. The writer under TFRecordWriter takes every byte; its errors are left out, as is the panic of
-- make at a length that memory cannot hold.
pub mod RoundTrip
pub mod Cuts
use Prim.Native.Nat.{bit_or}
use distributed_image_proces.Prelude.{
  ℕ, zero, suc, ◌+◌, ◌*◌, ◌/◌, ◌%◌, ◌^◌, List, [], ◌∷◌, ◌++◌, ltb, ◌==◌, if◌then◌else◌, length,
  take, drop,
}

-- `PutUint32` and `PutUint64` of encoding/binary's LittleEndian, at `n` of 4 and 8: the low byte first.
unfoldable pub put_le : ℕ → ℕ → List ℕ
put_le zero v = []
put_le (suc n) v = (v % 256) ∷ put_le n (v / 256)

unfoldable pub get_le : List ℕ → ℕ
get_le [] = 0
get_le (b ∷ bs) = b + 256 * get_le bs

-- maskCRC, on uint32.
unfoldable pub mask_crc : ℕ → ℕ
mask_crc c = (bit_or (c / 2 ^ 15) (c * 2 ^ 17 % 2 ^ 32) + 0xa282ead8) % 2 ^ 32

-- TFRecordWriter, with the bytes that it has written.
pub record TfRecordWriter : Type 0 where
  pub out : List ℕ
  pub count : ℕ

unfoldable pub new_tf_record_writer : TfRecordWriter
new_tf_record_writer = record { out = []; count = 0 }

-- The errors of Read.
pub data Fault : Type 0 where
  short_header length_crc short_payload short_crc data_crc : Fault

-- What Read returns: a record, with the rest of the stream, io.EOF, or another error.
pub data ReadResult : Type 0 where
  found : List ℕ → List ℕ → ReadResult
  eof : ReadResult
  failed : Fault → ReadResult

module _ (crc : List ℕ → ℕ) where
  unfoldable pub checksum : List ℕ → ℕ
  unfolding mask_crc
  checksum bytes = mask_crc (crc bytes)

  -- What Write writes: the length, its checksum, the payload and the payload's checksum.
  unfoldable pub encode : List ℕ → List ℕ
  unfolding put_le checksum
  encode payload =
      let size = put_le 8 (length payload % 2 ^ 64) in
      size ++ (put_le 4 (checksum size) ++ (payload ++ put_le 4 (checksum payload)))

  -- Write
  unfoldable pub write : List ℕ → TfRecordWriter → TfRecordWriter
  unfolding encode
  write payload t = record { out = t.out ++ encode payload; count = t.count + 1 }

  -- Read from the checksum behind the payload on.
  unfoldable pub read_foot : List ℕ → List ℕ → ReadResult
  unfolding get_le checksum
  read_foot payload rest =
      if ltb (length rest) 4
      then failed short_crc
      else if checksum payload == get_le (take 4 rest)
      then found payload (drop 4 rest)
      else failed data_crc

  -- Read from the payload on.
  unfoldable pub read_payload : ℕ → List ℕ → ReadResult
  unfolding read_foot
  read_payload n rest =
      if ltb (length rest) n then failed short_payload else read_foot (take n rest) (drop n rest)

  -- Read once the header is there.
  unfoldable pub read_checked : List ℕ → List ℕ → List ℕ → ReadResult
  unfolding get_le checksum read_payload
  read_checked size want rest =
      if checksum size == get_le want then read_payload (get_le size) rest else failed length_crc

  -- Read
  unfoldable pub read : List ℕ → ReadResult
  unfolding read_checked
  read [] = eof
  read (b ∷ bs) =
      let bytes = b ∷ bs in
      if ltb (length bytes) 12
      then failed short_header
      else read_checked (take 8 bytes) (take 4 (drop 8 bytes)) (drop 4 (drop 8 bytes))
