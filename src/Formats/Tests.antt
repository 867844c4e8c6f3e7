-- ===== src/Formats/Tests.antt =====
-- Streams of two records, and the theorems at them.
use distributed_image_proces.Prelude.{ℕ, ◌≡◌, refl, List, [], ◌∷◌, ◌++◌, length, take, arith}
use distributed_image_proces.Formats.TfRecord.{
  new_tf_record_writer, encode, read, read_checked, read_payload, read_foot, checksum, put_le,
  get_le, mask_crc, found, failed, short_crc,
}
use distributed_image_proces.Formats.TfRecord.Cuts.{
  read_all, write_all, Recovered, write_all-Recovered,
}

-- A checksum function: the length.
abbrev toy_crc : List ℕ → ℕ
toy_crc bytes = length bytes

reads_first : read toy_crc (encode toy_crc (7 ∷ 9 ∷ []) ++ 1 ∷ []) ≡ found (7 ∷ 9 ∷ []) (1 ∷ [])
unfolding read read_checked read_payload read_foot encode checksum put_le get_le mask_crc
reads_first = refl

loses_tail : read toy_crc (take 17 (encode toy_crc (7 ∷ 9 ∷ []))) ≡ failed short_crc
unfolding read read_checked read_payload read_foot encode checksum put_le get_le mask_crc
loses_tail = refl

abbrev two_payloads : List (List ℕ)
two_payloads = (7 ∷ 9 ∷ []) ∷ (4 ∷ []) ∷ []

write_all-Recovered_example :
    Recovered toy_crc two_payloads 20
      (read_all toy_crc 3 (take 20 (write_all toy_crc two_payloads new_tf_record_writer).out))
write_all-Recovered_example =
    write_all-Recovered toy_crc two_payloads 20 (omega arith, (omega arith, tt))
