-- ===== src/Storage/Shard.antt =====
-- internal/storage/shard.go: the names of the 256 shards.
use Prim.Native.String.{◌++◌ as append}
use mathlib.Core.List.{flat_map}
use distributed_image_proces.Prelude.{String, List, [], ◌∷◌, map}

abbrev hex_digits : List String
hex_digits =
    "0" ∷ "1" ∷ "2" ∷ "3" ∷ "4" ∷ "5" ∷ "6" ∷ "7" ∷ "8" ∷ "9" ∷ "a" ∷ "b" ∷ "c" ∷ "d" ∷ "e" ∷ "f"
    ∷ []

-- AllShards: "%02x" of every number below 256.
unfoldable pub all_shards : List String
all_shards = flat_map (λ high. map (λ low. append high low) hex_digits) hex_digits
