-- ===== src/Pipeline/Wal/Bytes.antt =====
-- Numbers and their bytes.
use distributed_image_proces.Prelude.{
  ℕ, zero, suc, ◌+◌, ◌*◌, ◌/◌, ◌%◌, ◌≡◌, refl, ◌∙◌, List, [], ◌∷◌, ◌++◌, arith, length,
  length-append,
}
use distributed_image_proces.Pipeline.Wal.{put_uint, get_uint_from, get_uint}

-- The number takes at most `n` bytes.
abbrev pub FitsIn : ℕ → ℕ → Type 0
FitsIn zero v = v ≡ 0
FitsIn (suc n) v = FitsIn n (v / 256)

pub length-put_uint : (n v : ℕ) → length (put_uint n v) ≡ n
unfolding put_uint
length-put_uint zero v = refl
length-put_uint (suc n) v =
    omega
      (arith, length-append (put_uint n (v / 256)) ((v % 256) ∷ []), length-put_uint n (v / 256))

get_uint_from-append :
    (acc b : ℕ) (xs : List ℕ) → get_uint_from acc (xs ++ b ∷ []) ≡ get_uint_from acc xs * 256 + b
unfolding get_uint_from
get_uint_from-append acc b [] = refl
get_uint_from-append acc b (x ∷ xs) = get_uint_from-append (acc * 256 + x) b xs

-- Reading what was written gives the number, if it fits.
pub get_uint-put_uint : (n v : ℕ) → FitsIn n v → get_uint (put_uint n v) ≡ v
unfolding put_uint get_uint
get_uint-put_uint zero v h = rw h refl
get_uint-put_uint (suc n) v h =
    get_uint_from-append 0 (v % 256) (put_uint n (v / 256))
    ∙ omega (arith, get_uint-put_uint n (v / 256) h)
