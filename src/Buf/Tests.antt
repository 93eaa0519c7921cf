-- ===== src/Buf/Tests.antt =====
-- The buffer on concrete data, with a `realloc` that fills with zeros.
use boris.Prelude.{
  ℕ, zero, suc, ◌-◌, ◌≤◌, ◌≡◌, refl, sym, ap, ◌∙◌, false, Option, none, some, [], ◌∷◌, ◌++◌, arith,
  length, length-append, length-take, length-replicate, take, replicate, Bytes, codes,
}
use boris.Buf.{Buf, buf_write}
use boris.Buf.Queue.{IsBuf, IsRealloc}
use boris.Buf.Write.{IsWritten, buf_write_correct}

abbrev zeros : Bytes → ℕ → Option Bytes
zeros d n = some (take n d ++ replicate (n - length d) 0)

abbrev block_of : Option Bytes → Bytes
block_of none = []
block_of (some p) = p

take-fill : (k n : ℕ) (d ys : Bytes) → k ≤ length d → k ≤ n → take k (take n d ++ ys) ≡ take k d
take-fill zero n d ys h l = refl
take-fill (suc k) zero d ys h l = absurd (omega arith)
take-fill (suc k) (suc n) [] ys h l = absurd (omega arith)
take-fill (suc k) (suc n) (x ∷ d) ys h l =
    ap (◌∷◌ x) (take-fill k n d ys (omega arith) (omega arith))

zeros-IsRealloc : IsRealloc zeros
zeros-IsRealloc = record {
  size = λ d n p e.
      ap (λ o. length (block_of o)) (sym e)
      ∙ omega (
        arith,
        length-append (take n d) (replicate (n - length d) 0),
        length-take n d,
        length-replicate {A = ℕ} (n - length d) 0,
      );
  kept = λ d n p k e h l.
      ap (λ o. take k (block_of o)) (sym e) ∙ take-fill k n d (replicate (n - length d) 0) h l;
}

-- `abc` in a block of 4 bytes
abbrev sample : Buf
sample = record { error_flag = false; length = 3; capacity = 4; limit = 0; bytes = codes "abcx" }

sample-IsBuf : IsBuf sample
sample-IsBuf = record { block = refl; room = omega arith; small = omega arith }

buf_write_correct_example :
    (b' : Buf) × (buf_write zeros sample (codes "def") ≡ some b')
    × IsBuf b'
    × IsWritten sample (codes "def") b'
buf_write_correct_example =
    buf_write_correct zeros sample (codes "def") zeros-IsRealloc sample-IsBuf refl (omega arith)
