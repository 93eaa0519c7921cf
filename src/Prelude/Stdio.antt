-- ===== src/Prelude/Stdio.antt =====
-- Reading a file of the C library by lines; the file is what is left of it to read.
use Prim.Native.Nat.{ℕ, zero, suc, ◌-◌}
use mathlib.Core.Bool.{Bool, true, false}
use mathlib.Core.Option.{Option, none, some}
use mathlib.Core.List.{[], ◌∷◌}
use boris.Prelude.Tests.{◌==◌, if◌then◌else◌}
use boris.Prelude.Ctype.{Bytes}

-- `FILE *`
pub record Stream : Type 0 where
  pub rest : Bytes
  pub eof : Bool

abbrev pub stream : Bytes → Bool → Stream
stream s e = record { rest = s; eof = e }

-- at most `k` bytes, up to a newline; whether the end of the file was met comes last
unfoldable pub fgets_bytes : ℕ → Bytes → Bytes × Stream
fgets_bytes zero s = ([], stream s false)
fgets_bytes (suc k) [] = ([], stream [] true)
fgets_bytes (suc k) (c ∷ s) =
    let (got, left) = fgets_bytes k s in
    if c == 10 then (c ∷ [], stream s false) else (c ∷ got, left)

abbrev pub got_bytes : Bytes → Stream → Option Bytes
got_bytes [] st = if st.eof then none else some []
got_bytes (c ∷ got) st = some (c ∷ got)

-- `fgets(buf, n, f)`; `none` is NULL
unfoldable pub fgets : ℕ → Stream → Option Bytes × Stream
fgets n st = let (got, left) = fgets_bytes (n - 1) st.rest in (got_bytes got left, left)
