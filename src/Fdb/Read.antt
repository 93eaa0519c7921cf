-- ===== src/Fdb/Read.antt =====
-- `fdb_read_next`: lines of any length through a buffer that grows. The file is what is left of it to
-- read; `fgets`, `feof` and `strlen` are those of the C library. The loop runs on fuel.
pub mod Lines
use boris.Prelude.{
  Stream, stream, fgets, ℕ, zero, suc, ◌+◌, ◌-◌, ◌*◌, ◌/◌, ◌%◌, ◌^◌, Bool, true, false, not, ◌||◌,
  Option, none, some, List, [], ◌∷◌, ◌++◌, leb, ltb, ◌==◌, if◌then◌else◌, length, Bytes, until_nul,
}
use boris.Fdb.Text.{Parsed, parse_line}

-- `struct fdb_read_handle`, less the name of the file; `line` is a local of the loop
pub record ReadHandle : Type 0 where
  pub stream : Stream
  pub line_number : ℕ
  pub error_fl : Bool
  pub alloc_len : ℕ

pub data Next : Type 0 where
  parsed : Parsed → Next
  stop : Next
  out_of_fuel : Next

-- `strchr(s, '\n')`
unfoldable pub has_newline : Bytes → Bool
has_newline [] = false
has_newline (c ∷ s) = (c == 10) || has_newline s

-- the length that the buffer grows to, in `size_t`
abbrev pub grown_len : ℕ → ℕ
grown_len ofs = (ofs * 2 + 4096 - 1) * 4096 % 2 ^ 64 / 4096

-- what a round of the loop comes to: the call returns, or the loop goes on with the line so far
pub data Round : Type 0 where
  return : Next → ReadHandle → Round
  continue : Bytes → ReadHandle → Round

-- the rest of a round, behind a part of the line that `fgets` has read
unfoldable pub take_part : Bool → Bytes → Bytes → ReadHandle → Round
take_part memory line more h =
    let line' = line ++ more in
    if has_newline more
    then return (parsed (parse_line line')) h
    else if leb h.alloc_len (length line' * 2)
    then if memory
      then continue line' (record h { alloc_len = grown_len (length line') })
      else return stop (record h { error_fl = true })
    else continue line' h

abbrev pub take_result : Bool → Bytes → Option Bytes → ReadHandle → Round
take_result memory line none h =
    return stop (record h { error_fl = h.error_fl || not (length line == 0) })
take_result memory line (some got) h = take_part memory line (until_nul got) h

-- `fgets` takes an `int` for its size: a `size_t` is cut to 32 bits, and for a negative size there is no line
abbrev pub fgets_size : ℕ → Stream → Option Bytes × Stream
fgets_size size st = if ltb (size % 2 ^ 32) (2 ^ 31) then fgets (size % 2 ^ 32) st else (none, st)

-- a round of the loop of `fdb_read_next`; `line` is what stands in the buffer, and `memory` says
-- whether `realloc` succeeds
unfoldable pub read_round : Bool → Bytes → ReadHandle → Round
read_round memory line h =
    let (res, left) = fgets_size (h.alloc_len - length line) h.stream in
    if h.stream.eof then return stop h else take_result memory line res (record h { stream = left })

unfoldable pub read_loop : ℕ → Bool → Bytes → ReadHandle → Next × ReadHandle
read_loop zero memory line h = (out_of_fuel, h)
read_loop (suc fuel) memory line h = elim (read_round memory line h) [
  | return n h' ↦ (n, h')
  | continue line' h' ↦ read_loop fuel memory line' h'
]

-- `fdb_read_next`
unfoldable pub read_next : ℕ → Bool → ReadHandle → Next × ReadHandle
read_next fuel memory h = read_loop fuel memory [] (record h { line_number = h.line_number + 1 })

-- the handle that `fdb_read_begin` makes for a file that it can open
abbrev pub read_begin : Bytes → ReadHandle
read_begin file = record {
  stream = stream file false;
  line_number = 0;
  error_fl = false;
  alloc_len = 4;
}

-- `fdb_read_end`: true for success
pub read_end : ReadHandle → Bool
read_end h = if h.error_fl then false else true
