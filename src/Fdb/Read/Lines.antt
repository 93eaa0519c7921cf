-- ===== src/Fdb/Read/Lines.antt =====
-- `fdb_read_next` hands over whole lines.
use boris.Prelude.{
  Stream, stream, fgets_bytes, got_bytes, fgets, ◌||◌, ℕ, zero, suc, ◌+◌, ◌-◌, ◌*◌, ◌%◌, ◌^◌, ◌≤◌,
  ◌<◌, ◌≡◌, ◌≢◌, refl, ap, ◌∙◌, true, false, some, [], ◌∷◌, ◌++◌, append_assoc, append-nil, arith,
  length, length-append, length-take, length-drop, take-append-drop, sym, take, drop, All, Bytes,
  until_nul, Bool-cases, if◌then◌else◌, leb, ltb, inl, inr,
}
use boris.Fdb.Text.{parse_line}
use boris.Fdb.Read.{
  stop, read_end, ReadHandle, parsed, has_newline, read_loop, read_next, grown_len, return,
  continue, take_part, read_round, fgets_size,
}

-- a line's text: neither NUL nor a newline in it
abbrev pub IsLine : Bytes → Type 0
IsLine = All (λ c. (0 < c) × (c ≢ 10))

fgets_bytes_short :
    (k : ℕ) (line more : Bytes)
    → length line < k
    → IsLine line
    → fgets_bytes k (line ++ (10 ∷ more)) ≡ (line ++ (10 ∷ []), stream more false)
unfolding fgets_bytes
fgets_bytes_short zero line more h v = absurd (omega arith)
fgets_bytes_short (suc k) [] more h v = refl
fgets_bytes_short (suc k) (c ∷ line) more h v =
    ground (arith, fgets_bytes_short k line more (omega arith) v.1)

fgets_bytes_long :
    (k : ℕ) (line more : Bytes)
    → k ≤ length line
    → IsLine line
    → fgets_bytes k (line ++ (10 ∷ more)) ≡ (take k line, stream (drop k line ++ (10 ∷ more)) false)
unfolding fgets_bytes
fgets_bytes_long zero line more h v = refl
fgets_bytes_long (suc k) [] more h v = absurd (omega arith)
fgets_bytes_long (suc k) (c ∷ line) more h v =
    ground (arith, fgets_bytes_long k line more (omega arith) v.1)

until_nul_line : (line t : Bytes) → IsLine line → until_nul (line ++ t) ≡ line ++ until_nul t
unfolding until_nul
until_nul_line [] t v = refl
until_nul_line (c ∷ line) t v = ground (arith, until_nul_line line t v.1)

has_newline_line : (line t : Bytes) → IsLine line → has_newline (line ++ t) ≡ has_newline t
unfolding has_newline
has_newline_line [] t v = refl
has_newline_line (c ∷ line) t v = ground (arith, has_newline_line line t v.1)

take-IsLine : (k : ℕ) (line : Bytes) → IsLine line → IsLine (take k line)
take-IsLine zero line v = tt
take-IsLine (suc k) [] v = tt
take-IsLine (suc k) (c ∷ line) v = (v.0, take-IsLine k line v.1)

drop-IsLine : (k : ℕ) (line : Bytes) → IsLine line → IsLine (drop k line)
drop-IsLine zero line v = v
drop-IsLine (suc k) [] v = tt
drop-IsLine (suc k) (c ∷ line) v = drop-IsLine k line v.1

got_bytes-some : (got : Bytes) (st : Stream) → 0 < length got → got_bytes got st ≡ some got
got_bytes-some [] st h = absurd (omega arith)
got_bytes-some (c ∷ got) st h = refl

fgets_short :
    (n : ℕ) (line more : Bytes)
    → length line < n - 1
    → IsLine line
    → fgets n (stream (line ++ (10 ∷ more)) false) ≡ (some (line ++ (10 ∷ [])), stream more false)
unfolding fgets
fgets_short n line more h v = rw (fgets_bytes_short (n - 1) line more h v) (
    ap (λ g. (g, stream more false))
      (got_bytes-some (line ++ (10 ∷ [])) _ (omega (arith, length-append line (10 ∷ [])))))

fgets_long :
    (n : ℕ) (line more : Bytes)
    → 0 < n - 1
    → n - 1 ≤ length line
    → IsLine line
    → fgets n (stream (line ++ (10 ∷ more)) false)
      ≡ (some (take (n - 1) line), stream (drop (n - 1) line ++ (10 ∷ more)) false)
unfolding fgets
fgets_long n line more p h v = rw (fgets_bytes_long (n - 1) line more h v) (
    ap (λ g. (g, stream (drop (n - 1) line ++ (10 ∷ more)) false))
      (got_bytes-some (take (n - 1) line) _ (omega (arith, length-take (n - 1) line))))

abbrev at_line : Bytes → Bytes → Stream
at_line line more = stream (line ++ (10 ∷ more)) false

-- the handle with another place in the file and another size of the buffer
abbrev pub moved : ReadHandle → Stream → ℕ → ReadHandle
moved h st n = record h { stream = st; alloc_len = n }

until_nul_end : (line : Bytes) → IsLine line → until_nul (line ++ (10 ∷ [])) ≡ line ++ (10 ∷ [])
unfolding until_nul
until_nul_end line v = until_nul_line line (10 ∷ []) v

has_newline_end : (line : Bytes) → IsLine line → has_newline (line ++ (10 ∷ [])) ≡ true
unfolding has_newline
has_newline_end line v = has_newline_line line (10 ∷ []) v

until_nul_part : (line : Bytes) → IsLine line → until_nul line ≡ line
unfolding until_nul
until_nul_part line v = rw append-nil at (until_nul_line line [] v)

has_newline_part : (line : Bytes) → IsLine line → has_newline line ≡ false
unfolding has_newline
has_newline_part line v = rw append-nil at (has_newline_line line [] v)

-- a size that an `int` holds is handed over as it is
fgets_size_lem : (n : ℕ) (st : Stream) → n < 2 ^ 31 → fgets_size n st ≡ fgets n st
fgets_size_lem n st h =
    let same : n % 2 ^ 32 ≡ n = omega (arith, h) in
    let fits : ltb n (2 ^ 31) ≡ true = ground (arith, h) in rw (same, fits) refl

-- the rest of the line fits the buffer
round_short :
    (done line more : Bytes) (h : ReadHandle) (n : ℕ)
    → IsLine line
    → n < 2 ^ 31
    → length done + length line + 2 ≤ n
    → read_round true done (moved h (at_line line more) n)
      ≡ return (parsed (parse_line (done ++ (line ++ (10 ∷ []))))) (moved h (stream more false) n)
unfolding read_round take_part
round_short done line more h n v small room = rw (
  fgets_size_lem (n - length done) (at_line line more) (omega (arith, small)),
  fgets_short (n - length done) line more (omega arith) v,
  until_nul_end line v,
  has_newline_end line v,
)

-- the size of the buffer behind a round that filled it
abbrev next_len : ℕ → ℕ → ℕ
next_len n ofs = if leb n (ofs * 2) then grown_len ofs else n

-- the rest of the line does not fit
round_long :
    (done line more : Bytes) (h : ReadHandle) (n : ℕ)
    → IsLine line
    → n < 2 ^ 31
    → length done + 2 ≤ n
    → n < length done + length line + 2
    → let k = n - length done - 1 in
      read_round true done (moved h (at_line line more) n)
      ≡ continue
          (done ++ take k line)
          (moved h (at_line (drop k line) more) (next_len n (length (done ++ take k line))))
unfolding read_round take_part
round_long done line more h n v small room tight =
    let k = n - length done - 1 in
    rw
      (
        fgets_size_lem (n - length done) (at_line line more) (omega (arith, small)),
        fgets_long (n - length done) line more (omega arith) (omega arith) v,
        until_nul_part (take k line) (take-IsLine k line v),
        has_newline_part (take k line) (take-IsLine k line v),
      )
      (ground arith)

-- The buffer grows by enough for the next round.
next_len-room : (n ofs : ℕ) → ofs + 1 ≡ n → 2 ≤ n → ofs < 2 ^ 50 → ofs + 2 ≤ next_len n ofs
next_len-room n ofs e h small = ground arith

-- and it stays below what an `int` holds
next_len-small : (n ofs : ℕ) → n < 2 ^ 31 → ofs < 2 ^ 30 - 4096 → next_len n ofs < 2 ^ 31
next_len-small n ofs h small = ground arith

regroup :
    (k : ℕ) (done line t : Bytes)
    → (done ++ take k line) ++ (drop k line ++ t) ≡ done ++ (line ++ t)
regroup k done line t =
    append_assoc done (take k line) (drop k line ++ t)
    ∙ ap (λ s. done ++ s) (sym (append_assoc (take k line) (drop k line) t))
    ∙ ap (λ s. done ++ (s ++ t)) (take-append-drop k line)

read_loop_line :
    (fuel : ℕ) (done line more : Bytes) (h : ReadHandle) (n : ℕ)
    → length line < fuel
    → IsLine line
    → length done + 2 ≤ n
    → n < 2 ^ 31
    → length done + length line < 2 ^ 30 - 4096
    → (n' : ℕ) × (read_loop fuel true done (moved h (at_line line more) n)
        ≡ (parsed (parse_line (done ++ (line ++ (10 ∷ [])))), moved h (stream more false) n'))
      × (2 ≤ n')
      × (n' < 2 ^ 31)
unfolding read_loop
read_loop_line zero done line more h n f v room int small = absurd (omega arith)
read_loop_line (suc fuel) done line more h n f v room int small =
    elim (Bool-cases (leb (length done + length line + 2) n)) [
      | inl fits ↦
          (n, rw (round_short done line more h n v int (ground arith), read_loop), omega arith, int)
      | inr tight ↦
          let k = n - length done - 1 in
          let below : n < length done + length line + 2 = ground arith in
          let part : length (take k line) ≡ k = omega (arith, length-take k line) in
          let size : length (done ++ take k line) + 1 ≡ n =
            omega (arith, length-append done (take k line)) in
          let left : length (drop k line) ≡ length line - k = length-drop k line in
          let (n', run, ok, int') =
            read_loop_line fuel (done ++ take k line) (drop k line) more h
              (next_len n (length (done ++ take k line))) (omega arith) (drop-IsLine k line v)
              (next_len-room n _ size (omega arith) (omega arith))
              (next_len-small n _ int (omega arith)) (omega arith) in
          (
            n',
            rw (round_long done line more h n v int room below, read_loop)
                (rw (regroup k done line (10 ∷ [])) at run),
            ok,
            int',
          )
    ]

-- A call of `fdb_read_next` on a handle in front of a line of less than 2 ^ 30 - 4096 bytes, with a buffer
-- below 2 ^ 31 bytes and memory for it: given as many rounds as the line has bytes and one more, it hands the whole line to
-- `fdb_parse_line`, however the buffer cuts it, and leaves the handle in front of the next line, with such a buffer.
pub read_next_line :
    (fuel : ℕ) (line more : Bytes) (h : ReadHandle)
    → length line < fuel
    → length line < 2 ^ 30 - 4096
    → IsLine line
    → h.stream ≡ stream (line ++ (10 ∷ more)) false
    → 2 ≤ h.alloc_len
    → h.alloc_len < 2 ^ 31
    → (n' : ℕ) × (read_next fuel true h ≡ (
      parsed (parse_line (line ++ (10 ∷ []))),
      record h { stream = stream more false; alloc_len = n'; line_number = h.line_number + 1 },
    ))
      × (2 ≤ n')
      × (n' < 2 ^ 31)
unfolding read_next
read_next_line fuel line more h f small v at room int = rw (← at) at (
    read_loop_line fuel [] line more (record h { line_number = h.line_number + 1 }) h.alloc_len f v
      room int (omega arith))

fgets_bytes_end : (k : ℕ) → 0 < k → fgets_bytes k [] ≡ ([], stream [] true)
unfolding fgets_bytes
fgets_bytes_end zero h = absurd (omega arith)
fgets_bytes_end (suc k) h = refl

round_end :
    (h : ReadHandle) (n : ℕ)
    → 2 ≤ n
    → n < 2 ^ 31
    → read_round true [] (moved h (stream [] false) n)
      ≡ return stop (record (moved h (stream [] true) n) { error_fl = h.error_fl || false })
unfolding read_round fgets
round_end h n room int = rw (
  fgets_size_lem (n - 0) (stream [] false) (omega (arith, int)),
  fgets_bytes_end (n - 0 - 1) (omega arith),
)

-- At the end of the file a call of `fdb_read_next` returns 0 and flags no error.
pub read_next_end :
    (fuel : ℕ) (h : ReadHandle)
    → 0 < fuel
    → h.stream ≡ stream [] false
    → 2 ≤ h.alloc_len
    → h.alloc_len < 2 ^ 31
    → ((read_next fuel true h).0 ≡ stop) × ((read_next fuel true h).1.error_fl ≡ h.error_fl)
unfolding read_next read_loop
read_next_end zero h f at room int = absurd (omega arith)
read_next_end (suc fuel) h f at room int =
    let started = record h { line_number = h.line_number + 1 } in
    let round = rw (← at) at (round_end started h.alloc_len room int) in
    rw (round, read_loop) (refl, ground arith)

-- `fdb_read_end` reports success for a handle with no error.
pub read_end_lem : (h : ReadHandle) → h.error_fl ≡ false → read_end h ≡ true
unfolding read_end
read_end_lem h e = rw e
