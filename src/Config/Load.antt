-- ===== src/Config/Load.antt =====
-- `config_load` on a file of lines: each line is read whole, in order, until a callback fails.
use mathlib.Core.Path.{fun_ext}
use boris.Prelude.{
  ℕ, zero, suc, ◌+◌, ◌<◌, ◌≡◌, ◌≢◌, ◌∙◌, refl, ap, Bool, true, false, some, List, [], ◌∷◌, ◌++◌,
  arith, Bytes, All, until_nul, stream, fgets, fgets_bytes, length, length-append,
}
use boris.Config.{
  Directive, read_directive, Watcher, apply_directive, load_loop, read_round, next_line,
  config_load,
}

-- a line of a file, less its newline, that the buffer of `config_load` holds
abbrev pub IsLine : Bytes → Type 0
IsLine line = All (λ c. (c ≢ 0) × (c ≢ 10)) line × (length line < 1023)

-- the bytes of a file of lines
pub file_of : List Bytes → Bytes
file_of [] = []
file_of (line ∷ lines) = line ++ 10 ∷ file_of lines

fgets_bytes-line :
    (k : ℕ) (line rest : Bytes)
    → All (λ c. (c ≢ 0) × (c ≢ 10)) line
    → length line < k
    → fgets_bytes k (line ++ 10 ∷ rest) ≡ (line ++ 10 ∷ [], stream rest false)
unfolding fgets_bytes
fgets_bytes-line zero line rest h l = absurd (omega arith)
fgets_bytes-line (suc k) [] rest h l = refl
fgets_bytes-line (suc k) (c ∷ line) rest h l =
    ground (arith, fgets_bytes-line k line rest (h.1) (omega arith))

fgets-line :
    (line rest : Bytes)
    → IsLine line
    → fgets 1024 (stream (line ++ 10 ∷ rest) false) ≡ (some (line ++ 10 ∷ []), stream rest false)
unfolding fgets
fgets-line [] rest h = rw (fgets_bytes-line 1023 [] rest (h.0) (h.1)) refl
fgets-line (c ∷ line) rest h = rw (fgets_bytes-line 1023 (c ∷ line) rest (h.0) (h.1)) refl

until_nul-line :
    (line : Bytes)
    → All (λ c. (c ≢ 0) × (c ≢ 10)) line
    → until_nul (line ++ 10 ∷ []) ≡ line ++ 10 ∷ []
unfolding until_nul
until_nul-line [] h = refl
until_nul-line (c ∷ line) h = ground (arith, until_nul-line line (h.1))

module _ {S : Type 0} where
  -- the directives of a file, one after the other, until one fails
  unfoldable pub apply_all : List (Watcher S) → List Directive → S → Bool × S
  apply_all watchers [] s = (true, s)
  apply_all watchers (d ∷ ds) s = next_line (apply_all watchers ds) (apply_directive watchers d s)

unfoldable pub directives : List Bytes → List Directive
directives [] = []
directives (line ∷ lines) = read_directive (line ++ 10 ∷ []) ∷ directives lines

load_round :
    {S : Type 0} (rounds : ℕ) (watchers : List (Watcher S)) (line rest : Bytes) (s : S)
    → IsLine line
    → load_loop (suc rounds) watchers (stream (line ++ 10 ∷ rest) false) s
      ≡ next_line
          (load_loop rounds watchers (stream rest false))
          (apply_directive watchers (read_directive (line ++ 10 ∷ [])) s)
unfolding load_loop
load_round rounds watchers line rest s h =
    ap (λ got. read_round watchers (load_loop rounds watchers) got s) (fgets-line line rest h)
    ∙ ap
        (λ buf.
          next_line (load_loop rounds watchers (stream rest false))
            (apply_directive watchers (read_directive buf) s))
        (until_nul-line line (h.0))

load_end :
    {S : Type 0} (rounds : ℕ) (watchers : List (Watcher S)) (s : S)
    → load_loop (suc rounds) watchers (stream [] false) s ≡ (true, s)
unfolding load_loop fgets fgets_bytes
load_end rounds watchers s = refl

load_lines :
    {S : Type 0} (rounds : ℕ) (watchers : List (Watcher S)) (lines : List Bytes) (s : S)
    → All IsLine lines
    → length (file_of lines) < rounds
    → load_loop rounds watchers (stream (file_of lines) false) s
      ≡ apply_all watchers (directives lines) s
unfolding apply_all directives file_of
load_lines zero watchers lines s h l = absurd (omega arith)
load_lines (suc rounds) watchers [] s h l = load_end rounds watchers s
load_lines (suc rounds) watchers (line ∷ lines) s h l =
    let shorter : length (file_of lines) < rounds =
      omega (arith, l, length-append line (10 ∷ file_of lines)) in
    load_round rounds watchers line (file_of lines) s (h.0)
    ∙ ap (λ k. next_line k (apply_directive watchers (read_directive (line ++ 10 ∷ [])) s))
        (fun_ext (λ s'. load_lines rounds watchers lines s' (h.1) shorter))

-- Loading a file of lines that the buffer holds gives each line to the watchers, in order, and stops at
-- the first one that is invalid or that a callback refuses, which makes the load fail.
pub config_load-lines :
    {S : Type 0} (watchers : List (Watcher S)) (lines : List Bytes) (s : S)
    → All IsLine lines
    → config_load (some (file_of lines)) watchers s ≡ apply_all watchers (directives lines) s
unfolding config_load
config_load-lines watchers lines s h =
    load_lines (length (file_of lines) + 1) watchers lines s h (omega arith)
