-- ===== src/StackVm/Memory.antt =====
-- The heap of the machine, read and written as words, halfs and bytes: one union of three arrays, on a
-- little-endian host. An access outside the array is undefined.

pub mod RoundTrip
pub mod Sound
use boris.Prelude.{
  ℕ, ◌+◌, ◌*◌, ◌/◌, ◌%◌, Bool, true, List, leb, ◌==◌, if◌then◌else◌, length, get_or, set, add32,
}
use boris.StackVm.Machine.{
  Vm, M, ok, undefined, ◌>>=◌, ◌>>◌, pure, error_set, fail, out_of_bounds, unaligned,
  check_data_bounds, skip,
}

-- `n` bytes from `ofs` stand in the array
abbrev pub in_heap : ℕ → ℕ → Vm → Bool
in_heap ofs n vm = leb (ofs + n) (length vm.heap)

abbrev pub word_at : List ℕ → ℕ → ℕ
word_at heap ofs =
    get_or heap ofs 0
    + 256 * get_or heap (ofs + 1) 0
    + 65536 * get_or heap (ofs + 2) 0
    + 16777216 * get_or heap (ofs + 3) 0

abbrev pub set_word : List ℕ → ℕ → ℕ → List ℕ
set_word heap ofs val =
    set
      (set (set (set heap ofs (val % 256)) (ofs + 1) (val / 256 % 256)) (ofs + 2)
        (val / 65536 % 256))
      (ofs + 3) (val / 16777216 % 256)

-- `vm->heap.words[ofs >> 2]`, at a multiple of 4
unfoldable pub load_word : ℕ → M ℕ
load_word ofs vm = if in_heap ofs 4 vm then ok (word_at vm.heap ofs) vm else undefined

pub store_word : ℕ → ℕ → M (Unit {0})
store_word ofs val vm =
    if in_heap ofs 4 vm then ok tt (record vm { heap = set_word vm.heap ofs val }) else undefined

-- `vm->heap.halfs[ofs >> 1]`, at a multiple of 2
pub load_half : ℕ → M ℕ
load_half ofs vm =
    if in_heap ofs 2 vm
    then ok (get_or vm.heap ofs 0 + 256 * get_or vm.heap (ofs + 1) 0) vm
    else undefined

pub store_half : ℕ → ℕ → M (Unit {0})
store_half ofs val vm =
    if in_heap ofs 2 vm
    then ok tt (record vm { heap = set (set vm.heap ofs (val % 256)) (ofs + 1) (val / 256 % 256) })
    else undefined

-- `vm->heap.bytes[ofs]`
pub load_byte : ℕ → M ℕ
load_byte ofs vm = if in_heap ofs 1 vm then ok (get_or vm.heap ofs 0) vm else undefined

pub store_byte : ℕ → ℕ → M (Unit {0})
store_byte ofs val vm =
    if in_heap ofs 1 vm then ok tt (record vm { heap = set vm.heap ofs (val % 256) }) else undefined

-- `check_data_bounds(vm, ofs) || check_data_bounds(vm, ofs + n)`
unfoldable pub check_both : ℕ → ℕ → M Bool
check_both ofs n = do
  bad ← check_data_bounds ofs
  if bad then pure true else check_data_bounds (add32 ofs n)

-- `dwrite4`
pub dwrite4 : ℕ → ℕ → M (Unit {0})
dwrite4 ofs val = do
  bad ← check_both ofs 3
  if bad then skip else if ofs % 4 == 0 then store_word ofs val else error_set unaligned

-- `dwrite2`
pub dwrite2 : ℕ → ℕ → M (Unit {0})
dwrite2 ofs val = do
  bad ← check_both ofs 1
  if bad then skip else if ofs % 2 == 0 then store_half ofs val else error_set unaligned

-- `dwrite1`: the result of the check is not used.
pub dwrite1 : ℕ → ℕ → M (Unit {0})
dwrite1 ofs val = do check_data_bounds ofs; store_byte ofs val

-- `dread4`
unfoldable pub dread4 : ℕ → M ℕ
dread4 ofs = do
  bad ← check_both ofs 3
  if bad
      then fail out_of_bounds 0xdeadbeef
      else if ofs % 4 == 0
      then load_word ofs
      else fail unaligned 0xdeadbeef

-- `dread2`
pub dread2 : ℕ → M ℕ
dread2 ofs = do
  bad ← check_both ofs 1
  if bad
      then fail out_of_bounds 0xdead
      else if ofs % 2 == 0
      then load_half ofs
      else fail unaligned 0xbeef

-- `dread1`
pub dread1 : ℕ → M ℕ
dread1 ofs = do bad ← check_data_bounds ofs; if bad then fail out_of_bounds 0xde else load_byte ofs
