-- ===== src/Fdb/Write.antt =====
-- Writing a record: a temporary file that `fdb_write_end` renames over the real one. The disk is a map
-- from paths to contents; whether a call of the C library succeeds is an argument, and so is what a
-- failed write leaves. What is printed to a `FILE` reaches the disk when it is closed.
pub mod Atomic
use boris.Prelude.{
  bytes_eq, ℕ, suc, Bool, List, true, false, ◌&&◌, Option, none, some, [], ◌∷◌, ◌++◌, ◌==◌,
  if◌then◌else◌, take, Bytes, codes,
}
use boris.Fdb.Text.{format_pair}

abbrev pub Disk : Type 0
Disk = Bytes → Option Bytes

pub store : Disk → Bytes → Option Bytes → Disk
store disk path c p = if bytes_eq p path then c else disk p

-- `PATH_MAX - 1`, where `snprintf` cuts a path
abbrev pub path_max : ℕ
path_max = 4095

-- `fdb_makepath`
unfoldable pub makepath : Bytes → Bytes → Bytes
makepath domain id = take path_max (codes "data/" ++ (domain ++ (codes "/" ++ id)))

-- `fdb_makepath_tmp`
unfoldable pub makepath_tmp : Bytes → Bytes → Bytes
makepath_tmp domain id =
    take path_max (codes "data/" ++ (domain ++ (codes "/" ++ (id ++ codes ".tmp"))))

-- `struct fdb_write_handle`; `written` is what has been printed to `f`
pub record WriteHandle : Type 0 where
  pub written : Bytes
  pub filename_tmp : Bytes
  pub domain : Bytes
  pub id : Bytes
  pub error_fl : Bool

-- `fdb_write_begin`; `none` is NULL
unfoldable pub write_begin : Bool → Bytes → Bytes → Disk → Option WriteHandle × Disk
write_begin fopen domain id disk =
    if fopen
    then (
      some (record {
        written = [];
        filename_tmp = makepath_tmp domain id;
        domain = domain;
        id = id;
        error_fl = false;
      }),
      store disk (makepath_tmp domain id) (some []),
    )
    else (none, disk)

-- `fdb_write_pair`; `lost` is what a failed `fprintf` has printed
unfoldable pub write_pair : Bool → Bool → Bytes → WriteHandle → Bytes → Bytes → WriteHandle × Bool
write_pair malloc fprintf lost h name value =
    if h.error_fl
    then (h, false)
    else if malloc
    then if fprintf
      then (record h { written = h.written ++ format_pair name value }, true)
      else (record h { written = h.written ++ lost; error_fl = true }, false)
    else (h, false)

-- what the calls of the C library in one `fdb_write_pair` come to
pub record PairCalls : Type 0 where
  pub malloc : Bool
  pub fprintf : Bool
  pub lost : Bytes

-- a client that writes one pair after the other and looks at no result; `calls` are those of the `i`-th pair
unfoldable pub write_pairs : (ℕ → PairCalls) → ℕ → WriteHandle → List (Bytes × Bytes) → WriteHandle
unfolding write_pair
write_pairs calls i h [] = h
write_pairs calls i h ((name, value) ∷ fields) =
    write_pairs calls (suc i)
      (write_pair (calls i).malloc (calls i).fprintf (calls i).lost h name value).0 fields

-- `fdb_write_abort`
pub write_abort : WriteHandle → WriteHandle
write_abort h = record h { error_fl = true }

-- `fdb_write_end`; `lost` is what a failed `fclose` leaves in the temporary file
unfoldable pub write_end : Bool → Bool → Bool → Bytes → WriteHandle → Disk → Bool × Disk
write_end fclose remove rename lost h disk =
    let closed = store disk h.filename_tmp (some (if fclose then h.written else lost)) in
    let removed = if remove then store closed h.filename_tmp none else closed in
    let renamed =
      store (store closed (makepath h.domain h.id) (closed h.filename_tmp)) h.filename_tmp none in
    if h.error_fl
    then (false, removed)
    else if fclose
    then if rename then (true, renamed) else (false, closed)
    else (false, removed)
