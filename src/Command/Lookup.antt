-- ===== src/Command/Lookup.antt =====
-- The table of commands finds each command by its name, in any case.
use boris.Prelude.{
  ◌≡◌, ◌∙◌, refl, Bool, true, false, ◌&&◌, not, Option, some, List, [], ◌∷◌, same_text, not_both,
  Bytes, arith,
}
use boris.Command.{Callback, command_table, run_from, command_run}

-- no name of the table is another but for case
apart : Bytes → List (Bytes × Callback) → Bool
apart name [] = true
apart name ((other, cb) ∷ table) = not (same_text other name) && apart name table

distinct : List (Bytes × Callback) → Bool
unfolding apart
distinct [] = true
distinct ((name, cb) ∷ table) = apart name table && distinct table

-- an entry of the table
pub data IsEntry : List (Bytes × Callback) → Bytes → Callback → Type 0 where
  here :
      {table : List (Bytes × Callback)} {name : Bytes} {cb : Callback}
      → IsEntry ((name, cb) ∷ table) name cb
  there :
      {e : Bytes × Callback} {table : List (Bytes × Callback)} {name : Bytes} {cb : Callback}
      → IsEntry table name cb
      → IsEntry (e ∷ table) name cb

same_text_sym : (a b : Bytes) → same_text a b ≡ same_text b a
unfolding same_text
same_text_sym [] [] = refl
same_text_sym [] (d ∷ b) = refl
same_text_sym (c ∷ a) [] = refl
same_text_sym (c ∷ a) (d ∷ b) = ground (arith, same_text_sym a b)

entry-apart :
    (other : Bytes) {table : List (Bytes × Callback)} {name : Bytes} {cb : Callback}
    → IsEntry table name cb
    → apart other table ≡ true
    → same_text name other ≡ false
unfolding apart
entry-apart other here h = ground arith
entry-apart other (there m) h = entry-apart other m (ground arith)

run_from-entry :
    (cmd : Bytes) (arg : Option Bytes) {table : List (Bytes × Callback)} {name : Bytes}
    {cb : Callback}
    → IsEntry table name cb
    → distinct table ≡ true
    → same_text cmd name ≡ true
    → run_from table cmd arg ≡ some (record { cb = cb; cmd = cmd; arg = arg })
unfolding run_from distinct
run_from-entry cmd arg here d h = rw h refl
run_from-entry cmd arg {name = name} (there {e = e} m) d h =
    let apart : same_text name e.0 ≡ false = entry-apart e.0 m (ground arith) in
    let other : same_text cmd e.0 ≡ false =
      same_text_sym cmd e.0 ∙ not_both name e.0 cmd (same_text_sym name cmd ∙ h) apart in
    rw other (run_from-entry cmd arg m (ground arith) h)

command_table_distinct : distinct command_table ≡ true
unfolding distinct same_text
command_table_distinct = refl

pub command_run-entry :
    (cmd : Bytes) (arg : Option Bytes) (name : Bytes) (cb : Callback)
    → IsEntry command_table name cb
    → same_text cmd name ≡ true
    → command_run cmd arg ≡ some (record { cb = cb; cmd = cmd; arg = arg })
unfolding command_run
command_run-entry cmd arg name cb m h = run_from-entry cmd arg m command_table_distinct h
