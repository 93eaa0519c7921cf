-- ===== src/Command/Tests.antt =====
-- Commands at work.
use boris.Prelude.{
  ◌≡◌, refl, some, none, [], ◌∷◌, ◌++◌, Bytes, All, codes, skip_space, same_text, arith,
}
use boris.Command.{do_say, do_yell, command_execute, command_short_table}
use boris.Command.Lookup.{here, there}
use boris.Command.Lines.{short-long, command_execute-entry}

said :
    command_execute (codes "  'hello there")
    ≡ some (record { cb = do_say; cmd = codes "say"; arg = some (codes "hello there") })
unfolding command_execute skip_space same_text
said = refl

yelled :
    command_execute (codes "\"\"hey")
    ≡ some (record { cb = do_yell; cmd = codes "yell"; arg = some (codes "hey") })
unfolding command_execute skip_space same_text
yelled = refl

unknown : command_execute (codes "dance") ≡ none
unfolding command_execute skip_space same_text
unknown = refl

short-long_example :
    All
      (λ (e : Bytes × Bytes).
        command_execute (e.0 ++ codes " hi") ≡ command_execute (e.1 ++ codes "  hi"))
      command_short_table
short-long_example = short-long (codes " hi") refl

command_execute-entry_example :
    command_execute (codes "  SAY \thi")
    ≡ some (record { cb = do_say; cmd = codes "SAY"; arg = some (codes "hi") })
unfolding same_text
command_execute-entry_example =
    command_execute-entry (codes "  ") 83 (codes "AY") (9 ∷ []) (codes "hi") (codes "say") 32 do_say
      (there (there (there here))) refl (refl, (refl, tt)) (refl, (refl, (refl, tt))) (omega arith)
      refl refl refl (refl, tt) refl
