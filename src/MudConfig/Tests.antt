-- ===== src/MudConfig/Tests.antt =====
-- A configuration file and the settings that it makes.
use boris.Prelude.{
  ◌-◌, ℕ, ◌≡◌, refl, Bool, true, false, Option, none, some, List, [], ◌∷◌, map, arith, Bytes, codes,
}
use boris.Config.{next_line}
use boris.Config.Load.{file_of}
use boris.MudConfig.{MudConfig, mud_config_init, mud_config_process}
use boris.MudConfig.Options.{Name, configured}
use boris.MudConfig.Process.{line_of, configure_all, mud_config_process-settings}

-- a library that reads one-digit numbers, and no files
one_digit : Bytes → ℕ × (Bytes × Bool)
one_digit [] = (0, ([], false))
one_digit (c ∷ s) = (c - 48, (s, false))

no_file : Bytes → Option Bytes
no_file name = none

abbrev settings : List (Name × Bytes)
settings = (Name.menu_prompt, codes "Pick:") ∷ (Name.newuser_level, codes "7") ∷ []

abbrev defaults : MudConfig
defaults = mud_config_init 4000

level_set :
    configure_all one_digit no_file settings defaults
    ≡ (true, record defaults { menu_prompt = codes "Pick: "; newuser_level = 7 })
unfolding configure_all configured one_digit next_line
level_set = refl

mud_config_process-settings_example :
    mud_config_process one_digit no_file (some (file_of (map line_of settings))) defaults
    ≡ configure_all one_digit no_file settings defaults
mud_config_process-settings_example =
    mud_config_process-settings one_digit no_file settings defaults (omega arith)
