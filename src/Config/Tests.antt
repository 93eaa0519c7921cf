-- ===== src/Config/Tests.antt =====
-- Patterns and lines of configuration files, and the theorems on them at concrete ones.
use boris.Prelude.{
  ◌≡◌, refl, true, false, some, List, [], ◌∷◌, arith, Bytes, codes, skip_space, strip_right, fgets,
  fgets_bytes, until_nul,
}
use boris.Config.{
  blank, invalid, directive, util_fnmatch, star_loop, cut_at, strip_comment, read_directive,
  goes_on, Watcher, check_masks, load_loop, apply_directive, config_load,
}
use boris.Config.Pattern.{shell_match, IsSimple, fnmatch-shell_match}
use boris.Config.Line.{read_directive-setting}
use boris.Config.Load.{file_of, directives, apply_all, config_load-lines}

mask_matches : util_fnmatch true (codes "msg.*x*") (codes "MSG.axbxc") ≡ true
unfolding util_fnmatch star_loop
mask_matches = refl

-- behind a `*`, `?` is looked for as a byte of its own
star_then_any : util_fnmatch false (codes "*?") (codes "a") ≡ false
unfolding util_fnmatch star_loop
star_then_any = refl

mask-IsSimple : IsSimple (codes "msg.*x")
unfolding IsSimple
mask-IsSimple = ground arith

fnmatch-shell_match_example :
    util_fnmatch true (codes "msg.*x") (codes "Msg.axx")
    ≡ shell_match true (codes "msg.*x") (codes "Msg.axx")
fnmatch-shell_match_example =
    fnmatch-shell_match true (codes "msg.*x") (codes "Msg.axx") mask-IsSimple

comment_line : read_directive (codes "  // nothing\n") ≡ blank
unfolding read_directive strip_comment cut_at strip_right
comment_line = refl

bare_line : read_directive (codes "a.b =  c d # e\n") ≡ directive (codes "a.b") (codes "c d")
unfolding read_directive strip_comment cut_at strip_right skip_space
bare_line = refl

no_quote : read_directive (codes "a = \"b\n") ≡ invalid
unfolding read_directive strip_comment cut_at strip_right skip_space
no_quote = refl

comment_stripped : strip_right (strip_comment 0 (codes "  # c\n")) ≡ []
unfolding strip_comment strip_right
comment_stripped = refl

read_directive-setting_example :
    read_directive (codes "a.b \t=\"c # d\"  # c\n") ≡ directive (codes "a.b") (codes "c # d")
read_directive-setting_example =
    read_directive-setting (codes "a.b") (codes " \t") [] (codes "c # d") (codes "  # c\n")
      (ground arith) (ground arith) tt (ground arith) comment_stripped

-- a callback that notes the values
abbrev noted : List (Watcher (List Bytes))
noted = (record { mask = codes "a*"; func = some (λ id value s. (goes_on, value ∷ s)) }) ∷ []

loaded :
    config_load (some (codes "ab = 1\nb = 2\n\na=3\n")) noted []
    ≡ (true, codes "3" ∷ codes "1" ∷ [])
unfolding config_load load_loop apply_directive check_masks util_fnmatch star_loop read_directive
    strip_comment cut_at strip_right skip_space fgets fgets_bytes until_nul
loaded = refl

config_load-lines_example :
    config_load (some (file_of (codes "ab = 1" ∷ codes "b = 2" ∷ []))) noted []
    ≡ apply_all noted (directives (codes "ab = 1" ∷ codes "b = 2" ∷ [])) []
config_load-lines_example =
    config_load-lines noted (codes "ab = 1" ∷ codes "b = 2" ∷ []) [] (ground arith)
