-- ===== src/MudConfig/Process.antt =====
-- `mud_config_process` on a file of settings.
use mathlib.Core.Path.{fun_ext}
use boris.Prelude.{
  ℕ, ◌≡◌, ◌≢◌, ◌≤◌, ◌∙◌, refl, ap, Bool, true, Option, some, List, [], ◌∷◌, ◌++◌, append_assoc, map,
  arith, Bytes, codes, All, All-append, length, length-append, strip_right,
}
use boris.Config.{directive, read_directive, strip_comment, apply_directive, next_line}
use boris.Config.Line.{IsPlain, IsQuotable, setting, read_directive-setting}
use boris.Config.Load.{IsLine, file_of, directives, apply_all, config_load-lines}
use boris.MudConfig.{MudConfig, mud_watchers, mud_config_process}
use boris.MudConfig.Options.{Name, spelled, configured, check_masks-configured}

-- `name = "value"`, a line of the file less its newline
abbrev pub line_of : Name × Bytes → Bytes
line_of (name, value) = setting (spelled name) (codes " ") (codes " ") value []

-- a value that can stand in quotes on a line: no quote, NUL or newline in it, and short enough
abbrev pub IsValue : Bytes → Type 0
IsValue value = All (λ c. (c ≢ 0) × (c ≢ 10) × (c ≢ b'"')) value × (length value ≤ 900)

spelled-IsPlain : (name : Name) → All IsPlain (spelled name)
spelled-IsPlain Name.menu_prompt = ground arith
spelled-IsPlain Name.form_prompt = ground arith
spelled-IsPlain Name.command_prompt = ground arith
spelled-IsPlain Name.msg_unsupported = ground arith
spelled-IsPlain Name.msg_invalidselection = ground arith
spelled-IsPlain Name.msg_invalidusername = ground arith
spelled-IsPlain Name.msg_tryagain = ground arith
spelled-IsPlain Name.msg_errormain = ground arith
spelled-IsPlain Name.msg_usermin3 = ground arith
spelled-IsPlain Name.msg_invalidcommand = ground arith
spelled-IsPlain Name.msg_useralphanumeric = ground arith
spelled-IsPlain Name.msg_userexists = ground arith
spelled-IsPlain Name.msg_usercreatesuccess = ground arith
spelled-IsPlain Name.msgfile_noaccount = ground arith
spelled-IsPlain Name.msgfile_badpassword = ground arith
spelled-IsPlain Name.msgfile_welcome = ground arith
spelled-IsPlain Name.msgfile_newuser_create = ground arith
spelled-IsPlain Name.msgfile_newuser_deny = ground arith
spelled-IsPlain Name.eventlog_filename = ground arith
spelled-IsPlain Name.eventlog_timeformat = ground arith
spelled-IsPlain Name.default_channels = ground arith
spelled-IsPlain Name.form_newuser_filename = ground arith
spelled-IsPlain Name.newuser_level = ground arith
spelled-IsPlain Name.newuser_flags = ground arith
spelled-IsPlain Name.newuser_allowed = ground arith
spelled-IsPlain Name.webserver_port = ground arith
spelled-IsPlain Name.port = ground arith

spelled_short : (name : Name) → length (spelled name) ≤ 30
spelled_short Name.menu_prompt = omega arith
spelled_short Name.form_prompt = omega arith
spelled_short Name.command_prompt = omega arith
spelled_short Name.msg_unsupported = omega arith
spelled_short Name.msg_invalidselection = omega arith
spelled_short Name.msg_invalidusername = omega arith
spelled_short Name.msg_tryagain = omega arith
spelled_short Name.msg_errormain = omega arith
spelled_short Name.msg_usermin3 = omega arith
spelled_short Name.msg_invalidcommand = omega arith
spelled_short Name.msg_useralphanumeric = omega arith
spelled_short Name.msg_userexists = omega arith
spelled_short Name.msg_usercreatesuccess = omega arith
spelled_short Name.msgfile_noaccount = omega arith
spelled_short Name.msgfile_badpassword = omega arith
spelled_short Name.msgfile_welcome = omega arith
spelled_short Name.msgfile_newuser_create = omega arith
spelled_short Name.msgfile_newuser_deny = omega arith
spelled_short Name.eventlog_filename = omega arith
spelled_short Name.eventlog_timeformat = omega arith
spelled_short Name.default_channels = omega arith
spelled_short Name.form_newuser_filename = omega arith
spelled_short Name.newuser_level = omega arith
spelled_short Name.newuser_flags = omega arith
spelled_short Name.newuser_allowed = omega arith
spelled_short Name.webserver_port = omega arith
spelled_short Name.port = omega arith

plain-All : (id : Bytes) → All IsPlain id → All (λ c. (c ≢ 0) × (c ≢ 10)) id
plain-All [] h = tt
plain-All (c ∷ id) h = ((h.0.1, λ e. ground arith), plain-All id (h.1))

value-All :
    (value : Bytes)
    → All (λ c. (c ≢ 0) × (c ≢ 10) × (c ≢ b'"')) value
    → All (λ c. (c ≢ 0) × (c ≢ 10)) value
value-All [] h = tt
value-All (c ∷ value) h = ((h.0.0, h.0.1), value-All value (h.1))

IsQuotable-bytes :
    (value : Bytes) → All (λ c. (c ≢ 0) × (c ≢ 10) × (c ≢ b'"')) value → All IsQuotable value
IsQuotable-bytes [] h = tt
IsQuotable-bytes (c ∷ value) h = (h.0.2, IsQuotable-bytes value (h.1))

line_of-IsLine : (name : Name) (value : Bytes) → IsValue value → IsLine (line_of (name, value))
line_of-IsLine name value h =
    let P = λ (c : ℕ). (c ≢ 0) × (c ≢ 10) in
    let plain : All P (spelled name) = plain-All (spelled name) (spelled-IsPlain name) in
    let end : All P (value ++ b'"' ∷ []) =
      All-append P value (b'"' ∷ []) (value-All value (h.0)) (ground arith) in
    (
      All-append P (spelled name) (32 ∷ b'=' ∷ 32 ∷ b'"' ∷ (value ++ b'"' ∷ [])) plain
          (ground arith, (ground arith, (ground arith, (ground arith, end)))),
      omega (
        arith,
        spelled_short name,
        length-append (spelled name) (32 ∷ b'=' ∷ 32 ∷ b'"' ∷ (value ++ b'"' ∷ [])),
        length-append value (b'"' ∷ []),
        h.1,
      ),
    )

newline_stripped : strip_right (strip_comment 0 (10 ∷ [])) ≡ []
unfolding strip_comment strip_right
newline_stripped = refl

read_line :
    (name : Name) (value : Bytes)
    → IsValue value
    → read_directive (line_of (name, value) ++ 10 ∷ []) ≡ directive (spelled name) value
read_line name value h =
    let moved : line_of (name, value) ++ 10 ∷ []
        ≡ setting (spelled name) (codes " ") (codes " ") value (10 ∷ []) =
      simp append_assoc in
    ap read_directive moved
    ∙ read_directive-setting (spelled name) (codes " ") (codes " ") value (10 ∷ [])
        (spelled-IsPlain name) (ground arith) (ground arith) (IsQuotable-bytes value (h.0))
        newline_stripped

settings-All :
    (settings : List (Name × Bytes))
    → All (λ s. IsValue s.1) settings
    → All IsLine (map line_of settings)
settings-All [] h = tt
settings-All ((name, value) ∷ settings) h =
    (line_of-IsLine name value (h.0), settings-All settings (h.1))

module _ (strtoul : Bytes → ℕ × (Bytes × Bool)) (textfile : Bytes → Option Bytes) where
  -- what a file of settings sets, up to the first value that is none for its option
  unfoldable pub configure_all : List (Name × Bytes) → MudConfig → Bool × MudConfig
  configure_all [] cfg = (true, cfg)
  configure_all ((name, value) ∷ settings) cfg =
      next_line (configure_all settings) (configured strtoul textfile name value cfg)

  apply_settings :
      (settings : List (Name × Bytes)) (cfg : MudConfig)
      → All (λ s. IsValue s.1) settings
      → apply_all (mud_watchers strtoul textfile) (directives (map line_of settings)) cfg
        ≡ configure_all settings cfg
  unfolding apply_all directives apply_directive configure_all
  apply_settings [] cfg h = refl
  apply_settings ((name, value) ∷ settings) cfg h =
      let watchers = mud_watchers strtoul textfile in
      ap
        (λ d.
          next_line (apply_all watchers (directives (map line_of settings)))
            (apply_directive watchers d cfg))
        (read_line name value (h.0))
      ∙ ap (next_line (apply_all watchers (directives (map line_of settings))))
          (check_masks-configured strtoul textfile name value cfg)
      ∙ ap (λ k. next_line k (configured strtoul textfile name value cfg))
          (fun_ext (λ c. apply_settings settings c (h.1)))

  -- A file of lines `name = "value"` sets each option that it names, in order, up to the first value that
  -- is none for its option, with which the call fails; a value has no quote, NUL or newline in it and at
  -- most 900 bytes.
  pub mud_config_process-settings :
      (settings : List (Name × Bytes)) (cfg : MudConfig)
      → All (λ s. IsValue s.1) settings
      → mud_config_process strtoul textfile (some (file_of (map line_of settings))) cfg
        ≡ configure_all settings cfg
  unfolding mud_config_process
  mud_config_process-settings settings cfg h =
      config_load-lines (mud_watchers strtoul textfile) (map line_of settings) cfg
        (settings-All settings h)
      ∙ apply_settings settings cfg h
