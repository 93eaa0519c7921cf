-- ===== src/MudConfig/Options.antt =====
-- The options of a configuration file, each by its name and by what it sets.
use boris.Prelude.{
  ℕ, ◌%◌, ◌^◌, ◌≡◌, refl, Bool, true, not, ◌&&◌, Option, none, some, ◌++◌, ◌==◌, if◌then◌else◌,
  arith, Bytes, codes, head, same_text,
}
use boris.Config.{check_masks, util_fnmatch}
use boris.MudConfig.{
  MudConfig, mud_watchers, do_config_prompt, do_config_msg, do_config_msgfile, do_config_port,
  do_config_uint, do_config_string, not_found, find_target,
}

pub data Name : Type 0 where
  menu_prompt : Name
  form_prompt : Name
  command_prompt : Name
  msg_unsupported : Name
  msg_invalidselection : Name
  msg_invalidusername : Name
  msg_tryagain : Name
  msg_errormain : Name
  msg_usermin3 : Name
  msg_invalidcommand : Name
  msg_useralphanumeric : Name
  msg_userexists : Name
  msg_usercreatesuccess : Name
  msgfile_noaccount : Name
  msgfile_badpassword : Name
  msgfile_welcome : Name
  msgfile_newuser_create : Name
  msgfile_newuser_deny : Name
  eventlog_filename : Name
  eventlog_timeformat : Name
  default_channels : Name
  form_newuser_filename : Name
  newuser_level : Name
  newuser_flags : Name
  newuser_allowed : Name
  webserver_port : Name
  port : Name

-- how it is spelled in the file
abbrev pub spelled : Name → Bytes
spelled menu_prompt = codes "prompt.menu"
spelled form_prompt = codes "prompt.form"
spelled command_prompt = codes "prompt.command"
spelled msg_unsupported = codes "msg.unsupported"
spelled msg_invalidselection = codes "msg.invalidselection"
spelled msg_invalidusername = codes "msg.invalidusername"
spelled msg_tryagain = codes "msg.tryagain"
spelled msg_errormain = codes "msg.errormain"
spelled msg_usermin3 = codes "msg.usermin3"
spelled msg_invalidcommand = codes "msg.invalidcommand"
spelled msg_useralphanumeric = codes "msg.useralphanumeric"
spelled msg_userexists = codes "msg.userexists"
spelled msg_usercreatesuccess = codes "msg.usercreatesuccess"
spelled msgfile_noaccount = codes "msgfile.noaccount"
spelled msgfile_badpassword = codes "msgfile.badpassword"
spelled msgfile_welcome = codes "msgfile.welcome"
spelled msgfile_newuser_create = codes "msgfile.newuser_create"
spelled msgfile_newuser_deny = codes "msgfile.newuser_deny"
spelled eventlog_filename = codes "eventlog.filename"
spelled eventlog_timeformat = codes "eventlog.timeformat"
spelled default_channels = codes "channels.default"
spelled form_newuser_filename = codes "form.newuser.filename"
spelled newuser_level = codes "newuser.level"
spelled newuser_flags = codes "newuser.flags"
spelled newuser_allowed = codes "newuser.allowed"
spelled webserver_port = codes "webserver.port"
spelled port = codes "server.port"

contents : Option Bytes → Bytes → Bytes
contents (some text) name = text
contents none name = not_found name

module _ (strtoul : Bytes → ℕ × (Bytes × Bool)) (textfile : Bytes → Option Bytes) where
  -- does the value read as a number to its end?
  abbrev pub is_number : Bytes → Bool
  is_number value = not (head value == 0) && (head (strtoul value).1.0 == 0)

  abbrev pub number : Bytes → ℕ
  number value = (strtoul value).0 % 2 ^ 32

  -- what an option sets, and whether its value is one for it
  unfoldable pub configured : Name → Bytes → MudConfig → Bool × MudConfig
  unfolding contents
  configured menu_prompt value cfg = (true, record cfg { menu_prompt = value ++ codes " " })
  configured form_prompt value cfg = (true, record cfg { form_prompt = value ++ codes " " })
  configured command_prompt value cfg = (true, record cfg { command_prompt = value ++ codes " " })
  configured msg_unsupported value cfg =
      (true, record cfg { msg_unsupported = value ++ codes "\n" })
  configured msg_invalidselection value cfg =
      (true, record cfg { msg_invalidselection = value ++ codes "\n" })
  configured msg_invalidusername value cfg =
      (true, record cfg { msg_invalidusername = value ++ codes "\n" })
  configured msg_tryagain value cfg = (true, record cfg { msg_tryagain = value ++ codes "\n" })
  configured msg_errormain value cfg = (true, record cfg { msg_errormain = value ++ codes "\n" })
  configured msg_usermin3 value cfg = (true, record cfg { msg_usermin3 = value ++ codes "\n" })
  configured msg_invalidcommand value cfg =
      (true, record cfg { msg_invalidcommand = value ++ codes "\n" })
  configured msg_useralphanumeric value cfg =
      (true, record cfg { msg_useralphanumeric = value ++ codes "\n" })
  configured msg_userexists value cfg = (true, record cfg { msg_userexists = value ++ codes "\n" })
  configured msg_usercreatesuccess value cfg =
      (true, record cfg { msg_usercreatesuccess = value ++ codes "\n" })
  configured msgfile_noaccount value cfg =
      (true, record cfg { msgfile_noaccount = contents (textfile value) value })
  configured msgfile_badpassword value cfg =
      (true, record cfg { msgfile_badpassword = contents (textfile value) value })
  configured msgfile_welcome value cfg =
      (true, record cfg { msgfile_welcome = contents (textfile value) value })
  configured msgfile_newuser_create value cfg =
      (true, record cfg { msgfile_newuser_create = contents (textfile value) value })
  configured msgfile_newuser_deny value cfg =
      (true, record cfg { msgfile_newuser_deny = contents (textfile value) value })
  configured eventlog_filename value cfg = (true, record cfg { eventlog_filename = value })
  configured eventlog_timeformat value cfg = (true, record cfg { eventlog_timeformat = value })
  configured default_channels value cfg = (true, record cfg { default_channels = value })
  configured form_newuser_filename value cfg = (true, record cfg { form_newuser_filename = value })
  configured newuser_level value cfg = (
    is_number value,
    if head value == 0 then cfg else record cfg { newuser_level = number value },
  )
  configured newuser_flags value cfg = (
    is_number value,
    if head value == 0 then cfg else record cfg { newuser_flags = number value },
  )
  configured newuser_allowed value cfg = (
    is_number value,
    if head value == 0 then cfg else record cfg { newuser_allowed = number value },
  )
  configured webserver_port value cfg = (
    is_number value,
    if head value == 0 then cfg else record cfg { webserver_port = number value },
  )
  configured port value cfg = (
    not (strtoul value).1.1 && (head (strtoul value).1.0 == 0),
    record cfg { port = number value },
  )

  -- The watchers that an option's name reaches set its own setting and no other, and refuse the value
  -- exactly if it is not one for the option.
  pub check_masks-configured :
      (name : Name) (value : Bytes) (cfg : MudConfig)
      → check_masks (mud_watchers strtoul textfile) (spelled name) value cfg
        ≡ configured name value cfg
  unfolding check_masks util_fnmatch mud_watchers find_target same_text do_config_prompt
      do_config_msg do_config_msgfile do_config_port do_config_uint do_config_string configured
  check_masks-configured menu_prompt value cfg = refl
  check_masks-configured form_prompt value cfg = refl
  check_masks-configured command_prompt value cfg = refl
  check_masks-configured msg_unsupported value cfg = refl
  check_masks-configured msg_invalidselection value cfg = refl
  check_masks-configured msg_invalidusername value cfg = refl
  check_masks-configured msg_tryagain value cfg = refl
  check_masks-configured msg_errormain value cfg = refl
  check_masks-configured msg_usermin3 value cfg = refl
  check_masks-configured msg_invalidcommand value cfg = refl
  check_masks-configured msg_useralphanumeric value cfg = refl
  check_masks-configured msg_userexists value cfg = refl
  check_masks-configured msg_usercreatesuccess value cfg = refl
  check_masks-configured msgfile_noaccount value cfg = ground arith
  check_masks-configured msgfile_badpassword value cfg = ground arith
  check_masks-configured msgfile_welcome value cfg = ground arith
  check_masks-configured msgfile_newuser_create value cfg = ground arith
  check_masks-configured msgfile_newuser_deny value cfg = ground arith
  check_masks-configured eventlog_filename value cfg = refl
  check_masks-configured eventlog_timeformat value cfg = refl
  check_masks-configured default_channels value cfg = refl
  check_masks-configured form_newuser_filename value cfg = refl
  check_masks-configured newuser_level value cfg = ground arith
  check_masks-configured newuser_flags value cfg = ground arith
  check_masks-configured newuser_allowed value cfg = ground arith
  check_masks-configured webserver_port value cfg = ground arith
  check_masks-configured port value cfg = ground arith
