-- ===== src/MudConfig.antt =====
-- The settings of the server, `mud_config_init` to `mud_config_process` of src/common.c, which hands
-- callbacks to the reader of configuration files. `mud.params.port` is a field of the settings here, as a
-- 32-bit word. `strtoul value` is what the C library's `strtoul(value, &endptr, 0)` gives: the number, the
-- text from `endptr` and whether `errno` is set. `textfile name` is the file that `util_textfile_load`
-- reads, if it can. The allocator does not fail.
pub mod Options
pub mod Process
mod Tests
use boris.Prelude.{
  ℕ, ◌+◌, ◌%◌, ◌^◌, Bool, true, false, Option, none, some, List, [], ◌∷◌, ◌++◌, ◌==◌, if◌then◌else◌,
  Bytes, codes, head, take, same_text,
}
use boris.Config.{Reply, ends_chain, fails, goes_on, Watcher, config_watch, config_load}

-- `struct mud_config`, less `default_family`, which nothing sets
pub record MudConfig : Type 0 where
  pub config_filename : Bytes
  pub menu_prompt : Bytes
  pub form_prompt : Bytes
  pub command_prompt : Bytes
  pub msg_errormain : Bytes
  pub msg_invalidselection : Bytes
  pub msg_invalidusername : Bytes
  pub msgfile_noaccount : Bytes
  pub msgfile_badpassword : Bytes
  pub msg_tryagain : Bytes
  pub msg_unsupported : Bytes
  pub msg_useralphanumeric : Bytes
  pub msg_usercreatesuccess : Bytes
  pub msg_userexists : Bytes
  pub msg_usermin3 : Bytes
  pub msg_invalidcommand : Bytes
  pub msgfile_welcome : Bytes
  pub eventlog_filename : Bytes
  pub eventlog_timeformat : Bytes
  pub msgfile_newuser_create : Bytes
  pub msgfile_newuser_deny : Bytes
  pub default_channels : Bytes
  pub form_newuser_filename : Bytes
  pub newuser_level : ℕ
  pub newuser_flags : ℕ
  pub newuser_allowed : ℕ
  pub webserver_port : ℕ
  pub port : ℕ

-- `mud_config_init`
pub mud_config_init : ℕ → MudConfig
mud_config_init port = record {
  config_filename = codes "boris.cfg";
  menu_prompt = codes "Selection: ";
  form_prompt = codes "Selection: ";
  command_prompt = codes "> ";
  msg_errormain = codes "ERROR: going back to main menu!\n";
  msg_invalidselection = codes "Invalid selection!\n";
  msg_invalidusername = codes "Invalid username\n";
  msgfile_noaccount = codes "\nInvalid password or account not found!\n\n";
  msgfile_badpassword = codes "\nInvalid password or account not found!\n\n";
  msg_tryagain = codes "Try again!\n";
  msg_unsupported = codes "Not supported!\n";
  msg_useralphanumeric =
      codes "Username must only contain alphanumeric characters and must start with a letter!\n";
  msg_usercreatesuccess = codes "Account successfully created!\n";
  msg_userexists = codes "Username already exists!\n";
  msg_usermin3 = codes "Username must contain at least 3 characters!\n";
  msg_invalidcommand = codes "Invalid command!\n";
  msgfile_welcome = codes "Welcome\n\n";
  eventlog_filename = codes "boris.log\n";
  eventlog_timeformat = codes "%y%m%d-%H%M";
  msgfile_newuser_create = codes "\nPlease enter only correct information in this application.\n\n";
  msgfile_newuser_deny = codes "\nNot accepting new user applications!\n\n";
  default_channels = codes "@system,@wiz,OOC,auction,chat,newbie";
  form_newuser_filename = codes "data/forms/newuser.form";
  newuser_level = 5;
  newuser_flags = 0;
  newuser_allowed = 0;
  webserver_port = 0;
  port = port;
}

-- what is written to a `char **`
abbrev pub Target : Type 0
Target = Bytes → MudConfig → MudConfig

abbrev pub Callback : Type 0
Callback = Bytes → Bytes → MudConfig → Reply × MudConfig

-- the table of a callback: the first entry whose name is that of the option
pub find_target : Bytes → List (Bytes × Target) → Option Target
find_target id [] = none
find_target id ((name, target) ∷ info) =
    if same_text id name then some target else find_target id info

write_to : Option Target → Bytes → MudConfig → Reply × MudConfig
write_to none value cfg = (goes_on, cfg)
write_to (some target) value cfg = (ends_chain, target value cfg)

abbrev prompts : List (Bytes × Target)
prompts =
    (codes "prompt.menu", λ v cfg. record cfg { menu_prompt = v })
    ∷ (codes "prompt.form", λ v cfg. record cfg { form_prompt = v })
    ∷ (codes "prompt.command", λ v cfg. record cfg { command_prompt = v })
    ∷ []

abbrev messages : List (Bytes × Target)
messages =
    (codes "msg.unsupported", λ v cfg. record cfg { msg_unsupported = v })
    ∷ (codes "msg.invalidselection", λ v cfg. record cfg { msg_invalidselection = v })
    ∷ (codes "msg.invalidusername", λ v cfg. record cfg { msg_invalidusername = v })
    ∷ (codes "msg.tryagain", λ v cfg. record cfg { msg_tryagain = v })
    ∷ (codes "msg.errormain", λ v cfg. record cfg { msg_errormain = v })
    ∷ (codes "msg.usermin3", λ v cfg. record cfg { msg_usermin3 = v })
    ∷ (codes "msg.invalidcommand", λ v cfg. record cfg { msg_invalidcommand = v })
    ∷ (codes "msg.useralphanumeric", λ v cfg. record cfg { msg_useralphanumeric = v })
    ∷ (codes "msg.userexists", λ v cfg. record cfg { msg_userexists = v })
    ∷ (codes "msg.usercreatesuccess", λ v cfg. record cfg { msg_usercreatesuccess = v })
    ∷ []

abbrev message_files : List (Bytes × Target)
message_files =
    (codes "msgfile.noaccount", λ v cfg. record cfg { msgfile_noaccount = v })
    ∷ (codes "msgfile.badpassword", λ v cfg. record cfg { msgfile_badpassword = v })
    ∷ (codes "msgfile.welcome", λ v cfg. record cfg { msgfile_welcome = v })
    ∷ (codes "msgfile.newuser_create", λ v cfg. record cfg { msgfile_newuser_create = v })
    ∷ (codes "msgfile.newuser_deny", λ v cfg. record cfg { msgfile_newuser_deny = v })
    ∷ []

-- `do_config_prompt`: a space is added
pub do_config_prompt : Callback
unfolding find_target write_to
do_config_prompt id value cfg = write_to (find_target id prompts) (value ++ codes " ") cfg

-- `do_config_msg`: a newline is added
pub do_config_msg : Callback
unfolding find_target write_to
do_config_msg id value cfg = write_to (find_target id messages) (value ++ codes "\n") cfg

-- what `snprintf` leaves in the 128 bytes of `buf`
abbrev pub not_found : Bytes → Bytes
not_found name = take 127 (codes "<<fileNotFound:" ++ (name ++ codes ">>\n"))

file_text : Option Bytes → Bytes → Bytes
file_text (some text) name = text
file_text none name = not_found name

-- `do_config_string`, with what `extra` points to
pub do_config_string : Target → Callback
do_config_string target id value cfg = (ends_chain, target value cfg)

abbrev is_end : Bytes → Bool
is_end rest = head rest == 0

module _ (strtoul : Bytes → ℕ × (Bytes × Bool)) (textfile : Bytes → Option Bytes) where
  -- `do_config_msgfile`
  pub do_config_msgfile : Callback
  unfolding find_target write_to file_text
  do_config_msgfile id value cfg =
      write_to (find_target id message_files) (file_text (textfile value) value) cfg

  -- `do_config_port`
  pub do_config_port : Callback
  do_config_port id value cfg =
      let r = strtoul value in
      let cfg' : MudConfig = record cfg { port = r.0 % 2 ^ 32 } in
      if r.1.1 then (fails, cfg') else if is_end (r.1.0) then (ends_chain, cfg') else (fails, cfg')

  -- `do_config_uint`, with what `extra` points to
  pub do_config_uint : (ℕ → MudConfig → MudConfig) → Callback
  do_config_uint target id value cfg =
      let r = strtoul value in
      let cfg' : MudConfig = target (r.0 % 2 ^ 32) cfg in
      if is_end value
      then (fails, cfg)
      else if is_end (r.1.0)
      then (ends_chain, cfg')
      else (fails, cfg')

  -- the watchers that `mud_config_process` sets, each in front of those before it
  pub mud_watchers : List (Watcher MudConfig)
  unfolding config_watch
  mud_watchers =
      config_watch (codes "form.newuser.filename")
        (some (do_config_string (λ v cfg. record cfg { form_newuser_filename = v })))
        (config_watch (codes "webserver.port")
          (some (do_config_uint (λ n cfg. record cfg { webserver_port = n })))
          (config_watch (codes "channels.default")
            (some (do_config_string (λ v cfg. record cfg { default_channels = v })))
            (config_watch (codes "eventlog.timeformat")
              (some (do_config_string (λ v cfg. record cfg { eventlog_timeformat = v })))
              (config_watch (codes "eventlog.filename")
                (some (do_config_string (λ v cfg. record cfg { eventlog_filename = v })))
                (config_watch (codes "newuser.flags")
                  (some (do_config_uint (λ n cfg. record cfg { newuser_flags = n })))
                  (config_watch (codes "newuser.allowed")
                    (some (do_config_uint (λ n cfg. record cfg { newuser_allowed = n })))
                    (config_watch (codes "newuser.level")
                      (some (do_config_uint (λ n cfg. record cfg { newuser_level = n })))
                      (config_watch (codes "msgfile.*") (some do_config_msgfile) (
                        config_watch (codes "msg.*") (some do_config_msg) (
                          config_watch (codes "prompt.*") (some do_config_prompt)
                            (config_watch (codes "server.port") (some do_config_port) [])))))))))))

  -- `mud_config_process`, on what is in the configuration file, if it can be opened
  pub mud_config_process : Option Bytes → MudConfig → Bool × MudConfig
  mud_config_process file cfg = config_load file mud_watchers cfg
