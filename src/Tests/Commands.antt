-- ===== src/Tests/Commands.antt =====
-- The commands of the shell on a connection that takes what it is given and answers nothing.
use mathlib.Core.List.{Permᴰ, reverse}
use mathlib.Core.List.Permᴰ
use smc_server_client.Network.Stream.{pipe}
use smc_server_client.Common.{
  ℕ, Bool, true, false, some, List, [], Bytes, codes, ◌≡◌, ◌≢◌, refl, arith, text_eq, none,
  if◌then◌else◌, Option,
}
use smc_server_client.Text.{to_lowercase}
use smc_server_client.Client.Connection.{new_client}
use smc_server_client.Protocol.Roles.{user}
use smc_server_client.Settings.{PropertyTree}
use smc_server_client.Shell.EnvVars.{resolve}
use smc_server_client.Client.Config.{
  try_to_load_values_from_tree, load_values_from_tree, read_all, read_one, read_value, get_text,
  Config, set_value,
}
use smc_server_client.Shell.Commands.{
  CommandClass, CommandInfos, Entry, commands_infos, logout_command,
}
use smc_server_client.Shell.Dispatch.{
  ExitCode, success, Line, Shell, find_infos, is_named, run_shell_command,
}
use smc_server_client.Shell.Dispatch.Named.{run_checked, run_shell_command-named}
use smc_server_client.Shell.Help.{listed}
use smc_server_client.Shell.Help.Listed.{allowed, listed_commands}
use smc_server_client.Shell.Perform.{run_class}
use smc_server_client.Shell.Perform.Coherent.{IsCoherent}
use smc_server_client.Shell.Perform.Whole.{run_shell_command-IsCoherent}

-- The commands in the opposite order.
abbrev entries : List Entry
entries = reverse commands_infos

entries-order : Permᴰ commands_infos entries
entries-order = Permᴰ.symm (Permᴰ.reverse commands_infos)

abbrev connect_to_pipe : Bytes → Bool × Bytes
connect_to_pipe s = (true, s)

abbrev no_other : CommandClass → List Bytes → Shell Bytes → ExitCode × (Bytes × List Line)
no_other command args sh = (success, (sh.client.socket, []))

abbrev run_on_pipe : CommandClass → List Bytes → Shell Bytes → ExitCode × Shell Bytes
run_on_pipe = run_class pipe connect_to_pipe no_other

abbrev shell : Shell Bytes
shell = record { client = new_client []; printed = []; is_running = true }

abbrev logout_infos : CommandInfos
logout_infos = record {
  cmd = logout_command;
  short_name = codes "lgo";
  can_use_offline = false;
  must_be_logged = true;
  min_role = user;
}

lgo-is_word : to_lowercase (codes "LGO") ≢ []
unfolding to_lowercase
lgo-is_word e = absurd (ground arith)

lgo-found : find_infos (is_named (to_lowercase (codes "LGO"))) commands_infos ≡ some logout_infos
unfolding to_lowercase is_named text_eq
lgo-found = refl

run_shell_command-named_example :
    run_shell_command entries run_on_pipe (codes "LGO") [] shell
    ≡ run_checked run_on_pipe logout_infos [] shell
run_shell_command-named_example =
    run_shell_command-named run_on_pipe entries (codes "LGO") [] shell logout_infos entries-order
      lgo-is_word lgo-found

shell-IsCoherent : IsCoherent shell.client
unfolding IsCoherent
shell-IsCoherent out = refl

run_shell_command-IsCoherent_example :
    IsCoherent (run_shell_command entries run_on_pipe (codes "LGO") [] shell).1.client
run_shell_command-IsCoherent_example =
    run_shell_command-IsCoherent pipe connect_to_pipe no_other entries (codes "LGO") [] shell
      entries-order lgo-is_word shell-IsCoherent

-- A tree of texts, in which the one number is 80, and whose file is not read.
abbrev port : Bytes → Option ℕ
port value = if text_eq value (codes "80") then some 80 else none

abbrev Tree : Type 0
Tree = Bytes → Option Bytes

abbrev text_tree : PropertyTree Tree
text_tree = record {
  get_string = λ key t. t key;
  get_number = λ key t. elim (t key) [ none ↦ none | some value ↦ port value ];
  get_bool = λ key t. elim (t key) [ none ↦ none | some value ↦ some (text_eq value (codes "1")) ];
  put = λ key value t. λ other. if text_eq other key then some value else t other;
  read_ini = none;
  write_ini = λ t. true;
}

-- Every key has a value that its field can take.
abbrev full_config : Config Tree
full_config = record {
  property_tree = λ key. some (codes "80");
  values = record {
    server_address = [];
    server_port = 0;
    client_connect_at_launch = false;
    shell_verbose = false;
    shell_print_addr_prefix = false;
    shell_language = [];
    cmd_download_output = [];
    cmd_download_buffer_size = 0;
    cmd_upload_buffer_size = 0;
  };
}

no_env : Bytes → Option Bytes
no_env name = none

-- Without the bad number, the language is taken.
language_taken :
    (set_value text_tree no_env (codes "shell.language") (codes "fr") full_config).0 ≡ true
unfolding set_value try_to_load_values_from_tree load_values_from_tree read_all read_one read_value
    get_text text_eq resolve
language_taken = refl

listed_commands_example : listed shell.client entries ≡ allowed shell entries
listed_commands_example = listed_commands shell entries entries-order
