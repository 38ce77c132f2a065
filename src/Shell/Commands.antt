-- ===== src/Shell/Commands.antt =====
-- Client/include/shell/commands_infos.hpp: the commands of the client and what each of them needs.
use smc_server_client.Common.{Bool, true, false, List, [], ◌∷◌, Bytes, codes}
use smc_server_client.Protocol.Roles.{Role, user, developer}

-- The class of a command, which its factory makes an instance of.
pub data CommandClass : Type 0 where
  help_command infos_command clear_command quit_command conf_command print_command login_command
        logout_command client_command server_command dir_command chdir_command download_command
        upload_command syscmd_command mkfile_command mkdir_command delete_command rename_command
        edit_command lang_command user_command move_command copy_command :
      CommandClass

pub record CommandInfos : Type 0 where
  pub cmd : CommandClass
  pub short_name : Bytes
  pub can_use_offline : Bool
  pub must_be_logged : Bool
  pub min_role : Role

abbrev command_name : CommandClass → Bytes
command_name help_command = codes "help"
command_name infos_command = codes "infos"
command_name clear_command = codes "clear"
command_name quit_command = codes "quit"
command_name conf_command = codes "conf"
command_name print_command = codes "print"
command_name login_command = codes "login"
command_name logout_command = codes "logout"
command_name client_command = codes "client"
command_name server_command = codes "server"
command_name dir_command = codes "dir"
command_name chdir_command = codes "chdir"
command_name download_command = codes "download"
command_name upload_command = codes "upload"
command_name syscmd_command = codes "syscmd"
command_name mkfile_command = codes "mkfile"
command_name mkdir_command = codes "mkdir"
command_name delete_command = codes "delete"
command_name rename_command = codes "rename"
command_name edit_command = codes "edit"
command_name lang_command = codes "lang"
command_name user_command = codes "user"
command_name move_command = codes "move"
command_name copy_command = codes "copy"

-- A command without a short name has the empty one, as the source's default is.
abbrev short_name_of : CommandClass → Bytes
short_name_of clear_command = codes "clr"
short_name_of login_command = codes "lgi"
short_name_of logout_command = codes "lgo"
short_name_of client_command = codes "clt"
short_name_of server_command = codes "srv"
short_name_of chdir_command = codes "cd"
short_name_of download_command = codes "dwl"
short_name_of upload_command = codes "upl"
short_name_of syscmd_command = codes "scm"
short_name_of mkfile_command = codes "mf"
short_name_of mkdir_command = codes "md"
short_name_of delete_command = codes "del"
short_name_of rename_command = codes "ren"
short_name_of user_command = codes "usr"
short_name_of move_command = codes "mov"
short_name_of copy_command = codes "cpy"
short_name_of _ = []

abbrev pub Entry : Type 0
Entry = Bytes × CommandInfos

abbrev entry : CommandClass → Bool → Bool → Role → Entry
entry command offline logged role = (
  command_name command,
  record {
    cmd = command;
    short_name = short_name_of command;
    can_use_offline = offline;
    must_be_logged = logged;
    min_role = role;
  },
)

abbrev pub commands_infos : List Entry
commands_infos =
    entry help_command true false user
    ∷ entry infos_command true false user
    ∷ entry clear_command true false user
    ∷ entry quit_command true false user
    ∷ entry conf_command true false user
    ∷ entry print_command true false user
    ∷ entry login_command false false user
    ∷ entry logout_command false true user
    ∷ entry client_command false false user
    ∷ entry server_command false false user
    ∷ entry dir_command false true user
    ∷ entry chdir_command false true user
    ∷ entry download_command false true user
    ∷ entry upload_command false true user
    ∷ entry syscmd_command false true developer
    ∷ entry mkfile_command false true user
    ∷ entry mkdir_command false true user
    ∷ entry delete_command false true user
    ∷ entry rename_command false true user
    ∷ entry edit_command false true user
    ∷ entry lang_command true false user
    ∷ entry user_command false true user
    ∷ entry move_command false true user
    ∷ entry copy_command false true user
    ∷ []
