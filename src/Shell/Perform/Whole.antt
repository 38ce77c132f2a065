-- ===== src/Shell/Perform/Whole.antt =====
-- src/shell.cpp: a whole command, from its name to the session that it leaves.
use mathlib.Core.List.{Permᴰ}
use smc_server_client.Common.{
  Bool, true, none, some, List, [], ◌∷◌, Bytes, ◌≡◌, ◌≢◌, refl, sym, subst, ◌∙◌, arith, if_guarded,
  inl, inr, ◌&&◌, Option-cases,
}
use smc_server_client.Text.{to_lowercase}
use smc_server_client.Network.{Transport}
use smc_server_client.Shell.Commands.{
  CommandClass, CommandInfos, Entry, commands_infos, chdir_command,
}
use smc_server_client.Shell.Dispatch.{
  ExitCode, Line, Shell, can_execute_cmd_instance, find_infos, is_named, run_shell_command,
  get_command_instance_from_name,
}
use smc_server_client.Shell.Dispatch.Named.{run_checked, run_shell_command-named, find_infos-order}
use smc_server_client.Shell.Perform.{run_class}
use smc_server_client.Shell.Perform.Coherent.{IsCoherent, ShellIsCoherent, EndIsCoherent}
use smc_server_client.Shell.Perform.Ran.{
  run_class-IsCoherent, can_execute_cmd_instance-IsCoherent, can_execute_cmd_instance-logged,
}

-- Every command that is found has what all of the commands have.
abbrev all_infos : (CommandInfos → Bool) → List Entry → Bool
all_infos p [] = true
all_infos p (e ∷ es) = p e.1 && all_infos p es

find_infos-all :
    (p : CommandInfos → Bool) (f : Entry → Bool) (xs : List Entry) {cmd : CommandInfos}
    → all_infos p xs ≡ true
    → find_infos f xs ≡ some cmd
    → p cmd ≡ true
find_infos-all p f [] all found = absurd (ground arith)
find_infos-all p f (x ∷ xs) {cmd = cmd} all found = grind (arith, find_infos-all p f xs {cmd = cmd})

abbrev if_chdir : CommandClass → Bool → Bool
if_chdir chdir_command b = b
if_chdir command b = true

abbrev chdir_is_guarded : CommandInfos → Bool
chdir_is_guarded cmd = if_chdir cmd.cmd cmd.must_be_logged

chdir-must_be_logged :
    (f : Entry → Bool) {cmd : CommandInfos}
    → find_infos f commands_infos ≡ some cmd
    → cmd.cmd ≡ chdir_command
    → cmd.must_be_logged ≡ true
chdir-must_be_logged f {cmd = cmd} found is =
    subst (λ c. if_chdir c cmd.must_be_logged ≡ true) is
      (find_infos-all chdir_is_guarded f commands_infos refl found)

module _ {S : Type 0} (net : Transport S) (connect_to_server : S → Bool × S)
    (other : CommandClass → List Bytes → Shell S → ExitCode × (S × List Line)) where
  abbrev run : CommandClass → List Bytes → Shell S → ExitCode × Shell S
  run = run_class net connect_to_server other

  run_checked-IsCoherent :
      (cmd : CommandInfos) (args : List Bytes) (sh : Shell S)
      → (cmd.cmd ≡ chdir_command → cmd.must_be_logged ≡ true)
      → ShellIsCoherent sh
      → ShellIsCoherent (run_checked run cmd args sh).1
  unfolding run_checked
  run_checked-IsCoherent cmd args sh must h =
      let (allowed, checked) = can_execute_cmd_instance cmd sh in
      let kept = can_execute_cmd_instance-IsCoherent net connect_to_server cmd sh h in
      if_guarded EndIsCoherent allowed _ _
        (λ yes.
          run_class-IsCoherent net connect_to_server other cmd.cmd args checked
            (λ is. can_execute_cmd_instance-logged net connect_to_server cmd sh (must is) yes) kept)
        kept

  run_shell_command-unknown :
      (entries : List Entry) (first : Bytes) (args : List Bytes) (sh : Shell S)
      → find_infos (is_named (to_lowercase first)) entries ≡ none
      → ShellIsCoherent sh
      → ShellIsCoherent (run_shell_command entries run first args sh).1
  unfolding IsCoherent get_command_instance_from_name run_shell_command
  run_shell_command-unknown entries first args sh unknown h =
      let missing : get_command_instance_from_name entries (to_lowercase first) ≡ none =
        rw (unknown, get_command_instance_from_name) refl in
      rw (missing, run_shell_command) h

  -- Whatever is typed but an empty word as the command, and whatever the order of the map is and the
  -- server answers: a client that has no user while nobody is logged in has none after the command
  -- either, if nobody is logged in then.
  pub run_shell_command-IsCoherent :
      (entries : List Entry) (first : Bytes) (args : List Bytes) (sh : Shell S)
      → Permᴰ commands_infos entries
      → to_lowercase first ≢ []
      → IsCoherent sh.client
      → IsCoherent (run_shell_command entries run first args sh).1.client
  run_shell_command-IsCoherent entries first args sh order named h =
      let f = is_named (to_lowercase first) in
      elim (Option-cases (find_infos f commands_infos)) [
        | inl unknown ↦
            run_shell_command-unknown entries first args sh
              (find_infos-order entries (to_lowercase first) order named ∙ unknown) h
        | inr (cmd, found) ↦
            subst EndIsCoherent
              (sym (run_shell_command-named run entries first args sh cmd order named found))
              (run_checked-IsCoherent cmd args sh (chdir-must_be_logged f found) h)
      ]
