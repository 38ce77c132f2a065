-- ===== src/Server/Sfs/Changes/Refused.antt =====
-- An operation on a path that the client may not access leaves the disk as it is.
use smc_server_client.Common.{
  false, none, [], Bytes, codes, ◌≡◌, refl, ap, Bool-cases, ◌⊎◌, inl, inr, bind-none, ◌>>◌, ◌++◌,
  pure, subst, sym,
}
use smc_server_client.Paths.{FilePath, path_of, ◌/path◌, parent_path}
use smc_server_client.Protocol.Response.{
  invalid_permissions, io_create_dir_error, io_rename_error, io_move_error, io_copy_error,
}
use smc_server_client.Server.Names.{is_valid_name}
use smc_server_client.Server.Handler.{Client}
use smc_server_client.Server.Disk.{Disk}
use smc_server_client.Server.Sfs.{Directories, can_lexically_access}
use smc_server_client.Server.Sfs.Changes.{
  Work, report, answered, quoted, report_invalid_name, check_rename, rename, check_copy_or_move,
  begin_copy_or_move, make_directories, move, copy, target_in, transfer_message,
}

module _ {D : Type 0} (os : Disk D) (dirs : Directories) (client : Client) where
  abbrev pub Forbidden : D → FilePath → Type 0
  Forbidden d path = can_lexically_access os dirs client d path ≡ false

  begin_copy_or_move-refused :
      (input_path target_path : FilePath) (w : Work D)
      → Forbidden w.disk input_path ⊎ Forbidden w.disk target_path
      → begin_copy_or_move os dirs client input_path target_path w
        ≡ (none, report invalid_permissions [] w)
  unfolding begin_copy_or_move check_copy_or_move
  begin_copy_or_move-refused input_path target_path w no_access =
      bind-none (check_copy_or_move os dirs client input_path target_path)
        (λ _.
          answered (make_directories os (parent_path target_path)) io_create_dir_error (
            codes "error while creating directories "
            ++ (quoted (parent_path target_path) ++ codes ": "))
          >> pure tt)
        (by_access no_access)
    where
      by_access :
          Forbidden w.disk input_path ⊎ Forbidden w.disk target_path
          → check_copy_or_move os dirs client input_path target_path w
            ≡ (none, report invalid_permissions [] w)
      by_access (inl closed) = rw closed refl
      by_access (inr closed) =
          elim (Bool-cases (can_lexically_access os dirs client w.disk input_path)) [
            | inl open_input ↦ rw (closed, open_input) refl
            | inr closed_input ↦ rw (closed, closed_input) refl
          ]

  -- A copy and a move from or to a path that the client may not access leave the disk as it is, and
  -- answer that the permissions do not allow it.
  pub copy_move-refused :
      (input_path output_path : FilePath) (w : Work D)
      → Forbidden w.disk input_path ⊎ Forbidden w.disk (target_in input_path output_path)
      → (copy os dirs client input_path output_path w ≡ (none, report invalid_permissions [] w))
        × (move os dirs client input_path output_path w ≡ (none, report invalid_permissions [] w))
  unfolding copy move
  copy_move-refused input_path output_path w no_access =
      let target_path = target_in input_path output_path in
      let refused = begin_copy_or_move-refused input_path target_path w no_access in
      (
        bind-none (begin_copy_or_move os dirs client input_path target_path)
            (λ _.
              answered (os.copy input_path target_path) io_copy_error
                (transfer_message (codes "copying") input_path target_path))
            refused,
        bind-none (begin_copy_or_move os dirs client input_path target_path)
            (λ _.
              answered (os.rename input_path target_path) io_move_error
                (transfer_message (codes "moving") input_path target_path))
            refused,
      )

  check_rename-refused :
      (path target_path : FilePath) (w : Work D)
      → Forbidden w.disk path ⊎ (Forbidden w.disk (parent_path path) ⊎ Forbidden w.disk target_path)
      → check_rename os dirs client path target_path w ≡ (none, report invalid_permissions [] w)
  unfolding check_rename
  check_rename-refused path target_path w (inl closed) = rw closed refl
  check_rename-refused path target_path w (inr (inl closed)) =
      elim (Bool-cases (can_lexically_access os dirs client w.disk path)) [
        | inl a ↦ rw (closed, a) refl
        | inr a ↦ rw (closed, a) refl
      ]
  check_rename-refused path target_path w (inr (inr closed)) =
      elim (Bool-cases (can_lexically_access os dirs client w.disk path)) [
        | inl a ↦
            elim (Bool-cases (can_lexically_access os dirs client w.disk (parent_path path))) [
              | inl b ↦ rw (closed, a, b) refl
              | inr b ↦ rw (closed, a, b) refl
            ]
        | inr a ↦ rw (closed, a) refl
      ]

  -- A renaming of a path, in a directory or to a path that the client may not access leaves the disk as
  -- it is, and answers that the permissions do not allow it, be the new name valid or not.
  pub rename-refused :
      (path : FilePath) (new_name : Bytes) (w : Work D)
      → Forbidden w.disk path
        ⊎ (Forbidden w.disk (parent_path path)
            ⊎ Forbidden w.disk (parent_path path /path path_of new_name))
      → ((rename os dirs client path new_name w).0 ≡ none)
        × ((rename os dirs client path new_name w).1
            ≡ report invalid_permissions [] (report_invalid_name new_name w))
  unfolding rename
  rename-refused path new_name w no_access =
      let target_path = parent_path path /path path_of new_name in
      let named = report_invalid_name new_name w in
      let same : named.disk ≡ w.disk = elim (Bool-cases (is_valid_name new_name)) [
        | inl valid ↦ rw valid refl
        | inr invalid ↦ rw invalid refl
      ] in
      let refused = check_rename-refused path target_path named (
        subst (λ d. Forbidden d path ⊎ (Forbidden d (parent_path path) ⊎ Forbidden d target_path))
          (sym same) no_access) in
      let stops =
        bind-none (check_rename os dirs client path target_path)
          (λ _.
            answered (os.rename path target_path) io_rename_error
              (codes "error while renaming file: "))
          refused in
      (ap (λ t. t.0) stops, ap (λ t. t.1) stops)
