-- ===== src/Bfl/Encode.antt =====
-- What the encoder writes.
use smc_server_client.Common.{
  ℕ, ◌+◌, ◌%◌, ◌^◌, ◌≤◌, ◌<◌, false, Option, some, List, [], ◌∷◌, ◌++◌, Bytes, length, take, drop,
  ltb, le→ltb, Fallible, ◌>>◌, pure, bind-some, ◌≡◌, refl, sym, ap, ap₂, ◌∙◌, arith, append-nil,
  append_assoc, length-append, length-drop, take-append, drop-append, drop-drop,
}
use smc_server_client.Wire.{size_range}
use smc_server_client.Wire.Digits.{le_bytes, length-le_bytes}
use smc_server_client.Protocol.Files.{FileInfo, file_type_code}
use smc_server_client.Bfl.{
  Encoder, push_bytes, file_size_in_buffer, final_size, push_file, push_files,
}

abbrev pub file_bytes : FileInfo → Bytes
file_bytes file =
    le_bytes 1 (file_type_code file.type)
    ++ (le_bytes 8 file.size ++ (le_bytes 2 (length file.name % 2 ^ 16) ++ file.name))

abbrev pub files_bytes : List FileInfo → Bytes
files_bytes [] = []
files_bytes (file ∷ files) = file_bytes file ++ files_bytes files

-- An encoder that has written some bytes, with room behind them.
abbrev pub at : List FileInfo → Bytes → Bytes → Encoder
at files written room = record {
  files = files;
  bfl = written ++ room;
  current_offset = length written;
}

-- Code that writes these bytes, wherever there is room for them.
pub record Writes (m : Fallible Encoder Unit) (bytes : Bytes) : Type 0 where
  pub runs :
      (files : List FileInfo) (written room : Bytes)
      → length bytes ≤ length room
      → length written + length room < size_range
      → m (at files written room)
        ≡ (some tt, at files (written ++ bytes) (drop (length bytes) room))

pub push_bytes-Writes : (bytes : Bytes) → Writes (push_bytes bytes) bytes
unfolding push_bytes
push_bytes-Writes bytes = record {
  runs = λ files written room h k.
      let n = length written in
      let fits : ltb (length (written ++ room)) (n + length bytes) ≡ false =
        le→ltb _ _ (omega (arith, length-append written room)) in
      let behind : drop (n + length bytes) (written ++ room) ≡ drop (length bytes) room =
        sym (drop-drop n (length bytes) (written ++ room))
        ∙ ap (drop (length bytes)) (drop-append n written room refl) in
      let whole : take n (written ++ room) ++ (bytes ++ drop (n + length bytes) (written ++ room))
          ≡ (written ++ bytes) ++ drop (length bytes) room =
        ap₂ {C = Bytes} (λ a b. a ++ (bytes ++ b)) (take-append n written room refl) behind
        ∙ sym (append_assoc written bytes (drop (length bytes) room)) in
      let next : (n + length bytes) % size_range ≡ length (written ++ bytes) =
        omega (arith, length-append written bytes) in
      rw fits (
        ap₂ {C = Option Unit × Encoder}
          (λ b c. (some tt, record { files = files; bfl = b; current_offset = c })) whole next);
}

pub pure-Writes : Writes (pure tt) []
pure-Writes = record {
  runs = λ files written room h k.
      ap {B = Option Unit × Encoder} (λ w. (some tt, at files w room)) (sym (append-nil written));
}

then-Writes :
    (m n : Fallible Encoder Unit) {a b : Bytes} → Writes m a → Writes n b → Writes (m >> n) (a ++ b)
then-Writes m n {a = a} {b = b} f g = record {
  runs = λ files written room h k.
      let both = length-append a b in
      let left = length-drop (length a) room in
      bind-some m (λ _. n) (f.runs files written room (omega arith) k)
      ∙ g.runs files (written ++ a) (drop (length a) room) (omega arith)
          (omega (arith, length-append written a))
      ∙ ap₂ {C = Option Unit × Encoder} (λ w r. (some tt, at files w r)) (append_assoc written a b)
          (drop-drop (length a) (length b) room ∙ ap (λ t. drop t room) (sym both));
}

push_file-Writes : (file : FileInfo) → Writes (push_file file) (file_bytes file)
unfolding push_file
push_file-Writes file = then-Writes _ _ (push_bytes-Writes _) (
    then-Writes _ _ (push_bytes-Writes _)
      (then-Writes _ _ (push_bytes-Writes _) (push_bytes-Writes _)))

pub push_files-Writes : (files : List FileInfo) → Writes (push_files files) (files_bytes files)
unfolding push_files
push_files-Writes [] = pure-Writes
push_files-Writes (file ∷ files) = then-Writes _ _ (push_file-Writes file) (push_files-Writes files)

pub length-file_bytes : (file : FileInfo) → length (file_bytes file) ≡ 11 + length file.name
length-file_bytes file =
    let type = le_bytes 1 (file_type_code file.type) in
    let size = le_bytes 8 file.size in
    let name = le_bytes 2 (length file.name % 2 ^ 16) in
    omega (
      arith,
      length-append type (size ++ (name ++ file.name)),
      length-append size (name ++ file.name),
      length-append name file.name,
      length-le_bytes 1 (file_type_code file.type),
      length-le_bytes 8 file.size,
      length-le_bytes 2 (length file.name % 2 ^ 16),
    )

-- The room that is allocated is the room that is needed.
pub final_size-length :
    (size : ℕ) (files : List FileInfo)
    → size + length (files_bytes files) < size_range
    → final_size size files ≡ size + length (files_bytes files)
unfolding final_size
final_size-length size [] h = omega arith
final_size-length size (file ∷ files) h =
    let both = length-append (file_bytes file) (files_bytes files) in
    let one = length-file_bytes file in
    let next : (size + file_size_in_buffer file) % size_range ≡ size + length (file_bytes file) =
      omega arith in
    ap (λ t. final_size t files) next
    ∙ final_size-length (size + length (file_bytes file)) files (omega arith)
    ∙ omega arith
