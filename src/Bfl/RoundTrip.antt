-- ===== src/Bfl/RoundTrip.antt =====
-- A list that the server encodes is the list that the client decodes.
use smc_server_client.Common.{
  ℕ, ◌+◌, ◌-◌, ◌%◌, ◌^◌, ◌<◌, false, Option, some, List, [], ◌∷◌, ◌++◌, Bytes, length, drop,
  replicate, resize, ltb, le→ltb, ◌>>◌, bind-some, ◌≡◌, refl, sym, ap, ap₂, ◌∙◌, arith, append-nil,
  length-append, length-replicate, drop-append, take_all, drop_all,
}
use native.Mathlib.Nat.{mod-eq_of_lt}
use smc_server_client.Wire.{size_range}
use smc_server_client.Wire.Digits.{le_bytes, length-le_bytes, le_value-le_bytes}
use smc_server_client.Protocol.Files.{FileInfo}
use smc_server_client.Bfl.{
  Encoder, new_encoder, push_bytes, resize_bfl, push_file_count, final_size, alloc_memory_for_files,
  push_files, encode, Decoder, new_decoder, get_file_count, decode_files, decode,
}
use smc_server_client.Bfl.Encode.{
  at, files_bytes, push_bytes-Writes, push_files-Writes, final_size-length,
}
use smc_server_client.Bfl.Decode.{AllFiles, decode_files-Reads}

abbrev pub list_bytes : List FileInfo → Bytes
list_bytes files = le_bytes 4 (length files) ++ files_bytes files

module _ (files : List FileInfo) (few : length files < 2 ^ 32) where
  counted : push_file_count (new_encoder files) ≡ (some tt, at files (le_bytes 4 (length files)) [])
  unfolding push_file_count resize_bfl
  counted =
      let bytes = le_bytes 4 (length files) in
      let room : Bytes = 0 ∷ 0 ∷ 0 ∷ 0 ∷ [] in
      rw (mod-eq_of_lt few) (
        bind-some (resize_bfl 4) (λ _. push_bytes bytes) {s = new_encoder files} refl
        ∙ (push_bytes-Writes bytes).runs files [] room
            (omega (arith, length-le_bytes 4 (length files))) (omega arith)
        ∙ ap {B = Option Unit × Encoder} (λ r. (some tt, at files bytes r))
            (ap (λ n. drop n room) (length-le_bytes 4 (length files))))

  allocated :
      length (list_bytes files) < size_range
      → alloc_memory_for_files (at files (le_bytes 4 (length files)) [])
        ≡ (some tt, at files (le_bytes 4 (length files)) (replicate (length (files_bytes files)) 0))
  unfolding alloc_memory_for_files resize_bfl
  allocated small =
      let bytes = le_bytes 4 (length files) in
      let content = length (files_bytes files) in
      let sum = length-append bytes (files_bytes files) in
      let needed : (length bytes + final_size 0 files) % size_range ≡ length bytes + content =
        ap (λ n. (length bytes + n) % size_range) (final_size-length 0 files (omega arith))
        ∙ omega arith in
      let room : length bytes + content - length (bytes ++ []) ≡ content =
        omega (arith, length-append {A = ℕ} bytes []) in
      ap {B = Option Unit × Encoder}
        (λ b. (some tt, record { files = files; bfl = b; current_offset = length bytes }))
        (ap (λ n. resize n (bytes ++ [])) needed
          ∙ ap₂ {C = Bytes} (λ a n. a ++ replicate n 0)
              (take_all (length bytes + content) (bytes ++ [])
                  (omega (arith, length-append {A = ℕ} bytes []))
                ∙ append-nil bytes)
              room)

  pub encode-list_bytes :
      length (list_bytes files) < size_range
      → encode (new_encoder files) ≡ (
        some tt,
        record {
          files = files;
          bfl = list_bytes files;
          current_offset = length (list_bytes files);
        },
      )
  unfolding encode
  encode-list_bytes small =
      let bytes = le_bytes 4 (length files) in
      let content = files_bytes files in
      let room = replicate (length content) 0 in
      let sized : length room ≡ length content = length-replicate {A = ℕ} (length content) 0 in
      bind-some push_file_count (λ _. alloc_memory_for_files >> push_files files) counted
      ∙ bind-some alloc_memory_for_files (λ _. push_files files) (allocated small)
      ∙ (push_files-Writes files).runs files bytes room (omega arith)
          (omega (arith, length-append bytes content))
      ∙ ap {B = Option Unit × Encoder}
          (λ b. (
            some tt,
            record { files = files; bfl = b; current_offset = length (bytes ++ content) },
          ))
          (ap (λ r. (bytes ++ content) ++ r) (drop_all (length content) room (omega arith))
            ∙ append-nil (bytes ++ content))

  counted_back : get_file_count (new_decoder (list_bytes files)) ≡ (
    some tt,
    record { bfl = list_bytes files; files = []; file_count = length files; current_offset = 4 },
  )
  unfolding get_file_count
  counted_back =
      let room : ltb (length (list_bytes files)) 4 ≡ false = le→ltb _ _ (
        omega (
          arith,
          length-append (le_bytes 4 (length files)) (files_bytes files),
          length-le_bytes 4 (length files),
        )) in
      rw room (
        ap {B = Option Unit × Decoder}
          (λ n. (
            some tt,
            record { bfl = list_bytes files; files = []; file_count = n; current_offset = 4 },
          ))
          (le_value-le_bytes 4 (length files) (files_bytes files) ∙ mod-eq_of_lt few))

  -- A listing that fits its format is encoded without a copy past the end of the buffer, the offset
  -- ends at the end of the buffer, and the client decodes the buffer to the same files, in order, and
  -- reads all of it. Fits: less than 2 ^ 32 files, each with a type of the enumeration, a size of 64
  -- bits and a name below 2 ^ 16 bytes, and all of it within memory.
  pub decode-encode :
      AllFiles files
      → length (list_bytes files) < size_range
      → (encode (new_encoder files) ≡ (
        some tt,
        record {
          files = files;
          bfl = list_bytes files;
          current_offset = length (list_bytes files);
        },
      ))
        × (decode (new_decoder (list_bytes files)) ≡ (
          some tt,
          record {
            bfl = list_bytes files;
            files = files;
            file_count = length files;
            current_offset = length (list_bytes files);
          },
        ))
  unfolding decode
  decode-encode valid small =
      let bytes = le_bytes 4 (length files) in
      let content = files_bytes files in
      let started : Decoder = record {
        bfl = list_bytes files;
        files = [];
        file_count = length files;
        current_offset = 4;
      } in
      let digits = length-le_bytes 4 (length files) in
      let sum = length-append bytes content in
      (
        encode-list_bytes small,
        bind-some get_file_count (λ _ d. decode_files d.file_count d) counted_back
            ∙ (decode_files-Reads files valid).runs started [] (record {
              within = omega arith;
              in_memory = small;
              ahead = drop-append 4 bytes content (sym digits) ∙ sym (append-nil content);
            })
            ∙ ap {B = Option Unit × Decoder}
                (λ n. (some tt, record started { files = files; current_offset = n }))
                (omega (arith, sum, digits)),
      )
