-- ===== src/Tests/Transfers.antt =====
-- A file of five bytes in buffers of two, over a pipe, and a listing of two files.
use smc_server_client.Common.{true, some, List, [], ◌∷◌, Bytes, codes, length, ◌≡◌, refl, arith}
use smc_server_client.Protocol.Files.{FileInfo, file, directory, file_type_code, file_type_of_code}
use smc_server_client.Network.Stream.{pipe, pipe-IsStream}
use smc_server_client.Transfer.{
  Sizes, done, calc_buffer_count, transmit_data, receive_data, download_file, upload_file,
}
use smc_server_client.Transfer.Fetch.{at_round, download_content}
use smc_server_client.Transfer.Push.{before_round, upload_content}
use smc_server_client.Bfl.{encode, decode, new_encoder, new_decoder}
use smc_server_client.Bfl.Decode.{IsFile}
use smc_server_client.Bfl.RoundTrip.{list_bytes, decode-encode}

abbrev greeting : Bytes
greeting = codes "hello"

abbrev greeting_sizes : Sizes
greeting_sizes = record { file_size = 5; buffer_size = 2; buffer_count = calc_buffer_count 5 2 }

download_content_example :
    ((transmit_data pipe greeting_sizes greeting []).0 ≡ true)
    × ((s' : Bytes) × (download_file pipe
            (at_round greeting_sizes 0 [])
            (transmit_data pipe greeting_sizes greeting []).1
          ≡ (done, at_round greeting_sizes greeting_sizes.buffer_count greeting, s'))
        × (s' ≡ []))
download_content_example =
    download_content pipe-IsStream greeting 2 [] (omega arith) (omega arith) (omega arith) refl

upload_content_example :
    (sent got : Bytes) × (upload_file pipe (before_round greeting_sizes 0 greeting) []
      ≡ (done, before_round greeting_sizes greeting_sizes.buffer_count [], sent))
    × (receive_data pipe greeting_sizes sent ≡ (true, greeting, got))
    × (got ≡ [])
upload_content_example =
    upload_content pipe-IsStream greeting 2 [] (omega arith) (omega arith) (omega arith) refl

abbrev listing : List FileInfo
listing =
    record { name = codes "notes.txt"; type = file; size = 1000 }
    ∷ record { name = codes "perso"; type = directory; size = 0 }
    ∷ []

notes-IsFile : IsFile (record { name = codes "notes.txt"; type = file; size = 1000 })
unfolding file_type_code file_type_of_code
notes-IsFile = record {
  type_of_code = refl;
  type_lt = omega arith;
  size_lt = omega arith;
  name_lt = omega arith;
}

perso-IsFile : IsFile (record { name = codes "perso"; type = directory; size = 0 })
unfolding file_type_code file_type_of_code
perso-IsFile = record {
  type_of_code = refl;
  type_lt = omega arith;
  size_lt = omega arith;
  name_lt = omega arith;
}

decode-encode_example :
    (encode (new_encoder listing) ≡ (
      some tt,
      record {
        files = listing;
        bfl = list_bytes listing;
        current_offset = length (list_bytes listing);
      },
    ))
    × (decode (new_decoder (list_bytes listing)) ≡ (
      some tt,
      record {
        bfl = list_bytes listing;
        files = listing;
        file_count = 2;
        current_offset = length (list_bytes listing);
      },
    ))
decode-encode_example =
    decode-encode listing (omega arith) (notes-IsFile, (perso-IsFile, tt)) (omega arith)
