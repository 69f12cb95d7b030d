-- ===== src/Tests/Files.antt =====
-- The transfer engine on concrete files.
use remote_access_platform.Prelude.{
  ℕ, ◌≡◌, refl, List, [], ◌∷◌, map, Bool, true, false, none, some, arith,
}
use mathlib.Core.List.{Perm}
use remote_access_platform.FileTransfer.{
  FileChunk, prepare_file_chunks, write_at, write_chunk_to_file,
}
use remote_access_platform.FileTransfer.Sha256.{
  compute_sha256, padded_message, length_bytes, pad_loop, hash_chunks, hash_chunk, block_words,
  extend_words, next_word, right_rotate, compress, round, complement, hex_words, hex, hex_digit,
}
use remote_access_platform.FileTransfer.Sha256.Injective.{padded_message-injective}
use remote_access_platform.FileTransfer.Chunks.{contents_of, Covers, prepare_file_chunks-Covers}
use remote_access_platform.FileTransfer.Assembly.{write_all, write_all-prepare_file_chunks}
use remote_access_platform.FileTransfer.Directory.{
  Entry, IsOrdered, item_of, list_directory, list_directory_lem,
}

abbrev abc : List ℕ
abc = b'a' ∷ b'b' ∷ b'c' ∷ []

-- The first test vector of FIPS 180-4.
sha256_abc :
    compute_sha256 abc
    ≡ 98 ∷ 97 ∷ 55 ∷ 56 ∷ 49 ∷ 54 ∷ 98 ∷ 102 ∷ 56 ∷ 102 ∷ 48 ∷ 49 ∷ 99 ∷ 102 ∷ 101 ∷ 97 ∷ 52 ∷ 49
      ∷ 52 ∷ 49 ∷ 52 ∷ 48 ∷ 100 ∷ 101 ∷ 53 ∷ 100 ∷ 97 ∷ 101 ∷ 50 ∷ 50 ∷ 50 ∷ 51 ∷ 98 ∷ 48 ∷ 48 ∷ 51
      ∷ 54 ∷ 49 ∷ 97 ∷ 51 ∷ 57 ∷ 54 ∷ 49 ∷ 55 ∷ 55 ∷ 97 ∷ 57 ∷ 99 ∷ 98 ∷ 52 ∷ 49 ∷ 48 ∷ 102 ∷ 102
      ∷ 54 ∷ 49 ∷ 102 ∷ 50 ∷ 48 ∷ 48 ∷ 49 ∷ 53 ∷ 97 ∷ 100 ∷ []
unfolding compute_sha256 padded_message pad_loop length_bytes hash_chunks hash_chunk block_words
    extend_words next_word right_rotate compress round complement hex_words hex hex_digit
sha256_abc = refl

padded_message-injective_example : abc ≡ abc
padded_message-injective_example = padded_message-injective abc abc (omega arith) (omega arith) refl

prepare_file_chunks-Covers_example :
    (cs : List FileChunk) × (prepare_file_chunks [] (some abc) 2 ≡ some cs)
    × (contents_of cs ≡ abc)
    × Covers [] 3 2 0 0 cs
prepare_file_chunks-Covers_example = prepare_file_chunks-Covers [] abc 2 (omega arith)

write_all-prepare_file_chunks_example :
    (cs : List FileChunk) × (prepare_file_chunks [] (some abc) 2 ≡ some cs)
    × (write_all (some (9 ∷ [])) cs ≡ (some abc, true))
write_all-prepare_file_chunks_example =
    write_all-prepare_file_chunks [] abc 2 (some (9 ∷ [])) (omega arith) (omega arith)

abbrev first : FileChunk
first = record {
  transfer_id = [];
  chunk_index = 0;
  offset = 0;
  total_size = 3;
  bytes = b'a' ∷ b'b' ∷ [];
  sha256_hash = [];
  is_last_chunk = false;
}

abbrev second : FileChunk
second = record {
  transfer_id = [];
  chunk_index = 1;
  offset = 2;
  total_size = 3;
  bytes = b'c' ∷ [];
  sha256_hash = [];
  is_last_chunk = true;
}

write_both : write_all none (first ∷ second ∷ []) ≡ (some abc, true)
unfolding write_all write_chunk_to_file write_at
write_both = refl

abbrev entry : List ℕ → Bool → Entry
entry name is_directory = record {
  filename = name;
  entry_is_directory = is_directory;
  is_regular_file = true;
  file_size = 4;
  last_write_time = 5;
}

abbrev entries : List Entry
entries = entry (b'b' ∷ []) false ∷ entry (b'z' ∷ []) true ∷ entry (b'a' ∷ []) false ∷ []

list_directory_lem_example :
    Perm (list_directory (λ _. some entries) [] []) (map item_of entries)
    × IsOrdered (list_directory (λ _. some entries) [] [])
list_directory_lem_example = list_directory_lem (λ _. some entries) [] [] entries refl
