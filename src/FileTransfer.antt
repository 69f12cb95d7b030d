-- ===== src/FileTransfer.antt =====
-- libs/file_transfer: FileTransferEngine (include/FileTransferEngine.h, src/FileTransferEngine.cpp).
-- The file system is an argument: a file that can be opened for reading is `some` of its bytes, and a
-- directory is what its iterator yields. A file keeps its contents while it is read.
pub mod Sha256
pub mod Chunks
pub mod Assembly
pub mod Directory
use remote_access_platform.Prelude.{
  ℕ, zero, suc, ◌+◌, ◌-◌, ◌%◌, ◌^◌, min, List, [], ◌∷◌, ◌++◌, Bool, true, false, ◌&&◌, ◌||◌, not,
  Option, none, some, length, take, drop, replicate, ltb, leb, ◌==◌, if◌then◌else◌, same,
}
use remote_access_platform.FileTransfer.Sha256.{compute_sha256}

pub record FileChunk : Type 0 where
  pub transfer_id : List ℕ
  pub chunk_index : ℕ
  pub offset : ℕ
  pub total_size : ℕ
  pub bytes : List ℕ
  pub sha256_hash : List ℕ
  pub is_last_chunk : Bool

unfoldable pub calculate_sha256 : List ℕ → List ℕ
calculate_sha256 bytes = compute_sha256 bytes

-- A file that does not open has the empty text for a hash.
unfoldable pub calculate_file_sha256 : Option (List ℕ) → List ℕ
calculate_file_sha256 none = []
calculate_file_sha256 (some contents) = compute_sha256 contents

unfoldable pub verify_integrity : Option (List ℕ) → List ℕ → Bool
verify_integrity file expected_sha256 = same (calculate_file_sha256 file) expected_sha256

unfoldable pub make_chunk : List ℕ → List ℕ → ℕ → ℕ → ℕ → FileChunk
make_chunk transfer_id contents chunk_index offset current_chunk_size =
    let bytes = take current_chunk_size (drop offset contents) in
    record {
      transfer_id = transfer_id;
      chunk_index = chunk_index;
      offset = offset;
      total_size = length contents;
      bytes = bytes;
      sha256_hash = calculate_sha256 bytes;
      is_last_chunk = leb (length contents) (offset + current_chunk_size);
    }

-- `while (offset < totalSize)`; `none` means that the fuel ran out before the loop ended.
unfoldable pub chunk_loop : ℕ → List ℕ → List ℕ → ℕ → ℕ → ℕ → Option (List FileChunk)
chunk_loop zero transfer_id contents chunk_size chunk_index offset =
    if ltb offset (length contents) then none else some []
chunk_loop (suc fuel) transfer_id contents chunk_size chunk_index offset =
    let current_chunk_size = min chunk_size (length contents - offset) in
    let rest =
      chunk_loop fuel transfer_id contents chunk_size ((chunk_index + 1) % 2 ^ 32)
        (offset + current_chunk_size) in
    if ltb offset (length contents)
    then (elim rest [
      | none ↦ none
      | some chunks ↦
          some (make_chunk transfer_id contents chunk_index offset current_chunk_size ∷ chunks)
    ])
    else some []

-- A round takes a byte at least where the chunk size is not 0, so that as many rounds as bytes are
-- enough then.
unfoldable pub prepare_file_chunks : List ℕ → Option (List ℕ) → ℕ → Option (List FileChunk)
prepare_file_chunks transfer_id none chunk_size = some []
prepare_file_chunks transfer_id (some contents) chunk_size =
    chunk_loop (length contents) transfer_id contents chunk_size 0 0

-- Writing at a position: a gap behind the end is filled with zeros.
unfoldable pub write_at : ℕ → List ℕ → List ℕ → List ℕ
write_at offset bytes contents =
    take offset (contents ++ replicate (offset - length contents) 0)
    ++ (bytes ++ drop (offset + length bytes) contents)

-- The file afterwards, and the result. At offset 0 the file is created or emptied; elsewhere it must be
-- there. The first argument tells whether the system lets the file be opened for writing.
unfoldable pub write_chunk_to_file : Bool → Option (List ℕ) → ℕ → List ℕ → Option (List ℕ) × Bool
write_chunk_to_file false file offset bytes = (file, false)
write_chunk_to_file true file zero bytes = (some (write_at 0 bytes []), true)
write_chunk_to_file true none (suc offset) bytes = (none, false)
write_chunk_to_file true (some contents) (suc offset) bytes =
    (some (write_at (suc offset) bytes contents), true)
