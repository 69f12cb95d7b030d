-- ===== src/FileTransfer/Assembly.antt =====
-- Chunks written to a file in order, and what happens out of order.
use remote_access_platform.Prelude.{
  ℕ, ◌+◌, ◌-◌, ◌%◌, ◌^◌, ◌<◌, ◌≡◌, ◌↔◌, refl, sym, ap, ◌∙◌, List, [], ◌∷◌, ◌++◌, Bool, true, false,
  Option, none, some, length, drop, length-append, take-append, drop-all, replicate, arith,
  if◌then◌else◌, same_iff, Bool-cases, inl, inr,
}
use mathlib.Core.List.{append-nil, append_assoc}
use remote_access_platform.FileTransfer.{
  FileChunk, calculate_file_sha256, verify_integrity, prepare_file_chunks, write_at,
  write_chunk_to_file,
}
use remote_access_platform.FileTransfer.Chunks.{contents_of, Covers, prepare_file_chunks-Covers}
use remote_access_platform.FileTransfer.Sha256.{compute_sha256}

-- The receiver's file after the chunks were written to it in order, and whether all writes passed.
unfoldable pub write_all : Option (List ℕ) → List FileChunk → Option (List ℕ) × Bool
write_all file [] = (file, true)
write_all file (c ∷ cs) =
    let (file', done) = write_chunk_to_file true file c.offset c.bytes in
    if done then write_all file' cs else (file', false)

-- Writing at the end of a file.
write_at-end : (pre bytes : List ℕ) → write_at (length pre) bytes pre ≡ pre ++ bytes
unfolding write_at
write_at-end pre bytes =
    ap (λ (t : List ℕ). t ++ (bytes ++ drop (length pre + length bytes) pre))
      (take-append (length pre) pre (replicate (length pre - length pre) 0) refl)
    ∙ ap (λ (t : List ℕ). pre ++ (bytes ++ t))
        (drop-all (length pre + length bytes) pre (omega arith))
    ∙ ap (◌++◌ pre) (append-nil bytes)

-- A first chunk replaces whatever the file held.
pub write_chunk_to_file-first :
    (file : Option (List ℕ)) (bytes : List ℕ)
    → write_chunk_to_file true file 0 bytes ≡ (some bytes, true)
unfolding write_chunk_to_file
write_chunk_to_file-first file bytes = ap (λ (t : List ℕ). (some t, true)) (write_at-end [] bytes)

write_chunk_to_file-end :
    (pre bytes : List ℕ)
    → 0 < length pre
    → write_chunk_to_file true (some pre) (length pre) bytes ≡ (some (pre ++ bytes), true)
unfolding write_chunk_to_file
write_chunk_to_file-end [] bytes h = elim h [ ]
write_chunk_to_file-end (x ∷ xs) bytes h =
    ap (λ (t : List ℕ). (some t, true)) (write_at-end (x ∷ xs) bytes)

write_all-rest :
    (transfer_id : List ℕ) (total chunk_size chunk_index offset : ℕ) (pre : List ℕ)
    (cs : List FileChunk)
    → offset ≡ length pre
    → 0 < length pre
    → Covers transfer_id total chunk_size chunk_index offset cs
    → write_all (some pre) cs ≡ (some (pre ++ contents_of cs), true)
unfolding write_all
write_all-rest tid total size index offset pre [] e h c =
    ap (λ (t : List ℕ). (some t, true)) (sym (append-nil pre))
write_all-rest tid total size index offset pre (k ∷ ks) e h (_, _, ek, _, _, _, _, _, c) =
    rw (ek, e, write_chunk_to_file-end pre k.bytes h)
      (write_all-rest tid total size ((index + 1) % 2 ^ 32) (offset + length k.bytes)
          (pre ++ k.bytes) ks (omega (arith, length-append pre k.bytes))
          (omega (arith, length-append pre k.bytes)) c
        ∙ ap (λ (t : List ℕ). (some t, true)) (append_assoc pre k.bytes (contents_of ks)))

from_start :
    (transfer_id : List ℕ) (total chunk_size : ℕ) (cs : List FileChunk) (contents : List ℕ)
    (file : Option (List ℕ))
    → contents_of cs ≡ contents
    → Covers transfer_id total chunk_size 0 0 cs
    → 0 < length contents
    → write_all file cs ≡ (some contents, true)
unfolding write_all
from_start tid total size [] contents file e c h = absurd (omega (arith, ap length e))
from_start tid total size (k ∷ ks) contents file e (_, _, ek, _, _, pos, _, _, c) h =
    rw (ek, write_chunk_to_file-first file k.bytes)
      (write_all-rest tid total size ((0 + 1) % 2 ^ 32) (0 + length k.bytes) k.bytes ks
          (omega arith) pos c
        ∙ ap (λ (t : List ℕ). (some t, true)) e)

-- With a chunk size above 0, a file that is not empty is cut into chunks that, written in order
-- over any file or none, make that file.
pub write_all-prepare_file_chunks :
    (transfer_id contents : List ℕ) (chunk_size : ℕ) (file : Option (List ℕ))
    → 0 < chunk_size
    → 0 < length contents
    → (cs : List FileChunk) × (prepare_file_chunks transfer_id (some contents) chunk_size ≡ some cs)
      × (write_all file cs ≡ (some contents, true))
write_all-prepare_file_chunks transfer_id contents chunk_size file pos h =
    let (cs, e, whole, covers) = prepare_file_chunks-Covers transfer_id contents chunk_size pos in
    (cs, e, from_start transfer_id (length contents) chunk_size cs contents file whole covers h)

write_all-append :
    (file : Option (List ℕ)) (cs ds : List FileChunk) (written : Option (List ℕ))
    → write_all file cs ≡ (written, true)
    → write_all file (cs ++ ds) ≡ write_all written ds
unfolding write_all
write_all-append file [] ds written h =
    ap (λ (t : Option (List ℕ)). write_all t ds) (ap (λ t. t.0) h)
write_all-append file (c ∷ cs) ds written h =
    let step = write_chunk_to_file true file c.offset c.bytes in
    elim (Bool-cases step.1) [
      | inl y ↦ rw y (write_all-append step.0 cs ds written (rw y at h))
      | inr n ↦ cc (ap (λ t. t.1) (rw n at h))
    ]

-- If chunks that begin at offset 0 were written without an error, then writing the first once more
-- leaves a file of that chunk alone.
first_chunk_again :
    (file : Option (List ℕ)) (c : FileChunk) (cs : List FileChunk) (contents : List ℕ)
    → c.offset ≡ 0
    → write_all file (c ∷ cs) ≡ (some contents, true)
    → write_all file ((c ∷ cs) ++ (c ∷ [])) ≡ (some c.bytes, true)
first_chunk_again file c cs contents z h =
    write_all-append file (c ∷ cs) (c ∷ []) (some contents) h
    ∙ unfold write_all in rw (z, write_chunk_to_file-first (some contents) c.bytes)

-- The check of a file that opens passes exactly for the hash of its bytes; of a file that does not
-- open, exactly for the empty hash.
verify_integrity_iff :
    (contents expected : List ℕ)
    → ((verify_integrity (some contents) expected ≡ true) ↔ (expected ≡ compute_sha256 contents))
      × ((verify_integrity none expected ≡ true) ↔ (expected ≡ []))
unfolding verify_integrity calculate_file_sha256
verify_integrity_iff contents expected =
    ground (arith, same_iff (compute_sha256 contents) expected, same_iff [] expected)
