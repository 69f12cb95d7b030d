-- ===== src/FileTransfer/Chunks.antt =====
-- A file cut into chunks, and put together again.
use remote_access_platform.Prelude.{
  ℕ, zero, suc, ◌+◌, ◌-◌, ◌%◌, ◌^◌, ◌≤◌, ◌<◌, min, ◌≡◌, ◌↔◌, refl, sym, ap, ◌∙◌, List, [], ◌∷◌,
  ◌++◌, true, Option, none, some, length, take, drop, length-append, length-take, length-drop,
  take-append-drop, drop-drop, arith, leb, ltb-false, if-false, if-true, lt→ltb, leb→le, drop-all,
}
use native.Mathlib.Decide.{dec_lt}
use remote_access_platform.FileTransfer.{
  FileChunk, calculate_sha256, make_chunk, chunk_loop, prepare_file_chunks,
}

-- What the chunks hold, one after the other.
abbrev pub contents_of : List FileChunk → List ℕ
contents_of [] = []
contents_of (c ∷ cs) = c.bytes ++ contents_of cs

-- Chunks that cover a file from an offset on: each begins where the one before it ends, carries the
-- next index and the hash of its bytes, holds `chunk_size` bytes, or what is left of the file if that is less, and one at least, and the one that reaches the
-- end of the file, and no other, is marked as the last.
abbrev pub Covers : List ℕ → ℕ → ℕ → ℕ → ℕ → List FileChunk → Type 0
Covers transfer_id total chunk_size chunk_index offset [] = offset ≡ total
Covers transfer_id total chunk_size chunk_index offset (c ∷ cs) =
    (c.transfer_id ≡ transfer_id)
    × (c.chunk_index ≡ chunk_index)
    × (c.offset ≡ offset)
    × (c.total_size ≡ total)
    × (c.sha256_hash ≡ calculate_sha256 c.bytes)
    × (0 < length c.bytes)
    × (length c.bytes ≡ min chunk_size (total - offset))
    × ((c.is_last_chunk ≡ true) ↔ (cs ≡ []))
    × Covers transfer_id total chunk_size ((chunk_index + 1) % 2 ^ 32) (offset + length c.bytes) cs

module _ (transfer_id contents : List ℕ) (chunk_size : ℕ) where
  length-chunk :
      (offset : ℕ)
      → offset ≤ length contents
      → length (take (min chunk_size (length contents - offset)) (drop offset contents))
        ≡ min chunk_size (length contents - offset)
  length-chunk offset h = omega (
    arith,
    length-take (min chunk_size (length contents - offset)) (drop offset contents),
    length-drop offset contents,
  )

  -- The loop from an offset, with enough fuel.
  abbrev LoopResult : ℕ → ℕ → Option (List FileChunk) → Type 0
  LoopResult chunk_index offset r =
      (cs : List FileChunk) × (r ≡ some cs)
      × (contents_of cs ≡ drop offset contents)
      × Covers transfer_id (length contents) chunk_size chunk_index offset cs

  chunk_loop-end :
      (fuel chunk_index offset : ℕ)
      → offset ≡ length contents
      → LoopResult chunk_index offset
          (chunk_loop fuel transfer_id contents chunk_size chunk_index offset)
  unfolding chunk_loop
  chunk_loop-end zero chunk_index offset e = (
    [],
    if-false none (some []) (ltb-false offset (length contents) (omega arith)),
    sym (drop-all offset contents (omega arith)),
    e,
  )
  chunk_loop-end (suc fuel) chunk_index offset e = (
    [],
    if-false _ (some []) (ltb-false offset (length contents) (omega arith)),
    sym (drop-all offset contents (omega arith)),
    e,
  )

  -- The chunks behind an offset are none exactly if it is the end.
  no_more_iff :
      (chunk_index offset : ℕ) (cs : List FileChunk)
      → contents_of cs ≡ drop offset contents
      → Covers transfer_id (length contents) chunk_size chunk_index offset cs
      → (leb (length contents) offset ≡ true) ↔ (cs ≡ [])
  no_more_iff chunk_index offset [] e c = (λ _. refl, λ _. ground (arith, c))
  no_more_iff chunk_index offset (k ∷ ks) e (_, _, _, _, _, pos, _, _, _) = (
    λ l. absurd (
        omega (
          arith,
          leb→le (length contents) offset l,
          ap length e,
          length-append k.bytes (contents_of ks),
          length-drop offset contents,
        )),
    λ h. cc,
  )

  chunk_loop-step :
      (fuel chunk_index offset : ℕ)
      → 0 < chunk_size
      → offset < length contents
      → let n = min chunk_size (length contents - offset) in
        LoopResult ((chunk_index + 1) % 2 ^ 32) (offset + n) (
          chunk_loop fuel transfer_id contents chunk_size ((chunk_index + 1) % 2 ^ 32) (offset + n))
        → LoopResult chunk_index offset
            (chunk_loop (suc fuel) transfer_id contents chunk_size chunk_index offset)
  unfolding chunk_loop make_chunk
  chunk_loop-step fuel chunk_index offset pos more (cs, e, whole, covers) =
      let n = min chunk_size (length contents - offset) in
      let c = make_chunk transfer_id contents chunk_index offset n in
      let l = length-chunk offset (omega arith) in
      (
        c ∷ cs,
        if-true _ (some []) (lt→ltb offset (length contents) more) ∙ rw e,
        ap (◌++◌ c.bytes) (whole ∙ sym (drop-drop n offset contents))
            ∙ take-append-drop n (drop offset contents),
        (
          refl,
          refl,
          refl,
          refl,
          refl,
          omega (arith, l),
          omega (arith, l),
          no_more_iff ((chunk_index + 1) % 2 ^ 32) (offset + n) cs whole covers,
          rw l covers,
        ),
      )

  chunk_loop-covers :
      (fuel chunk_index offset : ℕ)
      → 0 < chunk_size
      → offset ≤ length contents
      → length contents ≤ fuel + offset
      → LoopResult chunk_index offset
          (chunk_loop fuel transfer_id contents chunk_size chunk_index offset)
  chunk_loop-covers zero chunk_index offset pos h enough =
      chunk_loop-end zero chunk_index offset (omega arith)
  chunk_loop-covers (suc fuel) chunk_index offset pos h enough =
      elim (dec_lt offset (length contents)) [
        | yes more ↦ chunk_loop-step fuel chunk_index offset pos more (
            chunk_loop-covers fuel ((chunk_index + 1) % 2 ^ 32)
              (offset + min chunk_size (length contents - offset)) pos (omega arith) (omega arith))
        | no done ↦ chunk_loop-end (suc fuel) chunk_index offset (omega arith)
      ]

  -- With a chunk size of 0 the loop over a file that is not empty ends after no number of rounds.
  chunk_loop_stuck :
      (fuel : ℕ)
      → chunk_size ≡ 0
      → 0 < length contents
      → (chunk_index : ℕ) → chunk_loop fuel transfer_id contents chunk_size chunk_index 0 ≡ none
  unfolding chunk_loop
  chunk_loop_stuck zero z h chunk_index = if-true none (some []) (lt→ltb 0 (length contents) h)
  chunk_loop_stuck (suc fuel) z h chunk_index =
      let still : 0 + min chunk_size (length contents - 0) ≡ 0 = omega arith in
      if-true _ (some []) (lt→ltb 0 (length contents) h)
      ∙ rw (still, chunk_loop_stuck fuel z h ((chunk_index + 1) % 2 ^ 32))

-- With a chunk size above 0 the cutting ends; the chunks hold the file's bytes in order, their
-- numbers, offsets, hashes and last marks are those of the file cut at that size, and each has the
-- chunk size or what is left of the file, if that is less.
pub prepare_file_chunks-Covers :
    (transfer_id contents : List ℕ) (chunk_size : ℕ)
    → 0 < chunk_size
    → (cs : List FileChunk) × (prepare_file_chunks transfer_id (some contents) chunk_size ≡ some cs)
      × (contents_of cs ≡ contents)
      × Covers transfer_id (length contents) chunk_size 0 0 cs
unfolding prepare_file_chunks
prepare_file_chunks-Covers transfer_id contents chunk_size pos =
    chunk_loop-covers transfer_id contents chunk_size (length contents) 0 0 pos (omega arith)
      (omega arith)
