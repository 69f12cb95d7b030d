-- ===== src/Client/Transfers/Counting.antt =====
-- What a transfer counts.
use remote_access_platform.Prelude.{
  ℕ, ◌+◌, ◌%◌, ◌^◌, ◌≤◌, ◌<◌, ◌≡◌, refl, ap, ◌∙◌, List, [], ◌∷◌, false, length, arith,
}
use remote_access_platform.FileTransfer.{FileChunk}
use remote_access_platform.FileTransfer.Chunks.{Covers}
use remote_access_platform.Client.Transfers.{
  fraction, Platform, Transfers, count_chunk, chunks_loop,
}

Covers_lem :
    (id : List ℕ) (total size index offset : ℕ) (cs : List FileChunk)
    → Covers id total size index offset cs
    → offset ≤ total
Covers_lem id total size index offset [] e = omega (arith, e)
Covers_lem id total size index offset (c ∷ cs) (_, _, _, _, _, _, _, _, rest) =
    omega (arith, Covers_lem id total size ((index + 1) % 2 ^ 32) (offset + length c.bytes) cs rest)

-- The session after a loop that ran to its end.
pub record Counted (s t : Transfers) (total : ℕ) : Type 0 where
  pub all_bytes : t.current_transfer_bytes ≡ total
  pub same_total : t.total_transfer_bytes ≡ total
  pub full : t.transfer_progress ≡ fraction total total
  pub running : t.is_transfer_paused ≡ false
  pub same_disk : t.disk ≡ s.disk
  pub same_path : t.current_remote_path ≡ s.current_remote_path

-- The state of the loop before the chunk at an offset.
pub record At (s : Transfers) (offset total : ℕ) : Type 0 where
  pub counted : s.current_transfer_bytes ≡ offset
  pub of_total : s.total_transfer_bytes ≡ total
  pub running : s.is_transfer_paused ≡ false

module _ (platform : Platform) (clock : ℕ → ℕ) (start : ℕ) where
  count_chunk-At :
      (now offset total : ℕ) (c : FileChunk) (s : Transfers)
      → offset + length c.bytes < 2 ^ 64
      → At s offset total
      → At (count_chunk platform start now c s) (offset + length c.bytes) total
  unfolding count_chunk
  count_chunk-At now offset total c s fits a = record {
    counted = omega (arith, a.counted);
    of_total = a.of_total;
    running = a.running;
  }

  count_chunk-progress :
      (now offset total : ℕ) (c : FileChunk) (s : Transfers)
      → offset + length c.bytes < 2 ^ 64
      → At s offset total
      → (count_chunk platform start now c s).transfer_progress
        ≡ fraction (offset + length c.bytes) total
  unfolding count_chunk
  count_chunk-progress now offset total c s fits a =
      let one : (s.current_transfer_bytes + length c.bytes) % 2 ^ 64 ≡ offset + length c.bytes =
        omega (arith, a.counted) in
      let two = a.of_total in cc

  count_chunk_frame :
      (now : ℕ) (c : FileChunk) (s : Transfers)
      → ((count_chunk platform start now c s).disk ≡ s.disk)
        × ((count_chunk platform start now c s).current_remote_path ≡ s.current_remote_path)
  unfolding count_chunk
  count_chunk_frame now c s = (refl, refl)

  chunks_loop-Counted :
      (id : List ℕ) (total size index offset k : ℕ) (cs : List FileChunk) (s : Transfers)
      → total < 2 ^ 64
      → Covers id total size index offset cs
      → At s offset total
      → s.transfer_progress ≡ fraction offset total
      → Counted s (chunks_loop platform clock start k cs s) total
  unfolding chunks_loop
  chunks_loop-Counted id total size index offset k [] s fits e a p = record {
    all_bytes = a.counted ∙ e;
    same_total = a.of_total;
    full = p ∙ ap (λ n. fraction n total) e;
    running = a.running;
    same_disk = refl;
    same_path = refl;
  }
  chunks_loop-Counted id total size index offset k (c ∷ cs) s fits (_, _, _, _, _, _, _, _, rest) a
        p =
      let next = offset + length c.bytes in
      let inside = Covers_lem id total size ((index + 1) % 2 ^ 32) next cs rest in
      let small : next < 2 ^ 64 = omega (arith, inside) in
      let s' = count_chunk platform start (clock k) c s in
      let r =
        chunks_loop-Counted id total size ((index + 1) % 2 ^ 32) next (k + 1) cs s' fits rest
          (count_chunk-At (clock k) offset total c s small a)
          (count_chunk-progress (clock k) offset total c s small a) in
      let kept = count_chunk_frame (clock k) c s in
      rw (a.running, chunks_loop)
        (record {
          all_bytes = r.all_bytes;
          same_total = r.same_total;
          full = r.full;
          running = r.running;
          same_disk = r.same_disk ∙ kept.0;
          same_path = r.same_path ∙ kept.1;
        })

  -- The loop over all chunks of a file that is not empty.
  pub chunks_loop_file :
      (id : List ℕ) (total size : ℕ) (cs : List FileChunk) (s : Transfers)
      → 0 < total
      → total < 2 ^ 64
      → Covers id total size 0 0 cs
      → At s 0 total
      → Counted s (chunks_loop platform clock start 0 cs s) total
  unfolding chunks_loop
  chunks_loop_file id total size [] s pos fits e a = absurd (omega (arith, e))
  chunks_loop_file id total size (c ∷ cs) s pos fits (_, _, _, _, _, _, _, _, rest) a =
      let next : ℕ = 0 + length c.bytes in
      let inside = Covers_lem id total size 1 next cs rest in
      let small : next < 2 ^ 64 = omega (arith, inside) in
      let s' = count_chunk platform start (clock 0) c s in
      let r =
        chunks_loop-Counted id total size 1 next 1 cs s' fits rest
          (count_chunk-At (clock 0) 0 total c s small a)
          (count_chunk-progress (clock 0) 0 total c s small a) in
      let kept = count_chunk_frame (clock 0) c s in
      rw (a.running, chunks_loop)
        (record {
          all_bytes = r.all_bytes;
          same_total = r.same_total;
          full = r.full;
          running = r.running;
          same_disk = r.same_disk ∙ kept.0;
          same_path = r.same_path ∙ kept.1;
        })
