-- ===== src/Client/Transfers/Outcomes.antt =====
-- How uploads and downloads end.
use remote_access_platform.Prelude.{
  ℕ, ◌^◌, ◌<◌, ◌≡◌, ◌≢◌, refl, ap, ◌∙◌, List, [], ◌∷◌, ◌++◌, true, false, Option, none, some,
  length, is_empty, arith, if◌then◌else◌, if-false,
}
use remote_access_platform.Qt.{Text, literal}
use remote_access_platform.FileTransfer.{FileChunk, prepare_file_chunks}
use remote_access_platform.FileTransfer.Chunks.{Covers, prepare_file_chunks-Covers}
use remote_access_platform.Client.Transfers.{
  nothing, fraction, Platform, Transfers, chunks_loop, upload_chunks, start_file_upload,
  download_chunks, start_file_download, request_directory_listing, rows_of, transfer_chunk_size,
  set_transfer_status, set_transfer_progress, total_size_of,
}
use remote_access_platform.Client.Transfers.Counting.{chunks_loop_file}

abbrev pub completed_upload : Text
completed_upload = literal "Upload Completed (SHA-256 Verified)"

abbrev pub completed_download : Text
completed_download = literal "Download Completed (SHA-256 Verified)"

-- An upload that went through.
pub record Uploaded (platform : Platform) (s t : Transfers) (total : ℕ) : Type 0 where
  pub status : t.transfer_status ≡ completed_upload
  pub all_bytes : t.current_transfer_bytes ≡ total
  pub same_total : t.total_transfer_bytes ≡ total
  pub full : t.transfer_progress ≡ fraction total total
  pub running : t.is_transfer_paused ≡ false
  pub same_disk : t.disk ≡ s.disk
  pub refreshed : t.directory_list ≡ rows_of platform s.disk t.current_remote_path

is_empty-ne : (xs : List ℕ) → xs ≢ [] → is_empty xs ≡ false
is_empty-ne [] h = absurd (h refl)
is_empty-ne (x ∷ xs) h = refl

length-ne : (xs : List ℕ) → xs ≢ [] → 0 < length xs
length-ne [] h = absurd (h refl)
length-ne (x ∷ xs) h = omega arith

module _ (platform : Platform) (clock : ℕ → ℕ) (now start : ℕ) where
  upload_chunks-Uploaded :
      (id contents : List ℕ) (cs : List FileChunk) (s : Transfers)
      → contents ≢ []
      → length contents < 2 ^ 64
      → Covers id (length contents) transfer_chunk_size 0 0 cs
      → s.is_transfer_paused ≡ false
      → Uploaded platform s (upload_chunks platform clock start cs s) (length contents)
  unfolding upload_chunks request_directory_listing
  upload_chunks-Uploaded id contents [] s ne fits e run =
      absurd (omega (arith, e, length-ne contents ne))
  upload_chunks-Uploaded id contents (c ∷ cs) s ne fits covers run =
      let s1 = record s { total_transfer_bytes = c.total_size; current_transfer_bytes = 0 } in
      let whole = covers.3 in
      let r =
        chunks_loop_file platform clock start id (length contents) transfer_chunk_size (c ∷ cs) s1
          (length-ne contents ne) fits covers
          (record { counted = refl; of_total = whole; running = run }) in
      record {
        status = refl;
        all_bytes = r.all_bytes;
        same_total = r.same_total;
        full = r.full;
        running = r.running;
        same_disk = r.same_disk;
        refreshed =
            (let path = (chunks_loop platform clock start 0 (c ∷ cs) s1).current_remote_path in
              ap (λ d. rows_of platform d (if is_empty path then literal "." else path))
                r.same_disk);
      }

  -- The upload of a file that has a path, can be read, is not empty and is below 2 ^ 64 bytes
  -- returns, having counted every byte of the file once, with the completed status, the whole
  -- progress and no pause; it leaves the files alone and lists the directory again.
  pub start_file_upload-Uploaded :
      (local_path : Text) (contents : List ℕ) (s : Transfers)
      → local_path ≢ []
      → s.disk.read (platform.qt.to_utf8 local_path) ≡ some contents
      → contents ≢ []
      → length contents < 2 ^ 64
      → (t : Transfers) × (start_file_upload platform clock now start local_path s ≡ some t)
        × Uploaded platform s t (length contents)
  unfolding start_file_upload
  start_file_upload-Uploaded local_path contents s path e ne fits =
      let id = platform.qt.to_utf8 (literal "tx-" ++ platform.qt.number now) in
      let (cs, cut, same_bytes, covers) =
        prepare_file_chunks-Covers id contents transfer_chunk_size (omega arith) in
      let s1 = set_transfer_progress nothing (
        set_transfer_status
          (literal "Uploading " ++ (platform.file_name local_path ++ literal "...")) s) in
      let s2 = record s1 { is_transfer_paused = false } in
      let u = upload_chunks-Uploaded id contents cs s2 ne fits covers refl in
      (
        upload_chunks platform clock start cs s2,
        if-false (some s) _ (is_empty-ne local_path path) ∙ rw (e, cut) refl,
        record {
          status = u.status;
          all_bytes = u.all_bytes;
          same_total = u.same_total;
          full = u.full;
          running = u.running;
          same_disk = u.same_disk;
          refreshed = u.refreshed;
        },
      )

  chunks_loop_paused :
      (k : ℕ) (cs : List FileChunk) (s : Transfers)
      → s.is_transfer_paused ≡ true
      → chunks_loop platform clock start k cs s ≡ s
  unfolding chunks_loop
  chunks_loop_paused k [] s p = refl
  chunks_loop_paused k (c ∷ cs) s p = ground arith

  download_chunks_paused :
      (cs : List FileChunk) (s : Transfers)
      → s.is_transfer_paused ≡ true
      → download_chunks platform clock start cs s
        ≡ set_transfer_status completed_download (record s {
          total_transfer_bytes = total_size_of platform 1024 cs;
          current_transfer_bytes = 0;
        })
  unfolding download_chunks
  download_chunks_paused cs s p =
      let s1 = record s {
        total_transfer_bytes = total_size_of platform 1024 cs;
        current_transfer_bytes = 0;
      } in
      ap (set_transfer_status completed_download) (chunks_loop_paused 0 cs s1 p)

  cuts :
      (id : List ℕ) (file : Option (List ℕ))
      → (cs : List FileChunk) × (prepare_file_chunks id file transfer_chunk_size ≡ some cs)
  cuts id none = ([], unfold prepare_file_chunks in refl)
  cuts id (some contents) =
      let (cs, cut, _, _) =
        prepare_file_chunks-Covers id contents transfer_chunk_size (omega arith) in
      (cs, cut)

  -- A download from a path that is not empty, started while transfers are paused or canceled,
  -- returns, takes no byte, and ends with the status of a completed and verified download.
  pub start_file_download_paused :
      (remote_path : Text) (s : Transfers)
      → remote_path ≢ []
      → s.is_transfer_paused ≡ true
      → (t : Transfers) × (start_file_download platform clock now start remote_path s ≡ some t)
        × (t.transfer_status ≡ completed_download)
        × (t.current_transfer_bytes ≡ 0)
        × (t.transfer_progress ≡ nothing)
  unfolding start_file_download
  start_file_download_paused remote_path s path paused =
      let id = platform.qt.to_utf8 (literal "rx-" ++ platform.qt.number now) in
      let (cs, cut) = cuts id (s.disk.read (platform.qt.to_utf8 remote_path)) in
      let s1 = set_transfer_progress nothing (
        set_transfer_status
          (literal "Downloading " ++ (platform.file_name remote_path ++ literal "...")) s) in
      let e = download_chunks_paused cs s1 paused in
      (
        download_chunks platform clock start cs s1,
        if-false (some s) _ (is_empty-ne remote_path path) ∙ rw cut refl,
        ap (λ k. k.transfer_status) e,
        ap (λ k. k.current_transfer_bytes) e,
        ap (λ k. k.transfer_progress) e,
      )
