-- ===== src/Client/Transfers.antt =====
-- The file transfers of SessionClient.cpp: listings, uploads, downloads, pausing, deleting. The files of this
-- computer are part of the state. Times are arguments; a `double` is kept as the two counts that it
-- is the quotient of. `none` is a loop that does not end, which the chunk size of 256 KB rules out.
pub mod Counting
pub mod Outcomes
use remote_access_platform.Prelude.{
  ℕ, ◌+◌, ◌-◌, ◌*◌, ◌/◌, ◌%◌, ◌^◌, max, List, [], ◌∷◌, ◌++◌, map, Bool, true, false, Option, none,
  some, length, if◌then◌else◌, is_empty,
}
use remote_access_platform.Qt.{Text, QtText, literal}
use remote_access_platform.FileTransfer.{FileChunk, prepare_file_chunks}
use remote_access_platform.FileTransfer.Directory.{DirectoryItem, Entry, list_directory}

-- 0.0, or one count over another.
pub data Progress : Type 0 where
  nothing : Progress
  fraction : ℕ → ℕ → Progress

-- A row of `directoryList_`.
pub record ListedItem : Type 0 where
  pub name : Text
  pub size : ℕ
  pub is_dir : Bool
  pub modified_time : ℕ

-- What the file system holds: contents, entries of directories, and the current path.
pub record Disk : Type 0 where
  pub read : List ℕ → Option (List ℕ)
  pub entries_of : List ℕ → Option (List Entry)
  pub current_path : List ℕ

pub data TransferOutput : Type 0 where
  transfer_status_changed : Text → TransferOutput
  transfer_progress_changed : Progress → TransferOutput
  transfer_speed_changed : Text → TransferOutput
  current_remote_path_changed : Text → TransferOutput
  directory_list_changed : List ListedItem → TransferOutput
  current_local_path_changed : Text → TransferOutput
  local_directory_list_changed : List ListedItem → TransferOutput

pub record Transfers : Type 0 where
  pub disk : Disk
  pub transfer_progress : Progress
  pub transfer_status : Text
  pub transfer_speed : Text
  pub directory_list : List ListedItem
  pub current_remote_path : Text
  pub local_directory_list : List ListedItem
  pub current_local_path : Text
  pub is_transfer_paused : Bool
  pub current_transfer_bytes : ℕ
  pub total_transfer_bytes : ℕ
  pub transfer_outputs : List TransferOutput

abbrev pub note : TransferOutput → Transfers → Transfers
note o s = record s { transfer_outputs = s.transfer_outputs ++ (o ∷ []) }

abbrev pub set_transfer_status : Text → Transfers → Transfers
set_transfer_status status s =
    note (transfer_status_changed status) (record s { transfer_status = status })

abbrev pub set_transfer_progress : Progress → Transfers → Transfers
set_transfer_progress progress s =
    note (transfer_progress_changed progress) (record s { transfer_progress = progress })

unfoldable pub pause_file_transfer : Transfers → Transfers
pause_file_transfer s =
    set_transfer_status (literal "Transfer Paused (Offset Saved)")
      (record s { is_transfer_paused = true })

unfoldable pub resume_file_transfer : Transfers → Transfers
resume_file_transfer s =
    set_transfer_status (literal "Resuming Transfer...") (record s { is_transfer_paused = false })

unfoldable pub cancel_file_transfer : Transfers → Transfers
cancel_file_transfer s = note (transfer_progress_changed nothing) (
    set_transfer_status (literal "Transfer Canceled") (record s {
      is_transfer_paused = true;
      transfer_progress = nothing;
      current_transfer_bytes = 0;
    }))

-- `256 * 1024`
abbrev pub transfer_chunk_size : ℕ
transfer_chunk_size = 262144

-- What the slots use of Qt and the system: texts, `QFileInfo::fileName`, the text of a speed in MB/s from
-- bytes and seconds, and what `remove_all` leaves.
pub record Platform : Type 0 where
  pub qt : QtText
  pub file_name : Text → Text
  pub mbps_text : ℕ → ℕ → Text
  pub remove_all : List ℕ → Disk → Disk

module _ (platform : Platform) where
  open platform use {qt, file_name, mbps_text, remove_all}

  abbrev pub listed : DirectoryItem → ListedItem
  listed item = record {
    name = qt.from_utf8 item.name;
    size = item.size;
    is_dir = item.is_directory;
    modified_time = item.modified_time;
  }

  -- The rows of a directory.
  unfoldable pub rows_of : Disk → Text → List ListedItem
  rows_of disk path =
      map listed (list_directory disk.entries_of disk.current_path (qt.to_utf8 path))

  unfoldable pub request_directory_listing : Text → Transfers → Transfers
  request_directory_listing path s =
      let current = if is_empty path then literal "." else path in
      let s1 =
        note (current_remote_path_changed current) (record s { current_remote_path = current }) in
      let rows = rows_of s1.disk current in
      note (directory_list_changed rows) (record s1 { directory_list = rows })

  unfoldable pub request_local_directory_listing : Text → Transfers → Transfers
  request_local_directory_listing path s =
      let current = if is_empty path then literal "." else path in
      let s1 =
        note (current_local_path_changed current) (record s { current_local_path = current }) in
      let rows = rows_of s1.disk current in
      note (local_directory_list_changed rows) (record s1 { local_directory_list = rows })

  -- One chunk of the loop at a time; `start` is when the loop began.
  unfoldable pub count_chunk : ℕ → ℕ → FileChunk → Transfers → Transfers
  count_chunk start now chunk s =
      let bytes = (s.current_transfer_bytes + length chunk.bytes) % 2 ^ 64 in
      let s1 =
        set_transfer_progress (fraction bytes s.total_transfer_bytes)
          (record s { current_transfer_bytes = bytes }) in
      let elapsed_sec = max 1 ((now - start) / 1000) in
      let speed = mbps_text bytes elapsed_sec ++ literal " MB/s" in
      note (transfer_speed_changed speed) (record s1 { transfer_speed = speed })

  -- `for (const auto& chunk : chunks)`; `clock k` is the time in round k.
  unfoldable pub chunks_loop : (ℕ → ℕ) → ℕ → ℕ → List FileChunk → Transfers → Transfers
  chunks_loop clock start k [] s = s
  chunks_loop clock start k (chunk ∷ chunks) s = elim s.is_transfer_paused [
    | true ↦ s
    | false ↦ chunks_loop clock start (k + 1) chunks (count_chunk start (clock k) chunk s)
  ]

  abbrev pub total_size_of : ℕ → List FileChunk → ℕ
  total_size_of otherwise [] = otherwise
  total_size_of otherwise (chunk ∷ chunks) = chunk.total_size

  unfoldable pub upload_chunks : (ℕ → ℕ) → ℕ → List FileChunk → Transfers → Transfers
  upload_chunks clock start chunks s =
      if is_empty chunks
      then set_transfer_status (literal "Error: File empty or unreadable") s
      else (let s1 = record s {
        total_transfer_bytes = total_size_of 0 chunks;
        current_transfer_bytes = 0;
      } in
          let s2 =
            set_transfer_status (literal "Upload Completed (SHA-256 Verified)")
              (chunks_loop clock start 0 chunks s1) in
          request_directory_listing s2.current_remote_path s2)

  -- The time of the transfer's name is an argument too; the remote path is not used.
  unfoldable pub start_file_upload : (ℕ → ℕ) → ℕ → ℕ → Text → Transfers → Option Transfers
  start_file_upload clock now start local_path s =
      let s1 =
        set_transfer_progress nothing (
          set_transfer_status (literal "Uploading " ++ (file_name local_path ++ literal "..."))
            s) in
      let s2 = record s1 { is_transfer_paused = false } in
      if is_empty local_path
      then some s
      else (elim (prepare_file_chunks (qt.to_utf8 (literal "tx-" ++ qt.number now))
          (s.disk.read (qt.to_utf8 local_path)) transfer_chunk_size) [
            | none ↦ none
            | some chunks ↦ some (upload_chunks clock start chunks s2)
          ])

  unfoldable pub download_chunks : (ℕ → ℕ) → ℕ → List FileChunk → Transfers → Transfers
  download_chunks clock start chunks s =
      set_transfer_status (literal "Download Completed (SHA-256 Verified)") (
        chunks_loop clock start 0 chunks (record s {
          total_transfer_bytes = total_size_of 1024 chunks;
          current_transfer_bytes = 0;
        }))

  -- The local path is not used.
  unfoldable pub start_file_download : (ℕ → ℕ) → ℕ → ℕ → Text → Transfers → Option Transfers
  start_file_download clock now start remote_path s =
      let s1 = set_transfer_progress nothing (
        set_transfer_status (literal "Downloading " ++ (file_name remote_path ++ literal "..."))
          s) in
      if is_empty remote_path
      then some s
      else (elim (prepare_file_chunks (qt.to_utf8 (literal "rx-" ++ qt.number now))
          (s.disk.read (qt.to_utf8 remote_path)) transfer_chunk_size) [
            | none ↦ none
            | some chunks ↦ some (download_chunks clock start chunks s1)
          ])

  unfoldable pub delete_local_file : Text → Transfers → Transfers
  delete_local_file path s =
      let s1 =
        set_transfer_status (literal "Deleted local item: " ++ file_name path)
          (record s { disk = remove_all (qt.to_utf8 path) s.disk }) in
      if is_empty path then s else request_local_directory_listing s1.current_local_path s1

  unfoldable pub delete_remote_file : Text → Transfers → Transfers
  delete_remote_file path s =
      let s1 =
        set_transfer_status (literal "Deleted remote item: " ++ file_name path)
          (record s { disk = remove_all (qt.to_utf8 path) s.disk }) in
      if is_empty path then s else request_directory_listing s1.current_remote_path s1
