-- ===== src/Service/Uploading.antt =====
-- `storage_gen_filename`, `storage_save_file` and `storage_upload_file`.
pub mod Names
use demostroage.Prelude.{
  ℕ, zero, suc, ◌+◌, ◌-◌, ◌/◌, ◌%◌, ◌^◌, Bool, false, not, Option, none, some, List, [], ◌∷◌, ◌++◌,
  ltb, leb, ◌==◌, if◌then◌else◌, Bytes, length, take, drop, ℤ, to_ℕ, is_pos, is_neg,
}
use demostroage.Libc.{cstr, strtoi, print_hex, print_hex2}
use demostroage.Shared.{int2buff}
use demostroage.Hash.{pjw_hash}
use demostroage.Base64
use demostroage.Metadata.{sorted_pack, sorted_buff}
use demostroage.Runtime.{World, Cmd, pure, leave, undefined, gets, block, case_option, ◌>>=◌, ◌>>◌}
use demostroage.Posix.{
  codes, enoent, enomem, einval, epipe, junk_bytes, attempt, log_error, fail, guard, file_exists,
  unlink, time, rand,
}
use demostroage.FileIo.{write_to_file}
use demostroage.Binlog.{storage_binlog_write}
use demostroage.Wire.{Header, cmd_resp, header_bytes, at_most, recv_or_fail, send_then}
use demostroage.Service.{data_path, meta_ext}
use demostroage.Service.Replicating.{allocate, first_field, second_field}

-- the twelve bytes that a name is made of
abbrev pub name_key : ℕ → ℕ → ℕ → Bytes
name_key now size r = int2buff now ++ (int2buff size ++ int2buff r)

-- the two folders that the hash of the encoded key names: "%02X/%02X/"
abbrev pub folders : ℕ → Bytes
folders n = print_hex2 (n / 2 ^ 8 % 256) ++ (b'/' ∷ (print_hex2 (n % 256) ++ (b'/' ∷ [])))

-- the `*filename_len` bytes of `storage_gen_filename`, given what `time` and `rand` returned
unfoldable pub gen_filename : Base64.Context → ℕ → ℕ → ℕ → Bytes
unfolding int2buff print_hex2 pjw_hash Base64.encode
gen_filename x now size r =
    let encoded = Base64.encode x (name_key now size r) false in
    folders (pjw_hash encoded % 2 ^ 16) ++ encoded

-- `storage_gen_filename`
unfoldable pub storage_gen_filename : ℕ → Cmd Bytes
storage_gen_filename size = do
  r ← rand
  now ← time
  x ← gets (λ w. w.base64)
  pure (gen_filename x now size r)

-- a round of the loop of `storage_save_file`, `again` being the rounds behind it
unfoldable pub try_name : Cmd (Option Bytes) → ℕ → Cmd (Option Bytes)
try_name again size = do
  filename ← storage_gen_filename size
  full ← gets (λ w. data_path w.base_path (cstr filename))
  exists ← file_exists full
  if exists then again else pure (some filename)

-- the loop: a name that is not taken, or `none` after `tries` names
unfoldable pub find_name : ℕ → ℕ → Cmd (Option Bytes)
find_name zero size = pure none
find_name (suc tries) size = try_name (find_name tries size) size

-- an error of `storage_save_file` behind the file's creation
unfoldable pub drop_file : Bytes → ℕ → Cmd (Unit {0})
drop_file full result = do unlink full; leave result

-- `storage_sort_metadata_buff`, with its two `malloc`s, and the metadata file. Metadata without
-- an item is packed from before the buffer, which is undefined.
unfoldable pub save_meta : Bytes → Bytes → Cmd (Unit {0})
save_meta full meta_buff = do
  list_allocated ← attempt
  guard list_allocated (drop_file full enomem)
  rows_allocated ← attempt
  guard rows_allocated (drop_file full enomem)
  case_option (sorted_pack meta_buff) undefined λ packed. do
    written ← write_to_file (full ++ meta_ext) (sorted_buff meta_buff packed)
    guard (written == 0) (drop_file full written)

-- `storage_save_file` in the block of its caller: the name, or a `break` with the result
unfoldable pub storage_save_file : Bytes → Bytes → Cmd Bytes
storage_save_file content meta_buff = do
  found ← find_name 1024 (length content)
  case_option found (do fail enoent; pure [])
      λ filename. do
        full ← gets (λ w. data_path w.base_path (cstr filename))
        written ← write_to_file full content
        guard (written == 0) (leave written)
        (if length meta_buff == 0 then pure tt else save_meta full meta_buff)
        pure filename

-- `nInPackLen - (2 * TRACKER_PROTO_PKG_LEN_SIZE + meta_bytes + 1)` in 32 bits
abbrev pub remaining : ℕ → ℕ → ℕ
remaining n meta_bytes = (n + 2 ^ 32 - (19 + meta_bytes) % 2 ^ 32) % 2 ^ 32

-- what is done with the `n` bytes of `in_buff`
unfoldable pub upload_received : ℕ → Bytes → Cmd Bytes
upload_received n in_buff = do
  let meta_bytes = to_ℕ (first_field in_buff)
  let file_bytes = to_ℕ (second_field in_buff)
  guard (not (is_neg (first_field in_buff))) (fail einval)
  guard (not (is_neg (second_field in_buff))) (fail einval)
  guard (file_bytes == remaining n meta_bytes) (fail einval)
  guard (leb (19 + meta_bytes) n) undefined
  filename ← storage_save_file (drop (19 + meta_bytes) in_buff) (take meta_bytes (drop 18 in_buff))
  logged ← storage_binlog_write b'C' (cstr filename)
  guard (logged == 0) (leave logged)
  meta_logged ←
      (if meta_bytes == 0 then pure 0 else storage_binlog_write b'C' (cstr filename ++ meta_ext))
  guard (meta_logged == 0) (leave meta_logged)
  pure filename

-- `sizeof(in_buff)`, the size of a pointer: so many bytes of the package are received
abbrev pub pointer_size : ℕ
pointer_size = 8

-- `in_buff` after the receive: behind the bytes received is what the memory held
abbrev pub upload_buff : (ℕ → ℕ) → ℕ → Bytes → Bytes
upload_buff junk n received = take n (received ++ junk_bytes junk 0 n)

-- the outcome of the block: a filename, or the status of a `break`
pub data Upload : Type 0 where
  stored : Bytes → Upload
  refused : ℕ → Upload

-- the reply, in one send
unfoldable pub reply_upload : Upload → Cmd ℕ
reply_upload (stored filename) = do
  junk ← gets (λ w. w.junk)
  send_then
      (some (
        header_bytes junk
          (record { pkg_len = print_hex (length filename); cmd = cmd_resp; status = 0 })
        ++ filename))
      (pure 0)
reply_upload (refused status) = do
  junk ← gets (λ w. w.junk)
  send_then
      (some (header_bytes junk (record { pkg_len = codes "0"; cmd = cmd_resp; status = status })))
      (pure status)

-- `storage_upload_file`. The buffer has `nInPackLen + 1` bytes: a package shorter than nine bytes
-- is written or read outside it, which is undefined.
unfoldable pub storage_upload_file : ℤ → Cmd ℕ
storage_upload_file n = do
  upload ← block refused (do
    guard (is_pos n) (fail einval)
    allocate
    guard (leb pointer_size (to_ℕ n + 1)) undefined
    s ← recv_or_fail pointer_size
    guard (leb 9 (to_ℕ n)) undefined
    junk ← gets (λ w. w.junk)
    filename ← upload_received (to_ℕ n) (upload_buff junk (to_ℕ n) s)
    pure (stored filename))
  reply_upload upload
