-- ===== src/Service/Frames.antt =====
-- What the handlers of storage_service.c keep: those that read keep the files.
use demostroage.Prelude.{ℕ, zero, suc, Bytes, Option, ℤ}
use demostroage.Runtime.{World, Cmd}
use demostroage.Runtime.Keeps.{Keeps}
use demostroage.Runtime.Frames.{Quiet, Writes, Conns, Procs}
use demostroage.Posix.Frames.{posix_rules}
use demostroage.Socket.Frames.{Keeps-tcp_recv, Keeps-tcp_send}
use demostroage.Binlog.Frames.{
  Keeps-get_file_content, Keeps-write_to_file, Keeps-storage_binlog_write,
}
use demostroage.Wire.{recv_or_fail, send_then}
use demostroage.Service.{recv_name_request, reply_then, reply_status}
use demostroage.Service.Reading.{reply_content, storage_download_file, storage_get_metadata}
use demostroage.Service.Deleting.{
  missing_is_fine, delete_named, delete_meta, storage_delete_file, replica_missing_is_fine,
  storage_sync_delete_file,
}
use demostroage.Service.Replicating.{allocate, copy_received, storage_sync_copy_file}
use demostroage.Service.SetMeta.{storage_do_set_metadata, set_received, storage_set_metadata}
use demostroage.Service.Uploading.{
  storage_gen_filename, try_name, find_name, drop_file, save_meta, storage_save_file,
  upload_received, Upload, stored, refused, reply_upload, storage_upload_file,
}

module _ {P : World → Type 0} where
  pub Keeps-recv_or_fail : (n : ℕ) → Quiet P → Conns P → Keeps P (recv_or_fail n)
  unfolding recv_or_fail
  Keeps-recv_or_fail n q c = search (posix_rules, Keeps-tcp_recv) depth 20

  pub Keeps-send_then :
      (body : Option Bytes) (k : Cmd ℕ) → Quiet P → Conns P → Keeps P k → Keeps P (send_then body k)
  unfolding send_then
  Keeps-send_then body k q c kk = search (posix_rules, Keeps-tcp_send) depth 20

module _ {P : World → Type 0} where
  pub Keeps-recv_name_request :
      (n : ℤ) (m : Cmd (Unit {0})) → Quiet P → Conns P → Keeps P m → Keeps P (recv_name_request n m)
  unfolding recv_name_request
  Keeps-recv_name_request n m q c km = search (posix_rules, Keeps-recv_or_fail) depth 20

  pub Keeps-reply_then :
      (l : Bytes) (s : ℕ) (k : Cmd ℕ) → Quiet P → Conns P → Keeps P k → Keeps P (reply_then l s k)
  unfolding reply_then
  Keeps-reply_then l s k q c kk = search (posix_rules, Keeps-send_then) depth 20

  Keeps-allocate : Quiet P → Keeps P allocate
  unfolding allocate
  Keeps-allocate q = search posix_rules depth 20

module _ {P : World → Type 0} where
  Keeps-reply_status : (s : ℕ) → Quiet P → Conns P → Keeps P (reply_status s)
  unfolding reply_status
  Keeps-reply_status s q c = search (posix_rules, Keeps-reply_then) depth 20

  Keeps-reply_content : (c : _) → Quiet P → Conns P → Keeps P (reply_content c)
  unfolding reply_content
  Keeps-reply_content r q c = search (posix_rules, Keeps-reply_then, Keeps-send_then) depth 20

module _ {P : World → Type 0} where
  pub Keeps-storage_download_file : (n : ℤ) → Quiet P → Conns P → Keeps P (storage_download_file n)
  unfolding storage_download_file
  Keeps-storage_download_file n q c =
      search (posix_rules, Keeps-recv_name_request, Keeps-get_file_content, Keeps-reply_content)
        depth 20

  pub Keeps-storage_get_metadata : (n : ℤ) → Quiet P → Conns P → Keeps P (storage_get_metadata n)
  unfolding storage_get_metadata
  Keeps-storage_get_metadata n q c =
      search (posix_rules, Keeps-recv_name_request, Keeps-get_file_content, Keeps-reply_content)
        depth 20

-- the handlers that write
module _ {P : World → Type 0} where
  pub Keeps-storage_delete_file :
      (n : ℤ) → Quiet P → Writes P → Conns P → Procs P → Keeps P (storage_delete_file n)
  unfolding storage_delete_file delete_named delete_meta missing_is_fine
  Keeps-storage_delete_file n q f c p =
      search (posix_rules, Keeps-recv_name_request, Keeps-storage_binlog_write, Keeps-reply_status)
        depth 40

  pub Keeps-storage_sync_delete_file :
      (n : ℤ) → Quiet P → Writes P → Conns P → Procs P → Keeps P (storage_sync_delete_file n)
  unfolding storage_sync_delete_file replica_missing_is_fine
  Keeps-storage_sync_delete_file n q f c p =
      search (posix_rules, Keeps-recv_name_request, Keeps-storage_binlog_write, Keeps-reply_status)
        depth 40

  Keeps-copy_received :
      (n cmd : ℕ) (s : Bytes) → Quiet P → Writes P → Procs P → Keeps P (copy_received n cmd s)
  unfolding copy_received
  Keeps-copy_received n cmd s q f p =
      search (posix_rules, Keeps-write_to_file, Keeps-storage_binlog_write) depth 40

  Keeps-set_received :
      (n : ℕ) (s : Bytes) → Quiet P → Writes P → Procs P → Keeps P (set_received n s)
  unfolding set_received storage_do_set_metadata
  Keeps-set_received n s q f p = search (posix_rules, Keeps-storage_binlog_write) depth 40

module _ {P : World → Type 0} where
  pub Keeps-storage_sync_copy_file :
      (n : ℤ) (cmd : ℕ)
      → Quiet P
      → Writes P
      → Conns P
      → Procs P
      → Keeps P (storage_sync_copy_file n cmd)
  unfolding storage_sync_copy_file
  Keeps-storage_sync_copy_file n cmd q f c p =
      search
        (posix_rules, Keeps-allocate, Keeps-recv_or_fail, Keeps-copy_received, Keeps-reply_then)
        depth 40

  pub Keeps-storage_set_metadata :
      (n : ℤ) → Quiet P → Writes P → Conns P → Procs P → Keeps P (storage_set_metadata n)
  unfolding storage_set_metadata
  Keeps-storage_set_metadata n q f c p =
      search
        (posix_rules, Keeps-allocate, Keeps-recv_or_fail, Keeps-set_received, Keeps-reply_status)
        depth 40

-- the upload
module _ {P : World → Type 0} where
  Keeps-storage_gen_filename : (n : ℕ) → Quiet P → Keeps P (storage_gen_filename n)
  unfolding storage_gen_filename
  Keeps-storage_gen_filename n q = search posix_rules depth 20

  Keeps-try_name :
      (again : Cmd (Option Bytes)) (n : ℕ) → Quiet P → Keeps P again → Keeps P (try_name again n)
  unfolding try_name
  Keeps-try_name again n q k = search (posix_rules, Keeps-storage_gen_filename) depth 20

  Keeps-find_name : (tries n : ℕ) → Quiet P → Keeps P (find_name tries n)
  unfolding find_name
  Keeps-find_name zero n q = search posix_rules
  Keeps-find_name (suc tries) n q = Keeps-try_name _ n q (Keeps-find_name tries n q)

  Keeps-save_meta : (full meta : Bytes) → Quiet P → Writes P → Keeps P (save_meta full meta)
  unfolding save_meta drop_file
  Keeps-save_meta full meta q f = search (posix_rules, Keeps-write_to_file) depth 40

  Keeps-reply_upload : (u : Upload) → Quiet P → Conns P → Keeps P (reply_upload u)
  unfolding reply_upload
  Keeps-reply_upload (stored name) q c = search (posix_rules, Keeps-send_then) depth 20
  Keeps-reply_upload (refused s) q c = search (posix_rules, Keeps-send_then) depth 20

module _ {P : World → Type 0} where
  Keeps-storage_save_file :
      (s meta : Bytes) → Quiet P → Writes P → Keeps P (storage_save_file s meta)
  unfolding storage_save_file
  Keeps-storage_save_file s meta q f =
      search (posix_rules, Keeps-find_name, Keeps-write_to_file, Keeps-save_meta) depth 40

module _ {P : World → Type 0} where
  Keeps-upload_received :
      (n : ℕ) (s : Bytes) → Quiet P → Writes P → Procs P → Keeps P (upload_received n s)
  unfolding upload_received
  Keeps-upload_received n s q f p =
      search (posix_rules, Keeps-storage_save_file, Keeps-storage_binlog_write) depth 40

module _ {P : World → Type 0} where
  pub Keeps-storage_upload_file :
      (n : ℤ) → Quiet P → Writes P → Conns P → Procs P → Keeps P (storage_upload_file n)
  unfolding storage_upload_file
  Keeps-storage_upload_file n q f c p =
      search
        (posix_rules, Keeps-allocate, Keeps-recv_or_fail, Keeps-upload_received, Keeps-reply_upload)
        depth 40
