-- ===== src/Service.antt =====
-- storage_service.c. A handler runs a block that sets `resp.status`, and then replies.
-- `resp.status` is a `char`; errno values are below 134, so that the number is kept here, and the
-- byte on the wire is its value modulo 256. `fileExists` and the like take whole paths.
pub mod Reading
pub mod Deleting
pub mod Replicating
pub mod SetMeta
pub mod Uploading
pub mod Frames
pub mod Runs
pub mod Loop
use demostroage.Prelude.{
  ℕ, ◌+◌, Bool, not, Option, none, some, [], ◌∷◌, ◌++◌, ◌==◌, if◌then◌else◌, eqb, Bytes, take, drop,
  ℤ, to_ℕ,
}
use demostroage.Libc.{cstr, print_hex}
use demostroage.Runtime.{World, Cmd, pure, gets, ◌>>=◌, ◌>>◌}
use demostroage.Posix.{codes, einval, fail, guard}
use demostroage.Wire.{group_name_max_len, cmd_resp, header_bytes, at_most, recv_or_fail, send_then}

-- "%s/data/%s"
abbrev pub data_path : Bytes → Bytes → Bytes
data_path base filename = base ++ (codes "/data/" ++ filename)

-- `STORAGE_META_FILE_EXT`
abbrev pub meta_ext : Bytes
meta_ext = codes "-m"

-- the size of `in_buff` in the handlers that are sent a group and a filename
abbrev pub name_buff_size : ℕ
name_buff_size = 48

-- what `storage_download_file`, `storage_get_metadata`, `storage_delete_file` and
-- `storage_sync_delete_file` begin with: the package is the group's name, in 16 bytes, and a
-- filename, which is the value
unfoldable pub recv_name_request : ℤ → Cmd (Unit {0}) → Cmd Bytes
recv_name_request n mismatch = do
  guard (not (at_most n group_name_max_len)) (fail einval)
  guard (at_most n 47) (fail einval)
  in_buff ← recv_or_fail (to_ℕ n)
  group ← gets (λ w. w.group_name)
  guard (eqb (cstr (take group_name_max_len in_buff)) group) mismatch
  pure (cstr (drop group_name_max_len in_buff))

-- the reply's header, sent before what follows it
unfoldable pub reply_then : Bytes → ℕ → Cmd ℕ → Cmd ℕ
reply_then pkg_len status k = do
  junk ← gets (λ w. w.junk)
  send_then
      (some (header_bytes junk (record { pkg_len = pkg_len; cmd = cmd_resp; status = status }))) k

-- a reply of a header only, "0" long
unfoldable pub reply_status : ℕ → Cmd ℕ
reply_status status = reply_then (codes "0") status (pure status)
