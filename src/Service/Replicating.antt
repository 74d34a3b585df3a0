-- ===== src/Service/Replicating.antt =====
-- `storage_sync_copy_file`.
pub mod Stores
use demostroage.Prelude.{
  ℕ, ◌+◌, false, not, ◌&&◌, ◌++◌, [], ◌∷◌, ◌==◌, leb, if◌then◌else◌, eqb, Bytes, take, drop, ℤ,
  to_ℕ, is_pos, is_neg,
}
use demostroage.Libc.{cstr, strtoi}
use demostroage.Runtime.{Cmd, pure, leave, undefined, gets, block, ◌>>=◌, ◌>>◌}
use demostroage.Posix.{enomem, eexist, einval, epipe, attempt, errno_or, fail, guard, file_exists}
use demostroage.FileIo.{write_to_file}
use demostroage.Binlog.{path_of, storage_binlog_write}
use demostroage.Wire.{pkg_len_size, group_name_max_len, cmd_sync_create_file, at_most, recv_or_fail}
use demostroage.Service.{data_path, reply_then}
use demostroage.Posix.{codes}

-- `malloc(nInPackLen + 1)` in a block
unfoldable pub allocate : Cmd (Unit {0})
allocate = do allocated ← attempt; guard allocated (do e ← errno_or enomem; leave e)

-- the operation that the binlog names
abbrev pub replica_op : ℕ → ℕ
replica_op proto_cmd = if proto_cmd == cmd_sync_create_file then b'c' else b'u'

-- the two fields in front of the package, `int`s in base 16
abbrev pub first_field : Bytes → ℤ
first_field in_buff = strtoi 16 (cstr in_buff)

abbrev pub second_field : Bytes → ℤ
second_field in_buff = strtoi 16 (cstr (drop pkg_len_size in_buff))

-- where the filename begins
abbrev pub copy_name_at : ℕ
copy_name_at = 34

-- what is done with the package: the file is written and the binlog has its line. A filename
-- longer than the package is copied from behind the buffer, which is undefined.
unfoldable pub copy_received : ℕ → ℕ → Bytes → Cmd ℕ
copy_received n proto_cmd in_buff = do
  let name_len = to_ℕ (first_field in_buff)
  let size = to_ℕ (second_field in_buff)
  guard (is_pos (first_field in_buff) && at_most (first_field in_buff) 127) (fail epipe)
  guard (not (is_neg (second_field in_buff))) (fail epipe)
  group ← gets (λ w. w.group_name)
  guard (eqb (cstr (take group_name_max_len (drop 18 in_buff))) group) (fail einval)
  guard (leb (copy_name_at + name_len) (n + 1)) undefined
  let filename = cstr (take name_len (drop copy_name_at (in_buff ++ (0 ∷ []))))
  full ← gets (λ w. path_of (data_path w.base_path filename))
  guard (size + (copy_name_at + name_len) == n) (fail epipe)
  exists ← (if proto_cmd == cmd_sync_create_file then file_exists full else pure false)
  guard (not exists) (fail eexist)
  written ← write_to_file full (take size (drop (copy_name_at + name_len) in_buff))
  guard (written == 0) (leave written)
  storage_binlog_write (replica_op proto_cmd) filename

-- `storage_sync_copy_file`: an existing file is reported to the peer, and is no failure
unfoldable pub storage_sync_copy_file : ℤ → ℕ → Cmd ℕ
storage_sync_copy_file n proto_cmd = do
  status ←
      block (λ e. e)
        (do
          guard (not (at_most n copy_name_at)) (fail einval)
          allocate
          in_buff ← recv_or_fail (to_ℕ n)
          copy_received (to_ℕ n) proto_cmd in_buff)
  reply_then (codes "0") status (pure (if status == eexist then 0 else status))
