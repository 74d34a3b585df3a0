-- ===== src/Service/SetMeta.antt =====
-- `storage_set_metadata`.
use demostroage.Prelude.{
  ℕ, ◌+◌, ◌%◌, not, ◌&&◌, ◌||◌, ◌++◌, ◌==◌, leb, if◌then◌else◌, eqb, Bytes, length, take, drop, ℤ,
  to_ℕ, is_pos, is_neg,
}
use demostroage.Libc.{cstr}
use demostroage.Runtime.{Cmd, pure, leave, undefined, gets, block, ◌>>=◌, ◌>>◌}
use demostroage.Posix.{enoent, einval, fail, guard, file_exists}
use demostroage.Binlog.{storage_binlog_write}
use demostroage.Wire.{group_name_max_len, at_most, byte_at, recv_or_fail}
use demostroage.Service.{data_path, meta_ext, reply_status}
use demostroage.Service.Replicating.{allocate, first_field, second_field}

-- where the filename begins
abbrev pub meta_name_at : ℕ
meta_name_at = 35

-- the size of `full_filename`
abbrev pub meta_path_size : ℕ
meta_path_size = 291

-- `storage_do_set_metadata`: a stub that stores nothing. The makefile defines `__DEBUG__`, with which
-- it gives `printf` a line number for a `%s`, which is undefined.
unfoldable pub storage_do_set_metadata : Bytes → Bytes → ℕ → Cmd ℕ
storage_do_set_metadata full_meta_filename meta_buff op_flag = undefined

-- what is done with the package
unfoldable pub set_received : ℕ → Bytes → Cmd ℕ
set_received n in_buff = do
  let name_len = to_ℕ (first_field in_buff)
  let meta_bytes = to_ℕ (second_field in_buff)
  let op_flag = byte_at in_buff 18
  guard (is_pos (first_field in_buff) && at_most (first_field in_buff) 31) (fail einval)
  guard (op_flag == b'O' || op_flag == b'M') (fail einval)
  guard (not (is_neg (second_field in_buff)) && meta_bytes + (meta_name_at + name_len) == n)
      (fail einval)
  group ← gets (λ w. w.group_name)
  guard (eqb (cstr (take group_name_max_len (drop 19 in_buff))) group) (fail einval)
  let filename = cstr (take name_len (drop meta_name_at in_buff))
  full ← gets (λ w. data_path w.base_path filename)
  guard (leb (length full + 1) meta_path_size) undefined
  exists ← file_exists full
  guard exists (fail enoent)
  guard (leb (length full + 3) meta_path_size) undefined
  stored ←
      storage_do_set_metadata (full ++ meta_ext)
        (take meta_bytes (drop (meta_name_at + name_len) in_buff)) op_flag
  guard (stored == 0) (leave stored)
  sync_flag ← gets (λ w. w.junk 0 % 256)
  if sync_flag == 0 then pure 0 else storage_binlog_write sync_flag (filename ++ meta_ext)

-- `storage_set_metadata`
unfoldable pub storage_set_metadata : ℤ → Cmd ℕ
storage_set_metadata n = do
  status ←
      block (λ e. e)
        (do
          guard (not (at_most n meta_name_at)) (fail einval)
          allocate
          in_buff ← recv_or_fail (to_ℕ n)
          set_received (to_ℕ n) in_buff)
  reply_status status
