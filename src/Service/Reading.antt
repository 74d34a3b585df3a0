-- ===== src/Service/Reading.antt =====
-- `storage_download_file` and `storage_get_metadata`.
pub mod Files
pub mod Replies
use demostroage.Prelude.{
  ℕ, ◌%◌, ◌^◌, Bool, not, Option, none, some, ◌++◌, ◌==◌, if◌then◌else◌, Bytes, length, ℤ,
}
use demostroage.Libc.{print_hex}
use demostroage.Runtime.{World, Cmd, pure, leave, gets, block, ◌>>=◌, ◌>>◌}
use demostroage.Posix.{enoent, einval, fail, fail_errno, guard, file_exists}
use demostroage.FileIo.{Content, no_content, get_file_content}
use demostroage.Wire.{send_then}
use demostroage.Service.{data_path, meta_ext, recv_name_request, reply_then}

abbrev pub file_bytes : Content → ℕ
file_bytes c = elim c.buff [ none ↦ 0 | some s ↦ length s ]

-- the reply of both: the header with the size of the content, an `int`, and the content if the
-- status is 0
unfoldable pub reply_content : Content → Cmd ℕ
reply_content c =
    reply_then (print_hex (file_bytes c % 2 ^ 32)) c.code
      (if c.code == 0 then send_then c.buff (pure 0) else pure c.code)

-- `storage_download_file`
unfoldable pub storage_download_file : ℤ → Cmd ℕ
storage_download_file n = do
  c ← block no_content (do
    filename ← recv_name_request n (fail_errno einval)
    base ← gets (λ w. w.base_path)
    get_file_content (data_path base filename))
  reply_content c

-- a missing metadata file is no error
abbrev pub forgive_missing : Content → Content
forgive_missing c = if c.code == enoent then record c { code = 0 } else c

-- `storage_get_metadata`
unfoldable pub storage_get_metadata : ℤ → Cmd ℕ
storage_get_metadata n = do
  c ← block no_content (do
    filename ← recv_name_request n (fail einval)
    base ← gets (λ w. w.base_path)
    exists ← file_exists (data_path base filename)
    guard exists (leave enoent)
    c ← get_file_content (data_path base filename ++ meta_ext)
    pure (forgive_missing c))
  reply_content c
