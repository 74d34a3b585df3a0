-- ===== src/Posix.antt =====
-- The system calls that the program makes, as their documentation describes them. Any call may
-- fail: the next outcome is the errno that it fails with, and 0 where it goes through.
pub mod Frames
pub mod Calm
pub mod Files
use Prim.Native.Char.{code}
use Prim.Native.String.{String}
use demostroage.Prelude.{
  ℕ, zero, suc, ◌+◌, Bool, true, false, ◌||◌, Option, none, some, List, [], ◌∷◌, ◌++◌, ◌==◌,
  if◌then◌else◌, eqb, Bytes, ℤ, pos, length, take,
}
use demostroage.Shared.{chop_path}
use demostroage.Runtime.{Os, World, Cmd, ok, pure, leave, gets, modify, ◌>>=◌, ◌>>◌, set_os}

-- the bytes of an ASCII text
abbrev pub codes : String → Bytes
codes String.[] = []
codes (String.◌∷◌ c s) = code c ∷ codes s

-- errno values of Linux
abbrev pub enoent : ℕ
enoent = 2

abbrev pub eintr : ℕ
eintr = 4

abbrev pub ebadf : ℕ
ebadf = 9

abbrev pub eagain : ℕ
eagain = 11

abbrev pub enomem : ℕ
enomem = 12

abbrev pub eacces : ℕ
eacces = 13

abbrev pub eexist : ℕ
eexist = 17

abbrev pub enotdir : ℕ
enotdir = 20

abbrev pub eisdir : ℕ
eisdir = 21

abbrev pub einval : ℕ
einval = 22

abbrev pub epipe : ℕ
epipe = 32

abbrev pub etimedout : ℕ
etimedout = 110

abbrev pub ecanceled : ℕ
ecanceled = 125

-- the files, as an association list
unfoldable pub lookup : Bytes → List (Bytes × Bytes) → Option Bytes
lookup k [] = none
lookup k ((j, v) ∷ m) = if eqb j k then some v else lookup k m

unfoldable pub insert : Bytes → Bytes → List (Bytes × Bytes) → List (Bytes × Bytes)
insert k v [] = (k, v) ∷ []
insert k v ((j, w) ∷ m) = if eqb j k then (k, v) ∷ m else (j, w) ∷ insert k v m

unfoldable pub remove : Bytes → List (Bytes × Bytes) → List (Bytes × Bytes)
remove k [] = []
remove k ((j, w) ∷ m) = let rest = remove k m in if eqb j k then rest else (j, w) ∷ rest

unfoldable pub has : Bytes → List Bytes → Bool
has k [] = false
has k (j ∷ m) = eqb j k || has k m

abbrev pub is_some : Option Bytes → Bool
is_some none = false
is_some (some v) = true

-- a directory may be named with a slash behind it
abbrev pub is_dir_path : World → Bytes → Bool
is_dir_path w p = has (chop_path p) w.dirs

-- the path up to its last slash, which is left out
abbrev pub has_slash : Bytes → Bool
has_slash [] = false
has_slash (c ∷ s) = c == b'/' || has_slash s

unfoldable pub parent : Bytes → Bytes
parent [] = []
parent (c ∷ s) = let more = c ∷ parent s in if has_slash s then more else []

unfoldable pub set_errno : ℕ → Cmd (Unit {0})
set_errno e = modify λ w. set_os (record w.os { errno = e }) w

-- the next outcome: whether a call goes through; if not, `errno` is set
abbrev pub next_outcome : List ℕ → ℕ × List ℕ
next_outcome [] = (0, [])
next_outcome (e ∷ es) = (e, es)

unfoldable pub attempt : Cmd Bool
attempt w =
    let (e, es) = next_outcome w.outcomes in
    if e == 0
    then ok true (set_os (record w.os { outcomes = es }) w)
    else ok false (set_os (record w.os { outcomes = es; errno = e }) w)

-- `errno != 0 ? errno : code`
unfoldable pub errno_or : ℕ → Cmd ℕ
errno_or code = gets λ w. if w.errno == 0 then code else w.errno

-- `logError`: the calls that it makes may leave another errno, and have no other effect here
unfoldable pub log_error : Cmd (Unit {0})
log_error = do attempt; pure tt

-- log, set the status and break
unfoldable pub fail : ℕ → Cmd (Unit {0})
fail status = do log_error; leave status

-- log, set the status to `errno != 0 ? errno : code` and break
unfoldable pub fail_errno : ℕ → Cmd (Unit {0})
fail_errno code = do log_error; e ← errno_or code; leave e

-- a guard of a block
unfoldable pub guard : Bool → Cmd (Unit {0}) → Cmd (Unit {0})
guard ok? otherwise = if ok? then pure tt else otherwise

abbrev pub on_disk : World → Bytes → Bool
on_disk w p = is_some (lookup p w.files) || is_dir_path w p

-- `access(p, 0) == 0`, which is `fileExists`
unfoldable pub file_exists : Bytes → Cmd Bool
file_exists p = do
  through ← attempt
  there ← gets (λ w. on_disk w p)
  if through then (if there then pure true else (do set_errno enoent; pure false)) else pure false

-- a change of the files
unfoldable pub change_files : (List (Bytes × Bytes) → List (Bytes × Bytes)) → Cmd (Unit {0})
change_files f = modify λ w. set_os (record w.os { files = f w.files }) w

-- `unlink(p) == 0`
unfoldable pub unlink : Bytes → Cmd Bool
unlink p = do
  through ← attempt
  there ← gets (λ w. is_some (lookup p w.files))
  dir ← gets (λ w. is_dir_path w p)
  if through
      then (if there
          then (do change_files (remove p); pure true)
          else (do set_errno (if dir then eisdir else enoent); pure false))
      else pure false

-- the content of a file is replaced
unfoldable pub store : Bytes → Bytes → Cmd (Unit {0})
store p content = change_files (insert p content)

-- `fopen(p, "wb") != NULL`: the file is made or emptied; its folder has to be there
unfoldable pub fopen_write : Bytes → Cmd Bool
fopen_write p = do
  through ← attempt
  dir ← gets (λ w. is_dir_path w p)
  folder ← gets (λ w. is_dir_path w (parent p))
  if through
      then (if dir
          then (do set_errno eisdir; pure false)
          else (if folder then (do store p []; pure true) else (do set_errno enoent; pure false)))
      else pure false

-- `fopen(p, "rb")`: the content, if it can be opened. A directory opens too, and cannot be read;
-- here it does not open.
unfoldable pub fopen_read : Bytes → Cmd (Option Bytes)
fopen_read p = do
  through ← attempt
  found ← gets (λ w. lookup p w.files)
  if through
      then (if is_some found then pure found else (do set_errno enoent; pure none))
      else pure none

-- a new folder
unfoldable pub add_dir : Bytes → Cmd (Unit {0})
add_dir p = modify λ w. set_os (record w.os { dirs = p ∷ w.dirs }) w

-- `mkdir(p, 0755) == 0`
unfoldable pub mkdir : Bytes → Cmd Bool
mkdir p = do
  through ← attempt
  there ← gets (λ w. on_disk w p)
  folder ← gets (λ w. is_dir_path w (parent p))
  if through
      then (if there
          then (do set_errno eexist; pure false)
          else (if folder then (do add_dir p; pure true) else (do set_errno enoent; pure false)))
      else pure false

-- `time(NULL)` and `rand()`
abbrev pub next_or : ℕ → List ℕ → ℕ × List ℕ
next_or d [] = (d, [])
next_or d (x ∷ xs) = (x, xs)

unfoldable pub time : Cmd ℕ
time w = let (t, ts) = next_or 0 w.times in ok t (set_os (record w.os { times = ts }) w)

unfoldable pub rand : Cmd ℕ
rand w = let (r, rs) = next_or 0 w.rands in ok r (set_os (record w.os { rands = rs }) w)

-- `n` bytes of memory that nothing has written, from the `k`-th on
abbrev pub junk_bytes : (ℕ → ℕ) → ℕ → ℕ → Bytes
junk_bytes f k zero = []
junk_bytes f k (suc n) = f k ∷ junk_bytes f (k + 1) n
