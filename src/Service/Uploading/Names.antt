-- ===== src/Service/Uploading/Names.antt =====
-- The names of `storage_gen_filename` in the program, where nothing fills the alphabet.
use demostroage.Prelude.{
  get_or-last, length-snoc, ℕ, zero, suc, ◌≡◌, refl, sym, ap, ◌∙◌, Bool, true, Option, none, some,
  [], ◌∷◌, ◌++◌, append_assoc, Bytes, length, replicate, if◌then◌else◌, take-append,
}
use demostroage.Libc.{cstr, print_hex2}
use demostroage.Shared.{int2buff, chop_path}
use demostroage.Hash.{pjw_hash}
use demostroage.Base64
use demostroage.Runtime.{World, ok, stop, Cmd, pure, gets, ◌>>=◌, set_os}
use demostroage.Runtime.Runs.{bind-ok, bind-gets}
use demostroage.Posix.{codes, enoent, has, file_exists, rand, time, next_or}
use demostroage.Posix.Calm.{Calm, file_exists-dir, fail-Calm}
use demostroage.Service.{data_path}
use demostroage.Service.Uploading.{
  gen_filename, storage_gen_filename, try_name, find_name, storage_save_file,
}

-- in the program the alphabet is all zeroes
gen_filename-initial :
    (now size r : ℕ) → gen_filename Base64.initial now size r ≡ codes "00/00/" ++ replicate 16 0
unfolding gen_filename int2buff print_hex2 pjw_hash Base64.encode
gen_filename-initial now size r = refl

-- a slash at the end is cut off
chop_path-slash : (s : Bytes) → chop_path (s ++ b'/' ∷ []) ≡ s
unfolding chop_path
chop_path-slash [] = refl
chop_path-slash (x ∷ s) =
    rw (length-snoc s b'/', get_or-last s b'/')
      (ap (◌∷◌ x) (take-append s (b'/' ∷ []) (length s) refl))

-- the path of the only name
full_path :
    (base : Bytes)
    → chop_path (data_path base (cstr (codes "00/00/" ++ replicate 16 0)))
      ≡ base ++ codes "/data/00/00"
unfolding cstr
full_path base =
    ap chop_path (sym (append_assoc base (codes "/data/00/00") (b'/' ∷ [])))
    ∙ chop_path-slash (base ++ codes "/data/00/00")

-- the program as it starts: the folders of the data are there
pub record Started (w : World) : Type 0 where
  pub calm : Calm w
  pub blank : w.base64 ≡ Base64.initial
  pub folder : has (w.base_path ++ codes "/data/00/00") w.dirs ≡ true

-- the world after a name is made
abbrev named : World → World
named w = set_os (record w.os { times = (next_or 0 w.times).1; rands = (next_or 0 w.rands).1 }) w

Started-named : (w : World) → Started w → Started (named w)
Started-named w st = record { calm = st.calm; blank = st.blank; folder = st.folder }

storage_gen_filename-Started :
    (size : ℕ) (w : World)
    → Started w
    → storage_gen_filename size w ≡ ok (codes "00/00/" ++ replicate 16 0) (named w)
unfolding storage_gen_filename rand time ◌>>=◌
storage_gen_filename-Started size w st =
    ap (λ x. ok (gen_filename x (next_or 0 w.times).0 size (next_or 0 w.rands).0) (named w))
      st.blank
    ∙ ap (λ n. ok n (named w))
        (gen_filename-initial (next_or 0 w.times).0 size (next_or 0 w.rands).0)

-- the name is a folder's, so that it is taken
try_name-Started :
    (again : Cmd (Option Bytes)) (size : ℕ) (w : World)
    → Started w
    → try_name again size w ≡ again (named w)
unfolding try_name
try_name-Started again size w st =
    let name = codes "00/00/" ++ replicate 16 0 in
    let path = data_path w.base_path (cstr name) in
    let test : Bytes → Bool → Cmd (Option Bytes) = λ n b. if b then again else pure (some n) in
    let look : Bytes → Bytes → Cmd (Option Bytes) = λ n p. file_exists p >>= test n in
    let path_of : Bytes → World → Bytes = λ n v. data_path v.base_path (cstr n) in
    bind-ok (storage_gen_filename size) (λ n. gets (path_of n) >>= look n) w
      (storage_gen_filename-Started size w st)
    ∙ bind-gets (path_of name) (look name) (named w)
    ∙ bind-ok (file_exists path) (test name) (named w) (
        file_exists-dir path (named w) st.calm
          (ap (λ p. has p w.dirs) (full_path w.base_path) ∙ st.folder))

-- what the search for a name leaves behind
record Searched (tries size : ℕ) (w : World) : Type 0 where
  after : World
  calm : Calm after
  files : after.files ≡ w.files
  runs : find_name tries size w ≡ ok none after

find_name-Searched : (tries size : ℕ) (w : World) → Started w → Searched tries size w
unfolding find_name ◌>>=◌
find_name-Searched zero size w st = record { after = w; calm = st.calm; files = refl; runs = refl }
find_name-Searched (suc tries) size w st =
    let s = find_name-Searched tries size (named w) (Started-named w st) in
    record {
      after = s.after;
      calm = s.calm;
      files = s.files;
      runs = try_name-Started (find_name tries size) size w st ∙ s.runs;
    }

-- In the program as it starts, where the folders of the data have been made and no system call
-- fails, no upload is ever saved: the 1024 names tried are all the folder `00/00/`, and
-- `storage_save_file` gives up with ENOENT and has changed no file.
pub storage_save_file-refused :
    (content meta_buff : Bytes) (w : World)
    → Started w
    → (v : World) × (storage_save_file content meta_buff w ≡ stop enoent v) × (v.files ≡ w.files)
unfolding storage_save_file ◌>>=◌
storage_save_file-refused content meta_buff w st =
    let s = find_name-Searched 1024 (length content) w st in
    (s.after, rw (s.runs, fail-Calm enoent s.after s.calm), s.files)
