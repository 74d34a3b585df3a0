-- ===== src/Service/Replicating/Stores.antt =====
-- What a replica does with a file that it is sent.
use demostroage.Prelude.{
  ℕ, zero, suc, ◌+◌, ◌<◌, ◌≤◌, ◌≡◌, ◌≢◌, refl, sym, ap, ◌∙◌, true, false, not, ◌&&◌, List, [], ◌∷◌,
  ◌++◌, Bytes, some, none, take, drop, length, pos, is_pos, is_neg, to_ℕ, leb, ◌==◌, eqb, eqb_refl,
  arith,
}
use demostroage.Libc.{cstr}
use demostroage.Runtime.{Arrival, World, ok}
use demostroage.Runtime.Runs.{Runs, Runs-bind, Runs-gets, Runs-pure, Runs-block}
use demostroage.Posix.{codes, lookup, insert, is_dir_path, parent}
use demostroage.Posix.Calm.{Calm, Runs-attempt, Runs-guard, Runs-file_exists-missed}
use demostroage.Posix.Files.{lookup-insert, lookup-insert_other}
use demostroage.FileIo.Runs.{Runs-write_to_file}
use demostroage.Socket.{received, recv_loop}
use demostroage.Binlog.{content_or_empty, path_of}
use demostroage.Binlog.Writing.{line_of, Runs-storage_binlog_write}
use demostroage.Wire.{at_most, cmd_sync_create_file}
use demostroage.Service.{data_path}
use demostroage.Service.Runs.{IsOpen, reply_bytes, Runs-recv_or_fail, Runs-reply_then}
use demostroage.Service.Deleting.Removes.{HasBinlog}
use demostroage.Service.Replicating.{
  allocate, first_field, second_field, copy_received, storage_sync_copy_file,
}

-- the name and the content in a package
abbrev pub copied_name : Bytes → Bytes
copied_name s = cstr (take (to_ℕ (first_field s)) (drop 34 (s ++ (0 ∷ []))))

abbrev pub copied_content : Bytes → Bytes
copied_content s = take (to_ℕ (second_field s)) (drop (34 + to_ℕ (first_field s)) s)

abbrev pub copied_path : World → Bytes → Bytes
copied_path w s = path_of (data_path w.base_path (copied_name s))

-- A package with a file: the lengths of the name and of the content, which are the rest of it, and
-- the name of this group.
pub record IsCopy (w : World) (s : Bytes) (name_len size : ℕ) : Type 0 where
  pub first : first_field s ≡ pos name_len
  pub second : second_field s ≡ pos size
  pub named : 0 < name_len
  pub short : name_len < 128
  pub total : length s ≡ size + (34 + name_len)
  pub group : cstr (take 16 (drop 18 s)) ≡ w.group_name

-- the file is not there yet, and its folder is
pub record IsNew (w : World) (path : Bytes) : Type 0 where
  pub missing : lookup path w.files ≡ none
  pub no_folder : is_dir_path w path ≡ false
  pub folder : is_dir_path w (parent path) ≡ true

name_fits : (n : ℕ) → 0 < n → n < 128 → (is_pos (pos n) && at_most (pos n) 127) ≡ true
name_fits zero lo hi = absurd (omega arith)
name_fits (suc n) lo hi = ground arith

leb_at_most : (a b : ℕ) → a ≤ b → leb a b ≡ true
leb_at_most a b h = ground arith

same_number : (a b : ℕ) → a ≡ b → (a == b) ≡ true
same_number a b h = ground arith

longer : (n : ℕ) → 34 < n → not (leb n 34) ≡ true
longer n h = ground arith

module _ {w : World} {s : Bytes} {name_len size : ℕ} (c : IsCopy w s name_len size) where
  IsCopy-name : (is_pos (first_field s) && at_most (first_field s) 127) ≡ true
  IsCopy-name = ap (λ z. is_pos z && at_most z 127) c.first ∙ name_fits name_len c.named c.short

  IsCopy-size : not (is_neg (second_field s)) ≡ true
  IsCopy-size = ap (λ z. not (is_neg z)) c.second

  IsCopy-inside : leb (34 + to_ℕ (first_field s)) (length s + 1) ≡ true
  IsCopy-inside =
      ap (λ z. leb (34 + to_ℕ z) (length s + 1)) c.first
      ∙ leb_at_most (34 + name_len) (length s + 1) (omega (arith, c.total))

  IsCopy-total : (to_ℕ (second_field s) + (34 + to_ℕ (first_field s)) == length s) ≡ true
  IsCopy-total =
      ap (λ z. to_ℕ z + (34 + to_ℕ (first_field s)) == length s) c.second
      ∙ ap (λ z. size + (34 + to_ℕ z) == length s) c.first
      ∙ same_number (size + (34 + name_len)) (length s) (sym c.total)

  IsCopy-long : not (leb (length s) 34) ≡ true
  IsCopy-long = longer (length s) (omega (arith, c.total, c.named))

Runs-allocate : (w : World) → Calm w → Runs allocate w (ok tt w)
unfolding allocate
Runs-allocate w calm = Runs-bind _ _ w (Runs-attempt w calm) (Runs-guard _ w refl)

-- A world where a new file is stored, the binlog has a line more, and a reply without data is
-- sent.
pub record IsStored (w v : World) (path content file line : Bytes) : Type 0 where
  pub stored : lookup path v.files ≡ some content
  pub line_added : lookup file v.files ≡ some (content_or_empty (lookup file w.files) ++ line)
  pub replied : v.sent ≡ w.sent ++ reply_bytes w.junk (codes "0") 0
  pub others :
      (other : Bytes) → path ≢ other → file ≢ other → lookup other v.files ≡ lookup other w.files

-- A synchronised creation of a file that the replica does not have answers 0: the file has the
-- content of the package, the binlog has one line `c` with its name more, no other file has
-- changed, and the peer is sent a reply with the status 0. The package is well formed, no call
-- fails, the peer takes what is sent, the folder of the file is there, and the binlog is open
-- with nothing unflushed, stays below its limit, and is not the file.
pub storage_sync_copy_file-IsStored :
    (w : World) (s file : Bytes) (es : List Arrival) (name_len size : ℕ)
    → IsOpen w
    → recv_loop (length s) [] w.incoming ≡ (received s, es)
    → IsCopy w s name_len size
    → IsNew w (copied_path w s)
    → HasBinlog w file (line_of b'c' (copied_name s) w)
    → copied_path w s ≢ file
    → (v : World) × (storage_sync_copy_file (pos (length s)) cmd_sync_create_file w ≡ ok 0 v)
      × IsStored w v (copied_path w s) (copied_content s) file (line_of b'c' (copied_name s) w)
unfolding storage_sync_copy_file copy_received
storage_sync_copy_file-IsStored w s file es name_len size op arrives c new log ne =
    let path = copied_path w s in
    let content = copied_content s in
    let line = line_of b'c' (copied_name s) w in
    let files = insert path content (insert path [] w.files) in
    let other_file : (k : Bytes) → path ≢ k → lookup k files ≡ lookup k w.files = λ k d.
      lookup-insert_other k path content (insert path [] w.files) d
      ∙ lookup-insert_other k path [] w.files d in
    (
      _,
      (Runs-bind _ _ w
          (Runs-block _ _ w (
            Runs-bind _ _ w (Runs-guard _ w (IsCopy-long c)) (
              Runs-bind _ _ w (Runs-allocate w op.calm) (
                Runs-bind _ _ w (Runs-recv_or_fail (length s) w op.socket arrives) (
                  Runs-bind _ _ _ (Runs-guard _ _ (IsCopy-name c)) (
                    Runs-bind _ _ _ (Runs-guard _ _ (IsCopy-size c)) (
                      Runs-bind _ _ _ (Runs-gets _ _) (
                        Runs-bind _ _ _
                          (Runs-guard _ _
                            (ap (λ g. eqb g w.group_name) c.group ∙ eqb_refl w.group_name))
                          (Runs-bind _ _ _ (Runs-guard _ _ (IsCopy-inside c)) (
                            Runs-bind _ _ _ (Runs-gets _ _) (
                              Runs-bind _ _ _ (Runs-guard _ _ (IsCopy-total c)) (
                                Runs-bind _ _ _
                                  (Runs-file_exists-missed _ _ op.calm new.missing new.no_folder)
                                  (Runs-bind _ _ _ (Runs-guard _ _ refl) (
                                    Runs-bind _ _ _
                                      (Runs-write_to_file _ _ _ op.calm new.no_folder new.folder)
                                      (Runs-bind _ _ _ (Runs-guard _ _ refl) (
                                        Runs-storage_binlog_write b'c' (copied_name s) _ op.calm
                                          log.opened log.room))))))))))))))))
          (Runs-reply_then _ 0 _ _ op.socket op.free (Runs-pure 0 _))).same,
      record {
        stored =
            lookup-insert_other path file _ files (λ e. ne (sym e))
            ∙ lookup-insert path content (insert path [] w.files);
        line_added =
            lookup-insert file _ files
            ∙ ap (λ o. some (content_or_empty o ++ (w.binlog_buffer ++ line))) (other_file file ne)
            ∙ ap (λ b. some (content_or_empty (lookup file w.files) ++ (b ++ line))) log.flushed;
        replied = refl;
        others = λ other np nf. lookup-insert_other other file _ files nf ∙ other_file other np;
      },
    )
