-- ===== src/Tests/Requests.antt =====
-- Requests to a daemon that has one file, `/d/data/ab`, and the group `group1`.
use demostroage.Shared.{chop_path}
use demostroage.Prelude.{
  true, false, ap, ◌≡◌, ◌≢◌, refl, some, none, [], ◌∷◌, ◌++◌, arith, Bytes, length, replicate, pos,
  take, drop,
}
use demostroage.Libc.{cstr, print_hex, print_int, strtoi}
use demostroage.Runtime.{packet, World, ok}
use demostroage.Posix.{codes, enoent, lookup, parent, has, is_dir_path}
use demostroage.Posix.Calm.{missed}
use demostroage.Socket.{received, recv_loop}
use demostroage.Socket.Runs.{arrived, sent_more}
use demostroage.Binlog.{storage_binlog_write}
use demostroage.Binlog.Writing.{line_of, logged, storage_binlog_write-logged}
use demostroage.Wire.{cmd_sync_create_file}
use demostroage.Service.{meta_ext}
use demostroage.Service.Runs.{IsOpen, IsNameRequest, reply_bytes}
use demostroage.Service.Reading.{storage_download_file, storage_get_metadata}
use demostroage.Service.Reading.Replies.{
  requested, storage_download_file-sends, storage_get_metadata-breaks,
}
use demostroage.Service.Deleting.{storage_sync_delete_file}
use demostroage.Service.Deleting.Removes.{HasBinlog, IsDeleted, storage_sync_delete_file-IsDeleted}
use demostroage.Service.Replicating.{first_field, second_field, storage_sync_copy_file}
use demostroage.Service.Replicating.Stores.{
  copied_name, copied_content, copied_path, IsCopy, IsStored, storage_sync_copy_file-IsStored,
}
use demostroage.Tests.{daemon}

abbrev file_path : Bytes
file_path = codes "/d/data/ab"

abbrev pub binlog_file : Bytes
binlog_file = codes "/d/sync/binlog.index"

-- the group and the name of the file
abbrev pub name_request : Bytes
name_request = codes "group1" ++ (replicate 10 0 ++ codes "ab")

-- a daemon that is sent a package
abbrev pub asked : Bytes → World
asked s = record daemon { conn = record daemon.conn { incoming = packet s ∷ [] } }

asked_name :
    recv_loop (length name_request) [] (packet name_request ∷ []) ≡ (received name_request, [])
unfolding recv_loop
asked_name = refl

name_request_group : cstr (take 16 name_request) ≡ codes "group1"
unfolding cstr
name_request_group = refl

pub asked-IsOpen : (s : Bytes) → IsOpen (asked s)
asked-IsOpen s = record { calm = refl; socket = refl; free = refl }

pub asked-IsNameRequest : IsNameRequest (asked name_request) name_request []
asked-IsNameRequest = record {
  arrives = asked_name;
  long = omega arith;
  short = omega arith;
  group = name_request_group;
}

pub requested_file :
    lookup (requested (asked name_request) name_request) daemon.files ≡ some (codes "hello")
unfolding lookup cstr
requested_file = refl

pub requested_no_meta :
    lookup (requested (asked name_request) name_request ++ meta_ext) daemon.files ≡ none
unfolding lookup cstr
requested_no_meta = refl

storage_download_file-sends_example :
    storage_download_file (pos (length name_request)) (asked name_request)
    ≡ ok 0 (
        sent_more (codes "hello") (
          sent_more
            (reply_bytes daemon.junk (print_hex (length (codes "hello"))) 0)
            (arrived [] (asked name_request))))
storage_download_file-sends_example =
    storage_download_file-sends (asked name_request) name_request (codes "hello") []
      (asked-IsOpen name_request) asked-IsNameRequest requested_file (omega arith)

storage_get_metadata-breaks_example :
    storage_get_metadata (pos (length name_request)) (asked name_request)
    ≡ ok enoent (
        sent_more
          (reply_bytes daemon.junk (codes "0") 0)
          (missed (arrived [] (asked name_request))))
storage_get_metadata-breaks_example =
    storage_get_metadata-breaks (asked name_request) name_request (codes "hello") []
      (asked-IsOpen name_request) asked-IsNameRequest requested_file requested_no_meta

-- the line of the deletion at time 0
name_line : line_of b'd' (cstr (drop 16 name_request)) (asked name_request) ≡ codes "0 d ab\n"
unfolding cstr print_int
name_line = refl

asked-HasBinlog :
    HasBinlog
      (asked name_request)
      binlog_file
      (line_of b'd' (cstr (drop 16 name_request)) (asked name_request))
asked-HasBinlog = record {
  opened = refl;
  flushed = refl;
  room = omega (arith, ap length name_line);
}

pub requested_other : requested (asked name_request) name_request ≢ binlog_file
unfolding cstr
requested_other e = cc

storage_sync_delete_file-IsDeleted_example :
    (v : World) × (storage_sync_delete_file (pos (length name_request)) (asked name_request)
      ≡ ok 0 v)
    × IsDeleted
        (asked name_request)
        v
        (requested (asked name_request) name_request)
        binlog_file
        (line_of b'd' (cstr (drop 16 name_request)) (asked name_request))
        0
storage_sync_delete_file-IsDeleted_example =
    storage_sync_delete_file-IsDeleted (asked name_request) name_request (codes "hello") binlog_file
      [] (asked-IsOpen name_request) asked-IsNameRequest requested_file asked-HasBinlog
      requested_other

storage_binlog_write-logged_example :
    storage_binlog_write b'd' (cstr (drop 16 name_request)) (asked name_request)
    ≡ ok 0 (
        logged binlog_file
          (line_of b'd' (cstr (drop 16 name_request)) (asked name_request))
          (asked name_request))
storage_binlog_write-logged_example =
    storage_binlog_write-logged b'd' (cstr (drop 16 name_request)) binlog_file (asked name_request)
      refl refl (omega (arith, ap length name_line))

-- a package with the file `cd`, which holds "hey"
abbrev parcel : Bytes
parcel =
    codes "2"
    ++ (replicate 8 0
        ++ (codes "3" ++ (replicate 8 0 ++ (codes "group1" ++ (replicate 10 0 ++ codes "cdhey")))))

abbrev copy_asked : World
copy_asked = asked parcel

copy_arrives : recv_loop (length parcel) [] (packet parcel ∷ []) ≡ (received parcel, [])
unfolding recv_loop
copy_arrives = refl

parcel_first : first_field parcel ≡ pos 2
unfolding cstr strtoi
parcel_first = refl

parcel_second : second_field parcel ≡ pos 3
unfolding cstr strtoi
parcel_second = refl

parcel_group : cstr (take 16 (drop 18 parcel)) ≡ codes "group1"
unfolding cstr
parcel_group = refl

parcel-IsCopy : IsCopy copy_asked parcel 2 3
parcel-IsCopy = record {
  first = parcel_first;
  second = parcel_second;
  named = omega arith;
  short = omega arith;
  total = refl;
  group = parcel_group;
}

parcel_name : copied_name parcel ≡ codes "cd"
unfolding cstr strtoi
parcel_name = refl

parcel_missing : lookup (copied_path copy_asked parcel) daemon.files ≡ none
unfolding cstr strtoi lookup
parcel_missing = refl

parcel_no_folder : is_dir_path copy_asked (copied_path copy_asked parcel) ≡ false
unfolding cstr strtoi has chop_path
parcel_no_folder = refl

parcel_folder : is_dir_path copy_asked (parent (copied_path copy_asked parcel)) ≡ true
unfolding cstr strtoi has chop_path parent
parcel_folder = refl

copy_line : line_of b'c' (copied_name parcel) copy_asked ≡ codes "0 c cd\n"
unfolding cstr strtoi print_int
copy_line = refl

copy-HasBinlog : HasBinlog copy_asked binlog_file (line_of b'c' (copied_name parcel) copy_asked)
copy-HasBinlog = record { opened = refl; flushed = refl; room = omega (arith, ap length copy_line) }

copied_other : copied_path copy_asked parcel ≢ binlog_file
unfolding cstr strtoi
copied_other e = cc

storage_sync_copy_file-IsStored_example :
    (v : World) × (storage_sync_copy_file (pos (length parcel)) cmd_sync_create_file copy_asked
      ≡ ok 0 v)
    × IsStored copy_asked v
        (copied_path copy_asked parcel)
        (copied_content parcel)
        binlog_file
        (line_of b'c' (copied_name parcel) copy_asked)
storage_sync_copy_file-IsStored_example =
    storage_sync_copy_file-IsStored copy_asked parcel binlog_file [] 2 3 (asked-IsOpen parcel)
      copy_arrives parcel-IsCopy
      (record { missing = parcel_missing; no_folder = parcel_no_folder; folder = parcel_folder })
      copy-HasBinlog copied_other
