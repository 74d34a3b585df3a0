-- ===== src/Tests/Deletions.antt =====
-- A client's deletion of the file `ab`.
use demostroage.Prelude.{◌≡◌, ◌≢◌, refl, false, ap, [], ◌++◌, arith, length, pos, drop}
use demostroage.Libc.{cstr, print_int}
use demostroage.Shared.{chop_path}
use demostroage.Runtime.{World, ok}
use demostroage.Posix.{codes, has, is_dir_path}
use demostroage.Service.{meta_ext}
use demostroage.Service.Reading.Replies.{requested}
use demostroage.Service.Deleting.{storage_delete_file}
use demostroage.Service.Deleting.Removes.{HasBinlog, IsDeleted}
use demostroage.Service.Deleting.Sources.{delete_lines, HasNoMeta, storage_delete_file-IsDeleted}
use demostroage.Tests.Requests.{
  binlog_file, name_request, asked, asked-IsOpen, asked-IsNameRequest, requested_file,
  requested_other, requested_no_meta,
}

delete_request_lines :
    delete_lines (cstr (drop 16 name_request)) (asked name_request) ≡ codes "0 D ab\n0 D ab-m\n"
unfolding cstr print_int
delete_request_lines = refl

requested_no_folder :
    is_dir_path (asked name_request) (requested (asked name_request) name_request ++ meta_ext)
    ≡ false
unfolding cstr has chop_path
requested_no_folder = refl

binlog_no_meta : binlog_file ≢ requested (asked name_request) name_request ++ meta_ext
unfolding cstr
binlog_no_meta e = cc

requested-HasNoMeta :
    HasNoMeta (asked name_request) (requested (asked name_request) name_request) binlog_file
requested-HasNoMeta = record {
  missing = requested_no_meta;
  no_folder = requested_no_folder;
  other = requested_other;
  meta_other = binlog_no_meta;
}

deleting-HasBinlog :
    HasBinlog
      (asked name_request)
      binlog_file
      (delete_lines (cstr (drop 16 name_request)) (asked name_request))
deleting-HasBinlog = record {
  opened = refl;
  flushed = refl;
  room = omega (arith, ap length delete_request_lines);
}

storage_delete_file-IsDeleted_example :
    (v : World) × (storage_delete_file (pos (length name_request)) (asked name_request) ≡ ok 0 v)
    × IsDeleted
        (asked name_request)
        v
        (requested (asked name_request) name_request)
        binlog_file
        (delete_lines (cstr (drop 16 name_request)) (asked name_request))
        0
storage_delete_file-IsDeleted_example =
    storage_delete_file-IsDeleted (asked name_request) name_request (codes "hello") binlog_file []
      (asked-IsOpen name_request) asked-IsNameRequest requested_file requested-HasNoMeta
      deleting-HasBinlog
