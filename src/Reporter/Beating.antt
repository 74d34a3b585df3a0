-- ===== src/Reporter/Beating.antt =====
-- What a tracker reads of a heart beat.
use mathlib.Core.Path.{subst}
use demostroage.Prelude.{
  ℕ, ◌^◌, ◌<◌, ◌≡◌, ◌≢◌, refl, sym, ap, ◌∙◌, Bool-cases, inl, inr, [], arith, Bytes, length, take,
  drop, take-append, drop-append, ◌==◌, if◌then◌else◌, pos,
}
use demostroage.Libc.{print_hex}
use demostroage.Shared.{int2buff}
use demostroage.Shared.Trim.{buff2int, buff2int-int2buff}
use demostroage.Runtime.{StorageStat, World, ok}
use demostroage.StatFile.RoundTrip.{AreWords}
use demostroage.Runtime.Runs.{Runs, Runs-bind, Runs-gets, Runs-pure}
use demostroage.Socket.Runs.{sent_more, Runs-tcp_send}
use demostroage.Wire.{header_size, Header, header_bytes, read_header, body_len, cmd_beat}
use demostroage.Wire.RoundTrip.{read_header-header_bytes, length-header_bytes, length-print_hex}
use demostroage.Service.Runs.{IsOpen}
use demostroage.Tracker.{send_message}
use demostroage.Reporter.{
  tracker_check_response, send_checked, stat_bytes, stat_buff, beat_message, tracker_heart_beat,
}

-- a message that the tracker takes whole
pub Runs-send_message :
    (m : Bytes) (w : World) → IsOpen w → Runs (send_message m) w (ok 0 (sent_more m w))
unfolding send_message
Runs-send_message m w o = Runs-bind _ _ w (Runs-tcp_send m w o.socket o.free) (Runs-pure 0 _)

pub Runs-send_checked :
    (m : Bytes) (w : World) → IsOpen w → Runs (send_checked m) w (ok 0 (sent_more m w))
unfolding send_checked tracker_check_response
Runs-send_checked m w o = Runs-bind _ _ w (Runs-send_message m w o) (Runs-pure 0 _)

-- the tracker's reader of a counter: four bytes, big-endian
abbrev pub counter_at : ℕ → Bytes → ℕ
counter_at k body = buff2int (take 4 (drop k body))

-- Every counter is at its place in a body of `FDFSStorageStatBuff`.
pub record HasCounters (body : Bytes) (s : StorageStat) : Type 0 where
  pub at_total_upload : counter_at 0 body ≡ s.total_upload_count
  pub at_success_upload : counter_at 4 body ≡ s.success_upload_count
  pub at_total_set_meta : counter_at 8 body ≡ s.total_set_meta_count
  pub at_success_set_meta : counter_at 12 body ≡ s.success_set_meta_count
  pub at_total_delete : counter_at 16 body ≡ s.total_delete_count
  pub at_success_delete : counter_at 20 body ≡ s.success_delete_count
  pub at_total_download : counter_at 24 body ≡ s.total_download_count
  pub at_success_download : counter_at 28 body ≡ s.success_download_count
  pub at_total_get_meta : counter_at 32 body ≡ s.total_get_meta_count
  pub at_success_get_meta : counter_at 36 body ≡ s.success_get_meta_count
  pub at_last_source_update : counter_at 40 body ≡ s.last_source_update
  pub at_last_sync_update : counter_at 44 body ≡ s.last_sync_update

stat_bytes-HasCounters : (s : StorageStat) → AreWords s → HasCounters (stat_bytes (stat_buff s)) s
unfolding stat_bytes int2buff
stat_bytes-HasCounters s h = record {
  at_total_upload = (buff2int-int2buff s.total_upload_count (omega arith)).0;
  at_success_upload = (buff2int-int2buff s.success_upload_count (omega arith)).0;
  at_total_set_meta = (buff2int-int2buff s.total_set_meta_count (omega arith)).0;
  at_success_set_meta = (buff2int-int2buff s.success_set_meta_count (omega arith)).0;
  at_total_delete = (buff2int-int2buff s.total_delete_count (omega arith)).0;
  at_success_delete = (buff2int-int2buff s.success_delete_count (omega arith)).0;
  at_total_download = (buff2int-int2buff s.total_download_count (omega arith)).0;
  at_success_download = (buff2int-int2buff s.success_download_count (omega arith)).0;
  at_total_get_meta = (buff2int-int2buff s.total_get_meta_count (omega arith)).0;
  at_success_get_meta = (buff2int-int2buff s.success_get_meta_count (omega arith)).0;
  at_last_source_update = (buff2int-int2buff s.last_source_update (omega arith)).0;
  at_last_sync_update = (buff2int-int2buff s.last_sync_update (omega arith)).0;
}

length-stat_bytes : (s : StorageStat) → length (stat_bytes (stat_buff s)) ≡ 48
unfolding stat_bytes int2buff
length-stat_bytes s = refl

-- What a tracker gets from a message: the command, and the length of the body.
pub record Tells (m : Bytes) (size : ℕ) : Type 0 where
  pub length_part : body_len (read_header (take header_size m)) ≡ pos size
  pub command : (read_header (take header_size m)).cmd ≡ cmd_beat
  pub size_part : length (drop header_size m) ≡ size

module _ (junk : ℕ → ℕ) (body : Bytes) (small : length body < 2 ^ 31) where
  abbrev head : Header
  head = record { pkg_len = print_hex (length body); cmd = cmd_beat; status = 0 }

  beat_header : length (header_bytes junk head) ≡ 11
  beat_header = length-header_bytes junk head (length-print_hex (length body) (omega arith))

  beat_message-Tells : Tells (beat_message junk body) (length body)
  beat_message-Tells =
      let t = take-append (header_bytes junk head) body 11 (sym beat_header) in
      let d = drop-append (header_bytes junk head) body 11 (sym beat_header) in
      let (l, c, _) = read_header-header_bytes junk (length body) cmd_beat 0 small in
      record {
        length_part = ap (λ s. body_len (read_header s)) t ∙ l;
        command = ap (λ s. (read_header s).cmd) t ∙ c;
        size_part = ap length d;
      }

  drop-beat_message : drop header_size (beat_message junk body) ≡ body
  drop-beat_message = drop-append (header_bytes junk head) body 11 (sym beat_header)

-- what follows the header of a heart beat
abbrev news : ℕ → World → Bytes
news told w = if told == w.stat_change_count then [] else stat_bytes (stat_buff w.storage_stat)

abbrev pub news_size : ℕ → World → ℕ
news_size told w = if told == w.stat_change_count then 0 else 48

length-news : (told : ℕ) (w : World) → length (news told w) ≡ news_size told w
length-news told w = elim (Bool-cases (told == w.stat_change_count)) [
  | inl same ↦ rw same refl
  | inr other ↦ rw other (length-stat_bytes w.storage_stat)
]

news-small : (told : ℕ) (w : World) → length (news told w) < 2 ^ 31
news-small told w = rw (length-news told w) (ground arith)

news-HasCounters :
    (told : ℕ) (w : World)
    → AreWords w.storage_stat
    → told ≢ w.stat_change_count
    → HasCounters (news told w) w.storage_stat
news-HasCounters told w words ne = elim (Bool-cases (told == w.stat_change_count)) [
  | inl same ↦ absurd (ne (ground arith))
  | inr other ↦ rw other (stat_bytes-HasCounters w.storage_stat words)
]

-- On a connection that takes what is sent, `tracker_heart_beat` sends one message and returns 0. A
-- tracker that reads it gets the command and the number of bytes that follow the header, and in these
-- each of the twelve counters at its place, or no byte where the tracker has been told of all
-- changes. The changes count as told from then on. Every counter is the bit pattern of an `int`.
pub tracker_heart_beat-Tells :
    (told : ℕ) (w : World)
    → IsOpen w
    → AreWords w.storage_stat
    → (m : Bytes) × Runs
        (tracker_heart_beat told)
        w
        (ok (record { result = 0; stat_chg_sync_count = w.stat_change_count }) (sent_more m w))
      × Tells m (news_size told w)
      × (told ≢ w.stat_change_count → HasCounters (drop header_size m) w.storage_stat)
unfolding tracker_heart_beat
tracker_heart_beat-Tells told w o words =
    let small = news-small told w in
    let m = beat_message w.junk (news told w) in
    (
      m,
      Runs-bind _ _ w (Runs-gets _ w) (
          Runs-bind _ _ w (Runs-gets _ w) (
            Runs-bind _ _ w (Runs-gets _ w)
              (Runs-bind _ _ w (Runs-send_checked m w o) (Runs-pure _ _)))),
      subst (Tells m) (length-news told w) (beat_message-Tells w.junk (news told w) small),
      λ ne.
          subst (λ b. HasCounters b w.storage_stat)
            (sym (drop-beat_message w.junk (news told w) small)) (news-HasCounters told w words ne),
    )
