-- ===== src/Reporter/Syncing.antt =====
-- `tracker_sync_dest_req` takes over what `tracker_sync_notify` prints.
use mathlib.Core.Path.{subst}
use demostroage.Prelude.{
  ℕ, zero, suc, ◌-◌, ◌^◌, ◌≤◌, ◌<◌, ◌≡◌, ◌≢◌, refl, sym, ap, ◌∙◌, List, [], ◌∷◌, ◌++◌, arith, Bytes,
  All, length, length-append, length-replicate, take, drop-append, replicate, ◌==◌, ℤ, pos, word,
}
use demostroage.Libc.{cstr, print_hex, strtoi, digit_value}
use demostroage.Libc.Numbers.{IsInt, IsDigit, strtoi-print_hex-word}
use demostroage.Runtime.{Arrival, Reports, World, ok, set_proc}
use demostroage.Runtime.Runs.{
  Runs, Runs-bind, Runs-modify, Runs-pure, Runs-if_true, Runs-if_false, Runs-some,
}
use demostroage.Posix.{codes}
use demostroage.Socket.{received, recv_loop}
use demostroage.Socket.Runs.{arrived, sent_more, Runs-tcp_recv}
use demostroage.Wire.{
  header_size, pkg_len_size, Header, header_bytes, read_header, body_len, cmd_sync_dest_req,
  cmd_tracker_resp,
}
use demostroage.Wire.RoundTrip.{read_header-header_bytes, length-print_hex, All-print_hex}
use demostroage.LocalHost.{ip_size}
use demostroage.Binlog.{change_proc}
use demostroage.Service.Runs.{IsOpen}
use demostroage.Tracker.{send_message, recv_body, recv_sized, recv_answered, tracker_recv_response}
use demostroage.Reporter.{
  padded, clear_header, sync_body_size, sync_body, src_of_body, until_of_body, change_reports,
  take_sync_source, tracker_sync_dest_req,
}
use demostroage.Reporter.Beating.{Runs-send_message}

-- a string in an array of zeros is read back, also without the array's last byte
cstr-padded :
    (s : Bytes) (n k : ℕ)
    → All (λ c. c ≢ 0) s
    → length s ≤ n
    → cstr (take n (s ++ replicate k 0)) ≡ s
unfolding cstr
cstr-padded [] zero k h le = refl
cstr-padded [] (suc n) zero h le = refl
cstr-padded [] (suc n) (suc k) h le = refl
cstr-padded (c ∷ s) zero k h le = absurd (omega arith)
cstr-padded (c ∷ s) (suc n) k h le = ground (arith, cstr-padded s n k h.1 (omega arith))

length-padded : (n : ℕ) (s : Bytes) → length s ≤ n → length (padded n s) ≡ n
length-padded n s le = omega (
  arith,
  length-append s (replicate (n - length s) 0),
  length-replicate (n - length s) (let z : ℕ = 0 in z),
)

take-front : (n : ℕ) (s t : Bytes) → n ≤ length s → take n (s ++ t) ≡ take n s
take-front zero s t h = refl
take-front (suc n) [] t h = absurd (omega arith)
take-front (suc n) (c ∷ s) t h = ap (◌∷◌ c) (take-front n s t (omega arith))

-- an address of the size of its array
pub record IsAddress (ip : Bytes) : Type 0 where
  pub text : All (λ c. c ≢ 0) ip
  pub fits : length ip ≤ 15

not_nul : (s : Bytes) → All IsDigit s → All (λ c. c ≢ 0) s
unfolding digit_value
not_nul [] h = tt
not_nul (c ∷ s) h = (ground arith, not_nul s h.1)

word-lt : (z : ℤ) → IsInt z → word z < 2 ^ 32
word-lt z h = ground arith

module _ (ip : Bytes) (until : ℤ) (a : IsAddress ip) (i : IsInt until) where
  abbrev digits : Bytes
  digits = print_hex (word until)

  digits_fit : length digits ≤ 8
  digits_fit = length-print_hex (word until) (word-lt until i)

  length-sync_body : length (sync_body ip until) ≡ 25
  length-sync_body = omega (
    arith,
    length-append (padded ip_size ip) (padded pkg_len_size digits),
    length-padded ip_size ip (omega (arith, a.fits)),
    length-padded pkg_len_size digits (omega (arith, digits_fit)),
  )

  src_of_body-sync_body : src_of_body (sync_body ip until) ≡ ip
  src_of_body-sync_body =
      ap cstr (
        take-front 15 (padded ip_size ip) (padded pkg_len_size digits)
          (omega (arith, length-padded ip_size ip (omega (arith, a.fits)))))
      ∙ cstr-padded ip 15 _ a.text a.fits

  until_of_body-sync_body : until_of_body (sync_body ip until) ≡ until
  until_of_body-sync_body =
      ap (λ s. strtoi 16 (cstr (take 8 s)))
        (drop-append (padded ip_size ip) (padded pkg_len_size digits) 16
          (sym (length-padded ip_size ip (omega (arith, a.fits)))))
      ∙ ap (strtoi 16)
          (cstr-padded digits 8 _ (not_nul digits (All-print_hex (word until))) digits_fit)
      ∙ strtoi-print_hex-word until i

-- the tracker's answer on the connection: a header, and the body with an address and a time
pub record IsAnswered (w : World) (ip : Bytes) (until : ℤ) : Type 0 where
  pub junk : ℕ → ℕ
  pub cmd : ℕ
  pub behind_header : List Arrival
  pub behind_body : List Arrival
  pub header : recv_loop header_size [] w.incoming ≡ (
    received (header_bytes junk (record { pkg_len = print_hex 25; cmd = cmd; status = 0 })),
    behind_header,
  )
  pub body : recv_loop 25 [] behind_header ≡ (received (sync_body ip until), behind_body)

Runs-recv_body :
    (w : World) {s : Bytes} {es : List Arrival}
    → IsOpen w
    → recv_loop 25 [] w.incoming ≡ (received s, es)
    → Runs (recv_body sync_body_size 25) w (ok (record { code = 0; body = s }) (arrived es w))
unfolding recv_body
Runs-recv_body w o h =
    Runs-bind _ _ w (Runs-tcp_recv 25 w o.socket h) (Runs-some _ _ _ refl (Runs-pure _ _))

-- the length in the header decides how much is received
Runs-recv_answered :
    (h : Header) (w : World) {s : Bytes} {es : List Arrival}
    → IsOpen w
    → h.status ≡ 0
    → body_len h ≡ pos 25
    → recv_loop 25 [] w.incoming ≡ (received s, es)
    → Runs (recv_answered sync_body_size h) w (ok (record { code = 0; body = s }) (arrived es w))
unfolding recv_answered recv_sized
Runs-recv_answered h w {s} {es} o status size more = Runs-if_true _ _ w (ap (λ n. n == 0) status) (
    subst
      (λ z.
        Runs (recv_sized sync_body_size z) w (ok (record { code = 0; body = s }) (arrived es w)))
      (sym size) (Runs-recv_body w o more))

abbrev with_source : Bytes → ℤ → World → World
with_source ip until w =
    set_proc
      (record w.proc {
        reports = record w.reports { sync_src_ip_addr = ip; sync_until_timestamp = until };
      })
      w

Runs-change_reports :
    (f : Reports → Reports) (w : World)
    → Runs (change_reports f) w (ok tt (set_proc (record w.proc { reports = f w.reports }) w))
unfolding change_reports change_proc
Runs-change_reports f w = Runs-modify _ w

abbrev pub confirmation : Bytes
confirmation = clear_header (codes "0") cmd_tracker_resp

Runs-take_sync_source :
    (ip : Bytes) (until : ℤ) (w : World)
    → IsAddress ip
    → IsInt until
    → IsOpen w
    → Runs
        (take_sync_source (sync_body ip until))
        w
        (ok 0 (sent_more confirmation (with_source ip until w)))
unfolding take_sync_source
Runs-take_sync_source ip until w a i o =
    let l = length-sync_body ip until a i in
    let u =
      set_proc
        (record w.proc {
          reports = record w.reports {
            sync_src_ip_addr = src_of_body (sync_body ip until);
            sync_until_timestamp = until_of_body (sync_body ip until);
          };
        })
        w in
    Runs-if_false _ _ w (ap (λ n. n == 0) l) (
      Runs-if_true _ _ w (ap (λ n. n == 25) l) (
        Runs-bind _ _ w (Runs-change_reports _ w) (
          subst (λ v. Runs (send_message confirmation) u (ok 0 (sent_more confirmation v))) {x = u}
            {y = with_source ip until w}
            (λ j.
              with_source (src_of_body-sync_body ip until a i j)
                (until_of_body-sync_body ip until a i j) w)
            (Runs-send_message confirmation u
              (record { calm = o.calm; socket = o.socket; free = o.free })))))

-- `tracker_sync_dest_req` on a connection where the tracker answers with a body as
-- `tracker_sync_notify` prints it: the request and a confirmation are sent, the result is 0, and
-- the address and the time of the body are those that the daemon has then. The address fits its
-- array, the time is any `int`.
pub tracker_sync_dest_req-takes :
    (ip : Bytes) (until : ℤ) (w : World)
    → IsAddress ip
    → IsInt until
    → IsOpen w
    → IsAnswered w ip until
    → (v : World) × Runs tracker_sync_dest_req w (ok 0 v)
      × (v.reports.sync_src_ip_addr ≡ ip)
      × (v.reports.sync_until_timestamp ≡ until)
      × (v.sent ≡ (w.sent ++ clear_header [] cmd_sync_dest_req) ++ confirmation)
unfolding tracker_sync_dest_req tracker_recv_response
tracker_sync_dest_req-takes ip until w a i o q =
    let w1 = sent_more (clear_header [] cmd_sync_dest_req) w in
    let w2 = arrived q.behind_header w1 in
    let w3 = arrived q.behind_body w2 in
    let h =
      read_header
        (header_bytes q.junk (record { pkg_len = print_hex 25; cmd = q.cmd; status = 0 })) in
    let (size, _, status) = read_header-header_bytes q.junk 25 q.cmd 0 (omega arith) in
    (
      sent_more confirmation (with_source ip until w3),
      Runs-bind _ _ w (Runs-send_message _ w o) (
          Runs-bind _ _ w1
            (Runs-bind _ _ w1 (Runs-tcp_recv header_size w1 o.socket q.header) (
              Runs-some _ _ w2 refl (
                Runs-recv_answered h w2 (record { calm = o.calm; socket = o.socket; free = refl })
                  status size q.body)))
            (Runs-take_sync_source ip until w3 a i
              (record { calm = o.calm; socket = o.socket; free = refl }))),
      refl,
      refl,
      refl,
    )
