-- ===== src/Service/Loop/Ending.antt =====
-- The loop of `storage_thread_entrance` ends: every round that goes on takes something from the
-- connection.
use demostroage.Prelude.{
  ℕ, zero, suc, ◌≤◌, ◌<◌, ◌≡◌, ◌≢◌, refl, [], Bool, true, false, Option, none, some, inl, inr,
  Bool-cases, arith, if◌then◌else◌, is_neg, ℤ,
}
use mathlib.Core.Path.{subst}
use demostroage.Runtime.{
  World, Run, ok, stop, crash, out_of_fuel, Cmd, and_then, pure, case_option, ◌>>=◌, ◌>>◌, set_conn,
}
use demostroage.Runtime.Keeps.{Ends, Leads, Leads-Keeps}
use demostroage.Runtime.Frames.{weight, Quiet, Writes, Conns, Procs, Stats}
use demostroage.Posix.{log_error}
use demostroage.Posix.Frames.{Keeps-log_error}
use demostroage.Socket.{
  Received, received, timed_out, broken, recv_loop, tcp_recv, with_errno, errno_of,
}
use demostroage.Socket.Exact.{goes_on, recv_loop-weight_lt}
use demostroage.Socket.Frames.{Keeps-tcp_recv}
use demostroage.Wire.{header_size, bytes_of, read_header, body_len}
use demostroage.Service.Loop.Frames.{Keeps-dispatch}
use demostroage.Service.Loop.{is_timeout, dispatch, one_round, loop_round, thread_loop}

-- what a receive leaves behind
record Leaves (n : ℕ) (w : World) : Type 0 where
  got : Received
  after : World
  runs : tcp_recv n w ≡ ok got after
  less : goes_on got ≡ true → weight after.incoming < weight w.incoming

with_errno-incoming :
    (e : Option ℕ) (w : World) → weight (with_errno e w).incoming ≡ weight w.incoming
with_errno-incoming none w = refl
with_errno-incoming (some e) w = refl

tcp_recv-Leaves : (n : ℕ) (w : World) → Leaves (suc n) w
unfolding tcp_recv
tcp_recv-Leaves n w = elim (Bool-cases (is_neg w.sock)) [
  | inl bad ↦ record { got = broken none; after = w; runs = rw bad; less = λ h. cc }
  | inr good ↦
      let r = recv_loop (suc n) [] w.incoming in
      record {
        got = r.0;
        after = with_errno (errno_of r.0) (set_conn (record w.conn { incoming = r.1 }) w);
        runs = rw good;
        less = λ h. omega (
          arith,
          with_errno-incoming (errno_of r.0) (set_conn (record w.conn { incoming = r.1 }) w),
          recv_loop-weight_lt n [] w.incoming h,
        );
      }
]

-- a run of a round: when it goes on, less than `n` is still to come and `P` holds, and when it
-- does not, `Q` holds
abbrev Goes : ℕ → (World → Type 0) → (World → Type 0) → Run Bool → Type 0
Goes n P Q (ok true w) = (weight w.incoming < n) × P w
Goes n P Q (ok false w) = Q w
Goes n P Q (stop s w) = Q w
Goes n P Q crash = Unit
Goes n P Q out_of_fuel = ⊥

-- no more than `n` is still to come
abbrev Few : ℕ → World → Type 0
Few n w = weight w.incoming < n

Few-Quiet : (n : ℕ) → Quiet (Few n)
Few-Quiet n = record { free = λ w o _ _ h. h }

Few-Writes : (n : ℕ) → Writes (Few n)
Few-Writes n = record { free = λ w o h. h }

Few-Conns : (n : ℕ) → Conns (Few n)
Few-Conns n = record { free = λ w c le h. omega arith }

Few-Procs : (n : ℕ) → Procs (Few n)
Few-Procs n = record { free = λ w p _ _ h. h }

Few-Stats : (n : ℕ) → Stats (Few n)
Few-Stats n = record { free = λ w p _ h. h }

module _ (n : ℕ) (P Q : World → Type 0) (final : (w : World) → P w → Q w) where
  Goes-both : (r : Run Bool) → Ends (Few n) r → Ends P r → Goes n P Q r
  Goes-both (ok true w) few h = (few, h)
  Goes-both (ok false w) few h = final w h
  Goes-both (stop s w) few h = final w h
  Goes-both crash few h = tt
  Goes-both out_of_fuel few h = h

  -- a run that gives up
  Goes-false : (r : Run (Unit {0})) → Ends P r → Goes n P Q (and_then r (λ _ w. ok false w))
  Goes-false (ok a w) h = final w h
  Goes-false (stop s w) h = final w h
  Goes-false crash h = tt
  Goes-false out_of_fuel h = h

-- A predicate that counts down with the requests served.
pub record Counts (P : ℕ → World → Type 0) (Q : World → Type 0) : Type 0 where
  pub quiet : (k : ℕ) → Quiet (P k)
  pub conns : (k : ℕ) → Conns (P k)
  pub weaken : (k : ℕ) (w : World) → P (suc k) w → P k w
  pub final : (k : ℕ) (w : World) → P k w → Q w
  pub serves : (k cmd : ℕ) (n : ℤ) → Leads (P (suc k)) (P k) (dispatch cmd n)

module _ {P : ℕ → World → Type 0} {Q : World → Type 0} (c : Counts P Q) where
  one_round-received :
      (n k : ℕ) (got : Received) (w : World)
      → (goes_on got ≡ true → weight w.incoming < n)
      → P (suc k) w
      → Goes n (P k) Q (
          and_then (ok got w) (λ r.
            case_option
              (bytes_of r)
              (if is_timeout r then pure true else (do log_error; pure false))
              (λ s. dispatch (read_header s).cmd (body_len (read_header s)))))
  unfolding ◌>>=◌
  one_round-received n k (received s) w less h =
      let served = dispatch (read_header s).cmd (body_len (read_header s)) in
      Goes-both n (P k) Q (c.final k) (served w)
        ((Keeps-dispatch _ _ (Few-Quiet n) (Few-Writes n) (Few-Conns n) (Few-Procs n)
            (Few-Stats n)).at
          w (less refl))
        ((c.serves k _ _).at w h)
  one_round-received n k timed_out w less h = (less refl, c.weaken k w h)
  one_round-received n k (broken e) w less h =
      Goes-false n (P k) Q (c.final k) (log_error w)
        ((Keeps-log_error (c.quiet k)).at w (c.weaken k w h))

  -- a round that goes on takes something
  one_round-Goes :
      (k : ℕ) (w : World) → P (suc k) w → Goes (weight w.incoming) (P k) Q (one_round w)
  unfolding one_round ◌>>=◌
  one_round-Goes k w h =
      let l = tcp_recv-Leaves 10 w in
      rw l.runs (
        one_round-received (weight w.incoming) k l.got l.after l.less (
          subst (Ends (P (suc k))) l.runs
            ((Keeps-tcp_recv header_size (c.quiet (suc k)) (c.conns (suc k))).at w h)))

  more-Ends :
      (n k : ℕ) (again : Cmd (Unit {0})) (r : Run Bool)
      → n ≤ k
      → ((w : World) → weight w.incoming < k → P k w → Ends Q (again w))
      → Goes n (P k) Q r
      → Ends Q (and_then r (λ more. if more then again else pure tt))
  unfolding ◌>>=◌
  more-Ends n k again (ok true w) le go (few, h) = go w (omega arith) h
  more-Ends n k again (ok false w) le go h = h
  more-Ends n k again (stop s w) le go h = h
  more-Ends n k again crash le go h = tt
  more-Ends n k again out_of_fuel le go h = h

  turn-Ends :
      (flag : Bool) (k : ℕ) (again : Cmd (Unit {0})) (w : World)
      → weight w.incoming ≤ k
      → ((w : World) → weight w.incoming < k → P k w → Ends Q (again w))
      → P (suc k) w
      → Ends Q
          (((if flag then one_round else pure false) >>= λ more. if more then again else pure tt) w)
  unfolding ◌>>=◌
  turn-Ends true k again w few go h =
      more-Ends (weight w.incoming) k again (one_round w) few go (one_round-Goes k w h)
  turn-Ends false k again w few go h = c.final (suc k) w h

  pub thread_loop-Ends :
      (fuel : ℕ) (w : World) → weight w.incoming < fuel → P fuel w → Ends Q (thread_loop fuel w)
  unfolding thread_loop loop_round ◌>>=◌
  thread_loop-Ends zero w few h = absurd (omega arith)
  thread_loop-Ends (suc fuel) w few h =
      turn-Ends w.continue_flag fuel (thread_loop fuel) w (omega arith) (thread_loop-Ends fuel) h

-- the first rounds of the loop, up to a number
unfoldable pub rounds : ℕ → Cmd (Unit {0})
unfolding loop_round
rounds zero = pure tt
rounds (suc n) = loop_round (rounds n)

module _ {P : ℕ → World → Type 0} {Q : World → Type 0} (c : Counts P Q) where
  next-Ends :
      (n k : ℕ) (again : Cmd (Unit {0})) (r : Run Bool)
      → ((w : World) → P k w → Ends Q (again w))
      → Goes n (P k) Q r
      → Ends Q (and_then r (λ more. if more then again else pure tt))
  unfolding ◌>>=◌
  next-Ends n k again (ok true w) go (few, h) = go w h
  next-Ends n k again (ok false w) go h = h
  next-Ends n k again (stop s w) go h = h
  next-Ends n k again crash go h = tt
  next-Ends n k again out_of_fuel go h = h

  step-Ends :
      (flag : Bool) (k : ℕ) (again : Cmd (Unit {0})) (w : World)
      → ((w : World) → P k w → Ends Q (again w))
      → P (suc k) w
      → Ends Q
          (((if flag then one_round else pure false) >>= λ more. if more then again else pure tt) w)
  unfolding ◌>>=◌
  step-Ends true k again w go h =
      next-Ends (weight w.incoming) k again (one_round w) go (one_round-Goes c k w h)
  step-Ends false k again w go h = c.final (suc k) w h

  pub rounds-Ends : (n : ℕ) (w : World) → P n w → Ends Q (rounds n w)
  unfolding rounds loop_round ◌>>=◌
  rounds-Ends zero w h = c.final 0 w h
  rounds-Ends (suc n) w h = step-Ends w.continue_flag n (rounds n) w (rounds-Ends n) h

-- any run
abbrev Any : ℕ → World → Type 0
Any k w = Unit

Any-Counts : Counts Any (λ w. Unit)
Any-Counts = record {
  quiet = λ k. record { free = λ w o _ _ h. tt };
  conns = λ k. record { free = λ w c _ h. tt };
  weaken = λ k w h. tt;
  final = λ k w h. tt;
  serves = λ k cmd n.
      Leads-Keeps _
        (Keeps-dispatch {P = Any k} cmd n (record { free = λ w o _ _ h. tt })
          (record { free = λ w o h. tt }) (record { free = λ w c _ h. tt })
          (record { free = λ w p _ _ h. tt }) (record { free = λ w p _ h. tt }))
        (λ w h. tt);
}

-- The loop over the requests of a connection ends: as many rounds as the bytes and events that
-- the peer and the network have in store, and one more, are enough.
pub thread_loop-ends :
    (fuel : ℕ) (w : World) → weight w.incoming < fuel → thread_loop fuel w ≢ out_of_fuel
thread_loop-ends fuel w few e =
    subst (Ends (λ w. Unit)) e (thread_loop-Ends Any-Counts fuel w few tt)
