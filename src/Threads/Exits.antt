-- ===== src/Threads/Exits.antt =====
-- The reporters wait for a count that nothing raises while the daemon runs, and the main thread for
-- one that nothing lowers.

use demostroage.Prelude.{ℕ, ◌+◌, ◌≤◌, ◌<◌, ◌≡◌, ◌⊎◌, inl, inr, refl, sym, ◌∙◌, true, false, arith}
use demostroage.Threads.{
  draining, exited, System, Step, start_reporter, count_reporter, start_failed, started, enter,
  leave, accept, refuse, bad_socket, exit, signal, connection_ends, wait, pass, report_failed,
  reporter_ends, launched, Steps, here, next,
}

-- a reporter that has not returned is not counted, and while the flag is set none is past its first
-- loop
record Unreported (s : System) : Type 0 where
  counted : s.tracker_reporter_count ≡ s.ended
  trackers : 0 < s.tracker_server_count
  flagged : s.continue_flag ≡ true → (s.reporting ≡ 0) × (s.ended ≡ 0)

module _ {s : System} where
  same_parts :
      {t : System}
      → Unreported s
      → t.tracker_reporter_count ≡ s.tracker_reporter_count
      → t.tracker_server_count ≡ s.tracker_server_count
      → t.ended ≡ s.ended
      → t.reporting ≡ s.reporting
      → t.continue_flag ≡ s.continue_flag
      → Unreported t
  same_parts u rc sc e r f = record {
    counted = omega (arith, u.counted);
    trackers = omega (arith, u.trackers);
    flagged = λ h. let (a, b) = u.flagged (sym f ∙ h) in (r ∙ a, e ∙ b);
  }

  flag_down : Unreported s → Unreported (record s { continue_flag = false })
  flag_down u = record { counted = u.counted; trackers = u.trackers; flagged = λ h. cc }

  passing :
      {n : ℕ}
      → Unreported s
      → (s.continue_flag ≡ false) ⊎ (s.tracker_server_count ≤ s.tracker_reporter_count)
      → Unreported (record s { waiting = n; reporting = s.reporting + 1 })
  passing u (inl down) = record {
    counted = u.counted;
    trackers = u.trackers;
    flagged = λ h. let e = sym down ∙ h in absurd (let f : ⊥ = cc in f);
  }
  passing u (inr enough) = record {
    counted = u.counted;
    trackers = u.trackers;
    flagged =
        λ h. let (a, b) = u.flagged h in absurd (omega (arith, u.counted, u.trackers, enough, b));
  }

  returning :
      {n : ℕ}
      → Unreported s
      → s.continue_flag ≡ false
      → Unreported (record s {
        reporting = n;
        ended = s.ended + 1;
        tracker_reporter_count = s.tracker_reporter_count + 1;
      })
  returning u down = record {
    counted = omega (arith, u.counted);
    trackers = u.trackers;
    flagged = λ h. let e = sym down ∙ h in absurd (let f : ⊥ = cc in f);
  }

  Step-Unreported : {m : ℕ} {t : System} → Step m s t → Unreported s → Unreported t
  Step-Unreported (start_reporter e) u = same_parts u refl refl refl refl refl
  Step-Unreported (start_failed e) u = record {
    counted = u.counted;
    trackers = u.trackers;
    flagged = λ h. cc;
  }
  Step-Unreported (count_reporter e) u = record {
    counted = u.counted;
    trackers = omega (arith, u.trackers);
    flagged = u.flagged;
  }
  Step-Unreported (started e) u = same_parts u refl refl refl refl refl
  Step-Unreported (enter e f) u = same_parts u refl refl refl refl refl
  Step-Unreported (leave e f) u = same_parts u refl refl refl refl refl
  Step-Unreported (accept e lt) u = same_parts u refl refl refl refl refl
  Step-Unreported (refuse e) u = same_parts u refl refl refl refl refl
  Step-Unreported (bad_socket e) u = same_parts u refl refl refl refl refl
  Step-Unreported (exit e n r) u = same_parts u refl refl refl refl refl
  Step-Unreported signal u = flag_down u
  Step-Unreported (connection_ends n k) u = same_parts u refl refl refl refl refl
  Step-Unreported (wait w f r) u = u
  Step-Unreported (pass w p) u = passing u p
  Step-Unreported (report_failed r) u = flag_down u
  Step-Unreported (reporter_ends r f) u = returning u f

Steps-Unreported : {m k : ℕ} {s : System} → 0 < k → Steps m (launched k) s → Unreported s
Steps-Unreported some here = record { counted = refl; trackers = some; flagged = λ h. (refl, refl) }
Steps-Unreported some (next r st) = Step-Unreported st (Steps-Unreported some r)

-- With a tracker in the configuration, no thread for a tracker gets behind its first loop as long as
-- `g_continue_flag` is set: it waits for `g_tracker_reporter_count` to reach
-- `g_tracker_server_count`, which only threads that return count up. So no tracker ever hears of a
-- daemon that runs.
pub Steps-silent :
    {max_connections trackers : ℕ} {s : System}
    → 0 < trackers
    → Steps max_connections (launched trackers) s
    → s.continue_flag ≡ true
    → (s.reporting ≡ 0) × (s.ended ≡ 0)
Steps-silent some r flag = (Steps-Unreported some r).flagged flag

-- how an end is told of
abbrev pub CanExit : ℕ → System → Type 0
CanExit max_connections s = (t : System) × Steps max_connections s t × (t.main ≡ exited)

-- a reporter has returned, and the main thread waits
abbrev Stuck : System → Type 0
Stuck s = (0 < s.tracker_reporter_count) × (s.main ≡ draining)

-- the reporters that have returned are counted
abbrev Told : System → Type 0
Told s = s.tracker_reporter_count ≡ s.ended
