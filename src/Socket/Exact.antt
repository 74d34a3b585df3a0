-- ===== src/Socket/Exact.antt =====
-- What the two loops transfer.
use demostroage.Prelude.{
  ℕ, zero, suc, ◌-◌, ◌≤◌, ◌<◌, ◌≡◌, refl, sym, ap, ◌∙◌, Bool, true, false, List, [], ◌∷◌, ◌++◌,
  append_assoc, append-nil, inl, inr, Bool-cases, arith, leb, Bytes, length, length-append,
  length-take, length-drop, take, drop, take-append-drop,
}
use mathlib.Core.Path.{subst}
use demostroage.Runtime.{
  Arrival, packet, closed, not_readable, read_failed, Departure, accepted, not_writable,
  write_failed,
}
use demostroage.Runtime.Frames.{weight}
use demostroage.Socket.{Received, received, timed_out, broken, recv_loop, done, Sending, send_loop}

-- the bytes that a connection still has to deliver
abbrev pub stream : List Arrival → Bytes
stream [] = []
stream (packet s ∷ es) = s ++ stream es
stream (_ ∷ es) = stream es

-- a whole receive: `size` bytes, which are the next of the stream
pub record IsExact (size : ℕ) (before after : List Arrival) (got : Bytes) : Type 0 where
  pub number : length got ≡ size
  pub next : stream before ≡ got ++ stream after

leb-false : (a b : ℕ) → leb a b ≡ false → b < a
leb-false a b h = ground arith

abbrev Continues : ℕ → Bytes → List Arrival → Received × List Arrival → Type 0
Continues n acc es (received s, es') = (t : Bytes) × (s ≡ acc ++ t) × IsExact n es es' t
Continues n acc es (_, es') = Unit

-- a packet that is read whole
Continues-packet :
    (n : ℕ) (acc got : Bytes) (es : List Arrival) (r : Received × List Arrival)
    → length got ≤ n
    → Continues (n - length got) (acc ++ got) es r
    → Continues n acc (packet got ∷ es) r
Continues-packet n acc got es (received s, es') fits (t, e, x) = (
  got ++ t,
  e ∙ append_assoc acc got t,
  record {
    number = omega (arith, length-append got t, x.number);
    next = ap (λ u. got ++ u) x.next ∙ sym (append_assoc got t (stream es'));
  },
)
Continues-packet n acc got es (timed_out, es') fits h = tt
Continues-packet n acc got es (broken e, es') fits h = tt

recv_loop-Continues :
    (n : ℕ) (acc : Bytes) (es : List Arrival) → Continues n acc es (recv_loop n acc es)
unfolding recv_loop
recv_loop-Continues zero acc es = ([], sym (append-nil acc), record { number = refl; next = refl })
recv_loop-Continues (suc n) acc [] = tt
recv_loop-Continues (suc n) acc (Arrival.timeout ∷ es) = tt
recv_loop-Continues (suc n) acc (not_readable ∷ es) = tt
recv_loop-Continues (suc n) acc (closed ∷ es) = tt
recv_loop-Continues (suc n) acc (Arrival.select_failed e ∷ es) = tt
recv_loop-Continues (suc n) acc (read_failed e ∷ es) = tt
recv_loop-Continues (suc n) acc (packet [] ∷ es) = tt
recv_loop-Continues (suc n) acc (packet (c ∷ s) ∷ es) =
    elim (Bool-cases (leb (length (c ∷ s)) (suc n))) [
      | inl fits ↦ rw fits (
          Continues-packet (suc n) acc (c ∷ s) es
            (recv_loop (suc n - length (c ∷ s)) (acc ++ c ∷ s) es) (ground arith)
            (recv_loop-Continues (suc n - length (c ∷ s)) (acc ++ c ∷ s) es))
      | inr more ↦ rw more (
        take (suc n) (c ∷ s),
        refl,
        record {
          number =
              omega (arith, length-take (suc n) (c ∷ s), leb-false (length (c ∷ s)) (suc n) more);
          next =
              ap (λ u. u ++ stream es) (sym (take-append-drop (suc n) (c ∷ s)))
              ∙ append_assoc (take (suc n) (c ∷ s)) (drop (suc n) (c ∷ s)) (stream es);
        },
      )
    ]

-- A receive that succeeds has taken exactly the next `size` bytes of the stream, however they
-- were cut into packets, and the rest is still to come.
pub recv_loop-IsExact :
    (size : ℕ) (es es' : List Arrival) (s : Bytes)
    → recv_loop size [] es ≡ (received s, es')
    → IsExact size es es' s
recv_loop-IsExact size es es' s h =
    let (t, e, x) = subst (Continues size [] es) h (recv_loop-Continues size [] es) in rw e x

-- Nothing that was received comes again: the weight of what is to come does not grow.
pub recv_loop-weight :
    (n : ℕ) (acc : Bytes) (es : List Arrival) → weight (recv_loop n acc es).1 ≤ weight es
unfolding recv_loop
recv_loop-weight zero acc es = omega arith
recv_loop-weight (suc n) acc [] = omega arith
recv_loop-weight (suc n) acc (Arrival.timeout ∷ es) = omega arith
recv_loop-weight (suc n) acc (not_readable ∷ es) = omega arith
recv_loop-weight (suc n) acc (closed ∷ es) = omega arith
recv_loop-weight (suc n) acc (Arrival.select_failed e ∷ es) = omega arith
recv_loop-weight (suc n) acc (read_failed e ∷ es) = omega arith
recv_loop-weight (suc n) acc (packet [] ∷ es) = omega arith
recv_loop-weight (suc n) acc (packet (c ∷ s) ∷ es) =
    elim (Bool-cases (leb (length (c ∷ s)) (suc n))) [
      | inl fits ↦
          rw fits (omega (arith, recv_loop-weight (suc n - length (c ∷ s)) (acc ++ c ∷ s) es))
      | inr more ↦ rw more (omega (arith, length-drop n s))
    ]

-- a whole receive or a timeout takes something
abbrev pub goes_on : Received → Bool
goes_on (broken e) = false
goes_on _ = true

pub recv_loop-weight_lt :
    (n : ℕ) (acc : Bytes) (es : List Arrival)
    → goes_on (recv_loop (suc n) acc es).0 ≡ true
    → weight (recv_loop (suc n) acc es).1 < weight es
unfolding recv_loop
recv_loop-weight_lt n acc [] h = cc
recv_loop-weight_lt n acc (Arrival.timeout ∷ es) h = omega arith
recv_loop-weight_lt n acc (not_readable ∷ es) h = cc
recv_loop-weight_lt n acc (closed ∷ es) h = cc
recv_loop-weight_lt n acc (Arrival.select_failed e ∷ es) h = cc
recv_loop-weight_lt n acc (read_failed e ∷ es) h = cc
recv_loop-weight_lt n acc (packet [] ∷ es) h = cc
recv_loop-weight_lt n acc (packet (c ∷ s) ∷ es) h =
    elim (Bool-cases (leb (length (c ∷ s)) (suc n))) [
      | inl fits ↦
          rw fits (omega (arith, recv_loop-weight (suc n - length (c ∷ s)) (acc ++ c ∷ s) es))
      | inr more ↦ rw more (omega (arith, length-drop n s))
    ]

-- What a send has written: a prefix of the data, and all of it if the result is 1.
pub record IsWritten (s : Bytes) (r : Sending) : Type 0 where
  pub unsent : Bytes
  pub splits : s ≡ r.written ++ unsent
  pub whole : r.result ≡ done → unsent ≡ []

abbrev Appended : Bytes → Bytes → Sending → Type 0
Appended acc s r =
    (t : Bytes) × (u : Bytes) × (r.written ≡ acc ++ t) × (s ≡ t ++ u) × (r.result ≡ done → u ≡ [])

send_loop-Appended : (acc s : Bytes) (ds : List Departure) → Appended acc s (send_loop acc s ds)
unfolding send_loop
send_loop-Appended acc [] ds = ([], [], sym (append-nil acc), refl, λ _. refl)
send_loop-Appended acc (c ∷ s) [] = (c ∷ s, [], refl, sym (append-nil _), λ _. refl)
send_loop-Appended acc (c ∷ s) (Departure.timeout ∷ ds) =
    ([], c ∷ s, sym (append-nil acc), refl, λ e. cc)
send_loop-Appended acc (c ∷ s) (not_writable ∷ ds) =
    ([], c ∷ s, sym (append-nil acc), refl, λ e. cc)
send_loop-Appended acc (c ∷ s) (Departure.select_failed e ∷ ds) =
    ([], c ∷ s, sym (append-nil acc), refl, λ e. cc)
send_loop-Appended acc (c ∷ s) (write_failed e ∷ ds) =
    ([], c ∷ s, sym (append-nil acc), refl, λ e. cc)
send_loop-Appended acc (c ∷ s) (accepted k ∷ ds) =
    let (t, u, e, f, g) = send_loop-Appended (acc ++ take k (c ∷ s)) (drop k (c ∷ s)) ds in
    (
      take k (c ∷ s) ++ t,
      u,
      e ∙ append_assoc acc (take k (c ∷ s)) t,
      sym (take-append-drop k (c ∷ s))
          ∙ ap (λ v. take k (c ∷ s) ++ v) f
          ∙ sym (append_assoc (take k (c ∷ s)) t u),
      g,
    )

-- A send writes a prefix of its data in order, and the whole of it where it returns 1.
pub send_loop-IsWritten : (s : Bytes) (ds : List Departure) → IsWritten s (send_loop [] s ds)
send_loop-IsWritten s ds =
    let (t, u, e, f, g) = send_loop-Appended [] s ds in
    record { unsent = u; splits = rw e f; whole = g }
