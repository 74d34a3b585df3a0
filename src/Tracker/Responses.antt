-- ===== src/Tracker/Responses.antt =====
-- `tracker_recv_response` returns whatever the tracker and the network do, and never overruns the
-- buffer.
use demostroage.Prelude.{
  ℕ, ◌≤◌, ◌≡◌, ◌⊎◌, inl, inr, refl, sym, ap, ◌∙◌, true, false, Bool-cases, none, some, List, [],
  Bytes, arith, length, ltb, ◌==◌, ℤ, pos, negsuc, is_neg,
}
use demostroage.Runtime.{Arrival, set_os, set_conn, World, pure, ◌>>=◌, ◌>>◌}
use demostroage.Runtime.Runs.{Runs-gets}
use demostroage.Runtime.Returns.{Returns, Returns-pure, Returns-if, Returns-bind, Returns-option}
use demostroage.Posix.{next_outcome, attempt, log_error, errno_or, epipe, einval}
use demostroage.Socket.{
  with_errno, errno_of, Received, received, timed_out, broken, recv_loop, tcp_recv,
}
use demostroage.Socket.Exact.{recv_loop-IsExact}
use demostroage.Wire.{Header, header_size, read_header, body_len, bytes_of}
use demostroage.Tracker.{
  Response, no_body, recv_body, recv_sized, recv_answered, tracker_recv_response,
}

abbrev Any : {A : Type 0} → A → Type 0
Any a = Unit {0}

Returns-attempt : (w : World) → Returns Any attempt w
unfolding attempt
Returns-attempt w = elim (Bool-cases ((next_outcome w.outcomes).0 == 0)) [
  | inl through ↦ record {
    value = true;
    world = set_os (record w.os { outcomes = (next_outcome w.outcomes).1 }) w;
    runs = record { same = rw through refl };
    holds = tt;
  }
  | inr fails ↦ record {
    value = false;
    world =
        set_os
          (record w.os {
            outcomes = (next_outcome w.outcomes).1;
            errno = (next_outcome w.outcomes).0;
          })
          w;
    runs = record { same = rw fails refl };
    holds = tt;
  }
]

Returns-log_error : (w : World) → Returns Any log_error w
unfolding log_error
Returns-log_error w =
    Returns-bind Any Any _ _ w (Returns-attempt w) (λ b v _. Returns-pure Any tt v tt)

Returns-errno_or : (code : ℕ) (w : World) → Returns Any (errno_or code) w
unfolding errno_or
Returns-errno_or code w = record { value = _; world = w; runs = Runs-gets _ w; holds = tt }

-- what a receive gives has the size asked for
abbrev OfSize : ℕ → Received → Type 0
OfSize n r = (s : Bytes) → bytes_of r ≡ some s → length s ≡ n

received_size :
    (n : ℕ) (es fs : List Arrival) (r : Received) → recv_loop n [] es ≡ (r, fs) → OfSize n r
received_size n es fs (received t) h s e =
    let same : t ≡ s = cc in ap length (sym same) ∙ (recv_loop-IsExact n es fs t h).number
received_size n es fs timed_out h s e = cc
received_size n es fs (broken x) h s e = cc

Returns-tcp_recv : (n : ℕ) (w : World) → Returns (OfSize n) (tcp_recv n) w
unfolding tcp_recv
Returns-tcp_recv n w = elim (Bool-cases (is_neg w.sock)) [
  | inl bad ↦ record {
    value = broken none;
    world = w;
    runs = record { same = rw bad refl };
    holds = λ s e. cc;
  }
  | inr good ↦ record {
    value = (recv_loop n [] w.incoming).0;
    world =
        with_errno (errno_of (recv_loop n [] w.incoming).0)
          (set_conn (record w.conn { incoming = (recv_loop n [] w.incoming).1 }) w);
    runs = record { same = rw good refl };
    holds = received_size n w.incoming _ _ refl;
  }
]

-- a response in a buffer of a size: no more than fits, and nothing unless the result is 0
pub record Fits (size : ℕ) (r : Response) : Type 0 where
  pub small : length r.body ≤ size
  pub clean : (r.code ≡ 0) ⊎ (r.body ≡ [])

no_body-Fits : (size e : ℕ) → Fits size (no_body e)
no_body-Fits size e = record { small = omega arith; clean = inr refl }

module _ (size : ℕ) where
  small_of : (n : ℕ) (s : Bytes) → ltb size n ≡ false → length s ≡ n → length s ≤ size
  small_of n s short e = ground arith

  -- log, and give up with the errno
  Returns-give_up :
      (code : ℕ) (w : World)
      → Returns (Fits size) (do log_error; e ← errno_or code; pure (no_body e)) w
  Returns-give_up code w = Returns-bind (Fits size) Any _ _ w (Returns-log_error w) (λ _ v _.
      Returns-bind (Fits size) Any _ _ v (Returns-errno_or code v)
        (λ e u _. Returns-pure (Fits size) (no_body e) u (no_body-Fits size e)))

  Returns-recv_body : (n : ℕ) (w : World) → Returns (Fits size) (recv_body size n) w
  unfolding recv_body
  Returns-recv_body n w = elim (Bool-cases (ltb size n)) [
    | inl long ↦ rw long (Returns-give_up einval w)
    | inr short ↦ rw short (
        Returns-bind (Fits size) (OfSize n) _ _ w (Returns-tcp_recv n w) (λ r v exact.
          Returns-option (Fits size) Any (bytes_of r) _ _ v (Returns-give_up epipe v) (λ s e.
            Returns-pure (Fits size) _ v
              (record { small = small_of n s short (exact s e); clean = inl refl }))))
  ]

  Returns-recv_sized : (z : ℤ) (w : World) → Returns (Fits size) (recv_sized size z) w
  unfolding recv_sized
  Returns-recv_sized (negsuc n) w = Returns-give_up einval w
  Returns-recv_sized (pos n) w =
      Returns-if (Fits size) (n == 0) _ _ w
        (Returns-pure (Fits size) (no_body 0) w (no_body-Fits size 0)) (Returns-recv_body n w)

  Returns-recv_answered : (h : Header) (w : World) → Returns (Fits size) (recv_answered size h) w
  unfolding recv_answered
  Returns-recv_answered h w =
      Returns-if (Fits size) (h.status == 0) _ _ w (Returns-recv_sized (body_len h) w)
        (Returns-pure (Fits size) (no_body h.status) w (no_body-Fits size h.status))

  -- In every world, whatever calls fail and whatever arrives, `tracker_recv_response` returns. The
  -- body that it puts into the buffer of the caller is no longer than the buffer, and there is none
  -- unless the result is 0.
  pub tracker_recv_response-Fits : (w : World) → Returns (Fits size) (tracker_recv_response size) w
  unfolding tracker_recv_response
  tracker_recv_response-Fits w =
      Returns-bind (Fits size) (OfSize header_size) _ _ w (Returns-tcp_recv header_size w) (λ r v _.
        Returns-option (Fits size) Any (bytes_of r) _ _ v (Returns-give_up epipe v)
          (λ s _. Returns-recv_answered (read_header s) v))
