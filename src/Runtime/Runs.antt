-- ===== src/Runtime/Runs.antt =====
-- How a run goes on, step by step.
use demostroage.Prelude.{
  Option, none, some, ℕ, ◌≡◌, refl, ap, ◌∙◌, Bool, true, false, if◌then◌else◌,
}
use demostroage.Runtime.{
  World, Run, ok, stop, crash, Cmd, and_then, caught, block, gets, modify, pure, leave, undefined,
  case_option, ◌>>=◌,
}

module _ {A B : Type 0} where
  pub bind-ok :
      (m : Cmd A) (k : A → Cmd B) (w : World) {v : World} {a : A}
      → m w ≡ ok a v
      → (m >>= k) w ≡ k a v
  unfolding ◌>>=◌
  bind-ok m k w h = ap (λ r. and_then r k) h

  pub bind-stop :
      (m : Cmd A) (k : A → Cmd B) (w : World) {v : World} {s : ℕ}
      → m w ≡ stop s v
      → (m >>= k) w ≡ stop s v
  unfolding ◌>>=◌
  bind-stop m k w h = ap (λ r. and_then r k) h

  pub bind-gets : (f : World → A) (k : A → Cmd B) (w : World) → (gets f >>= k) w ≡ k (f w) w
  unfolding ◌>>=◌
  bind-gets f k w = refl

  pub bind-pure : (a : A) (k : A → Cmd B) (w : World) → (pure a >>= k) w ≡ k a w
  unfolding ◌>>=◌
  bind-pure a k w = refl

module _ {A : Type 0} where
  pub block-ok :
      (other : ℕ → A) (m : Cmd A) (w : World) {v : World} {a : A}
      → m w ≡ ok a v
      → block other m w ≡ ok a v
  unfolding ◌>>=◌
  block-ok other m w h = ap (caught other) h

  pub block-stop :
      (other : ℕ → A) (m : Cmd A) (w : World) {v : World} {s : ℕ}
      → m w ≡ stop s v
      → block other m w ≡ ok (other s) v
  unfolding ◌>>=◌
  block-stop other m w h = ap (caught other) h

  pub pure-ok : (a : A) (w : World) → pure a w ≡ ok a w
  unfolding ◌>>=◌
  pure-ok a w = refl

  pub if-true : {b : Bool} (m n : A) → b ≡ true → (if b then m else n) ≡ m
  if-true m n h = rw h

  pub if-false : {b : Bool} (m n : A) → b ≡ false → (if b then m else n) ≡ n
  if-false m n h = rw h

-- a command run in a world, as a relation that is derived step by step
pub record Runs {A : Type 0} (m : Cmd A) (w : World) (r : Run A) : Type 0 where
  pub same : m w ≡ r

module _ {A : Type 0} where
  pub Runs-pure : (a : A) (w : World) → Runs (pure a) w (ok a w)
  unfolding ◌>>=◌
  Runs-pure a w = record { same = refl }

  pub Runs-gets : (f : World → A) (w : World) → Runs (gets f) w (ok (f w) w)
  unfolding ◌>>=◌
  Runs-gets f w = record { same = refl }

  pub Runs-leave : (s : ℕ) (w : World) → Runs (leave {A = A} s) w (stop s w)
  unfolding ◌>>=◌
  Runs-leave s w = record { same = refl }

  pub Runs-undefined : (w : World) → Runs (undefined {A = A}) w crash
  unfolding ◌>>=◌
  Runs-undefined w = record { same = refl }

  pub Runs-block :
      (other : ℕ → A) (m : Cmd A) (w : World) {a : A} {v : World}
      → Runs m w (ok a v)
      → Runs (block other m) w (ok a v)
  Runs-block other m w h = record { same = block-ok other m w h.same }

  pub Runs-block_break :
      (other : ℕ → A) (m : Cmd A) (w : World) {s : ℕ} {v : World}
      → Runs m w (stop s v)
      → Runs (block other m) w (ok (other s) v)
  Runs-block_break other m w h = record { same = block-stop other m w h.same }

  pub Runs-if_true :
      {b : Bool} (m n : Cmd A) (w : World) {r : Run A}
      → b ≡ true
      → Runs m w r
      → Runs (if b then m else n) w r
  Runs-if_true m n w h k = rw h k

  pub Runs-if_false :
      {b : Bool} (m n : Cmd A) (w : World) {r : Run A}
      → b ≡ false
      → Runs n w r
      → Runs (if b then m else n) w r
  Runs-if_false m n w h k = rw h k

pub Runs-modify : (f : World → World) (w : World) → Runs (modify f) w (ok tt (f w))
unfolding ◌>>=◌
Runs-modify f w = record { same = refl }

module _ {A B : Type 0} where
  pub Runs-bind :
      (m : Cmd A) (k : A → Cmd B) (w : World) {a : A} {v : World} {r : Run B}
      → Runs m w (ok a v)
      → Runs (k a) v r
      → Runs (m >>= k) w r
  Runs-bind m k w h rest = record { same = bind-ok m k w h.same ∙ rest.same }

  -- a command that does not come to an end of its own ends the whole
  pub Runs-break :
      (m : Cmd A) (k : A → Cmd B) (w : World) {s : ℕ} {v : World}
      → Runs m w (stop s v)
      → Runs (m >>= k) w (stop s v)
  Runs-break m k w h = record { same = bind-stop m k w h.same }

  pub Runs-crash : (m : Cmd A) (k : A → Cmd B) (w : World) → Runs m w crash → Runs (m >>= k) w crash
  unfolding ◌>>=◌
  Runs-crash m k w h = record { same = ap (λ r. and_then r k) h.same }

module _ {A B : Type 0} where
  pub Runs-some :
      {o : Option A} (m : Cmd B) (k : A → Cmd B) (w : World) {a : A} {r : Run B}
      → o ≡ some a
      → Runs (k a) w r
      → Runs (case_option o m k) w r
  unfolding ◌>>=◌
  Runs-some m k w h rest = rw h rest

  pub Runs-none :
      {o : Option A} (m : Cmd B) (k : A → Cmd B) (w : World) {r : Run B}
      → o ≡ none
      → Runs m w r
      → Runs (case_option o m k) w r
  unfolding ◌>>=◌
  Runs-none m k w h rest = rw h rest

module _ {A : Type 0} where
  pub Runs-block_crash :
      (other : ℕ → A) (m : Cmd A) (w : World) → Runs m w crash → Runs (block other m) w crash
  unfolding ◌>>=◌
  Runs-block_crash other m w h = record { same = ap (caught other) h.same }
