-- ===== src/Runtime/Returns.antt =====
-- Commands that come to an end of their own in every world, with a value of which something holds.
use demostroage.Prelude.{◌≡◌, refl, Bool, true, false, Option, none, some, if◌then◌else◌}
use demostroage.Runtime.{World, ok, Cmd, pure, case_option, ◌>>=◌}
use demostroage.Runtime.Runs.{Runs, Runs-pure, Runs-bind, Runs-some, Runs-none}

pub record Returns {A : Type 0} (P : A → Type 0) (m : Cmd A) (w : World) : Type 0 where
  pub value : A
  pub world : World
  pub runs : Runs m w (ok value world)
  pub holds : P value

module _ {A : Type 0} (P : A → Type 0) where
  pub Returns-pure : (a : A) (w : World) → P a → Returns P (pure a) w
  Returns-pure a w h = record { value = a; world = w; runs = Runs-pure a w; holds = h }

  pub Returns-if :
      (b : Bool) (m n : Cmd A) (w : World)
      → Returns P m w
      → Returns P n w
      → Returns P (if b then m else n) w
  Returns-if true m n w h k = h
  Returns-if false m n w h k = k

module _ {A B : Type 0} (P : B → Type 0) (Q : A → Type 0) where
  pub Returns-bind :
      (m : Cmd A) (k : A → Cmd B) (w : World)
      → Returns Q m w
      → ((a : A) (v : World) → Q a → Returns P (k a) v)
      → Returns P (m >>= k) w
  Returns-bind m k w r next =
      let s = next r.value r.world r.holds in
      record {
        value = s.value;
        world = s.world;
        runs = Runs-bind m k w r.runs s.runs;
        holds = s.holds;
      }

  pub Returns-option :
      (o : Option A) (m : Cmd B) (k : A → Cmd B) (w : World)
      → Returns P m w
      → ((a : A) → o ≡ some a → Returns P (k a) w)
      → Returns P (case_option o m k) w
  Returns-option none m k w h next = record {
    value = h.value;
    world = h.world;
    runs = Runs-none m k w refl h.runs;
    holds = h.holds;
  }
  Returns-option (some a) m k w h next =
      let s = next a refl in
      record {
        value = s.value;
        world = s.world;
        runs = Runs-some m k w refl s.runs;
        holds = s.holds;
      }
