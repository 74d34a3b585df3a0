-- ===== src/Runtime/Keeps.antt =====
-- Predicates of the state that a command preserves, however it ends: a rule for each way to
-- build a command. And commands that lead from one predicate to another.
use demostroage.Prelude.{Option, none, some, ℕ, Bool, true, false, if◌then◌else◌}
use demostroage.Runtime.{
  World, Run, ok, stop, crash, out_of_fuel, Cmd, and_then, ◌>>=◌, pure, leave, undefined, caught,
  case_option, block, gets, modify,
}

-- the run has enough fuel, and the state in which it ends satisfies `P`
abbrev pub Ends : {A : Type 0} → (World → Type 0) → Run A → Type 0
Ends P (ok a w) = P w
Ends P (stop s w) = P w
Ends P crash = Unit
Ends P out_of_fuel = ⊥

pub record Keeps {A : Type 0} (P : World → Type 0) (m : Cmd A) : Type 0 where
  pub at : (w : World) → P w → Ends P (m w)

module _ {A : Type 0} (P : World → Type 0) where
  Ends-caught : (other : ℕ → A) (r : Run A) → Ends P r → Ends P (caught other r)
  Ends-caught other (ok a w) h = h
  Ends-caught other (stop s w) h = h
  Ends-caught other crash h = tt
  Ends-caught other out_of_fuel h = h

module _ {P : World → Type 0} where
  pub Keeps-modify : (f : World → World) → ((w : World) → P w → P (f w)) → Keeps P (modify f)
  unfolding modify
  Keeps-modify f h = record { at = h }

module _ {P : World → Type 0} {A : Type 0} where
  pub Keeps-pure : (a : A) → Keeps P (pure a)
  unfolding pure
  Keeps-pure a = record { at = λ w h. h }

  pub Keeps-leave : (s : ℕ) → Keeps P (leave {A = A} s)
  unfolding leave
  Keeps-leave s = record { at = λ w h. h }

  pub Keeps-undefined : Keeps P (undefined {A = A})
  unfolding undefined
  Keeps-undefined = record { at = λ w h. tt }

  pub Keeps-gets : (f : World → A) → Keeps P (gets f)
  unfolding gets
  Keeps-gets f = record { at = λ w h. h }

  pub Keeps-if : (b : Bool) (m n : Cmd A) → Keeps P m → Keeps P n → Keeps P (if b then m else n)
  Keeps-if true m n km kn = km
  Keeps-if false m n km kn = kn

  pub Keeps-block : (other : ℕ → A) (m : Cmd A) → Keeps P m → Keeps P (block other m)
  unfolding block
  Keeps-block other m k = record { at = λ w h. Ends-caught P other (m w) (k.at w h) }

module _ {A B : Type 0} (P : World → Type 0) where
  Ends-and_then :
      (r : Run A) (k : A → Cmd B) → Ends P r → ((a : A) → Keeps P (k a)) → Ends P (and_then r k)
  Ends-and_then (ok a w) k h kk = (kk a).at w h
  Ends-and_then (stop s w) k h kk = h
  Ends-and_then crash k h kk = tt
  Ends-and_then out_of_fuel k h kk = h

module _ {P : World → Type 0} {A B : Type 0} where
  pub Keeps-bind :
      (m : Cmd A) (k : A → Cmd B) → Keeps P m → ((a : A) → Keeps P (k a)) → Keeps P (m >>= k)
  unfolding ◌>>=◌
  Keeps-bind m k km kk = record { at = λ w h. Ends-and_then P (m w) k (km.at w h) kk }

  pub Keeps-case_option :
      (o : Option A) (m : Cmd B) (k : A → Cmd B)
      → Keeps P m
      → ((a : A) → Keeps P (k a))
      → Keeps P (case_option o m k)
  unfolding case_option
  Keeps-case_option none m k km kk = km
  Keeps-case_option (some a) m k km kk = kk a

pub ruleset keeps_rules = (
  Keeps-pure, Keeps-leave, Keeps-undefined, Keeps-gets, Keeps-if, Keeps-block, Keeps-bind,
  Keeps-case_option,
)

-- a command that leads from one predicate to another
pub record Leads {A : Type 0} (P Q : World → Type 0) (m : Cmd A) : Type 0 where
  pub at : (w : World) → P w → Ends Q (m w)

module _ {A : Type 0} {P Q : World → Type 0} where
  pub Ends-map : (r : Run A) → ((w : World) → P w → Q w) → Ends P r → Ends Q r
  Ends-map (ok a w) f h = f w h
  Ends-map (stop s w) f h = f w h
  Ends-map crash f h = tt
  Ends-map out_of_fuel f h = h

module _ {A B : Type 0} {Q R : World → Type 0} where
  Ends-then :
      (r : Run A) (k : A → Cmd B)
      → ((w : World) → Q w → R w)
      → Ends Q r
      → ((a : A) → Leads Q R (k a))
      → Ends R (and_then r k)
  Ends-then (ok a w) k f h kk = (kk a).at w h
  Ends-then (stop s w) k f h kk = f w h
  Ends-then crash k f h kk = tt
  Ends-then out_of_fuel k f h kk = h

module _ {A B : Type 0} {P Q R : World → Type 0} where
  -- one command after another, where a `break` may leave between them
  pub Leads-bind :
      (m : Cmd A) (k : A → Cmd B)
      → ((w : World) → Q w → R w)
      → Leads P Q m
      → ((a : A) → Leads Q R (k a))
      → Leads P R (m >>= k)
  unfolding ◌>>=◌
  Leads-bind m k f km kk = record { at = λ w h. Ends-then (m w) k f (km.at w h) kk }

module _ {A : Type 0} {P Q : World → Type 0} where
  pub Leads-if :
      (b : Bool) (m n : Cmd A) → Leads P Q m → Leads P Q n → Leads P Q (if b then m else n)
  Leads-if true m n km kn = km
  Leads-if false m n km kn = kn

  pub Leads-Keeps : (m : Cmd A) → Keeps P m → ((w : World) → P w → Q w) → Leads P Q m
  Leads-Keeps m k f = record { at = λ w h. Ends-map (m w) f (k.at w h) }
