-- ===== src/Service/Keeps.antt =====
-- Invariants of commands: a rule for each way to build a command.
pub mod Laws
pub mod States
use go_prod22_go_project.Prelude.{
  String, Option, none, some, Bool, true, false, not, if◌then◌else◌, List, ◌≡◌, refl, sym, ◌∙◌,
  arith,
}
use go_prod22_go_project.Domain.Errors.{Error, Result, ok, err, panic}
use go_prod22_go_project.Store.{State}
use go_prod22_go_project.Service.Base.{
  Service, Cmd, pure, raise, crash, lift, gets, guard, or_raise, or_crash, ignore, swallow,
  continue, ◌>>=◌,
}

-- `P` holds where the command returned, with or without an error, and `B` where it panicked.
abbrev pub Ends : {S A : Type 0} → (P B : Service S → Type 0) → Result A × Service S → Type 0
Ends P B (ok a, s) = P s
Ends P B (err e, s) = P s
Ends P B (panic, s) = B s

-- What holds after every ending holds of the service that the command leaves.
pub Ends-same :
    {S A : Type 0} (P : Service S → Type 0) (x : Result A × Service S) → Ends P P x → P x.1
Ends-same P (ok a, s) h = h
Ends-same P (err e, s) h = h
Ends-same P (panic, s) h = h

pub record Keeps {S A : Type 0} (P B : Service S → Type 0) (m : Cmd S A) : Type 0 where
  pub at : (s : Service S) → P s → Ends P B (m s)

module _ {S A : Type 0} {P B : Service S → Type 0} where
  pub Keeps-pure : (a : A) → Keeps P B (pure a)
  unfolding pure
  Keeps-pure a = record { at = λ s h. h }

  pub Keeps-raise : (e : Error) → Keeps P B (raise {A = A} e)
  unfolding raise
  Keeps-raise e = record { at = λ s h. h }

  pub Keeps-gets : (f : State → A) → Keeps P B (gets f)
  unfolding gets
  Keeps-gets f = record { at = λ s h. h }

  pub Keeps-or_raise : (o : Option A) (e : Error) → Keeps P B (or_raise o e)
  unfolding or_raise
  Keeps-or_raise none e = record { at = λ s h. h }
  Keeps-or_raise (some a) e = record { at = λ s h. h }

  pub Keeps-if :
      (b : Bool) (m n : Cmd S A) → Keeps P B m → Keeps P B n → Keeps P B (if b then m else n)
  Keeps-if true m n km kn = km
  Keeps-if false m n km kn = kn

Ends-swallow :
    {S : Type 0} (P B : Service S → Type 0) (x : Result (Unit {0}) × Service S)
    → Ends P B x
    → Ends P B (swallow x.0, x.1)
Ends-swallow P B (ok a, t) h = h
Ends-swallow P B (err e, t) h = h
Ends-swallow P B (panic, t) h = h

module _ {S : Type 0} {P B : Service S → Type 0} where
  pub Keeps-guard : (b : Bool) (e : Error) → Keeps P B (guard b e)
  unfolding guard
  Keeps-guard true e = record { at = λ s h. h }
  Keeps-guard false e = record { at = λ s h. h }

  pub Keeps-ignore : (m : Cmd S (Unit {0})) → Keeps P B m → Keeps P B (ignore m)
  unfolding ignore
  Keeps-ignore m km = record { at = λ s h. Ends-swallow P B (m s) (km.at s h) }

module _ {S A C : Type 0} {P B : Service S → Type 0} where
  Ends-continue :
      (x : Result A × Service S) (f : A → Cmd S C)
      → Ends P B x
      → ((a : A) → Keeps P B (f a))
      → Ends P B (continue x.0 f x.1)
  Ends-continue (ok a, s) f h kf = (kf a).at s h
  Ends-continue (err e, s) f h kf = h
  Ends-continue (panic, s) f h kf = h

  pub Keeps-bind :
      (m : Cmd S A) (f : A → Cmd S C)
      → Keeps P B m
      → ((a : A) → Keeps P B (f a))
      → Keeps P B (m >>= f)
  unfolding ◌>>=◌
  Keeps-bind m f km kf = record { at = λ s h. Ends-continue (m s) f (km.at s h) kf }

  -- The rest of the block may use that the pure step returned `a`.
  pub Keeps-lift_bind :
      (r : Result A) (f : A → Cmd S C)
      → ((s : Service S) → P s → B s)
      → ((a : A) → r ≡ ok a → Keeps P B (f a))
      → Keeps P B (lift r >>= f)
  unfolding ◌>>=◌
  Keeps-lift_bind (ok a) f broken kf = record { at = λ s h. (kf a refl).at s h }
  Keeps-lift_bind (err e) f broken kf = record { at = λ s h. h }
  Keeps-lift_bind panic f broken kf = record { at = λ s h. broken s h }

pub ruleset keeps_rules = (
  Keeps-pure, Keeps-raise, Keeps-gets, Keeps-or_raise, Keeps-if, Keeps-guard, Keeps-bind,
  Keeps-ignore,
)
