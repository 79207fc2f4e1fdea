-- ===== src/Service/Base.antt =====
-- A service method reads and writes the service and may return an error or panic. What it wrote
-- before that stays written, so the service comes back beside every result.
use go_prod22_go_project.Prelude.{ℕ, suc, String, Option, none, some, Bool, true, false}
use go_prod22_go_project.Prelude.Map.{lookup, replace}
use go_prod22_go_project.Domain.Model.{Release, Device, Task, Time}
use go_prod22_go_project.Domain.Errors.{Error, Result, ok, err, panic}
use go_prod22_go_project.Events.{Event}
use go_prod22_go_project.Store.{State, StoreOps}

-- What the service is given (internal/ports): the store, the clock's readings, and the ids that the
-- generator gives out, each in the order of the calls.
pub record Ports (S : Type 0) : Type 0 where
  pub store : StoreOps S
  pub clock : ℕ → Time
  pub ids : String → ℕ → String

pub record Service (S : Type 0) : Type 0 where
  pub st : S
  pub reads : ℕ
  pub issued : ℕ
  pub state : State

abbrev pub Cmd : Type 0 → Type 0 → Type 0
Cmd S A = Service S → Result A × Service S

abbrev pub swallow : Result (Unit {0}) → Result (Unit {0})
swallow (ok a) = ok tt
swallow (err e) = ok tt
swallow panic = panic

module _ {S A : Type 0} where
  unfoldable pub pure : A → Cmd S A
  pure a s = (ok a, s)

  unfoldable pub raise : Error → Cmd S A
  raise e s = (err e, s)

  unfoldable pub crash : Cmd S A
  crash s = (panic, s)

  unfoldable pub lift : Result A → Cmd S A
  lift r s = (r, s)

  unfoldable pub gets : (State → A) → Cmd S A
  gets f s = (ok (f s.state), s)

  -- A nil pointer or a missing key, with the error that the source returns for it.
  unfoldable pub or_raise : Option A → Error → Cmd S A
  or_raise none e s = (err e, s)
  or_raise (some a) e s = (ok a, s)

  -- The dereference of a pointer that may be nil.
  unfoldable pub or_crash : Option A → Cmd S A
  or_crash none s = (panic, s)
  or_crash (some a) s = (ok a, s)

module _ {S : Type 0} where
  unfoldable pub guard : Bool → Error → Cmd S (Unit {0})
  guard true e s = (ok tt, s)
  guard false e s = (err e, s)

  unfoldable pub modify : (State → State) → Cmd S (Unit {0})
  modify f s = (ok tt, record s { state = f s.state })

  -- A call whose error the source drops.
  unfoldable pub ignore : Cmd S (Unit {0}) → Cmd S (Unit {0})
  ignore m s = let (r, s') = m s in (swallow r, s')

  -- `t.Field = …` through the pointer that the map holds at a key.
  unfoldable pub write_task : String → Task → Cmd S (Unit {0})
  unfolding modify
  write_task key t = modify (λ st. record st { tasks = replace key t st.tasks })

  unfoldable pub write_release : String → Release → Cmd S (Unit {0})
  unfolding modify
  write_release key r = modify (λ st. record st { releases = replace key r st.releases })

  unfoldable pub write_device : String → Device → Cmd S (Unit {0})
  unfolding modify
  write_device key d = modify (λ st. record st { devices = replace key d st.devices })

  unfoldable pub get_task : String → Cmd S (Option Task)
  unfolding gets
  get_task id = gets (λ st. lookup id st.tasks)

  unfoldable pub get_release : String → Cmd S (Option Release)
  unfolding gets
  get_release id = gets (λ st. lookup id st.releases)

  unfoldable pub get_device : String → Cmd S (Option Device)
  unfolding gets
  get_device id = gets (λ st. lookup id st.devices)

module _ {S A B : Type 0} where
  abbrev pub continue : Result A → (A → Cmd S B) → Cmd S B
  continue (ok a) f s = f a s
  continue (err e) f s = (err e, s)
  continue panic f s = (panic, s)

  infixl 10 ◌>>=◌ ◌>>◌
  unfoldable pub ◌>>=◌ : Cmd S A → (A → Cmd S B) → Cmd S B
  unfolding pure raise crash lift gets or_raise or_crash guard modify
  ◌>>=◌ m f s = let (r, s') = m s in continue r f s'

  abbrev pub ◌>>◌ : Cmd S A → Cmd S B → Cmd S B
  m >> n = m >>= λ _. n

module _ {S : Type 0} where
  -- A look-up that returns an error where the key is missing.
  unfoldable pub find_task : String → Error → Cmd S Task
  unfolding ◌>>=◌ get_task
  find_task id e = do found ← get_task id; or_raise found e

  unfoldable pub find_release : String → Error → Cmd S Release
  unfolding ◌>>=◌ get_release
  find_release id e = do found ← get_release id; or_raise found e

  unfoldable pub find_device : String → Error → Cmd S Device
  unfolding ◌>>=◌ get_device
  find_device id e = do found ← get_device id; or_raise found e

  -- A look-up whose result is dereferenced without a test.
  unfoldable pub deref_release : String → Cmd S Release
  unfolding ◌>>=◌ get_release
  deref_release id = do found ← get_release id; or_crash found

module _ {S : Type 0} (ports : Ports S) where
  open ports use {store, clock, ids}

  unfoldable pub clock_now : Cmd S Time
  clock_now s = (ok (clock s.reads), record s { reads = suc s.reads })

  unfoldable pub new_id : String → Cmd S String
  new_id prefix s = (ok (ids prefix s.issued), record s { issued = suc s.issued })

  abbrev finish : Option Error × S → Service S → Result (Unit {0}) × Service S
  finish (none, st) s = (ok tt, record s { st = st })
  finish (some e, st) s = (err e, record s { st = st })

  unfoldable pub append : Event → Cmd S (Unit {0})
  append e s = finish (store.append e s.st) s

  unfoldable pub snapshot : Cmd S (Unit {0})
  snapshot s = finish (store.snapshot s.state s.st) s
