-- ===== src/Service/Sync/Recovery.antt =====
-- A restart of the service gives back the state that it had.
use go_prod22_go_project.Prelude.{String, Bool, true, false, List, [], ◌∷◌, ◌≡◌, ◌≢◌, refl, ◌∙◌}
use go_prod22_go_project.Events.{Event}
use go_prod22_go_project.Store.{State, empty_state}
use go_prod22_go_project.Service.Base.{Ports, Service}
use go_prod22_go_project.Service.Core.{apply_all, restored, recover, new}
use go_prod22_go_project.Service.Commands.{Command, is_direct, exec, run, NoPanic}
use go_prod22_go_project.Service.Preserved.Commands.{exec-Keeps}
use go_prod22_go_project.Service.WellFormed.{empty-WellFormed}
use go_prod22_go_project.Service.Sync.View.{SameView, SameView-refl}
use go_prod22_go_project.Service.Sync.Replay.{overlaid}
use go_prod22_go_project.Service.Sync.Journal.{Journal}
use go_prod22_go_project.Service.Sync.Laws.{InSync, Ends-Anything, InSync-laws}

abbrev pub nothing : String → Bool
nothing id = false

-- None of the commands is `QueueRollback`.
abbrev pub AllDirect : List Command → Type 0
AllDirect [] = Unit {0}
AllDirect (c ∷ cs) = (is_direct c ≡ true) × AllDirect cs

SameView-trans :
    (a b c : State) → SameView nothing a b → SameView nothing b c → SameView nothing a c
SameView-trans a b c h k = record {
  tasks = λ j. h.tasks j ∙ k.tasks j;
  devices = λ j. h.devices j ∙ k.devices j;
  releases = λ j d. h.releases j d ∙ k.releases j d;
  audit = h.audit ∙ k.audit;
}

module _ {S : Type 0} (ports : Ports S) (journal : Journal ports) where
  pub run-InSync :
      (cs : List Command) (s : Service S)
      → AllDirect cs
      → NoPanic ports cs s
      → InSync journal nothing s
      → InSync journal nothing (run ports cs s)
  unfolding run
  run-InSync [] s d n h = h
  run-InSync (c ∷ cs) s d n h = run-InSync cs (exec ports c s).1 d.1 n.1 (
      Ends-Anything (InSync journal nothing) (exec ports c s) n.0
        ((exec-Keeps (InSync-laws ports journal nothing) c d.0).at s h))

  restored-overlaid : (x : State) (es : List Event) → es ≢ [] → restored x es ≡ overlaid es x
  restored-overlaid x [] n = absurd (n refl)
  restored-overlaid x (e ∷ es) n = refl

  new-InSync :
      (st : S)
      → journal.Good st
      → journal.Readable st
      → journal.log st ≡ []
      → journal.snap st ≡ empty_state
      → InSync journal nothing (new ports st)
  unfolding new recover apply_all
  new-InSync st g r empty fresh =
      let logged = journal.log_load st g r in
      let taken = journal.snap_load st g r in
      let kept = journal.log_kept st g r in
      record {
        good = journal.load_good st g r;
        well = rw (logged, taken, empty, fresh) empty-WellFormed;
        same = rw (kept, logged, taken, empty, fresh) (SameView-refl nothing empty_state);
        recovers =
            rw (kept, journal.snap_kept st g r, empty, fresh) (SameView-refl nothing empty_state);
      }

  -- The state that `Recover` reads back looks like the state of a service in sync.
  recover-SameView :
      (s : Service S)
      → journal.log s.st ≢ []
      → journal.Readable s.st
      → InSync journal nothing s
      → SameView nothing (new ports s.st).state s.state
  unfolding new recover
  recover-SameView s n r h =
      rw
        (
          journal.log_load s.st h.good r,
          journal.snap_load s.st h.good r,
          restored-overlaid (journal.snap s.st) (journal.log s.st) n,
        )
        (SameView-trans _ _ _ h.recovers h.same)

  -- Over a store that keeps its log and is in a good state (its snapshots may fail), a service that
  -- starts on the empty store, readable, and gets any commands but `QueueRollback`, none of which
  -- panics, and of which some logged an event, can be restarted while the store is readable: the new
  -- service has the same releases, devices and tasks under the same ids, and the same audit.
  pub recovery :
      (st : S) (cs : List Command)
      → journal.Good st
      → journal.Readable st
      → journal.log st ≡ []
      → journal.snap st ≡ empty_state
      → AllDirect cs
      → NoPanic ports cs (new ports st)
      → let before = run ports cs (new ports st) in
        journal.log before.st ≢ []
        → journal.Readable before.st
        → SameView nothing (new ports before.st).state before.state
  recovery st cs g r empty fresh d n logged readable =
      recover-SameView (run ports cs (new ports st)) logged readable
        (run-InSync cs (new ports st) d n (new-InSync st g r empty fresh))
