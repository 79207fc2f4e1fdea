-- ===== src/Service/WellFormed/Runs.antt =====
-- Runs of the service, from its start on.
use go_prod22_go_project.Prelude.{List, [], ◌∷◌}
use go_prod22_go_project.Service.Base.{Ports, Service}
use go_prod22_go_project.Service.Core.{new}
use go_prod22_go_project.Service.Commands.{Command, exec, run}
use go_prod22_go_project.Service.Keeps.{Ends-same}
use go_prod22_go_project.Service.Preserved.Commands.{exec_all-Keeps}
use go_prod22_go_project.Service.WellFormed.{
  WellFormed, IsWellFormed, IsWellFormed-laws, write_release-Keeps, restored-WellFormed,
}

module _ {S : Type 0} (ports : Ports S) where
  pub run-WellFormed :
      (cs : List Command) (s : Service S) → WellFormed s.state → WellFormed (run ports cs s).state
  unfolding run
  run-WellFormed [] s w = w
  run-WellFormed (c ∷ cs) s w = run-WellFormed cs (exec ports c s).1 (
      Ends-same IsWellFormed (exec ports c s)
        ((exec_all-Keeps (IsWellFormed-laws ports) (write_release-Keeps ports) c).at s w))

  -- Over any store whose snapshot is well formed, a service that is started and then given any
  -- commands, failing and panicking ones too, holds each release, device and task under its own id
  -- and none twice.
  pub run-new-WellFormed :
      (st : S) (cs : List Command)
      → WellFormed (ports.store.load st).0.0
      → WellFormed (run ports cs (new ports st)).state
  unfolding new
  run-new-WellFormed st cs w =
      run-WellFormed cs (new ports st)
        (restored-WellFormed (ports.store.load st).0.0 (ports.store.load st).0.1 w)
