-- ===== src/Scenarios/Stores.antt =====
-- The theorems on the durable store, at a store in a directory.
use Prim.Native.String.{◌++◌ as join}
use go_prod22_go_project.Prelude.{
  ℕ, ◌+◌, String, none, true, false, pos, ◌≡◌, ◌≢◌, refl, ap, Bool, List, [], ◌∷◌, arith, int64,
  ◌+ℤ◌, ◌-ℤ◌,
}
use go_prod22_go_project.Prelude.Map.{lookup, replace, insert, erase}
use go_prod22_go_project.Store.Disk
use go_prod22_go_project.Store.Disk.{
  open_append, write, create_temp, rename, remove, truncate, stat, read_file, now, Disk, Os,
}
use go_prod22_go_project.Scheduler.{active}
use go_prod22_go_project.Domain.Task.{lease, verify_lease}
use go_prod22_go_project.Domain.State.{valid_transition}
use go_prod22_go_project.Domain.Release
use go_prod22_go_project.Domain.Task
use go_prod22_go_project.Domain.Release.{terminal, valid_release_transition}
use go_prod22_go_project.Service.Base.{
  find_release, find_task, find_device, get_device, get_release, get_task, gets, ignore, lift,
  modify, or_crash, or_raise, write_release, write_task, guard, clock_now, new_id, pure, ◌>>=◌,
  append, snapshot, Ports,
}
use go_prod22_go_project.Service.Core.{
  commit_task, reconcile, reconcile_found, save_release, save_task, emit, apply_all, apply, project,
  record_audit, recover, new,
}
use go_prod22_go_project.Service.Releases.{create_release, create_tasks}
use go_prod22_go_project.Service.Dispatch.{
  claim, claim_locked, eligible_tasks, claim_with_ttl, decide_release, dispatch_decision,
  enter_preflight, is_eligible, list_tasks,
}
use go_prod22_go_project.Service.Sync.View.{SameView}
use go_prod22_go_project.Service.Sync.Recovery.{nothing}
use go_prod22_go_project.Store.Durable.Load.{Readable}
use go_prod22_go_project.Store.Lines.{scan, drop_return, lines}
use go_prod22_go_project.Store.Durable
use go_prod22_go_project.Store.Durable.{
  decode, durable_store, load_report, read_records, truncate_from, sync_dir, fill, replace_snapshot,
  DurableStore,
}
use go_prod22_go_project.Store.Durable.Log.{logged, decoded}
use go_prod22_go_project.Service.Commands.{exec, Command, run, NoPanic}
use go_prod22_go_project.Service.Devices.{register_device}
use go_prod22_go_project.Scenarios.Codes.{number, pair, through, list, put_items, get_items}
use go_prod22_go_project.Scenarios.Codes.Types.{integer, boolean, text, task_status, release_status}
use go_prod22_go_project.Scenarios.Codes.Values
use go_prod22_go_project.Scenarios.Codes.Values.{
  event, payload, release, device, task, rollback, state, json_of, json_of-IsJson, envelope,
}
use go_prod22_go_project.Prelude.Text.{trim_space, str_ltb}
use go_prod22_go_project.Domain.Model.{Time, minute}
use go_prod22_go_project.Events.{Event}
use go_prod22_go_project.Store.Durable.Healthy.{Healthy}
use go_prod22_go_project.Service.Commands
use go_prod22_go_project.Service.Sync.Durable.{durable_ports, Works, durable_recovery}
use go_prod22_go_project.Scenarios.{marks, policy}

abbrev pub sound_os : Os
sound_os = record {
  faults = λ n. none;
  random = λ n. marks n;
  time = λ n. pos (500 + n);
  windows = false;
}

abbrev pub store_at : DurableStore
store_at = record {
  dir = "data";
  version = pos 1;
  truncate_corrupt = true;
  os = sound_os;
  records = json_of envelope;
  snapshots = json_of Values.snapshot;
}

abbrev clock : ℕ → Time
clock n = pos (1000 + n)

abbrev ids : String → ℕ → String
ids prefix n = String.◌∷◌ "#" (join prefix (marks n))

pub store_at-Healthy : Healthy store_at
unfolding trim_space
store_at-Healthy = record { named = refl; faultless = λ n. refl }

store_at-Works : Works store_at clock ids
unfolding json_of
store_at-Works = record {
  healthy = store_at-Healthy;
  records = json_of-IsJson envelope;
  snapshots = json_of-IsJson Values.snapshot;
  ids_named = λ n h. cc;
  clock_set = λ m. ground arith;
  encodes = λ n m type aggregate v. (_, refl);
}

abbrev commands : List Command
commands =
    Commands.create_release "2.0.0" ("left" ∷ []) (pos 1) (pos 1) (pos 1) policy
    ∷ Commands.register_device "left" "1.0.0" []
    ∷ Commands.claim "left" "agent" minute
    ∷ []

abbrev file_ports : Ports Disk
file_ports = durable_ports store_at clock ids

abbrev empty_disk : Disk
empty_disk = record { files = []; calls = 0 }

abbrev stored : Disk
stored = (run file_ports commands (new file_ports empty_disk)).st

abbrev some_events : List Event → Bool
some_events [] = false
some_events (e ∷ es) = true

stored_has_events : some_events (logged store_at stored) ≡ true
unfolding run exec register_device guard clock_now new_id emit pure ◌>>=◌ apply_all apply project
    claim_locked eligible_tasks find_release terminal Release.transition valid_release_transition
    valid_transition lease Task.transition verify_lease int64 ◌+ℤ◌ ◌-ℤ◌ replace str_ltb active
    find_task find_device get_device get_release get_task gets ignore lift modify or_crash or_raise
    write_release write_task commit_task reconcile reconcile_found save_release save_task claim
    claim_with_ttl decide_release dispatch_decision enter_preflight is_eligible list_tasks
    create_release create_tasks record_audit insert lookup erase append snapshot recover new
    durable_store Durable.append Durable.snapshot load_report Durable.ensure read_records
    truncate_from sync_dir fill replace_snapshot decode Disk.pure Disk.lift Disk.or_raise
    Disk.attempt Disk.finally Disk.guard Disk.◌>>=◌ Disk.call Disk.plain open_append write
    create_temp rename remove truncate stat read_file now scan drop_return lines logged decoded
    trim_space json_of envelope Values.snapshot event payload release device task rollback state
    list number pair through put_items get_items integer boolean text task_status release_status
stored_has_events = refl

stored_nonempty : logged store_at stored ≢ []
stored_nonempty h = cc (ap some_events h, stored_has_events)

stored-NoPanic : NoPanic file_ports commands (new file_ports empty_disk)
unfolding run exec register_device guard clock_now new_id emit pure ◌>>=◌ apply_all apply project
    claim_locked eligible_tasks find_release terminal Release.transition valid_release_transition
    valid_transition lease Task.transition verify_lease int64 ◌+ℤ◌ ◌-ℤ◌ replace str_ltb active
    find_task find_device get_device get_release get_task gets ignore lift modify or_crash or_raise
    write_release write_task commit_task reconcile reconcile_found save_release save_task claim
    claim_with_ttl decide_release dispatch_decision enter_preflight is_eligible list_tasks
    create_release create_tasks record_audit insert lookup erase append snapshot recover new
    durable_store Durable.append Durable.snapshot load_report Durable.ensure read_records
    truncate_from sync_dir fill replace_snapshot decode Disk.pure Disk.lift Disk.or_raise
    Disk.attempt Disk.finally Disk.guard Disk.◌>>=◌ Disk.call Disk.plain open_append write
    create_temp rename remove truncate stat read_file now scan drop_return lines logged decoded
    trim_space json_of envelope Values.snapshot event payload release device task rollback state
    list number pair through put_items get_items integer boolean text task_status release_status
stored-NoPanic = ((λ e. cc), ((λ e. cc), ((λ e. cc), tt)))

stored-Readable : Readable stored
unfolding run exec register_device guard clock_now new_id emit pure ◌>>=◌ apply_all apply project
    claim_locked eligible_tasks find_release terminal Release.transition valid_release_transition
    valid_transition lease Task.transition verify_lease int64 ◌+ℤ◌ ◌-ℤ◌ replace str_ltb active
    find_task find_device get_device get_release get_task gets ignore lift modify or_crash or_raise
    write_release write_task commit_task reconcile reconcile_found save_release save_task claim
    claim_with_ttl decide_release dispatch_decision enter_preflight is_eligible list_tasks
    create_release create_tasks record_audit insert lookup erase append snapshot recover new
    durable_store Durable.append Durable.snapshot load_report Durable.ensure read_records
    truncate_from sync_dir fill replace_snapshot decode Disk.pure Disk.lift Disk.or_raise
    Disk.attempt Disk.finally Disk.guard Disk.◌>>=◌ Disk.call Disk.plain open_append write
    create_temp rename remove truncate stat read_file now scan drop_return lines logged decoded
    trim_space json_of envelope Values.snapshot event payload release device task rollback state
    list number pair through put_items get_items integer boolean text task_status release_status
stored-Readable = (omega arith, (omega arith, (omega arith, (omega arith, (omega arith, tt)))))

durable_recovery_example :
    SameView nothing
      (new file_ports stored).state
      (run file_ports commands (new file_ports empty_disk)).state
durable_recovery_example =
    durable_recovery store_at clock ids store_at-Works 0 commands (refl, (refl, (refl, tt)))
      stored-NoPanic stored_nonempty stored-Readable
