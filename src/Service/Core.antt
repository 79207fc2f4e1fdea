-- ===== src/Service/Core.antt =====
-- Events, recovery and the progress of a release (internal/service/service.go).
use go_prod22_go_project.Prelude.{
  ℕ, String, Option, none, some, Bool, true, false, ◌==◌, ◌&&◌, if◌then◌else◌, List, [], ◌∷◌, ◌++◌,
  length, count, last?, pos, ltb_ℤ, eqb, string_eq, int_eq,
}
use go_prod22_go_project.Prelude.Map.{insert, values}
use go_prod22_go_project.Domain.Status.{TaskStatus, ReleaseStatus, task_status_eq}
use go_prod22_go_project.Domain.Model.{Release, Device, Task, Time}
use go_prod22_go_project.Events.{Event, Payload, release_data, device_data, task_data}
use go_prod22_go_project.Store.{State, empty_state}
use go_prod22_go_project.Service.Base.{
  Ports, Service, Cmd, pure, ◌>>=◌, ◌>>◌, modify, ignore, or_crash, gets, get_release, write_task,
  write_release, write_device, clock_now, new_id, append, snapshot,
}

-- `json.Unmarshal` of an event's data.
abbrev pub put_release : Payload → State → State
put_release (release_data r) st = record st { releases = insert r.id r st.releases }
put_release _ st = st

abbrev pub put_device : Payload → State → State
put_device (device_data d) st = record st { devices = insert d.id d st.devices }
put_device _ st = st

abbrev pub put_task : Payload → State → State
put_task (task_data t) st = record st { tasks = insert t.id t st.tasks }
put_task _ st = st

abbrev is_repeated : Option Event → Event → Bool
is_repeated none e = false
is_repeated (some last) e = last.id == e.id

unfoldable pub record_audit : Event → List Event → List Event
record_audit e audit = if is_repeated (last? audit) e then audit else audit ++ e ∷ []

-- The `switch` of `apply`.
unfoldable pub project : Event → State → State
project e st =
    if e.type == "release.created"
    then put_release e.payload st
    else if e.type == "device.registered"
    then put_device e.payload st
    else if e.type == "task.created"
    then put_task e.payload st
    else if e.type == "task.updated"
    then put_task e.payload st
    else if e.type == "release.updated"
    then put_release e.payload st
    else st

if_cases : (P : State → Type 0) (b : Bool) (x y : State) → P x → P y → P (if b then x else y)
if_cases P true x y px py = px
if_cases P false x y px py = py

-- To show something of a projection, show it of each write and of no write.
pub project_cases :
    (P : State → Type 0) (e : Event) (st : State)
    → P (put_release e.payload st)
    → P (put_device e.payload st)
    → P (put_task e.payload st)
    → P st
    → P (project e st)
unfolding project
project_cases P e st releases devices tasks same =
    if_cases P (e.type == "release.created") _ _ releases (
      if_cases P (e.type == "device.registered") _ _ devices (
        if_cases P (e.type == "task.created") _ _ tasks (
          if_cases P (e.type == "task.updated") _ _ tasks
            (if_cases P (e.type == "release.updated") _ _ releases same))))

unfoldable pub apply : Event → State → State
apply e st = project e (record st { audit = record_audit e st.audit })

unfoldable pub apply_all : List Event → State → State
apply_all [] st = st
apply_all (e ∷ es) st = apply_all es (apply e st)

-- The log is replayed over the snapshot; the audit is then rebuilt from the log.
abbrev pub restored : State → List Event → State
restored st [] = st
restored st (e ∷ es) = apply_all (e ∷ es) (record st { audit = [] })

abbrev pub tasks_in : String → TaskStatus → List Task → ℕ
tasks_in id status = count (λ t. t.release_id == id && t.status == status)

abbrev pub settled : Release → ℕ → ℕ → ReleaseStatus
settled r done fail =
    let status = if eqb done (length r.devices) then ReleaseStatus.completed else r.status in
    if ltb_ℤ r.rollback.max_failures (pos fail) && r.rollback.auto
    then ReleaseStatus.rollback_pending
    else status

abbrev pub reconciled : Release → ℕ → ℕ → Time → Release
reconciled r done fail now = record r {
  completed = pos done;
  failed = pos fail;
  updated_at = now;
  status = settled r done fail;
}

module _ {S : Type 0} (ports : Ports S) where
  unfoldable pub recover : Service S → Service S
  recover s =
      let ((st, events, _), store) = ports.store.load s.st in
      record s { st = store; state = restored st events }

  unfoldable pub new : S → Service S
  unfolding recover
  new st = recover (record { st = st; reads = 0; issued = 0; state = empty_state })

  unfoldable pub emit : String → String → Payload → Cmd S (Unit {0})
  emit type aggregate payload = do
    id ← new_id ports "evt"
    at ← clock_now ports
    let e : Event = record {
      id = id;
      type = type;
      aggregate = aggregate;
      payload = payload;
      at = at;
    }
    append ports e
    modify (apply e)
    snapshot ports

  -- The writes through a task's pointer, how the method that made them ended, and the event.
  unfoldable pub commit_task : String → String → Task × Option Bool → Cmd S (Unit {0})
  commit_task key aggregate (t, result) = do
    write_task key t
    or_crash result
    emit "task.updated" aggregate (task_data t)

  unfoldable pub save_task : String → String → Task → Cmd S (Unit {0})
  unfolding commit_task
  save_task key aggregate t = commit_task key aggregate (t, some true)

  unfoldable pub save_release : String → String → Release → Cmd S (Unit {0})
  save_release key aggregate r = do
    write_release key r
    emit "release.updated" aggregate (release_data r)

  unfoldable pub save_device : String → String → Device → Cmd S (Unit {0})
  save_device key aggregate d = do
    write_device key d
    emit "device.registered" aggregate (device_data d)

  unfoldable pub reconcile_found : String → Option Release → Cmd S (Unit {0})
  reconcile_found id none = pure tt
  reconcile_found id (some r) = do
    tasks ← gets (λ st. values st.tasks)
    now ← clock_now ports
    let r' =
        reconciled r (tasks_in id TaskStatus.completed tasks) (tasks_in id TaskStatus.failed tasks)
          now
    ignore (save_release id r.id r')

  unfoldable pub reconcile : String → Cmd S (Unit {0})
  reconcile id = do found ← get_release id; reconcile_found id found
