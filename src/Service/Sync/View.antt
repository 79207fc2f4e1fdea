-- ===== src/Service/Sync/View.antt =====
-- States that look alike: the same records under the same ids, whatever the order of the maps.
use go_prod22_go_project.Prelude.{
  String, Bool, true, false, ◌≡◌, refl, ap, ◌==◌, if◌then◌else◌, arith, string_eq,
}
use go_prod22_go_project.Prelude.Map.{
  Map, lookup, insert, replace, lookup-insert, lookup-replace_ne,
}
use go_prod22_go_project.Events.{Event, Payload, release_data, device_data, task_data}
use go_prod22_go_project.Store.{State}
use go_prod22_go_project.Service.Core.{
  apply, project, record_audit, put_release, put_device, put_task,
}

abbrev pub SameMap : {V : Type 0} → Map V → Map V → Type 0
SameMap m n = (k : String) → lookup k m ≡ lookup k n

-- Alike, but for releases whose ids are marked.
pub record SameView (dirty : String → Bool) (a b : State) : Type 0 where
  pub tasks : SameMap a.tasks b.tasks
  pub devices : SameMap a.devices b.devices
  pub releases : (k : String) → dirty k ≡ false → lookup k a.releases ≡ lookup k b.releases
  pub audit : a.audit ≡ b.audit

module _ {V : Type 0} where
  insert-SameMap :
      (k : String) (v : V) (m n : Map V) → SameMap m n → SameMap (insert k v m) (insert k v n)
  insert-SameMap k v m n h j = rw (lookup-insert k j v m, lookup-insert k j v n, h j) refl

  pub insert-lookup :
      (k : String) (v : V) (m n : Map V) (j : String)
      → ((k == j) ≡ false → lookup j m ≡ lookup j n)
      → lookup j (insert k v m) ≡ lookup j (insert k v n)
  insert-lookup k v m n j h = ground (arith, lookup-insert k j v m, lookup-insert k j v n)

  -- A write through the pointer is not seen behind a write of the whole record.
  pub insert-replace-lookup :
      (k : String) (v w : V) (m n : Map V) (j : String)
      → ((k == j) ≡ false → lookup j m ≡ lookup j n)
      → lookup j (insert k v m) ≡ lookup j (insert k v (replace k w n))
  insert-replace-lookup k v w m n j h =
      ground (
        arith,
        lookup-insert k j v m,
        lookup-insert k j v (replace k w n),
        lookup-replace_ne k j w n,
      )

module _ (dirty : String → Bool) where
  pub SameView-refl : (a : State) → SameView dirty a a
  SameView-refl a = record {
    tasks = λ k. refl;
    devices = λ k. refl;
    releases = λ k d. refl;
    audit = refl;
  }

  put_task-SameView :
      (v : Payload) (a b : State)
      → SameView dirty a b
      → SameView dirty (put_task v a) (put_task v b)
  put_task-SameView (task_data t) a b h = record {
    tasks = insert-SameMap t.id t a.tasks b.tasks h.tasks;
    devices = h.devices;
    releases = h.releases;
    audit = h.audit;
  }
  put_task-SameView _ a b h = h

  put_device-SameView :
      (v : Payload) (a b : State)
      → SameView dirty a b
      → SameView dirty (put_device v a) (put_device v b)
  put_device-SameView (device_data d) a b h = record {
    tasks = h.tasks;
    devices = insert-SameMap d.id d a.devices b.devices h.devices;
    releases = h.releases;
    audit = h.audit;
  }
  put_device-SameView _ a b h = h

  put_release-SameView :
      (v : Payload) (a b : State)
      → SameView dirty a b
      → SameView dirty (put_release v a) (put_release v b)
  put_release-SameView (release_data r) a b h = record {
    tasks = h.tasks;
    devices = h.devices;
    releases = λ k d.
        rw (lookup-insert r.id k r a.releases, lookup-insert r.id k r b.releases, h.releases k d)
          refl;
    audit = h.audit;
  }
  put_release-SameView _ a b h = h

  if-SameView :
      (c : Bool) (a b a' b' : State)
      → SameView dirty a b
      → SameView dirty a' b'
      → SameView dirty (if c then a else a') (if c then b else b')
  if-SameView true a b a' b' h h' = h
  if-SameView false a b a' b' h h' = h'

  project-SameView :
      (e : Event) (a b : State) → SameView dirty a b → SameView dirty (project e a) (project e b)
  unfolding project
  project-SameView e a b h =
      let releases = put_release-SameView e.payload a b h in
      let tasks = put_task-SameView e.payload a b h in
      if-SameView (e.type == "release.created") _ _ _ _ releases (
        if-SameView (e.type == "device.registered") _ _ _ _ (put_device-SameView e.payload a b h) (
          if-SameView (e.type == "task.created") _ _ _ _ tasks (
            if-SameView (e.type == "task.updated") _ _ _ _ tasks
              (if-SameView (e.type == "release.updated") _ _ _ _ releases h))))

  audit-SameView :
      (e : Event) (a b : State)
      → SameView dirty a b
      → SameView dirty
          (record a { audit = record_audit e a.audit })
          (record b { audit = record_audit e b.audit })
  audit-SameView e a b h = record {
    tasks = h.tasks;
    devices = h.devices;
    releases = h.releases;
    audit = ap (record_audit e) h.audit;
  }

  -- An event has the same effect on states that look alike.
  pub apply-SameView :
      (e : Event) (a b : State) → SameView dirty a b → SameView dirty (apply e a) (apply e b)
  unfolding apply
  apply-SameView e a b h = project-SameView e _ _ (audit-SameView e a b h)
