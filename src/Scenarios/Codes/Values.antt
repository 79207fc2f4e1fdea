-- ===== src/Scenarios/Codes/Values.antt =====
-- The codec of the program's records, as the JSON of a store that nothing ails.
use go_prod22_go_project.Prelude.{
  ℕ, Option, none, some, false, ◌≡◌, refl, ◌∙◌, ap, subst, [], eqb, if◌then◌else◌,
}
use go_prod22_go_project.Domain.Model.{Release, Device, Task, RollbackPolicy}
use go_prod22_go_project.Events.{Event, Payload, release_data, device_data, task_data, raw}
use go_prod22_go_project.Store.{State}
use go_prod22_go_project.Store.Lines.{Bytes}
use go_prod22_go_project.Store.Json.{Json, IsJson, has_break}
use go_prod22_go_project.Store.Export.{Export}
use go_prod22_go_project.Store.Durable.{Envelope, SnapshotEnvelope}
use go_prod22_go_project.Scenarios.Codes.{Code, number, pair, through, list, mapped}
use go_prod22_go_project.Scenarios.Codes.Types.{integer, boolean, text, release_status, task_status}

unfoldable pub rollback : Code RollbackPolicy
rollback =
    through (pair integer boolean) (λ p. record { max_failures = p.0; auto = p.1 })
      (λ x. (x.max_failures, (x.auto))) (λ x. refl)

unfoldable pub release : Code Release
release =
    through
      (pair text (
        pair text (
          pair (list text) (
            pair integer (
              pair integer (
                pair integer (
                  pair integer (
                    pair rollback (
                      pair release_status
                        (pair integer (pair integer (pair integer integer))))))))))))
      (λ p. record {
        id = p.0;
        version = p.1.0;
        devices = p.1.1.0;
        batch_size = p.1.1.1.0;
        max_concurrent = p.1.1.1.1.0;
        retry_limit = p.1.1.1.1.1.0;
        pause_window = p.1.1.1.1.1.1.0;
        rollback = p.1.1.1.1.1.1.1.0;
        status = p.1.1.1.1.1.1.1.1.0;
        created_at = p.1.1.1.1.1.1.1.1.1.0;
        updated_at = p.1.1.1.1.1.1.1.1.1.1.0;
        completed = p.1.1.1.1.1.1.1.1.1.1.1.0;
        failed = p.1.1.1.1.1.1.1.1.1.1.1.1;
      })
      (λ x. (
        x.id,
        (
          x.version,
          (
            x.devices,
            (
              x.batch_size,
              (
                x.max_concurrent,
                (
                  x.retry_limit,
                  (
                    x.pause_window,
                    (
                      x.rollback,
                      (x.status, (x.created_at, (x.updated_at, (x.completed, (x.failed))))),
                    ),
                  ),
                ),
              ),
            ),
          ),
        ),
      ))
      (λ x. refl)

unfoldable pub device : Code Device
device =
    through (pair text (pair text (pair (list text) (pair integer (pair integer boolean)))))
      (λ p. record {
        id = p.0;
        firmware = p.1.0;
        capabilities = p.1.1.0;
        registered_at = p.1.1.1.0;
        last_seen = p.1.1.1.1.0;
        online = p.1.1.1.1.1;
      })
      (λ x. (x.id, (x.firmware, (x.capabilities, (x.registered_at, (x.last_seen, (x.online)))))))
      (λ x. refl)

unfoldable pub task : Code Task
task =
    through
      (pair text (
        pair text (
          pair text (
            pair task_status
              (pair text (pair integer (pair integer (pair integer (pair integer text)))))))))
      (λ p. record {
        id = p.0;
        release_id = p.1.0;
        device_id = p.1.1.0;
        status = p.1.1.1.0;
        lease_owner = p.1.1.1.1.0;
        lease_until = p.1.1.1.1.1.0;
        attempts = p.1.1.1.1.1.1.0;
        next_retry = p.1.1.1.1.1.1.1.0;
        updated_at = p.1.1.1.1.1.1.1.1.0;
        error = p.1.1.1.1.1.1.1.1.1;
      })
      (λ x. (
        x.id,
        (
          x.release_id,
          (
            x.device_id,
            (
              x.status,
              (
                x.lease_owner,
                (x.lease_until, (x.attempts, (x.next_retry, (x.updated_at, (x.error))))),
              ),
            ),
          ),
        ),
      ))
      (λ x. refl)

-- A record by its kind, and a text.
abbrev payload_next : Option (ℕ × Bytes) → Option (Payload × Bytes)
payload_next none = none
payload_next (some (k, rest)) =
    if eqb k 0
    then mapped release_data (release.get rest)
    else if eqb k 1
    then mapped device_data (device.get rest)
    else if eqb k 2
    then mapped task_data (task.get rest)
    else mapped raw (text.get rest)

abbrev put_payload : Payload → Bytes → Bytes
put_payload (release_data r) rest = number.put 0 (release.put r rest)
put_payload (device_data d) rest = number.put 1 (device.put d rest)
put_payload (task_data t) rest = number.put 2 (task.put t rest)
put_payload (raw s) rest = number.put 3 (text.put s rest)

pub payload_back :
    (v : Payload) (rest : Bytes) → payload_next (number.get (put_payload v rest)) ≡ some (v, rest)
payload_back (release_data r) rest =
    rw (number.get-put 0 (release.put r rest), release.get-put r rest) refl
payload_back (device_data d) rest =
    rw (number.get-put 1 (device.put d rest), device.get-put d rest) refl
payload_back (task_data t) rest = rw (number.get-put 2 (task.put t rest), task.get-put t rest) refl
payload_back (raw s) rest = rw (number.get-put 3 (text.put s rest), text.get-put s rest) refl

pub payload_flat : (v : Payload) (rest : Bytes) → has_break (put_payload v rest) ≡ has_break rest
payload_flat (release_data r) rest = number.flat 0 (release.put r rest) ∙ release.flat r rest
payload_flat (device_data d) rest = number.flat 1 (device.put d rest) ∙ device.flat d rest
payload_flat (task_data t) rest = number.flat 2 (task.put t rest) ∙ task.flat t rest
payload_flat (raw s) rest = number.flat 3 (text.put s rest) ∙ text.flat s rest

unfoldable pub payload : Code Payload
payload = record {
  put = put_payload;
  get = λ bytes. payload_next (number.get bytes);
  get-put = payload_back;
  flat = payload_flat;
}

unfoldable pub event : Code Event
event =
    through (pair text (pair text (pair text (pair payload integer))))
      (λ p. record {
        id = p.0;
        type = p.1.0;
        aggregate = p.1.1.0;
        payload = p.1.1.1.0;
        at = p.1.1.1.1;
      })
      (λ x. (x.id, (x.type, (x.aggregate, (x.payload, (x.at)))))) (λ x. refl)

unfoldable pub state : Code State
state =
    through
      (pair (list (pair text release))
        (pair (list (pair text device)) (pair (list (pair text task)) (list event))))
      (λ p. record { releases = p.0; devices = p.1.0; tasks = p.1.1.0; audit = p.1.1.1 })
      (λ x. (x.releases, (x.devices, (x.tasks, (x.audit))))) (λ x. refl)

unfoldable pub envelope : Code Envelope
envelope =
    through (pair integer event) (λ p. record { version = p.0; event = p.1 })
      (λ x. (x.version, (x.event))) (λ x. refl)

unfoldable pub snapshot : Code SnapshotEnvelope
snapshot =
    through (pair integer (pair state integer))
      (λ p. record { version = p.0; state = p.1.0; written_at = p.1.1 })
      (λ x. (x.version, (x.state, (x.written_at)))) (λ x. refl)

unfoldable pub exported : Code Export
exported =
    through (pair integer (pair integer (pair state (list event))))
      (λ p. record { version = p.0; generated_at = p.1.0; state = p.1.1.0; events = p.1.1.1 })
      (λ x. (x.version, (x.generated_at, (x.state, x.events)))) (λ x. refl)

module _ {A : Type 0} (x : Code A) where
  abbrev pub decoded_value : Option (A × Bytes) → Option A
  decoded_value none = none
  decoded_value (some (a, rest)) = some a

  unfoldable pub json_of : Json A
  json_of = record { marshal = λ a. some (x.put a []); unmarshal = λ b. decoded_value (x.get b) }

  value_of : Option Bytes → Bytes
  value_of none = []
  value_of (some b) = b

  pub json_of-IsJson : IsJson json_of
  unfolding json_of has_break value_of
  json_of-IsJson = record {
    unmarshal-marshal = λ a b h.
        subst (λ c. decoded_value (x.get c) ≡ some a) (ap value_of h) (rw (x.get-put a []) refl);
    one_line = λ a b h. subst (λ c. has_break c ≡ false) (ap value_of h) (x.flat a []);
  }
