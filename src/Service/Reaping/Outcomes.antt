-- ===== src/Service/Reaping/Outcomes.antt =====
-- What a reaping makes of each task, and what it counts (internal/service/rollback.go).
use go_prod22_go_project.Prelude.{
  eq_iff, string_eq, int_eq, ℕ, suc, ◌+◌, String, Option, none, some, Bool, true, false, not, ◌==◌,
  ◌||◌, ltb_ℤ, leb_ℤ, ◌&&◌, ◌≡◌, refl, ap, sym, ◌∷◌, arith, inl, inr, Bool-cases, if◌then◌else◌,
}
use go_prod22_go_project.Prelude.Map.{Map, lookup}
use go_prod22_go_project.Domain.Model.{Release, Task, Time}
use go_prod22_go_project.Domain.Status.{TaskStatus, task_status_eq}
use go_prod22_go_project.Service.Rollback.{ReapResult, is_expired, reaped, tallied}
use mathlib.Core.Option.{map}

-- Of a task whose release exists: there is no attempt left for it, or it is queued again.
abbrev pub fails : Option Release → Task → Bool
fails none t = false
fails (some r) t = not (t.status == TaskStatus.rolling_back) && ltb_ℤ r.retry_limit t.attempts

abbrev pub requeues : Option Release → Task → Bool
requeues none t = false
requeues (some r) t = t.status == TaskStatus.rolling_back || leb_ℤ t.attempts r.retry_limit

-- The tasks whose lease ran out that a reaping fails, and those that it queues again.
abbrev pub is_failing : Map Release → Time → Task → Bool
is_failing releases now t = is_expired now t && fails (lookup t.release_id releases) t

abbrev pub is_requeued : Map Release → Time → Task → Bool
is_requeued releases now t = is_expired now t && requeues (lookup t.release_id releases) t

abbrev pub freed : Option Release → Time → Task → Task
freed none now t = t
freed (some r) now t = if is_expired now t then reaped now r t else t

-- What a reaping leaves of a task: one whose release is missing stays as it is.
abbrev pub outcome : Map Release → Time → Task → Task
outcome releases now t = freed (lookup t.release_id releases) now t

-- The outcome of a task where the loop has met it, and what the map held where it has not.
abbrev pub landed : Map Release → Time → Option Task → Option Task → Option Task
landed releases now none held = held
landed releases now (some t) held = some (outcome releases now t)

pub landed_all :
    (releases : Map Release) (now : Time) (found : Option Task)
    → landed releases now found found ≡ map (outcome releases now) found
landed_all releases now none = refl
landed_all releases now (some t) = refl

pub tallied_lem :
    (r : Release) (t : Task) (out : ReapResult)
    → ((tallied r t out).failed ≡ out.failed + (if fails (some r) t then 1 else 0))
      × ((tallied r t out).requeued ≡ out.requeued + (if requeues (some r) t then 1 else 0))
tallied_lem r t out = ground arith

-- One more task of a count.
pub one_more :
    (counted : Bool) (total after before rest : ℕ)
    → after ≡ before + (if counted then 1 else 0)
    → total ≡ after + rest
    → total ≡ before + (if true && counted then suc rest else rest)
one_more true total after before rest h k = omega arith
one_more false total after before rest h k = omega arith

freed_stays :
    (owner : Option Release) (now : Time) (t : Task)
    → is_expired now t ≡ false
    → freed owner now t ≡ t
freed_stays none now t h = refl
freed_stays (some r) now t h = rw h refl

module _ (releases : Map Release) (now : Time) (key j : String) (t : Task) (rest m : Map Task) where
  pub landed_met :
      lookup key rest ≡ none
      → landed releases now
          (lookup j rest)
          (if key == j then some (outcome releases now t) else lookup j m)
        ≡ landed releases now (lookup j ((key, t) ∷ rest)) (lookup j m)
  unfolding lookup
  landed_met fresh = elim (Bool-cases (key == j)) [
    | inl e ↦ let gone : lookup j rest ≡ none = rw⁻¹ ((eq_iff key j).0 e) fresh in rw (e, gone) refl
    | inr e ↦ rw e refl
  ]

  pub landed_skip :
      is_expired now t ≡ false
      → lookup key rest ≡ none
      → lookup key m ≡ some t
      → landed releases now (lookup j rest) (lookup j m)
        ≡ landed releases now (lookup j ((key, t) ∷ rest)) (lookup j m)
  unfolding lookup
  landed_skip e fresh found = elim (Bool-cases (key == j)) [
    | inl q ↦
        let here = (eq_iff key j).0 q in
        let gone : lookup j rest ≡ none = rw⁻¹ here fresh in
        let held : lookup j m ≡ some t = rw⁻¹ here found in
        rw (q, gone, held) (ap some (sym (freed_stays (lookup t.release_id releases) now t e)))
    | inr q ↦ rw q refl
  ]

pub reaped_id : (now : Time) (r : Release) (t : Task) → (reaped now r t).id ≡ t.id
unfolding reaped
reaped_id now r t = ground arith

-- The rest of a map's entries are held where the map's are.
pub rest_found :
    (k key : String) (t u : Task) (rest : Map Task)
    → lookup key rest ≡ none
    → lookup k rest ≡ some u
    → ((key == k) ≡ false) × (lookup k ((key, t) ∷ rest) ≡ some u)
unfolding lookup
rest_found k key t u rest fresh found = ground (arith, eq_iff key k)

pub self_found : (key : String) (t : Task) (rest : Map Task) → lookup key ((key, t) ∷ rest) ≡ some t
unfolding lookup
self_found key t rest = ground (arith, eq_iff key key)
