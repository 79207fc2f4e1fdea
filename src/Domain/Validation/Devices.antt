-- ===== src/Domain/Validation/Devices.antt =====
-- What `ValidateDevices` accepts.
use go_prod22_go_project.Prelude.{
  ◌≡◌, ◌≢◌, refl, ◌↔◌, false, arith, String, string_eq, eq_iff, List, [], ◌∷◌,
}
use go_prod22_go_project.Domain.Errors.{ok}
use go_prod22_go_project.Domain.Validation.{contains, check_devices, validate_devices}

-- Every id is named, not among `seen`, and different from those before it.
abbrev pub AreFresh : List String → List String → Type 0
AreFresh seen [] = Unit {0}
AreFresh seen (id ∷ ids) = (id ≢ "") × (contains id seen ≡ false) × AreFresh (id ∷ seen) ids

check-AreFresh : (seen ids : List String) → check_devices seen ids ≡ ok tt → AreFresh seen ids
unfolding check_devices
check-AreFresh seen [] h = tt
check-AreFresh seen (id ∷ ids) h = ground (arith, eq_iff id "", check-AreFresh (id ∷ seen) ids)

AreFresh-check : (seen ids : List String) → AreFresh seen ids → check_devices seen ids ≡ ok tt
unfolding check_devices
AreFresh-check seen [] h = refl
AreFresh-check seen (id ∷ ids) h = ground (arith, eq_iff id "", AreFresh-check (id ∷ seen) ids)

-- `ValidateDevices` accepts exactly the lists that are not empty and hold no empty id and none
-- twice.
pub validate_devices_iff :
    (ids : List String) → (validate_devices ids ≡ ok tt) ↔ ((ids ≢ []) × AreFresh [] ids)
unfolding validate_devices
validate_devices_iff [] = ((λ h. ground arith), (λ h. absurd (h.0 refl)))
validate_devices_iff (id ∷ ids) = (
  (λ h. ((λ e. ground arith), check-AreFresh [] (id ∷ ids) h)),
  (λ h. AreFresh-check [] (id ∷ ids) h.1),
)
