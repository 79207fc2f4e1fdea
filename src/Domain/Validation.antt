-- ===== src/Domain/Validation.antt =====
-- The checks of internal/domain/validation.go.
pub mod Devices
use go_prod22_go_project.Prelude.{
  String, Bool, true, false, ◌==◌, ◌||◌, if◌then◌else◌, ltb, List, [], ◌∷◌, string_eq,
}
use go_prod22_go_project.Prelude.Text.{byte_len}
use go_prod22_go_project.Domain.Errors.{Result, ok, err, message, invalid_device}

unfoldable pub validate_version : String → Result (Unit {0})
validate_version v =
    if ltb (byte_len v) 3 then err (message "version must be at least 3 characters") else ok tt

-- The map `seen`, as the list of its keys.
unfoldable pub contains : String → List String → Bool
contains id [] = false
contains id (x ∷ xs) = let rest = contains id xs in if x == id then true else rest

unfoldable pub check_devices : List String → List String → Result (Unit {0})
unfolding contains
check_devices seen [] = ok tt
check_devices seen (id ∷ ids) =
    let rest = check_devices (id ∷ seen) ids in
    if id == "" || contains id seen then err (invalid_device id) else rest

unfoldable pub validate_devices : List String → Result (Unit {0})
unfolding check_devices
validate_devices [] = err (message "at least one device required")
validate_devices (id ∷ ids) = check_devices [] (id ∷ ids)
