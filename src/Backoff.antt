-- ===== src/Backoff.antt =====
-- The waiting times of internal/backoff/backoff.go, and a lease's end (internal/lease/lease.go).
use go_prod22_go_project.Prelude.{
  zero, suc, ◌+ℤ◌, ◌*◌, ◌^◌, ℤ, pos, negsuc, refl, pos_part, ltb_ℤ, ◌-ℤ◌, ◌≤ℤ◌, String, Bool, not,
  if◌then◌else◌, ◌≡◌, arith,
}
use go_prod22_go_project.Domain.Model.{Time, Duration, after, minute}

-- The shift is of a number from 0 to 7.
abbrev pub clamp : ℤ → ℤ
clamp attempt =
    let low = if ltb_ℤ attempt (pos 1) then pos 1 else attempt in
    if ltb_ℤ (pos 8) low then pos 8 else low

unfoldable pub delay : ℤ → Duration
unfolding ◌-ℤ◌
delay attempt = pos (2 ^ pos_part (clamp attempt -ℤ pos 1) * pos_part minute)

pub record Lease : Type 0 where
  pub owner : String
  pub until : Time
  pub attempts : ℤ

unfoldable pub expired : Lease → Time → Bool
expired l now = not (after l.until now)

-- The wait of any attempt is between one minute and 128; from the first attempt to the eighth it
-- doubles each time, and after that it stays.
pub delay_lem :
    (attempt : ℤ)
    → (minute ≤ℤ delay attempt)
      × (delay attempt ≤ℤ pos (128 * pos_part minute))
      × (pos 1 ≤ℤ attempt
          → attempt ≤ℤ pos 7
          → delay (attempt +ℤ pos 1) ≡ pos (2 * pos_part (delay attempt)))
      × (pos 8 ≤ℤ attempt → delay attempt ≡ pos (128 * pos_part minute))
unfolding delay ◌-ℤ◌ ◌+ℤ◌
delay_lem (pos zero) = (omega arith, omega arith, (λ h k. ground arith), (λ h. ground arith))
delay_lem (pos (suc zero)) = (omega arith, omega arith, (λ h k. refl), (λ h. ground arith))
delay_lem (pos (suc (suc zero))) = (omega arith, omega arith, (λ h k. refl), (λ h. ground arith))
delay_lem (pos (suc (suc (suc zero)))) =
    (omega arith, omega arith, (λ h k. refl), (λ h. ground arith))
delay_lem (pos (suc (suc (suc (suc zero))))) =
    (omega arith, omega arith, (λ h k. refl), (λ h. ground arith))
delay_lem (pos (suc (suc (suc (suc (suc zero)))))) =
    (omega arith, omega arith, (λ h k. refl), (λ h. ground arith))
delay_lem (pos (suc (suc (suc (suc (suc (suc zero))))))) =
    (omega arith, omega arith, (λ h k. refl), (λ h. ground arith))
delay_lem (pos (suc (suc (suc (suc (suc (suc (suc zero)))))))) =
    (omega arith, omega arith, (λ h k. refl), (λ h. ground arith))
delay_lem (pos (suc (suc (suc (suc (suc (suc (suc (suc zero))))))))) =
    (omega arith, omega arith, (λ h k. ground arith), (λ h. refl))
delay_lem (pos (suc (suc (suc (suc (suc (suc (suc (suc (suc n)))))))))) =
    (ground arith, ground arith, (λ h k. ground arith), (λ h. ground arith))
delay_lem (negsuc n) = (ground arith, ground arith, (λ h k. ground arith), (λ h. ground arith))
