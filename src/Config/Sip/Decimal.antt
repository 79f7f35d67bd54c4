-- ===== src/Config/Sip/Decimal.antt =====
-- The printing of numbers in the messages of `validateSIPDefinition`: the fuel is always enough.
use benis_phone.Common.{ℕ, zero, suc, ◌<◌, ◌≡◌, refl, ◌/◌, ◌⊎◌, inl, inr, arith}
use benis_phone.Common.Text.{Text}
use benis_phone.Config.Sip.{decimal_from}

ℕ-cases : (n : ℕ) → (n ≡ 0) ⊎ ((m : ℕ) × (n ≡ suc m))
ℕ-cases zero = inl refl
ℕ-cases (suc n) = inr (n, refl)

-- Any two fuels above the number print the same text.
pub decimal_from_enough :
    (f g n : ℕ) (s : Text) → n < f → n < g → decimal_from f n s ≡ decimal_from g n s
unfolding decimal_from
decimal_from_enough zero g n s h k = absurd (omega arith)
decimal_from_enough (suc f) zero n s h k = absurd (omega arith)
decimal_from_enough (suc f) (suc g) n s h k = elim (ℕ-cases (n / 10)) [
  | inl z ↦ rw (z, decimal_from) refl
  | inr (q, e) ↦
      rw (e, decimal_from) (decimal_from_enough f g (suc q) _ (omega arith) (omega arith))
]
