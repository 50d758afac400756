-- ===== src/Base/Text.antt =====
-- Decisions and Boolean tests from decisions, and names as texts.
use Prim.Native.String.{String}
use mathlib.Core.Path.{◌≡◌, refl}
use mathlib.Core.Logic.{◌↔◌}
use mathlib.Core.Bool.{Bool, true, false}
use text.Mathlib.Text.{◌==◌ as str_eq}
use text.Mathlib.TextEquality.{eq_iff}

-- The answer of a decision.
abbrev pub test {ℓ} : {P : Type ℓ} → Dec P → Bool
test (yes p) = true
test (no p) = false

pub test_iff {ℓ} : {P : Type ℓ} (d : Dec P) → (test d ≡ true) ↔ P
test_iff (yes p) = (λ _. p, λ _. refl)
test_iff (no p) = (λ h. absurd (true_ne h), λ h. absurd (p h))
  where
    true_ne : false ≡ true → ⊥
    true_ne h = cc

dec_of_test {ℓ} : {P : Type ℓ} (b : Bool) → ((b ≡ true) ↔ P) → Dec P
dec_of_test true h = yes (h.0 refl)
dec_of_test false h = no (λ p. false_ne (h.1 p))
  where
    false_ne : false ≡ true → ⊥
    false_ne h = cc

-- Names are compared as texts.
unfoldable pub String-discrete : Discrete String
unfolding dec_of_test
String-discrete s t = dec_of_test (str_eq s t) (eq_iff s t)
