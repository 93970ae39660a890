-- ===== src/Common/Classes.antt =====
-- Equality as Go's `==` gives it on strings and on structs of them.
use mathlib.Core.Path.{◌≡◌, refl}
use mathlib.Core.Logic.{◌↔◌}
use mathlib.Core.Bool.{Bool, true, false, ◌&&◌}
use mathlib.Core.List.{List, [], ◌∷◌}
use Prim.Native.Nat.{ℕ}
use native.Mathlib.Omega.{arith}
use steve.Common.Tests.{eqb, eqb_iff}

pub record Eq {ℓ} (X : Type ℓ) : Type ℓ where
  pub beq : X → X → Bool
  pub beq_iff : (x y : X) → (beq x y ≡ true) ↔ (x ≡ y)

infix 50 ◌==◌
abbrev pub ◌==◌ {ℓ} : {X : Type ℓ} ⦃o : Eq X⦄ (x y : X) → Bool
◌==◌ ⦃o⦄ x y = o.beq x y

pub eq_refl {ℓ} : {A : Type ℓ} ⦃e : Eq A⦄ (a : A) → (a == a) ≡ true
eq_refl ⦃e⦄ a = (e.beq_iff a a).1 refl

-- A Go string is its sequence of bytes.
abbrev pub Str : Type 0
Str = List ℕ

unfoldable pub str_beq : Str → Str → Bool
str_beq [] [] = true
str_beq [] (b ∷ t) = false
str_beq (a ∷ s) [] = false
str_beq (a ∷ s) (b ∷ t) = eqb a b && str_beq s t

pub str_beq_iff : (s t : Str) → (str_beq s t ≡ true) ↔ (s ≡ t)
unfolding str_beq
str_beq_iff [] [] = (λ _. refl, λ _. refl)
str_beq_iff [] (b ∷ t) = (λ h. cc, λ h. cc)
str_beq_iff (a ∷ s) [] = (λ h. cc, λ h. cc)
str_beq_iff (a ∷ s) (b ∷ t) = ground (arith, str_beq_iff s t, eqb_iff a b)

instance abbrev pub str_eq : Eq Str
str_eq = record { beq = str_beq; beq_iff = str_beq_iff }
