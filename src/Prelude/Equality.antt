-- ===== src/Prelude/Equality.antt =====
-- Python's `==` on the keys that the program uses, as an interface.
use Prim.Native.Nat.{ℕ}
use Prim.Native.String.{String}
use mathlib.Core.Path.{◌≡◌, refl, ap, sym, ◌∙◌}
use mathlib.Core.Logic.{◌↔◌, ◌≢◌, inl, inr}
use mathlib.Core.Bool.{Bool, true, false, ◌&&◌, false≢true}
use mathlib.Core.Option.{Option, none, some}
use native.Mathlib.Omega.{arith}
use text.Mathlib.Text.{◌==◌ as str_eq}
use text.Mathlib.TextEquality.{eq_iff}
use accounting_tool.Prelude.Tests.{◌==◌, ==_iff, Bool-cases}

pub record Eq {ℓ} (A : Type ℓ) : Type ℓ where
  pub beq : A → A → Bool
  pub beq_iff : (a b : A) → (beq a b ≡ true) ↔ (a ≡ b)

infix 50 ◌=?◌
abbrev pub ◌=?◌ {ℓ} : {A : Type ℓ} ⦃e : Eq A⦄ → A → A → Bool
◌=?◌ ⦃e⦄ = e.beq

pub eq_refl {ℓ} : {A : Type ℓ} ⦃e : Eq A⦄ → (a : A) → (a =? a) ≡ true
eq_refl ⦃e⦄ a = (e.beq_iff a a).1 refl

pub eq_sound {ℓ} : {A : Type ℓ} ⦃e : Eq A⦄ → (a b : A) → (a =? b) ≡ true → a ≡ b
eq_sound ⦃e⦄ a b h = (e.beq_iff a b).0 h

pub beq_sound {ℓ} : {A : Type ℓ} ⦃e : Eq A⦄ → (a b : A) → a ≡ b → (a =? b) ≡ true
beq_sound ⦃e⦄ a b h = (e.beq_iff a b).1 h

pub beq_of_ne {ℓ} : {A : Type ℓ} ⦃e : Eq A⦄ → (a b : A) → a ≢ b → (a =? b) ≡ false
beq_of_ne ⦃e⦄ a b h = elim (Bool-cases (a =? b)) [ inl q ↦ absurd (h (eq_sound a b q)) | inr q ↦ q ]

pub ne_of_beq {ℓ} : {A : Type ℓ} ⦃e : Eq A⦄ → (a b : A) → (a =? b) ≡ false → a ≢ b
ne_of_beq ⦃e⦄ a b h q =
    let y : (a =? b) ≡ true = (e.beq_iff a b).1 q in absurd (false≢true (sym h ∙ y))

instance abbrev pub nat_eq : Eq ℕ
nat_eq = record { beq = ◌==◌; beq_iff = ==_iff }

instance abbrev pub string_eq : Eq String
string_eq = record { beq = str_eq; beq_iff = eq_iff }

module _ {ℓ κ} {A : Type ℓ} {B : Type κ} ⦃d : Eq A⦄ ⦃e : Eq B⦄ where
  abbrev pub pair_beq : A × B → A × B → Bool
  pair_beq p q = d.beq p.0 q.0 && e.beq p.1 q.1

  pub pair_beq_iff : (p q : A × B) → (pair_beq p q ≡ true) ↔ (p ≡ q)
  pair_beq_iff p q = (
    λ h. ground (arith, d.beq_iff p.0 q.0, e.beq_iff p.1 q.1),
    λ h. ground (arith, d.beq_iff p.0 q.0, e.beq_iff p.1 q.1),
  )

  instance abbrev pub pair_eq : Eq (A × B)
  pair_eq = record { beq = pair_beq; beq_iff = pair_beq_iff }

module _ {ℓ} {A : Type ℓ} ⦃e : Eq A⦄ where
  abbrev pub option_beq : Option A → Option A → Bool
  option_beq none none = true
  option_beq (some a) (some b) = e.beq a b
  option_beq _ _ = false

  pub option_beq_iff : (p q : Option A) → (option_beq p q ≡ true) ↔ (p ≡ q)
  option_beq_iff none none = (λ h. refl, λ h. refl)
  option_beq_iff none (some b) = (λ h. ground arith, λ h. ground arith)
  option_beq_iff (some a) none = (λ h. ground arith, λ h. ground arith)
  option_beq_iff (some a) (some b) =
      (λ h. ap some ((e.beq_iff a b).0 h), λ h. ground (arith, e.beq_iff a b))

  instance abbrev pub option_eq : Eq (Option A)
  option_eq = record { beq = option_beq; beq_iff = option_beq_iff }
