-- ===== src/Prelude/Sort.antt =====
-- `sorted` and `list.sort`: a stable sort by a Boolean order, as insertion sort.
use accounting_tool.Prelude.{length, ◌≡◌, suc, arith, refl, any, ◌∙◌, ap}
use accounting_tool.Prelude.Tests.{if◌then◌else◌, Bool-cases}
use mathlib.Core.Logic.{inl, inr}
use mathlib.Core.Bool.{Bool}
use mathlib.Core.List.{List, [], ◌∷◌, Perm}
use mathlib.Core.List.Perm

module _ {ℓ} {A : Type ℓ} (before : A → A → Bool) where
  -- `x` came earlier in the input than all of the list, and goes before its equals.
  abbrev pub place : A → List A → List A
  place x [] = x ∷ []
  place x (y ∷ ys) = if before y x then y ∷ place x ys else x ∷ y ∷ ys

  abbrev pub sort : List A → List A
  sort [] = []
  sort (x ∷ xs) = place x (sort xs)

  pub place-perm : (x : A) (ys : List A) → Perm (place x ys) (x ∷ ys)
  place-perm x [] = Perm.refl (x ∷ [])
  place-perm x (y ∷ ys) = elim (Bool-cases (before y x)) [
    | inl e ↦ rw e (Perm.trans (Perm.cons y (place-perm x ys)) (Perm.swap x y ys))
    | inr e ↦ rw e (Perm.refl (x ∷ y ∷ ys))
  ]

  pub sort-perm : (xs : List A) → Perm (sort xs) xs
  sort-perm [] = Perm.refl []
  sort-perm (x ∷ xs) = Perm.trans (place-perm x (sort xs)) (Perm.cons x (sort-perm xs))

  any-place :
      (p : A → Bool) (x : A) (ys : List A)
      → any p (place x ys) ≡ (if p x then Bool.true else any p ys)
  any-place p x [] = refl
  any-place p x (y ∷ ys) = ground (arith, any-place p x ys)

  -- Sorting keeps what is there.
  pub any-sort : (p : A → Bool) (xs : List A) → any p (sort xs) ≡ any p xs
  any-sort p [] = refl
  any-sort p (x ∷ xs) =
      any-place p x (sort xs) ∙ ap (λ b. if p x then Bool.true else b) (any-sort p xs)

  pub length-place : (x : A) (ys : List A) → length (place x ys) ≡ suc (length ys)
  length-place x [] = refl
  length-place x (y ∷ ys) = ground (arith, length-place x ys)

  pub length-sort : (xs : List A) → length (sort xs) ≡ length xs
  length-sort [] = refl
  length-sort (x ∷ xs) = omega (arith, length-place x (sort xs), length-sort xs)

module _ {ℓ} {A : Type ℓ} (before : A → A → Bool) where
  abbrev pub AtLeast : A → List A → Type 0
  AtLeast x [] = Unit
  AtLeast x (y ∷ ys) = (before y x ≡ Bool.false) × AtLeast x ys

  abbrev pub IsSorted : List A → Type 0
  IsSorted [] = Unit
  IsSorted (x ∷ xs) = AtLeast x xs × IsSorted xs

-- What sorting promises when the order is the strict part of a total preorder.
module _ {ℓ} {A : Type ℓ} (before : A → A → Bool)
    (asymm : (a b : A) → before a b ≡ Bool.true → before b a ≡ Bool.false)
    (trans : (a b c : A)
      → before b a ≡ Bool.false
      → before c b ≡ Bool.false
      → before c a ≡ Bool.false) where
  pub AtLeast-trans :
      (x y : A) (ys : List A) → before y x ≡ Bool.false → AtLeast before y ys → AtLeast before x ys
  AtLeast-trans x y [] h k = tt
  AtLeast-trans x y (z ∷ ys) h k = (trans x y z h k.0, AtLeast-trans x y ys h k.1)

  AtLeast-place :
      (x y : A) (ys : List A)
      → before x y ≡ Bool.false
      → AtLeast before y ys
      → AtLeast before y (place before x ys)
  AtLeast-place x y [] h k = (h, tt)
  AtLeast-place x y (z ∷ ys) h k = elim (Bool-cases (before z x)) [
    | inl e ↦ rw e (k.0, AtLeast-place x y ys h k.1)
    | inr e ↦ rw e (h, k)
  ]

  place-IsSorted : (x : A) (ys : List A) → IsSorted before ys → IsSorted before (place before x ys)
  place-IsSorted x [] h = (tt, tt)
  place-IsSorted x (y ∷ ys) h = elim (Bool-cases (before y x)) [
    | inl e ↦ rw e (AtLeast-place x y ys (asymm y x e) h.0, place-IsSorted x ys h.1)
    | inr e ↦ rw e ((e, AtLeast-trans x y ys e h.0), h)
  ]

  pub sort-IsSorted : (xs : List A) → IsSorted before (sort before xs)
  sort-IsSorted [] = tt
  sort-IsSorted (x ∷ xs) = place-IsSorted x (sort before xs) (sort-IsSorted xs)
