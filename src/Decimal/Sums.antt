-- ===== src/Decimal/Sums.antt =====
-- `sum` over decimals: the order of the terms does not matter, and sums split.
use mathlib.Core.List.{Perm, Permᴰ}
use mathlib.Core.Logic.{∥∥₁_elim}
use accounting_tool.Prelude.{◌≡◌, refl, sym, ap, ◌∙◌, List, [], ◌∷◌, ◌++◌, map, ap₂}
use accounting_tool.Decimal.{Decimal, plus, total, total_from, zero_money}
use accounting_tool.Decimal.Laws.{plus_assoc, plus_zero, zero_plus, Decimal-set, plus_comm}

-- A sum from `acc` is `acc` and the sum from zero.
pub total_from-eq-plus :
    (acc : Decimal) (xs : List Decimal) → total_from acc xs ≡ plus acc (total xs)
unfolding total_from total
total_from-eq-plus acc [] = sym (plus_zero acc)
total_from-eq-plus acc (x ∷ xs) =
    total_from-eq-plus (plus acc x) xs
    ∙ plus_assoc acc x (total xs)
    ∙ ap (plus acc) (sym (ap (λ t. total_from t xs) (zero_plus x) ∙ total_from-eq-plus x xs))

pub total-nil : total [] ≡ zero_money
unfolding total_from total
total-nil = refl

pub total-cons : (x : Decimal) (xs : List Decimal) → total (x ∷ xs) ≡ plus x (total xs)
unfolding total_from total
total-cons x xs = ap (λ t. total_from t xs) (zero_plus x) ∙ total_from-eq-plus x xs

pub total-append : (xs ys : List Decimal) → total (xs ++ ys) ≡ plus (total xs) (total ys)
total-append [] ys = sym (ap (λ t. plus t (total ys)) total-nil ∙ zero_plus (total ys))
total-append (x ∷ xs) ys =
    total-cons x (xs ++ ys)
    ∙ ap (plus x) (total-append xs ys)
    ∙ sym (plus_assoc x (total xs) (total ys))
    ∙ ap (λ t. plus t (total ys)) (sym (total-cons x xs))

two_first : (x y : Decimal) (xs : List Decimal) → total (x ∷ y ∷ xs) ≡ total (y ∷ x ∷ xs)
two_first x y xs =
    total-cons x (y ∷ xs)
    ∙ ap (plus x) (total-cons y xs)
    ∙ sym (plus_assoc x y (total xs))
    ∙ ap (λ t. plus t (total xs)) (plus_comm x y)
    ∙ plus_assoc y x (total xs)
    ∙ ap (plus y) (sym (total-cons x xs))
    ∙ sym (total-cons y (x ∷ xs))

-- A sum of images, as the sum of a first one and the rest.
module _ {A : Type 0} (f : A → Decimal) where
  pub total-map_perm : (xs ys : List A) → Perm xs ys → total (map f xs) ≡ total (map f ys)
  total-map_perm xs ys p =
      ∥∥₁_elim p (λ a b. Decimal-set (total (map f xs)) (total (map f ys)) a b) (by_steps xs ys)
    where
      by_steps : (xs ys : List A) → Permᴰ xs ys → total (map f xs) ≡ total (map f ys)
      by_steps _ _ Permᴰ.nil = refl
      by_steps _ _ (Permᴰ.cons {a} {b} {l₁} {l₂} e d) =
          total-cons (f a) (map f l₁)
          ∙ ap₂ plus (ap f e) (by_steps l₁ l₂ d)
          ∙ sym (total-cons (f b) (map f l₂))
      by_steps _ _ (Permᴰ.swap {a} {b} {a' = c} {b' = d} {l} e g) =
          rw (e, ← g) (two_first (f d) (f b) (map f l))
      by_steps _ _ (Permᴰ.trans {l₁} {l₂} {l₃} d e) = by_steps l₁ l₂ d ∙ by_steps l₂ l₃ e
