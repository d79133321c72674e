-- ===== src/DailyReview/Ranking.antt =====
-- daily_review.py: the rankings hold the best rows, in order.
use accounting_tool.Decimal.Congruence.{AtMost-trans}
use mathlib.Core.List.{Perm}
use accounting_tool.Decimal.Value.{less_iff}
use accounting_tool.Prelude.Sort.{AtLeast, IsSorted, sort-IsSorted, sort, sort-perm, length-sort}
use accounting_tool.ProfitReport.{take}
use accounting_tool.Types.{ItemMargin}
use accounting_tool.DailyReview.{
  rank_top_by_margin, rank_bottom_by_margin, ItemRanking, rank_top_by_volume, rank_bottom_by_volume,
  first_ranked, more_margin, top_bottom_count, less_margin, more_units, less_units,
}
use accounting_tool.Decimal.{less, Decimal}
use accounting_tool.Prelude.{
  ℕ, Bool, List, length, ◌≡◌, suc, ◌++◌, All, true, false, min, ◌∷◌, arith, zero, ap, refl, [],
  subst, sym, ◌∙◌,
}

less_asymm : (a b : Decimal) → less a b ≡ true → less b a ≡ false
unfolding less
less_asymm a b h = ground (arith, h)

less_trans : (a b c : Decimal) → less b a ≡ false → less c b ≡ false → less c a ≡ false
less_trans a b c h k =
    (less_iff c a).1 (AtMost-trans a b c ((less_iff b a).0 h) ((less_iff c b).0 k))

abbrev pub drop : {A : Type 0} → ℕ → List A → List A
drop zero xs = xs
drop (suc n) [] = []
drop (suc n) (x ∷ xs) = drop n xs

-- The ranking holds as many rows as there may be, in order, and no row left out goes before one of
-- them.
abbrev pub IsRanking : (ItemMargin → ItemMargin → Bool) → List ItemMargin → ItemRanking → Type 0
IsRanking before rows ranking =
    (rest : List ItemMargin) × (Perm (ranking ++ rest) rows
      × (IsSorted before ranking
          × (All (λ a. AtLeast before a rest) ranking
              × (length ranking ≡ min top_bottom_count (length rows)))))

module _ {A : Type 0} where
  take-drop : (n : ℕ) (xs : List A) → take n xs ++ drop n xs ≡ xs
  take-drop zero xs = refl
  take-drop (suc n) [] = refl
  take-drop (suc n) (x ∷ xs) = ap (λ l. x ∷ l) (take-drop n xs)

  length-take : (n : ℕ) (xs : List A) → length (take n xs) ≡ min n (length xs)
  length-take zero xs = omega arith
  length-take (suc n) [] = omega arith
  length-take (suc n) (x ∷ xs) = omega (arith, length-take n xs)

  module _ (before : A → A → Bool) where
    AtLeast-take :
        (x : A) (n : ℕ) (xs : List A) → AtLeast before x xs → AtLeast before x (take n xs)
    AtLeast-take x zero xs h = tt
    AtLeast-take x (suc n) [] h = tt
    AtLeast-take x (suc n) (y ∷ ys) h = (h.0, AtLeast-take x n ys h.1)

    AtLeast-drop :
        (x : A) (n : ℕ) (xs : List A) → AtLeast before x xs → AtLeast before x (drop n xs)
    AtLeast-drop x zero xs h = h
    AtLeast-drop x (suc n) [] h = tt
    AtLeast-drop x (suc n) (y ∷ ys) h = AtLeast-drop x n ys h.1

    IsSorted-take : (n : ℕ) (xs : List A) → IsSorted before xs → IsSorted before (take n xs)
    IsSorted-take zero xs h = tt
    IsSorted-take (suc n) [] h = tt
    IsSorted-take (suc n) (x ∷ xs) h = (AtLeast-take x n xs h.0, IsSorted-take n xs h.1)

    ahead_of_rest :
        (n : ℕ) (xs : List A)
        → IsSorted before xs
        → All (λ a. AtLeast before a (drop n xs)) (take n xs)
    ahead_of_rest zero xs h = tt
    ahead_of_rest (suc n) [] h = tt
    ahead_of_rest (suc n) (x ∷ xs) h = (AtLeast-drop x n xs h.0, ahead_of_rest n xs h.1)

module _ (before : ItemMargin → ItemMargin → Bool)
    (asymm : (a b : ItemMargin) → before a b ≡ true → before b a ≡ false)
    (trans : (a b c : ItemMargin)
      → before b a ≡ false
      → before c b ≡ false
      → before c a ≡ false) where
  first_ranked-IsRanking :
      (rows : List ItemMargin) → IsRanking before rows (first_ranked before rows)
  first_ranked-IsRanking rows =
      let sorted = sort-IsSorted before asymm trans rows in
      (
        drop top_bottom_count (sort before rows),
        (
          subst (λ l. Perm l rows) (sym (take-drop top_bottom_count (sort before rows)))
              (sort-perm before rows),
          (
            IsSorted-take before top_bottom_count (sort before rows) sorted,
            (
              ahead_of_rest before top_bottom_count (sort before rows) sorted,
              length-take top_bottom_count (sort before rows)
                  ∙ ap (min top_bottom_count) (length-sort before rows),
            ),
          ),
        ),
      )

-- Each of the four rankings of a day holds three rows, or all if there are fewer, in the order of
-- its measure, and no row that it leaves out goes before one of them.
pub rankings-IsRanking :
    (rows : List ItemMargin)
    → IsRanking more_margin rows (rank_top_by_margin rows)
      × (IsRanking less_margin rows (rank_bottom_by_margin rows)
          × (IsRanking more_units rows (rank_top_by_volume rows)
              × IsRanking less_units rows (rank_bottom_by_volume rows)))
unfolding rank_top_by_margin rank_bottom_by_margin rank_top_by_volume rank_bottom_by_volume
rankings-IsRanking rows = (
  first_ranked-IsRanking more_margin (λ a b h. less_asymm b.gross_margin a.gross_margin h)
      (λ a b c h k. less_trans c.gross_margin b.gross_margin a.gross_margin k h) rows,
  (
    first_ranked-IsRanking less_margin (λ a b h. less_asymm a.gross_margin b.gross_margin h)
        (λ a b c h k. less_trans a.gross_margin b.gross_margin c.gross_margin h k) rows,
    (
      first_ranked-IsRanking more_units (λ a b h. ground (arith, h))
          (λ a b c h k. ground (arith, h, k)) rows,
      first_ranked-IsRanking less_units (λ a b h. ground (arith, h))
          (λ a b c h k. ground (arith, h, k)) rows,
    ),
  ),
)
