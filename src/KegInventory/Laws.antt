-- ===== src/KegInventory/Laws.antt =====
-- What keg_inventory.py reports of every brand.
use accounting_tool.Prelude.Text.{str_before}
use mathlib.Core.List.{Perm}
use mathlib.Core.List.Perm
use accounting_tool.Cost.{CostBook}
use accounting_tool.Recipes.{RecipeCatalog}
use accounting_tool.Prelude.Sort.{length-sort, sort, sort-perm}
use accounting_tool.Decimal.Signs.{quotient_nonneg, AtMost-total}
use accounting_tool.Decimal.Value.{AtMost, AtMost-refl}
use accounting_tool.Calendar.{Date, not_after}
use accounting_tool.Decimal.{Decimal, at_most, zero_money, divide, minus, same, quotient}
use accounting_tool.Prelude.Dict.{get_or, insert, get_or-insert}
use accounting_tool.Types.{KegWeighIn, KegBrand, Sale, KegInventoryRow, KegInventoryReport}
use accounting_tool.KegInventory.{
  group_weighs, beer_volume_ml, last_two, brand_weighs, earlier_weigh, keg_rows, keg_row, add_brand,
  compute_keg_inventory, Rows,
}
use accounting_tool.Prelude.{
  List, String, ◌≡◌, none, keep, [], length, ◌++◌, ◌<◌, ◌=?◌, some, string_eq, ◌⊎◌, sym, ◌≤◌,
  append-nil, inl, ◌∷◌, arith, inr, ◌∙◌, refl, Bool-cases, eq_sound, subst, append_assoc, Bool, leb,
  ap, map, not, false, Option, true, ap₂, Option-cases,
}

-- The weigh-ins of a brand on or before the end of the period.
abbrev pub counted_weighs : List KegWeighIn → Date → String → List KegWeighIn
counted_weighs weigh_ins period_end brand_id =
    keep (λ w. not_after w.weighed_on period_end) (keep (λ w. brand_id =? w.brand_id) weigh_ins)

group_weighs-get_or :
    (brand_id : String) (weighs : List KegWeighIn) (d : List (String × List KegWeighIn))
    → get_or brand_id [] (group_weighs weighs d)
      ≡ get_or brand_id [] d ++ keep (λ w. brand_id =? w.brand_id) weighs
unfolding group_weighs
group_weighs-get_or brand_id [] d = sym (append-nil (get_or brand_id [] d))
group_weighs-get_or brand_id (w ∷ weighs) d =
    group_weighs-get_or brand_id weighs (insert w.brand_id (get_or w.brand_id [] d ++ (w ∷ [])) d)
    ∙ step
  where
    step :
        get_or brand_id [] (insert w.brand_id (get_or w.brand_id [] d ++ (w ∷ [])) d)
          ++ keep (λ v. brand_id =? v.brand_id) weighs
        ≡ get_or brand_id [] d ++ keep (λ v. brand_id =? v.brand_id) (w ∷ weighs)
    step =
        let others = keep (λ v. brand_id =? v.brand_id) weighs in
        rw (get_or-insert w.brand_id brand_id (get_or w.brand_id [] d ++ (w ∷ [])) [] d)
          (elim (Bool-cases (brand_id =? w.brand_id)) [
            | inl mine ↦ rw mine (
                subst
                  (λ t.
                    (get_or t [] d ++ (w ∷ [])) ++ others ≡ get_or brand_id [] d ++ (w ∷ others))
                  (eq_sound brand_id w.brand_id mine)
                  (append_assoc (get_or brand_id [] d) (w ∷ []) others))
            | inr other ↦ rw other
          ])

-- A volume is never negative: at or below the tare it is zero, and above it the quotient has the
-- sign of the density.
pub beer_volume_ml-nonneg :
    (brand : KegBrand) (weigh : KegWeighIn) (v : Decimal)
    → AtMost zero_money brand.density_g_per_ml
    → beer_volume_ml brand weigh ≡ some v
    → AtMost zero_money v
unfolding beer_volume_ml divide
beer_volume_ml-nonneg brand weigh v h e =
    let net = minus weigh.gross_weight_g brand.tare_weight_g in
    elim (Bool-cases (at_most net zero_money)) [
      | inl empty ↦
          let z : zero_money ≡ v = ground arith in
          subst (AtMost zero_money) z (AtMost-refl zero_money)
      | inr beer ↦ elim (Bool-cases (same brand.density_g_per_ml zero_money)) [
        | inl none_left ↦ absurd (ground arith)
        | inr some_left ↦
            let q : quotient net brand.density_g_per_ml ≡ v = ground arith in
            subst (AtMost zero_money) q
              (quotient_nonneg net brand.density_g_per_ml (AtMost-total net beer) h)
      ]
    ]

-- Two weigh-ins are there exactly when a list has at least two.
last_two-cases {ℓ} :
    {A : Type ℓ} (l : List A)
    → ((last_two l ≡ none) × (length l < 2))
      ⊎ ((p : A × A) × (last_two l ≡ some p) × (2 ≤ length l))
last_two-cases [] = inl (refl, omega arith)
last_two-cases (x ∷ []) = inl (refl, omega arith)
last_two-cases (x ∷ y ∷ []) = inr ((x, y), refl, omega arith)
last_two-cases (x ∷ y ∷ z ∷ l) = elim (last_two-cases (y ∷ z ∷ l)) [
  | inl (e, n) ↦ absurd (omega arith)
  | inr (p, e, n) ↦ inr (p, e, omega arith)
]

-- The brands that were weighed at least twice by the end of the period, and the others.
abbrev pub is_started : List KegWeighIn → Date → KegBrand → Bool
is_started weigh_ins period_end brand =
    leb 2 (length (counted_weighs weigh_ins period_end brand.brand_id))

length-brand_weighs :
    (weigh_ins : List KegWeighIn) (period_end : Date) (brand_id : String)
    → length (brand_weighs (group_weighs weigh_ins []) period_end brand_id)
      ≡ length (counted_weighs weigh_ins period_end brand_id)
unfolding brand_weighs
length-brand_weighs weigh_ins period_end brand_id =
    length-sort earlier_weigh _
    ∙ ap (λ l. length (keep (λ w. not_after w.weighed_on period_end) l))
        (group_weighs-get_or brand_id weigh_ins [])

module _ (sales : List Sale) (recipes : RecipeCatalog) (cost : CostBook)
    (weigh_ins : List KegWeighIn) (period_end : Date) where
  abbrev started : List KegBrand → List String
  started brands = map (λ b. b.brand_id) (keep (is_started weigh_ins period_end) brands)

  abbrev unstarted : List KegBrand → List String
  unstarted brands =
      map (λ b. b.brand_id) (keep (λ b. not (is_started weigh_ins period_end b)) brands)

  keg_row-brand_id :
      (brand : KegBrand) (a b : KegWeighIn) (row : KegInventoryRow)
      → keg_row sales recipes cost brand a b ≡ some row
      → row.brand_id ≡ brand.brand_id
  unfolding keg_row
  keg_row-brand_id brand a b row e = ground arith

  add_brand_unstarted :
      (brand : KegBrand) (later : Option Rows) (rows : List KegInventoryRow) (ids : List String)
      → add_brand sales recipes cost brand none later ≡ some (rows, ids)
      → (r : List KegInventoryRow) × (u : List String) × (later ≡ some (r, u))
        × (rows ≡ r)
        × (ids ≡ brand.brand_id ∷ u)
  unfolding add_brand
  add_brand_unstarted brand none rows ids e = cc
  add_brand_unstarted brand (some (r, u)) rows ids e = (r, u, refl, ground arith, ground arith)

  add_brand_started :
      (brand : KegBrand) (a b : KegWeighIn) (later : Option Rows) (rows : List KegInventoryRow)
      (ids : List String)
      → add_brand sales recipes cost brand (some (a, b)) later ≡ some (rows, ids)
      → (row : KegInventoryRow) × (r : List KegInventoryRow) × (later ≡ some (r, ids))
        × (row.brand_id ≡ brand.brand_id)
        × (rows ≡ row ∷ r)
  unfolding add_brand
  add_brand_started brand a b none rows ids e =
      elim (Option-cases (keg_row sales recipes cost brand a b)) [
        | inl fault ↦ let bad = rw fault at e in absurd (cc)
        | inr (row, found) ↦ let bad = rw found at e in absurd (cc)
      ]
  add_brand_started brand a b (some (r, u)) rows ids e =
      elim (Option-cases (keg_row sales recipes cost brand a b)) [
        | inl fault ↦ let bad = rw fault at e in absurd (cc)
        | inr (row, found) ↦
            let result = rw found at e in
            (row, r, ground arith, keg_row-brand_id brand a b row found, ground arith)
      ]

  keg_rows-partition :
      (brands : List KegBrand) (rows : List KegInventoryRow) (ids : List String)
      → keg_rows sales recipes cost (group_weighs weigh_ins []) period_end brands ≡ some (rows, ids)
      → (map (λ r. r.brand_id) rows ≡ started brands) × (ids ≡ unstarted brands)
  unfolding keg_rows
  keg_rows-partition [] rows ids e = (ground arith, ground arith)
  keg_rows-partition (brand ∷ brands) rows ids e =
      let l = brand_weighs (group_weighs weigh_ins []) period_end brand.brand_id in
      let later = keg_rows sales recipes cost (group_weighs weigh_ins []) period_end brands in
      let size = length-brand_weighs weigh_ins period_end brand.brand_id in
      elim (last_two-cases l) [
        | inl (few, n) ↦
            let (r, u, was, same_rows, more) =
              add_brand_unstarted brand later rows ids (rw few at e) in
            let (ih, iu) = keg_rows-partition brands r u was in
            let no_start : is_started weigh_ins period_end brand ≡ false = ground arith in
            rw no_start
              (ap (map (λ r. r.brand_id)) same_rows ∙ ih, more ∙ ap (λ t. brand.brand_id ∷ t) iu)
        | inr ((a, b), enough, n) ↦
            let (row, r, was, mine, more_rows) =
              add_brand_started brand a b later rows ids (rw enough at e) in
            let (ih, iu) = keg_rows-partition brands r ids was in
            let start : is_started weigh_ins period_end brand ≡ true = ground arith in
            rw start (ap (map (λ r. r.brand_id)) more_rows ∙ ap₂ ◌∷◌ mine ih, iu)
      ]

  -- A report has a row for exactly the brands that were weighed at least twice by the end of the
  -- period, and names all the others as not started.
  pub compute_keg_inventory-partition :
      (brands : List KegBrand) (report : KegInventoryReport)
      → compute_keg_inventory sales recipes cost brands weigh_ins period_end ≡ some report
      → Perm (map (λ r. r.brand_id) report.rows) (started brands)
        × Perm report.unstarted_brand_ids (unstarted brands)
  unfolding compute_keg_inventory
  compute_keg_inventory-partition brands report e =
      elim (Option-cases
        (keg_rows sales recipes cost (group_weighs weigh_ins []) period_end brands)) [
          | inl fault ↦ let bad = rw fault at e in absurd (cc)
          | inr ((rows, ids), found) ↦
              let result = rw found at e in
              let in_order = λ (a b : KegInventoryRow). str_before a.brand_id b.brand_id in
              let same_rows : report.rows ≡ sort in_order rows = ground arith in
              let same_ids : report.unstarted_brand_ids ≡ sort str_before ids = ground arith in
              let (ours, rest) = keg_rows-partition brands rows ids found in
              (
                rw (same_rows, ← ours) (Perm.map (λ r. r.brand_id) (sort-perm in_order rows)),
                rw (same_ids, ← rest) (sort-perm str_before ids),
              )
        ]
