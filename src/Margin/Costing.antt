-- ===== src/Margin/Costing.antt =====
-- The resolver of margin.py: its recursion ends by itself, and its memo changes no result.
use accounting_tool.Types.{RecipeIngredient}
use accounting_tool.Decimal.{Decimal}
use accounting_tool.Cost.{CostBook}
use accounting_tool.Margin.Resolver.{
  is_seen, Memo, resolve, unit_cost, enough, made_cost, unknown_among, is_kept, resolve_or,
}
use accounting_tool.Prelude.Dict.{lookup, keys, insert, lookup-insert}
use accounting_tool.Recipes.{RecipeCatalog, recipe_for_sku}
use accounting_tool.Prelude.{
  ℕ, String, List, length, ◌∷◌, ◌≤◌, ◌≡◌, keep, false, some, not, Option, arith, [], In, ◌<◌,
  Bool-cases, Option-cases, string_eq, ◌=?◌, inr, inl, suc, true, eq_sound, ap, refl, sym, subst,
  fun_ext, zero, Bool, none, if◌then◌else◌, any, ◌∙◌, length-map,
}

-- How many of the recipes are not open.
abbrev pub free : List String → List String → ℕ
free seen ks = length (keep (λ k. not (is_seen k seen)) ks)

free_le :
    (seen : List String) (sku_id : String) (ks : List String)
    → free (sku_id ∷ seen) ks ≤ free seen ks
free_le seen sku_id [] = omega arith
free_le seen sku_id (k ∷ ks) = ground (arith, free_le seen sku_id ks)

pub free_lt :
    (seen : List String) (sku_id : String) (ks : List String)
    → is_seen sku_id seen ≡ false
    → In sku_id ks
    → free (sku_id ∷ seen) ks < free seen ks
free_lt seen sku_id [] h i = absurd i
free_lt seen sku_id (k ∷ ks) h (inl e) =
    let same : (k =? sku_id) ≡ true = (string_eq.beq_iff k sku_id).1 (sym e) in
    let off : is_seen k seen ≡ false = subst (λ t. is_seen t seen ≡ false) e h in
    ground (arith, free_le seen sku_id ks)
free_lt seen sku_id (k ∷ ks) h (inr i) = ground (arith, free_lt seen sku_id ks h i)

pub In-keys :
    {V : Type 0} (k : String) (v : V) (d : List (String × V)) → lookup k d ≡ some v → In k (keys d)
In-keys k v [] h = absurd (cc)
In-keys k v ((j, w) ∷ d) h = elim (Bool-cases (k =? j)) [
  | inl e ↦ inl (eq_sound k j e)
  | inr n ↦ inr (In-keys k v d (rw (lookup, n) at h))
]

pub length-keep_le : (p : String → Bool) (l : List String) → length (keep p l) ≤ length l
length-keep_le p [] = omega arith
length-keep_le p (x ∷ l) = ground (arith, length-keep_le p l)

module _ (recipes : RecipeCatalog) (cost : CostBook) where
  -- Once every recipe can be open, the fuel is never used up.
  resolve_at_least :
      (x y : Option Decimal) (f g : ℕ) (sku_id : String) (seen : List String)
      → free seen (keys recipes.by_sku) < f
      → free seen (keys recipes.by_sku) < g
      → resolve_or recipes cost x f sku_id seen ≡ resolve_or recipes cost y g sku_id seen
  unfolding resolve_or recipe_for_sku
  resolve_at_least x y zero g sku_id seen h k = absurd (omega arith)
  resolve_at_least x y (suc f) zero sku_id seen h k = absurd (omega arith)
  resolve_at_least x y (suc f) (suc g) sku_id seen h k =
      elim (Option-cases (lookup sku_id recipes.by_sku)) [
        | inl bought ↦ rw (resolve_or, bought)
        | inr (recipe, made) ↦ elim (Bool-cases (is_seen sku_id seen)) [
          | inl loop ↦ rw (resolve_or, made, loop)
          | inr fresh ↦
              let less =
                free_lt seen sku_id (keys recipes.by_sku) fresh
                  (In-keys sku_id recipe recipes.by_sku made) in
              rw (resolve_or, made, fresh)
                (ap (λ cost_of. made_cost recipes cost cost_of recipe)
                  (fun_ext (λ child.
                    resolve_at_least x y f g child (sku_id ∷ seen) (omega arith) (omega arith))))
        ]
      ]

  -- The recursion ends by itself, however the recipes use one another, in loops too: with the fuel
  -- that the resolver is given, or more, the cost of a SKU does not depend on what would be said
  -- where the fuel is used up, so that it never is, and it is the same with any such fuel.
  pub resolve_or-enough :
      (spent : Option Decimal) (fuel : ℕ) (sku_id : String)
      → enough recipes cost ≤ fuel
      → resolve_or recipes cost spent fuel sku_id []
        ≡ resolve recipes cost (enough recipes cost) sku_id []
  resolve_or-enough spent fuel sku_id h =
      let few = length-keep_le (λ k. not (is_seen k [])) (keys recipes.by_sku) in
      let all = length-map (λ p. p.0) recipes.by_sku in
      resolve_at_least spent none fuel (enough recipes cost) sku_id [] (omega arith) (omega arith)

  -- Every result that is kept is the one that a fresh resolution gives.
  abbrev pub IsFaithful : Memo → Type 0
  IsFaithful memo =
      (sku_id : String) (result : Option Decimal)
      → lookup sku_id memo ≡ some result
      → result ≡ resolve recipes cost (enough recipes cost) sku_id []

  abbrev pub fresh_cost : String → Option Decimal
  fresh_cost sku_id = resolve recipes cost (enough recipes cost) sku_id []

  either :
      (t : Bool) (memo : Memo) (sku_id : String)
      → IsFaithful memo
      → IsFaithful (if t then insert sku_id (fresh_cost sku_id) memo else memo)
  either false memo sku_id ok other result h = ok other result h
  either true memo sku_id ok other result h = elim (Bool-cases (other =? sku_id)) [
    | inl same ↦
        let kept : lookup other (insert sku_id (fresh_cost sku_id) memo)
            ≡ some (fresh_cost sku_id) =
          lookup-insert sku_id other (fresh_cost sku_id) memo ∙ rw same in
        let e : result ≡ fresh_cost sku_id = ground arith in
        subst (λ t. result ≡ fresh_cost t) (sym (eq_sound other sku_id same)) e
    | inr different ↦
        let kept : lookup other (insert sku_id (fresh_cost sku_id) memo) ≡ lookup other memo =
          lookup-insert sku_id other (fresh_cost sku_id) memo ∙ rw different in
        ok other result (sym kept ∙ h)
  ]

  -- The memo changes no result: a lookup gives what a fresh resolution gives, and what it keeps is
  -- right again.
  pub unit_cost-IsFaithful :
      (memo : Memo) (sku_id : String)
      → IsFaithful memo
      → ((unit_cost recipes cost memo sku_id).0
          ≡ resolve recipes cost (enough recipes cost) sku_id [])
        × IsFaithful (unit_cost recipes cost memo sku_id).1
  unfolding unit_cost
  unit_cost-IsFaithful memo sku_id ok = elim (Option-cases (lookup sku_id memo)) [
    | inr (known, hit) ↦ rw (unit_cost, hit) (ok sku_id known hit, ok)
    | inl miss ↦ rw (unit_cost, miss) (refl, either (is_kept recipes cost sku_id) memo sku_id ok)
  ]

  -- An ingredient without a cost, resolved afresh.
  abbrev pub is_unpriced : RecipeIngredient → Bool
  is_unpriced ing = elim (resolve recipes cost (enough recipes cost) ing.sku_id []) [
    | none ↦ true
    | some _ ↦ false
  ]

  -- A recipe has an unknown price, by way of the memo, exactly when an ingredient of it has no
  -- cost when it is resolved afresh.
  pub unknown_among-IsFaithful :
      (memo : Memo) (ingredients : List RecipeIngredient)
      → IsFaithful memo
      → ((unknown_among recipes cost memo ingredients).0 ≡ any is_unpriced ingredients)
        × IsFaithful (unknown_among recipes cost memo ingredients).1
  unfolding unknown_among
  unknown_among-IsFaithful memo [] ok = (refl, ok)
  unknown_among-IsFaithful memo (ing ∷ rest) ok =
      let (result, after_ok) = unit_cost-IsFaithful memo ing.sku_id ok in
      let after = (unit_cost recipes cost memo ing.sku_id).1 in
      let (later, later_ok) = unknown_among-IsFaithful after rest after_ok in
      elim (Option-cases (fresh_cost ing.sku_id)) [
        | inl unpriced ↦
            let u : is_unpriced ing ≡ true = rw (is_unpriced, unpriced) in
            rw (unknown_among, result, unpriced)
              (sym (ap (λ t. if t then true else any is_unpriced rest) u), after_ok)
        | inr (unit, priced) ↦
            let u : is_unpriced ing ≡ false = rw (is_unpriced, priced) in
            rw (unknown_among, result, priced)
              (later ∙ sym (ap (λ t. if t then true else any is_unpriced rest) u), later_ok)
      ]
