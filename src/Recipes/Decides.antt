-- ===== src/Recipes/Decides.antt =====
-- The search for a recipe that contains itself, in recipes.py, finds a loop exactly when there is
-- one.
use accounting_tool.Recipes.Edges.{try_edges-none, try_edges-found}
use accounting_tool.Types.{Recipe}
use accounting_tool.Recipes.Termination.{on_path-append, find_recipe_cycle-ends}
use accounting_tool.Prelude.Dict.{get_or}
use accounting_tool.Recipes.Loops.{Uses, Leads, shorter_way, Leads-append}
use accounting_tool.Recipes.{
  walk, Search, on_path, cycle, no_cycle, out_of_fuel, find_recipe_cycle, recipe_edges,
}
use accounting_tool.Prelude.{
  ℕ, List, String, ◌≡◌, All, ◌∷◌, In, false, ◌++◌, [], ◌⊎◌, length, suc, ◌≤◌, inr, inl, arith,
  Bool-cases, ◌∙◌, subst, sym, ◌=?◌, append_assoc, eq_sound, ap, string_eq, zero, refl, ◌↔◌, ◌*◌,
  ◌+◌,
}

module _ (edges : List (String × List String)) (sku_id : String) where
  -- The path runs from the SKU that is saved to the node.
  abbrev IsTrail : List String → String → Type 0
  IsTrail path node =
      (path ≡ []) × (node ≡ sku_id)
      ⊎ ((xs : List String) × (path ≡ sku_id ∷ xs) × Leads edges sku_id xs node)

  IsTrail-append :
      (path : List String) (node x : String)
      → IsTrail path node
      → Uses edges node x
      → (xs : List String) × (path ++ (node ∷ []) ≡ sku_id ∷ xs) × Leads edges sku_id xs x
  IsTrail-append path node x (inl (e, f)) u = ([], rw (e, f), subst (λ t. Uses edges t x) f u)
  IsTrail-append path node x (inr (xs, e, way)) u =
      (xs ++ (node ∷ []), rw e, Leads-append edges sku_id node x xs [] way u)

  -- A loop from the SKU back to itself.
  abbrev pub IsLoop : List String → Type 0
  IsLoop loop =
      (xs : List String) × (loop ≡ sku_id ∷ (xs ++ (sku_id ∷ []))) × Leads edges sku_id xs sku_id

  walk-IsLoop :
      (fuel : ℕ) (node : String) (path loop : List String)
      → IsTrail path node
      → walk edges sku_id fuel node path ≡ cycle loop
      → IsLoop loop
  unfolding walk
  walk-IsLoop zero node path loop t h = absurd (cc)
  walk-IsLoop (suc fuel) node path loop t h =
      elim (try_edges-found sku_id node path (λ x. walk edges sku_id fuel x (path ++ (node ∷ [])))
        (get_or node [] edges) loop h) [
          | inl (i, e) ↦
              let (xs, f, way) = IsTrail-append path node sku_id t i in
              (
                xs,
                e
                    ∙ sym (append_assoc path (node ∷ []) (sku_id ∷ []))
                    ∙ ap (λ l. l ++ (sku_id ∷ [])) f,
                way,
              )
          | inr (x, i, found) ↦
              walk-IsLoop fuel x (path ++ (node ∷ [])) loop (inr (IsTrail-append path node x t i))
                found
        ]

  abbrev Off : List String → String → Type 0
  Off path x = on_path x path ≡ false

  on_way :
      (path : List String) (node : String) (xs : List String)
      → All (Off path) xs
      → In node xs ⊎ All (Off (path ++ (node ∷ []))) xs
  on_way path node [] all = inr tt
  on_way path node (x ∷ xs) all = elim (Bool-cases (x =? node)) [
    | inl e ↦ inl (inl (sym (eq_sound x node e)))
    | inr n ↦ elim (on_way path node xs all.1) [
      | inl i ↦ inl (inr i)
      | inr off ↦ inr (on_path-append x path node ∙ ground (arith, all.0), off)
    ]
  ]

  -- Where the search finds nothing, no way that keeps off the path leads to the SKU: one that comes
  -- back to the node is cut short, and any other goes on off the longer path.
  walk-none :
      (fuel n : ℕ) (node : String) (path xs : List String)
      → walk edges sku_id fuel node path ≡ no_cycle
      → length xs ≤ n
      → All (Off path) xs
      → ¬ Leads edges node xs sku_id
  unfolding walk
  walk-none zero n node path xs h le all way = absurd (cc)
  walk-none (suc fuel) n node path [] h le all way =
      let (closes, _) =
        try_edges-none sku_id node path (λ x. walk edges sku_id fuel x (path ++ (node ∷ [])))
          (get_or node [] edges) h sku_id way in
      closes refl
  walk-none (suc fuel) zero node path (x ∷ xs) h le all way = absurd (omega arith)
  walk-none (suc fuel) (suc n) node path (x ∷ xs) h le all (u, way) =
      elim (on_way path node (x ∷ xs) all) [
        | inl i ↦
            let (ys, rest, shorter, off) =
              shorter_way edges (Off path) node sku_id node (x ∷ xs) i all (u, way) in
            walk-none (suc fuel) n node path ys h (omega arith) off rest
        | inr off ↦
            let (_, tried) =
              try_edges-none sku_id node path (λ x. walk edges sku_id fuel x (path ++ (node ∷ [])))
                (get_or node [] edges) h x u in
            walk-none fuel (length xs) x (path ++ (node ∷ [])) xs (tried all.0) (omega arith) off.1
              way
      ]

-- A search that returns a loop returns a real one: it starts and ends at the SKU that is saved, and
-- each SKU on it is made of the next.
pub find_recipe_cycle-IsLoop :
    (recipes : List Recipe) (sku_id : String) (ingredient_sku_ids loop : List String)
    → find_recipe_cycle recipes sku_id ingredient_sku_ids ≡ cycle loop
    → IsLoop (recipe_edges recipes sku_id ingredient_sku_ids) sku_id loop
unfolding find_recipe_cycle
find_recipe_cycle-IsLoop recipes sku_id ingredient_sku_ids loop h =
    let edges = recipe_edges recipes sku_id ingredient_sku_ids in
    walk-IsLoop edges sku_id (2 * length edges + 1) sku_id [] loop (inl (refl, refl)) h

fresh_start : (xs : List String) → All (λ x. on_path x [] ≡ false) xs
fresh_start [] = tt
fresh_start (x ∷ xs) = (refl, fresh_start xs)

nothing_missed :
    (recipes : List Recipe) (sku_id : String) (ingredient_sku_ids xs : List String)
    → find_recipe_cycle recipes sku_id ingredient_sku_ids ≡ no_cycle
    → ¬ Leads (recipe_edges recipes sku_id ingredient_sku_ids) sku_id xs sku_id
unfolding find_recipe_cycle
nothing_missed recipes sku_id ingredient_sku_ids xs h =
    let edges = recipe_edges recipes sku_id ingredient_sku_ids in
    walk-none edges sku_id (2 * length edges + 1) (length xs) sku_id [] xs h (omega arith)
      (fresh_start xs)

-- The search comes back without a loop exactly when there is none: a recipe that would contain
-- itself, through any number of others, is never let through, and no other is refused.
pub find_recipe_cycle-no_cycle_iff :
    (recipes : List Recipe) (sku_id : String) (ingredient_sku_ids : List String)
    → (find_recipe_cycle recipes sku_id ingredient_sku_ids ≡ no_cycle) ↔ (
        (loop : List String)
        → ¬ IsLoop (recipe_edges recipes sku_id ingredient_sku_ids) sku_id loop)
find_recipe_cycle-no_cycle_iff recipes sku_id ingredient_sku_ids =
    let found = find_recipe_cycle recipes sku_id ingredient_sku_ids in
    (
      λ h loop (xs, e, way). nothing_missed recipes sku_id ingredient_sku_ids xs h way,
      λ none_there. decided found refl none_there,
    )
  where
    decided :
        (s : Search)
        → find_recipe_cycle recipes sku_id ingredient_sku_ids ≡ s
        → ((loop : List String)
            → ¬ IsLoop (recipe_edges recipes sku_id ingredient_sku_ids) sku_id loop)
        → s ≡ no_cycle
    decided out_of_fuel h none_there =
        absurd (find_recipe_cycle-ends recipes sku_id ingredient_sku_ids h)
    decided no_cycle h none_there = refl
    decided (cycle loop) h none_there =
        absurd (none_there loop (find_recipe_cycle-IsLoop recipes sku_id ingredient_sku_ids loop h))
