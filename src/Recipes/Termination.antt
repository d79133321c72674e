-- ===== src/Recipes/Termination.antt =====
-- The search for a recipe that contains itself, in recipes.py, always ends.
use accounting_tool.Types.{Recipe}
use accounting_tool.Prelude.Dict.{keys, get_or}
use accounting_tool.Recipes.{
  Search, try_edges, on_path, out_of_fuel, or_later, cycle, no_cycle, find_recipe_cycle, walk,
  recipe_edges,
}
use accounting_tool.Prelude.{
  ℕ, List, String, ◌++◌, In, ◌≢◌, ◌*◌, length, keep, ◌≡◌, ◌∷◌, [], not, ◌+◌, false, ◌⊎◌, ◌||◌, ◌≤◌,
  ◌<◌, Bool-cases, if◌then◌else◌, inr, arith, ◌=?◌, string_eq, refl, inl, true, eq_sound, sym,
  subst, Bool, suc, zero, length-map,
}

or_later_ends :
    (s later : Search) → s ≢ out_of_fuel → later ≢ out_of_fuel → or_later s later ≢ out_of_fuel
or_later_ends out_of_fuel later h g = absurd (h refl)
or_later_ends no_cycle later h g = g
or_later_ends (cycle p) later h g = λ e. cc

-- A loop over edges ends if every visit that it makes does.
try_edges_ends :
    (sku_id node : String) (path : List String) (visit : String → Search) (l : List String)
    → ((x : String) → In x l → on_path x path ≡ false → visit x ≢ out_of_fuel)
    → try_edges sku_id node path visit l ≢ out_of_fuel
unfolding try_edges
try_edges_ends sku_id node path visit [] h = λ e. cc
try_edges_ends sku_id node path visit (x ∷ l) h =
    let ih = try_edges_ends sku_id node path visit l (λ y i. h y (inr i)) in
    elim (Bool-cases (x =? sku_id)) [
      | inl closes ↦ rw closes (λ e. cc)
      | inr goes_on ↦ elim (Bool-cases (on_path x path)) [
        | inl seen ↦ rw (goes_on, seen) ih
        | inr fresh ↦
            rw (goes_on, fresh)
              (or_later_ends (visit x) (try_edges sku_id node path visit l) (h x (inl refl) fresh)
                ih)
      ]
    ]

pub on_path-append :
    (x : String) (path : List String) (node : String)
    → on_path x (path ++ (node ∷ [])) ≡ (on_path x path || x =? node)
on_path-append x [] node = ground arith
on_path-append x (y ∷ path) node = ground (arith, on_path-append x path node)

-- How many of the keys are not on the path.
abbrev free : List String → List String → ℕ
free path ks = length (keep (λ k. not (on_path k path)) ks)

free_shrinks :
    (path : List String) (node : String) (ks : List String)
    → (free (path ++ (node ∷ [])) ks ≤ free path ks)
      × (on_path node path ≡ false → In node ks → free (path ++ (node ∷ [])) ks < free path ks)
free_shrinks path node [] = (omega arith, λ h i. absurd i)
free_shrinks path node (k ∷ ks) =
    let (le, lt) = free_shrinks path node ks in
    let split = on_path-append k path node in
    (
      ground (arith, split),
      λ h i. elim i [
        | inl e ↦
            let same : (k =? node) ≡ true = (string_eq.beq_iff k node).1 (sym e) in
            let off : on_path k path ≡ false = subst (λ t. on_path t path ≡ false) e h in
            ground (arith, split)
        | inr i ↦ let lower = lt h i in ground (arith, split)
      ],
    )

-- A visit costs the keys that are off the path twice, and once more for a node that is on it: the
-- search enters a node that is made of itself a second time.
abbrev cost : List (String × List String) → String → List String → ℕ
cost edges node path = 2 * free path (keys edges) + (if on_path node path then 1 else 0)

key_or_none :
    (edges : List (String × List String)) (node : String)
    → In node (keys edges) ⊎ (get_or node [] edges ≡ [])
key_or_none [] node = inr refl
key_or_none ((k, v) ∷ edges) node = elim (Bool-cases (node =? k)) [
  | inl e ↦ inl (inl (eq_sound node k e))
  | inr n ↦ elim (key_or_none edges node) [
    | inl i ↦ inl (inr i)
    | inr none_there ↦ inr (rw (get_or, n) none_there)
  ]
]

visit_costs_less :
    (edges : List (String × List String)) (node x : String) (path : List String)
    → In node (keys edges)
    → on_path x path ≡ false
    → cost edges x (path ++ (node ∷ [])) < cost edges node path
visit_costs_less edges node x path i fresh =
    let (le, lt) = free_shrinks path node (keys edges) in
    let split = on_path-append x path node in
    elim (Bool-cases (on_path node path)) [
      | inl again ↦
          let differs : (x =? node) ≡ false = elim (Bool-cases (x =? node)) [
            | inl e ↦
                let bad : on_path x path ≡ true =
                  subst (λ t. on_path t path ≡ true) (sym (eq_sound x node e)) again in
                absurd (cc)
            | inr n ↦ n
          ] in
          ground (arith, split)
      | inr once ↦ let lower = lt once i in ground (arith, split)
    ]

walk_ends :
    (edges : List (String × List String)) (sku_id : String) (fuel : ℕ) (node : String)
    (path : List String)
    → cost edges node path < fuel
    → walk edges sku_id fuel node path ≢ out_of_fuel
unfolding walk
walk_ends edges sku_id zero node path h = absurd (omega arith)
walk_ends edges sku_id (suc fuel) node path h = elim (key_or_none edges node) [
  | inl i ↦
      try_edges_ends sku_id node path (λ x. walk edges sku_id fuel x (path ++ (node ∷ [])))
        (get_or node [] edges)
        (λ x _ fresh.
          let less = visit_costs_less edges node x path i fresh in
          walk_ends edges sku_id fuel x (path ++ (node ∷ [])) (omega arith))
  | inr leaf ↦ rw leaf (
      try_edges_ends sku_id node path (λ x. walk edges sku_id fuel x (path ++ (node ∷ []))) []
        (λ x i. absurd i))
]

length-keep : (p : String → Bool) (l : List String) → length (keep p l) ≤ length l
length-keep p [] = omega arith
length-keep p (x ∷ l) = ground (arith, length-keep p l)

-- The fuel is enough for any recipes: the search always ends with a loop or without one.
pub find_recipe_cycle-ends :
    (recipes : List Recipe) (sku_id : String) (ingredient_sku_ids : List String)
    → find_recipe_cycle recipes sku_id ingredient_sku_ids ≢ out_of_fuel
unfolding find_recipe_cycle
find_recipe_cycle-ends recipes sku_id ingredient_sku_ids =
    let edges = recipe_edges recipes sku_id ingredient_sku_ids in
    let few = length-keep (λ k. not (on_path k [])) (keys edges) in
    let all = length-map (λ p. p.0) edges in
    walk_ends edges sku_id (2 * length edges + 1) sku_id [] (omega arith)
