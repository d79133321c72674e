-- ===== src/Recipes/Edges.antt =====
-- One loop over edges in the search of recipes.py: what it found, and what it tried.
use accounting_tool.Recipes.{try_edges, Search, on_path, cycle, no_cycle, or_later, out_of_fuel}
use accounting_tool.Prelude.{
  List, String, ◌≡◌, ◌∷◌, In, false, ◌++◌, [], ◌≢◌, ◌⊎◌, inr, inl, arith, Bool-cases, subst, sym,
  ◌=?◌, eq_sound, string_eq, refl, true,
}

or_later-found :
    (s later : Search) (p : List String)
    → or_later s later ≡ cycle p
    → (s ≡ cycle p) ⊎ (later ≡ cycle p)
or_later-found out_of_fuel later p h = absurd (cc)
or_later-found no_cycle later p h = inr h
or_later-found (cycle q) later p h = inl h

or_later-none :
    (s later : Search) → or_later s later ≡ no_cycle → (s ≡ no_cycle) × (later ≡ no_cycle)
or_later-none out_of_fuel later h = absurd (cc)
or_later-none no_cycle later h = (refl, h)
or_later-none (cycle q) later h = absurd (cc)

-- What a loop over edges found, and where.
pub try_edges-found :
    (sku_id node : String) (path : List String) (visit : String → Search) (l p : List String)
    → try_edges sku_id node path visit l ≡ cycle p
    → (In sku_id l × (p ≡ path ++ (node ∷ sku_id ∷ [])))
      ⊎ ((x : String) × In x l × (visit x ≡ cycle p))
unfolding try_edges
try_edges-found sku_id node path visit [] p h = absurd (cc)
try_edges-found sku_id node path visit (x ∷ l) p h =
    let later = try_edges sku_id node path visit l in
    elim (Bool-cases (x =? sku_id)) [
      | inl closes ↦ inl (inl (sym (eq_sound x sku_id closes)), ground arith)
      | inr goes_on ↦ elim (Bool-cases (on_path x path)) [
        | inl seen ↦ in_rest (try_edges-found sku_id node path visit l p (ground arith))
        | inr fresh ↦
            let g : or_later (visit x) later ≡ cycle p = ground arith in
            elim (or_later-found (visit x) later p g) [
              | inl e ↦ inr (x, inl refl, e)
              | inr e ↦ in_rest (try_edges-found sku_id node path visit l p e)
            ]
      ]
    ]
  where
    in_rest :
        (In sku_id l × (p ≡ path ++ (node ∷ sku_id ∷ [])))
          ⊎ ((y : String) × In y l × (visit y ≡ cycle p))
        → (In sku_id (x ∷ l) × (p ≡ path ++ (node ∷ sku_id ∷ [])))
          ⊎ ((y : String) × In y (x ∷ l) × (visit y ≡ cycle p))
    in_rest (inl (i, e)) = inl (inr i, e)
    in_rest (inr (y, i, e)) = inr (y, inr i, e)

-- A loop over edges that finds nothing has tried every edge.
pub try_edges-none :
    (sku_id node : String) (path : List String) (visit : String → Search) (l : List String)
    → try_edges sku_id node path visit l ≡ no_cycle
    → (x : String) → In x l
    → (x ≢ sku_id) × (on_path x path ≡ false → visit x ≡ no_cycle)
unfolding try_edges
try_edges-none sku_id node path visit [] h x i = absurd i
try_edges-none sku_id node path visit (y ∷ l) h x i =
    let later = try_edges sku_id node path visit l in
    elim (Bool-cases (y =? sku_id)) [
      | inl closes ↦ absurd (ground arith)
      | inr goes_on ↦
          let ne : y ≢ sku_id =
            λ e. let q : (y =? sku_id) ≡ true = (string_eq.beq_iff y sku_id).1 e in cc in
          let tried : on_path y path ≡ false → visit y ≡ no_cycle = λ fresh.
            let g : or_later (visit y) later ≡ no_cycle = ground arith in
            (or_later-none (visit y) later g).0 in
          let rest : later ≡ no_cycle = elim (Bool-cases (on_path y path)) [
            | inl seen ↦ ground arith
            | inr fresh ↦
                let g : or_later (visit y) later ≡ no_cycle = ground arith in
                (or_later-none (visit y) later g).1
          ] in
          elim i [
            | inl e ↦
                subst (λ t. (t ≢ sku_id) × (on_path t path ≡ false → visit t ≡ no_cycle)) (sym e)
                  (ne, tried)
            | inr j ↦ try_edges-none sku_id node path visit l rest x j
          ]
    ]
