-- ===== src/Recipes/Loops.antt =====
-- Loops of recipes: what the search in recipes.py looks for.
use accounting_tool.Prelude.Dict.{get_or}
use accounting_tool.Prelude.{
  List, String, ◌++◌, ◌∷◌, In, All, [], string_eq, length, ◌<◌, inl, subst, sym, arith, inr,
}

module _ (edges : List (String × List String)) where
  -- One SKU is made of another.
  abbrev pub Uses : String → String → Type 0
  Uses a b = In b (get_or a [] edges)

  -- From one SKU through others, in this order, to the last.
  abbrev pub Leads : String → List String → String → Type 0
  Leads a [] b = Uses a b
  Leads a (x ∷ xs) b = Uses a x × Leads x xs b

  pub Leads-append :
      (a b c : String) (xs ys : List String)
      → Leads a xs b
      → Leads b ys c
      → Leads a (xs ++ (b ∷ ys)) c
  Leads-append a b c [] ys h g = (h, g)
  Leads-append a b c (x ∷ xs) ys (u, h) g = (u, Leads-append x b c xs ys h g)

  -- A way that comes by a SKU is shorter from there.
  pub shorter_way :
      (P : String → Type 0) (a b node : String) (xs : List String)
      → In node xs
      → All P xs
      → Leads a xs b
      → (ys : List String) × Leads node ys b × (length ys < length xs) × All P ys
  shorter_way P a b node [] i all h = absurd i
  shorter_way P a b node (x ∷ xs) (inl e) all (u, h) =
      (xs, subst (λ t. Leads t xs b) (sym e) h, omega arith, all.1)
  shorter_way P a b node (x ∷ xs) (inr i) all (u, h) =
      let (ys, way, shorter, off) = shorter_way P x b node xs i all.1 h in
      (ys, way, omega arith, off)
