-- ===== src/Prelude/Dict.antt =====
-- A Python dict: an association list in insertion order.
use accounting_tool.Prelude.Tests.{if◌then◌else◌, Bool-cases}
use accounting_tool.Prelude.Equality.{Eq, eq_refl, eq_sound, ◌=?◌}
use mathlib.Core.Path.{◌≡◌, refl, sym, subst, ◌∙◌}
use mathlib.Core.Logic.{◌≢◌, inl, inr}
use mathlib.Core.Bool.{Bool, true, false}
use mathlib.Core.Option.{Option, none, some}
use mathlib.Core.List.{List, [], ◌∷◌, ◌++◌, map}
use native.Mathlib.Omega.{arith}

abbrev pub keys {ℓ κ} : {K : Type ℓ} {V : Type κ} → List (K × V) → List K
keys d = map (λ p. p.0) d

module _ {ℓ κ} {K : Type ℓ} {V : Type κ} ⦃e : Eq K⦄ where
  -- `d.get(k)`
  abbrev pub lookup : K → List (K × V) → Option V
  lookup k [] = none
  lookup k ((j, v) ∷ d) = if k =? j then some v else lookup k d

  -- `d.get(k, default)`
  abbrev pub get_or : K → V → List (K × V) → V
  get_or k v d = elim (lookup k d) [ none ↦ v | some w ↦ w ]

  -- `k in d`
  abbrev pub contains : K → List (K × V) → Bool
  contains k d = elim (lookup k d) [ none ↦ false | some _ ↦ true ]

  -- `d[k] = v`: a key that is there keeps its place.
  abbrev pub insert : K → V → List (K × V) → List (K × V)
  insert k v [] = (k, v) ∷ []
  insert k v ((j, w) ∷ d) = if k =? j then (j, v) ∷ d else (j, w) ∷ insert k v d

  -- `{k: v for ...}`: a later binding of a key replaces an earlier one.
  abbrev pub insert_all : List (K × V) → List (K × V) → List (K × V)
  insert_all [] d = d
  insert_all ((k, v) ∷ l) d = insert_all l (insert k v d)

  pub lookup-insert :
      (k j : K) (v : V) (d : List (K × V))
      → lookup j (insert k v d) ≡ (if j =? k then some v else lookup j d)
  lookup-insert k j v [] = refl
  lookup-insert k j v ((i, w) ∷ d) =
      ground (arith, e.beq_iff j k, e.beq_iff k i, e.beq_iff j i, lookup-insert k j v d)

  pub lookup-insert_self : (k : K) (v : V) (d : List (K × V)) → lookup k (insert k v d) ≡ some v
  lookup-insert_self k v d = rw (lookup-insert k k v d, eq_refl k)

  pub lookup-insert_ne :
      (k j : K) (v : V) (d : List (K × V)) → j ≢ k → lookup j (insert k v d) ≡ lookup j d
  lookup-insert_ne k j v d h = ground (arith, lookup-insert k j v d, e.beq_iff j k)

  pub get_or-insert :
      (k j : K) (v w : V) (d : List (K × V))
      → get_or j w (insert k v d) ≡ (if j =? k then v else get_or j w d)
  get_or-insert k j v w d = ground (arith, lookup-insert k j v d)

  pub lookup-absent :
      (k j : K) (v : V) (d : List (K × V))
      → lookup k ((j, v) ∷ d) ≡ none
      → ((k =? j) ≡ false) × (lookup k d ≡ none)
  lookup-absent k j v d h = ground (arith, h)

  pub lookup-cons_here :
      (k j : K) (v : V) (d : List (K × V)) → (k =? j) ≡ true → lookup k ((j, v) ∷ d) ≡ some v
  lookup-cons_here k j v d h = rw h refl

  pub lookup-cons_past :
      (k j : K) (v : V) (d : List (K × V)) → (k =? j) ≡ false → lookup k ((j, v) ∷ d) ≡ lookup k d
  lookup-cons_past k j v d h = rw h refl

-- No key of the dict is bound twice.
module _ {ℓ} {K : Type ℓ} {V : Type 0} ⦃e : Eq K⦄ where
  abbrev pub IsUnique : List (K × V) → Type 0
  IsUnique [] = Unit
  IsUnique ((k, v) ∷ d) = (lookup k d ≡ none) × IsUnique d

  insert-absent :
      (k j : K) (v : V) (d : List (K × V))
      → (k =? j) ≡ false
      → lookup k d ≡ none
      → lookup k (insert j v d) ≡ none
  insert-absent k j v d h absent = lookup-insert j k v d ∙ rw h absent

  pub insert-IsUnique : (k : K) (v : V) (d : List (K × V)) → IsUnique d → IsUnique (insert k v d)
  insert-IsUnique k v [] h = (refl, tt)
  insert-IsUnique k v ((j, w) ∷ d) h = elim (Bool-cases (k =? j)) [
    | inl here ↦ rw here h
    | inr past ↦
        let apart : (j =? k) ≡ false = ground (arith, e.beq_iff k j, e.beq_iff j k) in
        rw past (insert-absent j k v d apart h.0, insert-IsUnique k v d h.1)
  ]

  -- The keys of a dict that a comprehension makes are all different.
  pub insert_all-IsUnique : (l d : List (K × V)) → IsUnique d → IsUnique (insert_all l d)
  insert_all-IsUnique [] d h = h
  insert_all-IsUnique ((k, v) ∷ l) d h =
      insert_all-IsUnique l (insert k v d) (insert-IsUnique k v d h)

  -- What is found in the rest of such a dict is found in the whole.
  pub lookup-later :
      (k j : K) (v w : V) (d : List (K × V))
      → IsUnique ((j, w) ∷ d)
      → lookup k d ≡ some v
      → lookup k ((j, w) ∷ d) ≡ some v
  lookup-later k j v w d h there = elim (Bool-cases (k =? j)) [
    | inl here ↦
        let twice : lookup j d ≡ some v =
          subst (λ (i : K). lookup i d ≡ some v) (eq_sound k j here) there in
        let bad : none ≡ some v = sym h.0 ∙ twice in absurd (ground arith)
    | inr past ↦ lookup-cons_past k j w d past ∙ there
  ]

module _ {ℓ} {K : Type ℓ} {A : Type 0} ⦃e : Eq K⦄ where
  -- A loop of `d.setdefault(key(x), []).append(x)`
  abbrev pub group_by : (A → K) → List A → List (K × List A) → List (K × List A)
  group_by key [] d = d
  group_by key (x ∷ xs) d = group_by key xs (insert (key x) (get_or (key x) [] d ++ (x ∷ [])) d)
