-- ===== src/Loyverse/Store/Menu.antt =====
-- The menu history of loyverse/store.py, read back: what the recorded changes say of an item's name.
use accounting_tool.Prelude.Dict.{
  lookup, contains, lookup-absent, lookup-cons_here, lookup-cons_past, IsUnique,
}
use accounting_tool.Calendar.{DateTime}
use accounting_tool.Loyverse.Store.{
  MenuChangeKind, MenuDict, item_changes, incoming_changes, ChangeValue, MenuChange, MenuItem,
  name_text, added, price_text, price_change, renamed, discontinued, gone_changes, diff_menu,
  gone_change,
}
use accounting_tool.Prelude.{
  List, String, Option, any, [], ◌∷◌, ◌≡◌, some, ◌=?◌, if◌then◌else◌, ◌++◌, none, string_eq, refl,
  false, Option-cases, ◌&&◌, inl, arith, not, eq_refl, inr, Bool-cases, ◌∙◌, true, eq_sound, ap,
  subst, sym,
}

-- The name that a change's text gives.
abbrev pub text_name : Option ChangeValue → Option String
text_name none = none
text_name (some (name_text name)) = some name
text_name (some (price_text price)) = none

-- What an auditor reads from one change about the item's name.
abbrev pub change_name : MenuChangeKind → Option ChangeValue → Option String → Option String
change_name added to_value name = text_name to_value
change_name price_change to_value name = name
change_name renamed to_value name = text_name to_value
change_name discontinued to_value name = none

-- The name of the item after the changes, `none` when it is not on the menu.
abbrev pub name_after : String → List MenuChange → Option String → Option String
name_after k [] name = name
name_after k (c ∷ changes) name =
    name_after k changes
      (if k =? c.item_id then change_name c.change_kind c.to_value name else name)

abbrev pub menu_name : String → MenuDict → Option String
menu_name k menu = elim (lookup k menu) [ none ↦ none | some item ↦ some item.name ]

-- `gone` lists the set difference of the two menus' keys, in some order.
abbrev pub IsDifference : List String → MenuDict → MenuDict → Type 0
IsDifference gone previous incoming =
    (k : String) → any (λ j. k =? j) gone ≡ (contains k previous && not (contains k incoming))

pub name_after-append :
    (k : String) (xs ys : List MenuChange) (name : Option String)
    → name_after k (xs ++ ys) name ≡ name_after k ys (name_after k xs name)
name_after-append k [] ys name = refl
name_after-append k (c ∷ xs) ys name =
    name_after-append k xs ys
      (if k =? c.item_id then change_name c.change_kind c.to_value name else name)

-- The changes of one incoming item give it its new name,
item_changes_mine :
    (at_time : DateTime) (k : String) (previous : MenuDict) (new : MenuItem)
    → name_after k (item_changes at_time k (lookup k previous) new) (menu_name k previous)
      ≡ some new.name
unfolding item_changes
item_changes_mine at_time k previous new = elim (Option-cases (lookup k previous)) [
  | inl e ↦ rw (e, eq_refl k) refl
  | inr (old, e) ↦ rw e (ground (arith, eq_refl k, string_eq.beq_iff new.name old.name))
]

-- and say nothing of another.
item_changes_other :
    (at_time : DateTime) (k j : String) (old : Option MenuItem) (new : MenuItem)
    (name : Option String)
    → (k =? j) ≡ false
    → name_after k (item_changes at_time j old new) name ≡ name
unfolding item_changes
item_changes_other at_time k j none new name h = rw h refl
item_changes_other at_time k j (some old) new name h = ground (arith, h)

incoming_changes_absent :
    (at_time : DateTime) (k : String) (previous incoming : MenuDict) (name : Option String)
    → lookup k incoming ≡ none
    → name_after k (incoming_changes at_time previous incoming) name ≡ name
unfolding incoming_changes
incoming_changes_absent at_time k previous [] name h = refl
incoming_changes_absent at_time k previous ((j, new) ∷ incoming) name h =
    let apart = lookup-absent k j new incoming h in
    name_after-append k (item_changes at_time j (lookup j previous) new)
      (incoming_changes at_time previous incoming) name
    ∙ rw (item_changes_other at_time k j (lookup j previous) new name apart.0)
        (incoming_changes_absent at_time k previous incoming name apart.1)

-- The name in the first menu, or else in the second.
abbrev name_in : String → Option MenuItem → MenuDict → Option String
name_in k none previous = menu_name k previous
name_in k (some new) previous = some new.name

-- After the incoming items' changes an item of the incoming menu has its name there, and another
-- the name it had.
incoming_changes_lem :
    (at_time : DateTime) (k : String) (previous incoming : MenuDict)
    → IsUnique incoming
    → name_after k (incoming_changes at_time previous incoming) (menu_name k previous)
      ≡ name_in k (lookup k incoming) previous
unfolding incoming_changes
incoming_changes_lem at_time k previous [] h = refl
incoming_changes_lem at_time k previous ((j, new) ∷ incoming) h =
    let step =
      name_after-append k (item_changes at_time j (lookup j previous) new)
        (incoming_changes at_time previous incoming) (menu_name k previous) in
    elim (Bool-cases (k =? j)) [
      | inl mine ↦
          let e = eq_sound k j mine in
          let absent = subst (λ i. lookup i incoming ≡ none) (sym e) h.0 in
          let first =
            subst
              (λ i.
                name_after k (item_changes at_time i (lookup i previous) new) (menu_name k previous)
                ≡ some new.name)
              e (item_changes_mine at_time k previous new) in
          step
          ∙ ap (name_after k (incoming_changes at_time previous incoming)) first
          ∙ incoming_changes_absent at_time k previous incoming (some new.name) absent
          ∙ ap (λ o. name_in k o previous) (sym (lookup-cons_here k j new incoming mine))
      | inr other ↦
          step
          ∙ ap (name_after k (incoming_changes at_time previous incoming))
              (item_changes_other at_time k j (lookup j previous) new (menu_name k previous) other)
          ∙ incoming_changes_lem at_time k previous incoming h.1
          ∙ ap (λ o. name_in k o previous) (sym (lookup-cons_past k j new incoming other))
    ]

gone_change_mine :
    (at_time : DateTime) (k : String) (previous : MenuDict) (name : Option String)
    → contains k previous ≡ true
    → name_after k (gone_change at_time k (lookup k previous)) name ≡ none
unfolding gone_change
gone_change_mine at_time k previous name there = elim (Option-cases (lookup k previous)) [
  | inl e ↦ absurd (ground (arith, there, e))
  | inr (old, e) ↦ rw (e, eq_refl k) refl
]

gone_change_other :
    (at_time : DateTime) (k j : String) (old : Option MenuItem) (name : Option String)
    → (k =? j) ≡ false
    → name_after k (gone_change at_time j old) name ≡ name
unfolding gone_change
gone_change_other at_time k j none name h = refl
gone_change_other at_time k j (some old) name h = rw h refl

gone_change-none :
    (at_time : DateTime) (k j : String) (old : Option MenuItem)
    → name_after k (gone_change at_time j old) none ≡ none
unfolding gone_change
gone_change-none at_time k j none = refl
gone_change-none at_time k j (some old) = ground arith

gone_changes_cons :
    (at_time : DateTime) (k j : String) (previous : MenuDict) (gone : List String)
    (name after : Option String)
    → name_after k (gone_change at_time j (lookup j previous)) name ≡ after
    → name_after k (gone_changes at_time previous (j ∷ gone)) name
      ≡ name_after k (gone_changes at_time previous gone) after
unfolding gone_changes
gone_changes_cons at_time k j previous gone name after h =
    name_after-append k (gone_change at_time j (lookup j previous))
      (gone_changes at_time previous gone) name
    ∙ ap (name_after k (gone_changes at_time previous gone)) h

gone_changes-none :
    (at_time : DateTime) (k : String) (previous : MenuDict) (gone : List String)
    → name_after k (gone_changes at_time previous gone) none ≡ none
unfolding gone_changes
gone_changes-none at_time k previous [] = refl
gone_changes-none at_time k previous (j ∷ gone) =
    gone_changes_cons at_time k j previous gone none none
      (gone_change-none at_time k j (lookup j previous))
    ∙ gone_changes-none at_time k previous gone

-- The discontinuations take a listed item off,
gone_changes_listed :
    (at_time : DateTime) (k : String) (previous : MenuDict) (gone : List String)
    (name : Option String)
    → any (λ j. k =? j) gone ≡ true
    → contains k previous ≡ true
    → name_after k (gone_changes at_time previous gone) name ≡ none
unfolding gone_changes
gone_changes_listed at_time k previous [] name h there = absurd (ground (arith, h))
gone_changes_listed at_time k previous (j ∷ gone) name h there = elim (Bool-cases (k =? j)) [
  | inl mine ↦
      let here =
        subst (λ i. name_after k (gone_change at_time i (lookup i previous)) name ≡ none)
          (eq_sound k j mine) (gone_change_mine at_time k previous name there) in
      gone_changes_cons at_time k j previous gone name none here
      ∙ gone_changes-none at_time k previous gone
  | inr other ↦
      let later : any (λ i. k =? i) gone ≡ true = ground (arith, h, other) in
      gone_changes_cons at_time k j previous gone name name
        (gone_change_other at_time k j (lookup j previous) name other)
      ∙ gone_changes_listed at_time k previous gone name later there
]

-- and leave another.
gone_changes_unlisted :
    (at_time : DateTime) (k : String) (previous : MenuDict) (gone : List String)
    (name : Option String)
    → any (λ j. k =? j) gone ≡ false
    → name_after k (gone_changes at_time previous gone) name ≡ name
unfolding gone_changes
gone_changes_unlisted at_time k previous [] name h = refl
gone_changes_unlisted at_time k previous (j ∷ gone) name h =
    let other : (k =? j) ≡ false = ground (arith, h) in
    let later : any (λ i. k =? i) gone ≡ false = ground (arith, h) in
    gone_changes_cons at_time k j previous gone name name
      (gone_change_other at_time k j (lookup j previous) name other)
    ∙ gone_changes_unlisted at_time k previous gone name later

-- The changes that `diff_menu` records lead from the names of the previous menu to the names of
-- the incoming one, for every item: a name is added, changed or taken off as the menus say, when
-- the incoming menu binds no id twice and `gone` lists the set difference, in any order.
pub diff_menu-replay :
    (previous incoming : MenuDict) (gone : List String) (at_time : DateTime) (k : String)
    → IsUnique incoming
    → IsDifference gone previous incoming
    → name_after k (diff_menu previous incoming gone at_time) (menu_name k previous)
      ≡ menu_name k incoming
unfolding diff_menu
diff_menu-replay previous incoming gone at_time k unique difference =
    name_after-append k (incoming_changes at_time previous incoming)
      (gone_changes at_time previous gone) (menu_name k previous)
    ∙ ap (name_after k (gone_changes at_time previous gone))
        (incoming_changes_lem at_time k previous incoming unique)
    ∙ elim (Option-cases (lookup k incoming)) [
      | inr (new, e) ↦
          let kept : any (λ j. k =? j) gone ≡ false = difference k ∙ ground (arith, e) in
          gone_changes_unlisted at_time k previous gone (name_in k (lookup k incoming) previous)
            kept
          ∙ rw (menu_name, e) refl
      | inl e ↦ elim (Bool-cases (contains k previous)) [
        | inl there ↦
            let listed : any (λ j. k =? j) gone ≡ true = difference k ∙ ground (arith, e, there) in
            gone_changes_listed at_time k previous gone (name_in k (lookup k incoming) previous)
              listed there
            ∙ rw (menu_name, e) refl
        | inr away ↦
            let kept : any (λ j. k =? j) gone ≡ false = difference k ∙ ground (arith, e, away) in
            gone_changes_unlisted at_time k previous gone (name_in k (lookup k incoming) previous)
              kept
            ∙ ground (arith, e, away)
      ]
    ]
