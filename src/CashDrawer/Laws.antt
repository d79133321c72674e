-- ===== src/CashDrawer/Laws.antt =====
-- What the drawer's records of cash_drawer.py add up to.
use accounting_tool.Decimal.Sums.{total-nil, total-cons}
use accounting_tool.Decimal.Laws.{plus_zero, plus_interchange, plus_assoc}
use accounting_tool.Decimal.Congruence.{
  Same-of_eq, AtMost-antisymm, Same-trans, AtMost-of_Same, Same-sym, Same-plus, Same-plus-minus,
  Same-refl,
}
use accounting_tool.Decimal.Value.{Same, AtMost, absolute-minus_iff, less_iff}
use accounting_tool.CashDrawer.{
  check_handoff, DateTime, HandoffRecount, default_handoff_tolerance, close_shift, plus, absolute,
  minus,
}
use accounting_tool.Types.{ShiftClose}
use accounting_tool.Decimal.{Money, total}
use accounting_tool.Prelude.{String, List, ◌∷◌, ◌≡◌, false, [], ◌↔◌, map, subst, sym, ap, ◌∙◌}

-- One shift as it is entered at the till.
pub record ShiftEntry : Type 0 where
  pub shift_id : String
  pub cashier_id : String
  pub closed_at : DateTime
  pub closing_cash : Money
  pub rung_up_cash : Money

-- The shifts of a drawer, each opened with what the one before was closed with.
abbrev pub thread_shifts : Money → List ShiftEntry → List ShiftClose
thread_shifts opening [] = []
thread_shifts opening (s ∷ shifts) =
    close_shift s.shift_id s.cashier_id s.closed_at opening s.closing_cash s.rung_up_cash
    ∷ thread_shifts s.closing_cash shifts

abbrev pub final_cash : Money → List ShiftEntry → Money
final_cash opening [] = opening
final_cash opening (s ∷ shifts) = final_cash s.closing_cash shifts

-- One shift's share of the sums is moved to the front.
regroup :
    (o r v rung var : Money)
    → plus o (plus (plus r rung) (plus v var)) ≡ plus (plus (plus o r) v) (plus rung var)
regroup o r v rung var =
    ap (plus o) (plus_interchange r rung v var)
    ∙ sym (plus_assoc o (plus r v) (plus rung var))
    ∙ ap (λ t. plus t (plus rung var)) (sym (plus_assoc o r v))

-- Over any run of shifts the variances explain the drawer: the opening cash, what was rung up and
-- the variances come to the last closing cash.
pub thread_shifts-balance :
    (opening : Money) (shifts : List ShiftEntry)
    → let closes = thread_shifts opening shifts in
      Same
        (plus opening
          (plus (total (map (λ c. c.rung_up_cash) closes)) (total (map (λ c. c.variance) closes))))
        (final_cash opening shifts)
unfolding close_shift
thread_shifts-balance opening [] = Same-of_eq (simp (total-nil, plus_zero))
thread_shifts-balance opening (s ∷ shifts) =
    let closes = thread_shifts s.closing_cash shifts in
    let rung = total (map (λ c. c.rung_up_cash) closes) in
    let var = total (map (λ c. c.variance) closes) in
    let expected = plus opening s.rung_up_cash in
    let variance = minus s.closing_cash expected in
    rw
      (
        total-cons s.rung_up_cash (map (λ c. c.rung_up_cash) closes),
        total-cons variance (map (λ c. c.variance) closes),
        regroup opening s.rung_up_cash variance rung var,
      )
      (Same-trans (plus (plus expected variance) (plus rung var))
        (plus s.closing_cash (plus rung var)) (final_cash s.closing_cash shifts)
        (Same-plus (plus expected variance) s.closing_cash (plus rung var) (plus rung var)
          (Same-plus-minus expected s.closing_cash) (Same-refl (plus rung var)))
        (thread_shifts-balance s.closing_cash shifts))

-- A handoff is let through exactly when the recount and the reported cash are within the tolerance
-- of each other, both ways; the discrepancy is recorded in either case.
pub check_handoff-is_blocked :
    (outgoing : ShiftClose) (recount : HandoffRecount) (tolerance : Money)
    → (check_handoff outgoing recount tolerance).is_blocked ≡ false ↔ (
        AtMost recount.recounted_cash (plus outgoing.closing_cash tolerance)
        × AtMost outgoing.closing_cash (plus recount.recounted_cash tolerance))
unfolding check_handoff
check_handoff-is_blocked outgoing recount tolerance =
    let gap = absolute (minus recount.recounted_cash outgoing.closing_cash) in
    let close = absolute-minus_iff recount.recounted_cash outgoing.closing_cash tolerance in
    (λ h. close.0 ((less_iff tolerance gap).0 h), λ h. (less_iff tolerance gap).1 (close.1 h))

-- With the default tolerance a handoff is let through exactly when the two amounts are equal.
pub check_handoff-default :
    (outgoing : ShiftClose) (recount : HandoffRecount)
    → (check_handoff outgoing recount default_handoff_tolerance).is_blocked ≡ false
      ↔ Same recount.recounted_cash outgoing.closing_cash
check_handoff-default outgoing recount =
    let a = recount.recounted_cash in
    let b = outgoing.closing_cash in
    let rule = check_handoff-is_blocked outgoing recount default_handoff_tolerance in
    (
      λ h.
          let g = rule.0 h in
          AtMost-antisymm a b (subst (AtMost a) (plus_zero b) g.0)
            (subst (AtMost b) (plus_zero a) g.1),
      λ h. rule.1 (
        subst (AtMost a) (sym (plus_zero b)) (AtMost-of_Same a b h),
        subst (AtMost b) (sym (plus_zero a)) (AtMost-of_Same b a (Same-sym a b h)),
      ),
    )
