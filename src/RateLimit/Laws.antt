-- ===== src/RateLimit/Laws.antt =====
-- How many login attempts the limiter of ratelimit.py lets through.
use accounting_tool.Prelude.Dict.{lookup-insert_self, lookup-insert_ne}
use accounting_tool.RateLimit.{Limiter, allow, lookup, current_window}
use accounting_tool.Prelude.{
  ℕ, List, String, ◌≢◌, All, ◌≤◌, ◌≡◌, some, true, ◌<◌, arith, ◌+◌, ltb, min, string_eq, ◌-◌,
  if◌then◌else◌, ◌∷◌, [], Bool-cases, ◌=?◌, subst, ◌&&◌, sym, inl, eq_refl, eq_sound, inr, ◌∙◌,
  Option-cases, refl,
}

abbrev pub Attempt : Type 0
Attempt = String × ℕ

-- The limiter after a sequence of attempts, with the clock that each was made at.
unfoldable pub run_attempts : Limiter → List Attempt → Limiter
run_attempts l [] = l
run_attempts l ((key, now) ∷ rest) = run_attempts (allow l key now).0 rest

-- The attempts of one client, and those of them that were let through.
unfoldable pub attempts_of : String → List Attempt → ℕ
attempts_of key [] = 0
attempts_of key ((j, now) ∷ rest) = (if key =? j then 1 else 0) + attempts_of key rest

unfoldable pub allowed_of : String → Limiter → List Attempt → ℕ
allowed_of key l [] = 0
allowed_of key l ((j, now) ∷ rest) =
    (if (key =? j) && (allow l j now).1 then 1 else 0) + allowed_of key (allow l j now).0 rest

-- The attempts of the client all fall before `stop`.
abbrev pub Before : String → ℕ → List Attempt → Type 0
Before key stop attempts = All (λ a. key ≡ a.0 → a.1 < stop) attempts

-- An attempt of one client leaves the counts of the others and the limits alone.
pub allow-others :
    (l : Limiter) (key other : String) (now : ℕ)
    → other ≢ key
    → let after = (allow l key now).0 in
      (lookup other after.buckets ≡ lookup other l.buckets)
      × (after.max_attempts ≡ l.max_attempts)
      × (after.window ≡ l.window)
unfolding allow
allow-others l key other now ne =
    let (start, count) = current_window l.window (lookup key l.buckets) now in
    ground (
      arith,
      lookup-insert_ne key other (start, count) l.buckets ne,
      lookup-insert_ne key other (start, count + 1) l.buckets ne,
    )

-- Within a live window an attempt is let through while the budget lasts and is counted; past it
-- the attempt is refused and nothing changes.
allow-live :
    (l : Limiter) (key : String) (start count now : ℕ)
    → lookup key l.buckets ≡ some (start, count)
    → now < start + l.window
    → let (after, let_through) = allow l key now in
      (let_through ≡ ltb count l.max_attempts)
      × (lookup key after.buckets
          ≡ some (start, if ltb count l.max_attempts then count + 1 else count))
      × (after.max_attempts ≡ l.max_attempts)
      × (after.window ≡ l.window)
unfolding allow current_window
allow-live l key start count now e h = ground (
  arith,
  lookup-insert_self key (start, count) l.buckets,
  lookup-insert_self key (start, count + 1) l.buckets,
)

-- An attempt with no live window opens one and is let through.
pub allow-opens :
    (l : Limiter) (key : String) (now : ℕ)
    → 1 ≤ l.max_attempts
    → current_window l.window (lookup key l.buckets) now ≡ (now, 0)
    → let (after, let_through) = allow l key now in
      (let_through ≡ true)
      × (lookup key after.buckets ≡ some (now, 1))
      × (after.max_attempts ≡ l.max_attempts)
      × (after.window ≡ l.window)
unfolding allow
allow-opens l key now h e = rw e (ground (arith, lookup-insert_self key (now, 1) l.buckets))

-- What holds of a client and its live window after some attempts.
abbrev IsLive : String → Limiter → ℕ → ℕ → Limiter → Type 0
IsLive key l start count after =
    (lookup key after.buckets ≡ some (start, count))
    × (count ≤ after.max_attempts)
    × (after.window ≡ l.window)
    × (after.max_attempts ≡ l.max_attempts)

allowed_of-IsLive :
    (attempts : List Attempt) (l : Limiter) (key : String) (start count : ℕ)
    → lookup key l.buckets ≡ some (start, count)
    → count ≤ l.max_attempts
    → Before key (start + l.window) attempts
    → (allowed_of key l attempts ≡ min (attempts_of key attempts) (l.max_attempts - count))
      × ((c : ℕ) × IsLive key l start c (run_attempts l attempts))
unfolding allowed_of attempts_of run_attempts
allowed_of-IsLive [] l key start count e h b = (omega arith, (count, (e, h, refl, refl)))
allowed_of-IsLive ((j, now) ∷ rest) l key start count e h b = elim (Bool-cases (key =? j)) [
  | inl same ↦
      let k = eq_sound key j same in
      let (through, kept, maxes, windows) = allow-live l key start count now e (b.0 k) in
      let after = (allow l key now).0 in
      let count' = if ltb count l.max_attempts then count + 1 else count in
      let (number, (c, live)) =
        allowed_of-IsLive rest after key start count' kept (ground arith)
          (subst (λ w. Before key (start + w) rest) (sym windows) b.1) in
      rw (← k, eq_refl key, through) (ground arith, (c, ground arith))
  | inr other ↦
      let ne : key ≢ j = λ q. let y : (key =? j) ≡ true = (string_eq.beq_iff key j).1 q in cc in
      let (kept, maxes, windows) = allow-others l j key now ne in
      let after = (allow l j now).0 in
      let (number, (c, live)) =
        allowed_of-IsLive rest after key start count (kept ∙ e) (rw maxes h)
          (subst (λ w. Before key (start + w) rest) (sym windows) b.1) in
      rw other (ground arith, (c, ground arith))
]

-- In the window that a client's attempt opens, and among the attempts of any other clients, the
-- number of its attempts that are let through is that of its attempts or the budget, whichever is
-- less.
pub allowed_of-window :
    (l : Limiter) (key : String) (now : ℕ) (rest : List Attempt)
    → 1 ≤ l.max_attempts
    → current_window l.window (lookup key l.buckets) now ≡ (now, 0)
    → Before key (now + l.window) rest
    → allowed_of key l ((key, now) ∷ rest)
      ≡ min (attempts_of key ((key, now) ∷ rest)) l.max_attempts
unfolding allowed_of attempts_of
allowed_of-window l key now rest h e b =
    let (through, kept, maxes, windows) = allow-opens l key now h e in
    let after = (allow l key now).0 in
    let (number, _) =
      allowed_of-IsLive rest after key now 1 kept (rw maxes h)
        (subst (λ w. Before key (now + w) rest) (sym windows) b) in
    rw (eq_refl key, through) (ground arith)

-- However many attempts are refused in a window, the first one after its end is let through: a
-- client cannot put off the end of its own lockout.
pub allow-after_window :
    (l : Limiter) (key : String) (start count now : ℕ) (attempts : List Attempt)
    → 1 ≤ l.max_attempts
    → lookup key l.buckets ≡ some (start, count)
    → count ≤ l.max_attempts
    → Before key (start + l.window) attempts
    → start + l.window ≤ now
    → (allow (run_attempts l attempts) key now).1 ≡ true
unfolding current_window
allow-after_window l key start count now attempts h e g b late =
    let after = run_attempts l attempts in
    let (_, (c, (kept, _, windows, maxes))) = allowed_of-IsLive attempts l key start count e g b in
    (allow-opens after key now (rw maxes h) (rolls after c kept (rw windows late))).0
  where
    rolls :
        (m : Limiter) (c : ℕ)
        → lookup key m.buckets ≡ some (start, c)
        → start + m.window ≤ now
        → current_window m.window (lookup key m.buckets) now ≡ (now, 0)
    rolls m c k w = ground arith

-- Every count lies between one and the budget.
abbrev pub IsValid : Limiter → Type 0
IsValid l =
    (1 ≤ l.max_attempts)
    × (1 ≤ l.window)
    × ((key : String) (start count : ℕ)
        → lookup key l.buckets ≡ some (start, count)
        → (1 ≤ count) × (count ≤ l.max_attempts))

allow-own :
    (l : Limiter) (key : String) (now start count : ℕ)
    → IsValid l
    → lookup key (allow l key now).0.buckets ≡ some (start, count)
    → (1 ≤ count) × (count ≤ l.max_attempts)
unfolding allow current_window
allow-own l key now start count v e = elim (Option-cases (lookup key l.buckets)) [
  | inl fresh ↦
      ground (
        arith,
        lookup-insert_self key (now, 0) l.buckets,
        lookup-insert_self key (now, 1) l.buckets,
      )
  | inr ((s, c), old) ↦ ground (
    arith,
    v.2 key s c old,
    lookup-insert_self key (now, 0) l.buckets,
    lookup-insert_self key (now, 1) l.buckets,
    lookup-insert_self key (s, c) l.buckets,
    lookup-insert_self key (s, c + 1) l.buckets,
  )
]

maxes : (l : Limiter) (key : String) (now : ℕ) → (allow l key now).0.max_attempts ≡ l.max_attempts
unfolding allow
maxes l key now = ground arith

-- Every attempt keeps each client's count between one and the budget.
pub allow-IsValid : (l : Limiter) (key : String) (now : ℕ) → IsValid l → IsValid (allow l key now).0
unfolding allow current_window
allow-IsValid l key now v = (
  ground arith,
  ground arith,
  λ other start count e. elim (Bool-cases (other =? key)) [
    | inl same ↦
        let k = eq_sound other key same in
        rw (maxes l key now) (
          allow-own l key now start count v
            (subst (λ t. lookup t (allow l key now).0.buckets ≡ some (start, count)) k e))
    | inr different ↦
        let ne : other ≢ key =
          λ q. let y : (other =? key) ≡ true = (string_eq.beq_iff other key).1 q in cc in
        let rest = allow-others l key other now ne in
        rw rest.1 (v.2 other start count (sym rest.0 ∙ e))
  ],
)
