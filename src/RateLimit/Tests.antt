-- ===== src/RateLimit/Tests.antt =====
-- The theorems about ratelimit.py at a small budget.
use accounting_tool.RateLimit.Laws.{
  allowed_of, Attempt, run_attempts, attempts_of, allowed_of-window,
}
use accounting_tool.RateLimit.{allow, current_window, Limiter}
use accounting_tool.Prelude.{ℕ, List, ◌∷◌, [], ◌≡◌, arith, min, refl, string_eq, none, some}

abbrev limiter : Limiter
limiter = record { max_attempts = 2; window = 60; buckets = [] }

-- Three attempts of one client and one of another within a minute.
abbrev minute : List Attempt
minute = ("a", 110) ∷ ("b", 115) ∷ ("a", 120) ∷ []

program : Unit {0}
unfolding allow current_window run_attempts attempts_of allowed_of
program = tt

spent : Limiter
spent = record { max_attempts = 2; window = 60; buckets = ("a", (100, 2)) ∷ [] }

two_of_three : allowed_of "a" limiter (("a", 100) ∷ minute) ≡ 2
unfolding program
two_of_three = refl

allowed_of-window_example :
    allowed_of "a" limiter (("a", 100) ∷ minute) ≡ min (attempts_of "a" (("a", 100) ∷ minute)) 2
unfolding current_window
allowed_of-window_example =
    allowed_of-window limiter "a" 100 minute (omega arith) refl
      (λ e. omega arith, (λ e. omega arith, (λ e. omega arith, tt)))

none_there : {p : ℕ × ℕ} → none ≡ some p → ⊥
none_there e = cc
