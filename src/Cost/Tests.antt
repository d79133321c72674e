-- ===== src/Cost/Tests.antt =====
-- The theorems about cost.py at a small book.
use accounting_tool.Decimal.{whole}
use accounting_tool.Calendar.{Date, before}
use accounting_tool.Cost.Laws.{IsLatest, from_book-IsLatest}
use accounting_tool.Cost.{from_book, take_entry, take_price, price}
use accounting_tool.Approvals.{ApprovalBook, price_keys, last_known_price}
use accounting_tool.Prelude.{ℕ, In, ◌∷◌, [], ◌≡◌, some, refl, string_eq}

abbrev day : ℕ → Date
day d = record { year = 2026; month = 5; day = d }

abbrev book : ApprovalBook
book =
    (("milk", "makro"), record { price = whole 49; updated_at = day 1 })
    ∷ (("milk", "aro"), record { price = whole 52; updated_at = day 3 })
    ∷ []

latest_wins :
    price (from_book book (price_keys book)) "milk"
    ≡ some (record { price = whole 52; updated_at = day 3 })
unfolding from_book take_entry take_price last_known_price before
latest_wins = refl

from_book-IsLatest_example :
    IsLatest book
      (λ q. In q (price_keys book))
      "milk"
      (price (from_book book (price_keys book)) "milk")
from_book-IsLatest_example = from_book-IsLatest book (price_keys book) "milk"
