-- ===== src/Billing/Payments/Laws.antt =====
-- Laws of `receive_payment` and `reverse_payment`.
use fireisp.Prelude.{ℕ, ◌≡◌, Option, ◌∷◌}
use fireisp.Prelude.Text.{Text}
use fireisp.Store.{Method, Payment, Db, M, ok, Env, with_ledger}
use fireisp.Store.Ensures.{Ensures}
use fireisp.Billing.Money.{DecimalInput}
use fireisp.Billing.Allocate.{allocate}
use fireisp.Billing.Account.Frame.{fixed_of}
use fireisp.Billing.Payments.{book_payment, receive_payment}

-- The database with the payment entered and put to the open invoices.
abbrev with_payment : Payment → Db → Db
with_payment p = with_ledger λ l. allocate p.customer (record l { payments = p ∷ l.payments })

abbrev Recorded : Payment → Db → Payment → Db → Type 0
Recorded p db q db' = (q ≡ p) × (fixed_of db' ≡ fixed_of (with_payment p db))

module _ (env : Env) (customer : ℕ) (value : DecimalInput) (method_text : Text) (actor : Option ℕ)
    (key reference : Text) (paid_at : Option ℕ) where
  abbrev receive : M Payment
  receive = receive_payment env customer value method_text actor key reference paid_at

  -- The call made again after this one gives the same payment, and writes nothing.
  abbrev Repeats : M Payment → Payment → Db → Type 0
  Repeats m p db = m db ≡ ok (p, db)

  abbrev book : ℕ → Method → M Payment
  book amount method = book_payment env customer amount method actor key reference paid_at
