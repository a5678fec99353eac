-- ===== src/Billing/Bank.antt =====
-- `import_bank_csv`, `reconcile_bank` and `apply_outage_credit` of billing/services.py.
use fireisp.Prelude.{
  ℕ, suc, ◌+◌, Bool, true, false, not, ◌&&◌, ◌||◌, Option, none, some, List, [], ◌∷◌, ◌++◌, ltb,
  ◌==◌, if◌then◌else◌, find, any, length, update_where,
}
use fireisp.Prelude.Text.{Text, codes, text_eq, strip, is_empty, show_ℕ}
use fireisp.Calendar.{Date, date_eq}
use fireisp.Store.{
  Customer, Payment, BankEntry, CreditMemo, OutageCredit, Db, M, ◌>>=◌, maybe, ◌>>◌, pure, gets,
  modify, lift, fresh, raise_if, or_raise, with_operations, does_not_exist, bad_file, bad_reference,
  too_many_rows, reference_changed, other_organization, already_reconciled, no_period, Env,
}
use fireisp.Core.{audit, actor_lock, get_customer, get_subscription}
use fireisp.Billing.Money.{DecimalInput, money, stored}
use fireisp.Billing.Payments.{receive_payment, value_or}
use fireisp.Billing.Periods.{is_period}
use fireisp.Billing.Credits.{issue_credit_memo}

-- A row as `csv.DictReader` gives it, each column read: `date.fromisoformat` may fail.
pub record BankRow : Type 0 where
  pub external_reference : Text
  pub day : Option Date
  pub amount : DecimalInput

-- The contents: their length, and the columns and rows, unless they are no UTF-8 or no CSV.
pub record BankFile : Type 0 where
  pub size : ℕ
  pub table : Option (List Text × List BankRow)

abbrev pub max_file : ℕ
max_file = 2000000

abbrev pub last_row_index : ℕ
last_row_index = 10002

-- `f'{organization.pk}|{account.strip()}|{reference}'`
unfoldable pub fingerprint_text : ℕ → Text → Text → Text
unfolding strip show_ℕ
fingerprint_text organization account reference =
    show_ℕ organization ++ codes "|" ++ strip account ++ codes "|" ++ reference

-- `get_or_create` by the fingerprint, and the check of an entry that was there.
unfoldable pub enter : BankEntry → M Bool
enter e = do
  known ← gets (λ db. find (λ b. text_eq b.fingerprint e.fingerprint) db.bank)
  maybe known
      (do pk ← fresh; modify (λ db. record db { bank = record e { pk = pk } ∷ db.bank }); pure true)
      (λ b. do
        raise_if (not (b.amount == e.amount) || not (date_eq b.date e.date)) reference_changed
        pure false)

unfoldable pub import_row : Env → ℕ → Text → ℕ → BankRow → M Bool
import_row env organization account index row = do
  raise_if (ltb last_row_index index) too_many_rows
  let reference = strip row.external_reference
  raise_if (is_empty reference || ltb 160 (length reference)) bad_reference
  amount ← lift (money row.amount)
  day ← or_raise bad_file row.day
  enter (record {
    pk = 0;
    organization = organization;
    account = strip account;
    external_reference = reference;
    date = day;
    amount = amount;
    fingerprint = env.sha256_hex (fingerprint_text organization account reference);
    payment = none;
  })

-- The loop over the rows, with the number of entries that are new.
unfoldable pub import_rows : Env → ℕ → Text → ℕ → ℕ → List BankRow → M ℕ
import_rows env organization account index count [] = pure count
import_rows env organization account index count (row ∷ rows) = do
  created ← import_row env organization account index row
  import_rows env organization account (suc index) (if created then suc count else count) rows

abbrev pub has_column : List Text → Text → Bool
has_column columns c = any (λ k. text_eq k c) columns

unfoldable pub import_bank_csv : Env → ℕ → Text → BankFile → Option ℕ → M ℕ
import_bank_csv env organization account file actor = do
  raise_if (is_empty (strip account) || ltb max_file file.size) bad_file
  (columns, rows) ← or_raise bad_file file.table
  raise_if
      (not (
        has_column columns (codes "external_reference")
        && has_column columns (codes "date")
        && has_column columns (codes "amount")))
      bad_file
  count ← import_rows env organization account 2 0 rows
  audit env actor (codes "billing.bank.imported") organization
  pure count

-- `entry.save(update_fields=['payment'])`
unfoldable pub link_entry : ℕ → ℕ → Db → Db
link_entry entry payment db = record db {
  bank = update_where (λ b. b.pk == entry) (λ b. record b { payment = some payment }) db.bank;
}

unfoldable pub reconcile_bank : Env → BankEntry → Customer → Option ℕ → M Payment
reconcile_bank env entry customer actor = do
  actor_lock actor
  _ ← get_customer customer.pk
  row ← gets (λ db. find (λ b. b.pk == entry.pk) db.bank)
  e ← or_raise does_not_exist row
  raise_if (not (e.organization == customer.organization)) other_organization
  maybe e.payment
      (do
        p ←
            receive_payment env customer.pk (stored e.amount) (codes "transfer") actor
              (codes "bank:" ++ e.fingerprint) e.external_reference (some (env.at_midnight e.date))
        modify (link_entry e.pk p.pk)
        audit env actor (codes "billing.bank.reconciled") e.pk
        pure p)
      (λ paid_by. do
        known ← gets (λ db. find (λ p. p.pk == paid_by) db.ledger.payments)
        p ← or_raise does_not_exist known
        raise_if (not (p.customer == customer.pk)) already_reconciled
        pure p)

-- The memo of a compensation goes to the invoice of its period.
unfoldable pub apply_outage_credit : Env → OutageCredit → Option ℕ → M CreditMemo
apply_outage_credit env credit actor = do
  s ← get_subscription credit.subscription
  _ ← get_customer s.customer
  row ← gets (λ db. find (λ c. c.pk == credit.pk) db.operations.credits)
  source ← or_raise does_not_exist row
  let start = env.local_date source.period_start
  found ← gets (λ db. find (is_period source.subscription start) db.ledger.invoices)
  v ← or_raise no_period found
  memo ←
      issue_credit_memo env v (stored (source.proportional_amount + source.bonus_amount))
        (codes "Bonificación por interrupción #" ++ show_ℕ source.outage)
        (codes "outage:" ++ show_ℕ source.pk) actor
  modify (
      with_operations λ o. record o {
        credits =
            update_where (λ c. c.pk == source.pk)
              (λ c. record c {
                applied_at = some (value_or source.applied_at env.now);
                ledger_reference = codes "credit-memo:" ++ show_ℕ memo.pk;
              })
              o.credits;
      })
  pure memo
