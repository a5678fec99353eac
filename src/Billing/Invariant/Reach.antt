-- ===== src/Billing/Invariant/Reach.antt =====
-- The service calls of billing/services.py as steps of the database, and what holds after any
-- sequence of them. Row locks order the calls of one customer, so a sequence stands for any
-- interleaving of requests.
use fireisp.Prelude.{ℕ, ◌≤◌, ◌<◌, ◌≡◌, sym, arith, Bool, Option, All-map}
use mathlib.Core.Path.{subst}
use fireisp.Prelude.Text.{Text}
use fireisp.Prelude.Int.{ℤ}
use fireisp.Calendar.{Date}
use fireisp.Store.{
  Customer, Subscription, Invoice, Payment, PaymentReversal, CreditMemo, Refund, CashClosure,
  BankEntry, Outage, OutageCredit, SuspensionProposal, SuspensionDecision, SuspensionApplication,
  Db, ok, Env,
}
use fireisp.Store.Ensures.{Ensures-eq}
use fireisp.Billing.Money.{DecimalInput}
use fireisp.Billing.Invariant.{IsConsistent, Consistent}
use fireisp.Billing.Invariant.Calls.{receive_payment-Consistent, reverse_payment-Consistent}
use fireisp.Billing.Invariant.Adjust.{
  create_period-Consistent, renew_subscription-Consistent, issue_credit_memo-Consistent,
  refund_credit-Consistent,
}
use fireisp.Billing.Invariant.Others.{
  close_cash-Consistent, import_bank_csv-Consistent, reconcile_bank-Consistent,
  apply_outage_credit-Consistent, record_outage_credit-Consistent, propose_suspension-Consistent,
  review_suspension-Consistent, apply_suspension-Consistent,
}
use fireisp.Billing.Payments.{receive_payment, reverse_payment}
use fireisp.Billing.Periods.{create_period, renew_subscription}
use fireisp.Billing.Credits.{issue_credit_memo, refund_credit}
use fireisp.Billing.Cash.{close_cash}
use fireisp.Billing.Bank.{BankFile, import_bank_csv, reconcile_bank, apply_outage_credit}
use fireisp.Billing.Suspension.{propose_suspension, review_suspension, apply_suspension}
use fireisp.Operations.{record_outage_credit}

-- A call that raises leaves the database as it is, so it is no step. `outside` is any write that is
-- not to the ledger; the sequences of keys never go back.
pub data Step (env : Env) : Db → Db → Type 0 where
  receive :
      {db db' : Db} (customer : ℕ) (value : DecimalInput) (method : Text) (actor : Option ℕ)
      (key reference : Text) (paid_at : Option ℕ) {p : Payment}
      → receive_payment env customer value method actor key reference paid_at db ≡ ok (p, db')
      → Step env db db'
  reverse :
      {db db' : Db} (payment : Payment) (actor : ℕ) (reason : Text) {r : PaymentReversal}
      → reverse_payment env payment actor reason db ≡ ok (r, db')
      → Step env db db'
  period :
      {db db' : Db} (s : Subscription) (start end : Date) (actor : Option ℕ) {v : Invoice}
      → create_period env s start end actor db ≡ ok (v, db')
      → Step env db db'
  renew :
      {db db' : Db} (s : Subscription) (actor : Option ℕ) {v : Invoice}
      → renew_subscription env s actor db ≡ ok (v, db')
      → Step env db db'
  credit :
      {db db' : Db} (v : Invoice) (value : DecimalInput) (reason source : Text) (actor : Option ℕ)
      {m : CreditMemo}
      → issue_credit_memo env v value reason source actor db ≡ ok (m, db')
      → Step env db db'
  refund :
      {db db' : Db} (m : CreditMemo) (value : DecimalInput) (method reference key : Text)
      (actor : ℕ) {r : Refund}
      → refund_credit env m value method reference key actor db ≡ ok (r, db')
      → Step env db db'
  close :
      {db db' : Db} (actor : ℕ) (value : DecimalInput) {c : CashClosure}
      → close_cash env actor value db ≡ ok (c, db')
      → Step env db db'
  upload :
      {db db' : Db} (organization : ℕ) (account : Text) (file : BankFile) (actor : Option ℕ) {n : ℕ}
      → import_bank_csv env organization account file actor db ≡ ok (n, db')
      → Step env db db'
  reconcile :
      {db db' : Db} (e : BankEntry) (customer : Customer) (actor : Option ℕ) {p : Payment}
      → reconcile_bank env e customer actor db ≡ ok (p, db')
      → Step env db db'
  compensate :
      {db db' : Db} (o : Outage) (s : Subscription) (period_start period_end : ℕ) (actor : Option ℕ)
      (price : Option ℤ) {c : OutageCredit}
      → record_outage_credit env o s period_start period_end actor price db ≡ ok (c, db')
      → Step env db db'
  apply_credit :
      {db db' : Db} (c : OutageCredit) (actor : Option ℕ) {m : CreditMemo}
      → apply_outage_credit env c actor db ≡ ok (m, db')
      → Step env db db'
  propose :
      {db db' : Db} (s : Subscription) (actor : Option ℕ) (key : Text) {p : SuspensionProposal}
      → propose_suspension env s actor key db ≡ ok (p, db')
      → Step env db db'
  review :
      {db db' : Db} (p : SuspensionProposal) (approved : Bool) (note : Text) (actor : Option ℕ)
      {d : SuspensionDecision}
      → review_suspension env p approved note actor db ≡ ok (d, db')
      → Step env db db'
  suspend :
      {db db' : Db} (p : SuspensionProposal) (actor : Option ℕ) {a : SuspensionApplication}
      → apply_suspension env p actor db ≡ ok (a, db')
      → Step env db db'
  outside : {db db' : Db} → db'.ledger ≡ db.ledger → db.next_pk ≤ db'.next_pk → Step env db db'

-- Any number of steps, each at its own time.
pub data Reach (db : Db) : Db → Type 0 where
  here : Reach db db
  next : {a b : Db} (env : Env) → Reach db a → Step env a b → Reach db b

outside-Consistent :
    (db db' : Db)
    → db'.ledger ≡ db.ledger
    → db.next_pk ≤ db'.next_pk
    → Consistent db
    → Consistent db'
outside-Consistent db db' same later c =
    subst (λ l. IsConsistent l db'.next_pk) (sym same)
      (record {
        sound = c.sound;
        issued =
            All-map (λ v. v.pk < db.next_pk) (λ v. v.pk < db'.next_pk) db.ledger.invoices
              (λ v h. omega arith) c.issued;
      })

Step-Consistent : {env : Env} {db db' : Db} → Step env db db' → Consistent db → Consistent db'
Step-Consistent {env} {db} (receive customer value method actor key reference paid_at e) c =
    Ensures-eq _
      ((receive_payment-Consistent env customer value method actor key reference paid_at).at db c) e
Step-Consistent {env} {db} (reverse payment actor reason e) c =
    Ensures-eq _ ((reverse_payment-Consistent env payment actor reason).at db c) e
Step-Consistent {env} {db} (period s start end actor e) c =
    Ensures-eq _ ((create_period-Consistent env s start end actor).at db c) e
Step-Consistent {env} {db} (renew s actor e) c =
    Ensures-eq _ ((renew_subscription-Consistent env s actor).at db c) e
Step-Consistent {env} {db} (credit v value reason source actor e) c =
    Ensures-eq _ ((issue_credit_memo-Consistent env v value reason source actor).at db c) e
Step-Consistent {env} {db} (refund m value method reference key actor e) c =
    Ensures-eq _ ((refund_credit-Consistent env m value method reference key actor).at db c) e
Step-Consistent {env} {db} (close actor value e) c =
    Ensures-eq _ ((close_cash-Consistent env actor value).at db c) e
Step-Consistent {env} {db} (upload organization account file actor e) c =
    Ensures-eq _ ((import_bank_csv-Consistent env organization account file actor).at db c) e
Step-Consistent {env} {db} (reconcile entry customer actor e) c =
    Ensures-eq _ ((reconcile_bank-Consistent env entry customer actor).at db c) e
Step-Consistent {env} {db} (compensate o s period_start period_end actor price e) c =
    Ensures-eq _
      ((record_outage_credit-Consistent env o s period_start period_end actor price).at db c) e
Step-Consistent {env} {db} (apply_credit source actor e) c =
    Ensures-eq _ ((apply_outage_credit-Consistent env source actor).at db c) e
Step-Consistent {env} {db} (propose s actor key e) c =
    Ensures-eq _ ((propose_suspension-Consistent env s actor key).at db c) e
Step-Consistent {env} {db} (review p approved note actor e) c =
    Ensures-eq _ ((review_suspension-Consistent env p approved note actor).at db c) e
Step-Consistent {env} {db} (suspend p actor e) c =
    Ensures-eq _ ((apply_suspension-Consistent env p actor).at db c) e
Step-Consistent {db = db} {db'} (outside same later) c = outside-Consistent db db' same later c

-- From a consistent database, any sequence of calls of the billing services (payments, reversals,
-- periods, renewals, credit memos, refunds, cash closures, bank imports, reconciliations,
-- compensations and suspensions), at any times and mixed with any other writes outside the ledger,
-- leads to a consistent one: no two invoices share a key, every allocation moves money, and no
-- payment is spent beyond its amount.
pub Reach-Consistent : {db db' : Db} → Consistent db → Reach db db' → Consistent db'
Reach-Consistent c here = c
Reach-Consistent c (next env r s) = Step-Consistent s (Reach-Consistent c r)
