-- ===== src/Billing/Invariant/Others.antt =====
-- The other services of billing/services.py and operations/services.py keep the ledger's invariant:
-- the cash closure, the bank entries, the compensation for outages and the suspensions.
use fireisp.Prelude.{ℕ, suc, Bool, Option, none, some, List, [], ◌∷◌, if◌then◌else◌}
use fireisp.Prelude.Int.{ℤ}
use fireisp.Prelude.Text.{Text}
use fireisp.Store.{
  Customer, Subscription, BankEntry, Outage, OutageCredit, SuspensionPolicy, SuspensionProposal,
  Block, CashDesk, Suspensions, Operations, with_desk, with_suspensions, with_operations, modify,
  Env,
}
use fireisp.Store.Preserves.{Preserves, Preserves-modify, Preserves-pure}
use fireisp.Billing.Money.{DecimalInput}
use fireisp.Billing.Invariant.{Consistent, consistent_rules}
use fireisp.Billing.Invariant.Calls.{receive_payment-Consistent}
use fireisp.Billing.Invariant.Adjust.{issue_credit_memo-Consistent}
use fireisp.Billing.Cash.{close_cash}
use fireisp.Billing.Bank.{
  BankRow, BankFile, enter, import_row, import_rows, import_bank_csv, link_entry, reconcile_bank,
  apply_outage_credit,
}
use fireisp.Billing.Suspension.{
  get_policy, record_proposal, propose_suspension, review_suspension, record_application,
  apply_suspension,
}
use fireisp.Operations.{Compensation, charged_price, enter_credit, record_outage_credit}

with_desk-Consistent : (f : CashDesk → CashDesk) → Preserves Consistent (modify (with_desk f))
with_desk-Consistent f = Preserves-modify _ (λ db c. c)

with_suspensions-Consistent :
    (f : Suspensions → Suspensions) → Preserves Consistent (modify (with_suspensions f))
with_suspensions-Consistent f = Preserves-modify _ (λ db c. c)

with_operations-Consistent :
    (f : Operations → Operations) → Preserves Consistent (modify (with_operations f))
with_operations-Consistent f = Preserves-modify _ (λ db c. c)

bank-Consistent :
    (f : List BankEntry → List BankEntry)
    → Preserves Consistent (modify (λ db. record db { bank = f db.bank }))
bank-Consistent f = Preserves-modify _ (λ db c. c)

link_entry-Consistent :
    (entry payment : ℕ) → Preserves Consistent (modify (link_entry entry payment))
unfolding link_entry
link_entry-Consistent entry payment = Preserves-modify _ (λ db c. c)

ruleset parts_rules = (
  consistent_rules, with_desk-Consistent, with_suspensions-Consistent, with_operations-Consistent,
  link_entry-Consistent,
)

-- A cash closure keeps the ledger consistent.
pub close_cash-Consistent :
    (env : Env) (actor : ℕ) (value : DecimalInput)
    → Preserves Consistent (close_cash env actor value)
unfolding close_cash
close_cash-Consistent env actor value = search parts_rules depth 12

enter-Consistent : (e : BankEntry) → Preserves Consistent (enter e)
unfolding enter
enter-Consistent e =
    let entered = λ (pk : ℕ). bank-Consistent (λ bs. record e { pk = pk } ∷ bs) in
    search parts_rules depth 9

import_row-Consistent :
    (env : Env) (organization : ℕ) (account : Text) (index : ℕ) (row : BankRow)
    → Preserves Consistent (import_row env organization account index row)
unfolding import_row
import_row-Consistent env organization account index row =
    search (parts_rules, enter-Consistent) depth 9

import_rows-Consistent :
    (env : Env) (organization : ℕ) (account : Text) (index count : ℕ) (rows : List BankRow)
    → Preserves Consistent (import_rows env organization account index count rows)
unfolding import_rows
import_rows-Consistent env organization account index count [] = Preserves-pure count
import_rows-Consistent env organization account index count (row ∷ rows) =
    let rest = λ (created : Bool).
      import_rows-Consistent env organization account (suc index)
        (if created then suc count else count) rows in
    search (parts_rules, import_row-Consistent)

-- An import of bank entries keeps the ledger consistent.
pub import_bank_csv-Consistent :
    (env : Env) (organization : ℕ) (account : Text) (file : BankFile) (actor : Option ℕ)
    → Preserves Consistent (import_bank_csv env organization account file actor)
unfolding import_bank_csv
import_bank_csv-Consistent env organization account file actor =
    search (parts_rules, import_rows-Consistent) depth 12

-- A reconciliation keeps the ledger consistent.
pub reconcile_bank-Consistent :
    (env : Env) (entry : BankEntry) (customer : Customer) (actor : Option ℕ)
    → Preserves Consistent (reconcile_bank env entry customer actor)
unfolding reconcile_bank
reconcile_bank-Consistent env entry customer actor =
    search (parts_rules, receive_payment-Consistent) depth 14

-- The memo of a compensation keeps the ledger consistent.
pub apply_outage_credit-Consistent :
    (env : Env) (credit : OutageCredit) (actor : Option ℕ)
    → Preserves Consistent (apply_outage_credit env credit actor)
unfolding apply_outage_credit
apply_outage_credit-Consistent env credit actor =
    search (parts_rules, issue_credit_memo-Consistent) depth 14

charged_price-Consistent :
    (s : Subscription) (price : Option ℤ) → Preserves Consistent (charged_price s price)
unfolding charged_price
charged_price-Consistent s none = search consistent_rules
charged_price-Consistent s (some p) = Preserves-pure p

enter_credit-Consistent :
    (env : Env) (o : Outage) (s : Subscription) (period_start period_end : ℕ) (actor : Option ℕ)
    (amounts : Compensation)
    → Preserves Consistent (enter_credit env o s period_start period_end actor amounts)
unfolding enter_credit
enter_credit-Consistent env o s period_start period_end actor amounts = search parts_rules depth 14

-- A compensation keeps the ledger consistent.
pub record_outage_credit-Consistent :
    (env : Env) (outage : Outage) (s : Subscription) (period_start period_end : ℕ)
    (actor : Option ℕ) (price : Option ℤ)
    → Preserves Consistent (record_outage_credit env outage s period_start period_end actor price)
unfolding record_outage_credit
record_outage_credit-Consistent env outage s period_start period_end actor price =
    search (parts_rules, charged_price-Consistent, enter_credit-Consistent) depth 24

get_policy-Consistent : (organization : ℕ) → Preserves Consistent (get_policy organization)
unfolding get_policy
get_policy-Consistent organization = search parts_rules depth 9

record_proposal-Consistent :
    (env : Env) (s : Subscription) (policy : SuspensionPolicy) (actor : Option ℕ) (key : Text)
    → Preserves Consistent (record_proposal env s policy actor key)
unfolding record_proposal
record_proposal-Consistent env s policy actor key = search parts_rules depth 12

-- A proposal of suspension keeps the ledger consistent.
pub propose_suspension-Consistent :
    (env : Env) (s : Subscription) (actor : Option ℕ) (key : Text)
    → Preserves Consistent (propose_suspension env s actor key)
unfolding propose_suspension
propose_suspension-Consistent env s actor key =
    search (parts_rules, get_policy-Consistent, record_proposal-Consistent) depth 12

-- A review keeps the ledger consistent.
pub review_suspension-Consistent :
    (env : Env) (p : SuspensionProposal) (approved : Bool) (note : Text) (actor : Option ℕ)
    → Preserves Consistent (review_suspension env p approved note actor)
unfolding review_suspension
review_suspension-Consistent env p approved note actor = search parts_rules depth 14

record_application-Consistent :
    (env : Env) (s : Subscription) (p : SuspensionProposal) (actor : Option ℕ)
    (block : Option Block)
    → Preserves Consistent (record_application env s p actor block)
unfolding record_application
record_application-Consistent env s p actor block = search parts_rules depth 14

-- The application of a suspension keeps the ledger consistent.
pub apply_suspension-Consistent :
    (env : Env) (p : SuspensionProposal) (actor : Option ℕ)
    → Preserves Consistent (apply_suspension env p actor)
unfolding apply_suspension
apply_suspension-Consistent env p actor =
    search (parts_rules, get_policy-Consistent, record_application-Consistent) depth 24
