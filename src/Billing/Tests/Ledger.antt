-- ===== src/Billing/Tests/Ledger.antt =====
-- The allocation of credits at a ledger where the money reaches one invoice and a part of the next.
use fireisp.Prelude.{◌≡◌, ◌⊎◌, arith, All}
use fireisp.Prelude.Int.{pos_part, neg_part}
use fireisp.Prelude.Sort.{IsSorted}
use fireisp.Billing.Allocate.{invoice_leb}
use fireisp.Store.{Ledger}
use fireisp.Billing.Balances.{balance, allocated}
use fireisp.Billing.Allocate.{open_invoices, usable_payments, allocate}
use fireisp.Billing.Allocate.Loop.{IsSpent}
use fireisp.Billing.Allocate.Settle.{StatusIs, settled_status}
use fireisp.Billing.Allocate.Customer.{OldestFirst}
use fireisp.Billing.Allocate.Laws.{
  IsSound, received, allocate-overpaid, allocate-status, allocate-exhausts, allocate-OldestFirst,
}
use fireisp.Billing.Tests.Samples.{ledger}

ledger-IsSound : IsSound ledger
unfolding allocated received
ledger-IsSound = record {
  distinct = omega arith;
  funded = λ k. ground arith;
  positive = omega arith;
}

abbrev after : Ledger
after = allocate 7 ledger

allocate-OldestFirst_example :
    OldestFirst ledger after (open_invoices 7 ledger)
    × IsSorted invoice_leb (open_invoices 7 ledger)
allocate-OldestFirst_example = allocate-OldestFirst 7 ledger ledger-IsSound

allocate-exhausts_example :
    All (λ v. pos_part (balance after v) ≡ 0) (open_invoices 7 ledger)
    ⊎ All (IsSpent after.allocations) (usable_payments 7 ledger)
allocate-exhausts_example = allocate-exhausts 7 ledger ledger-IsSound

allocate-overpaid_example :
    All (λ v. neg_part (balance after v) ≡ neg_part (balance ledger v)) (open_invoices 7 ledger)
allocate-overpaid_example = allocate-overpaid 7 ledger ledger-IsSound

allocate-status_example :
    All (λ v. StatusIs v.pk (settled_status after v) after.invoices) (open_invoices 7 ledger)
allocate-status_example = allocate-status 7 ledger ledger-IsSound
