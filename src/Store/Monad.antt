-- ===== src/Store/Monad.antt =====
-- Transactions: state with exceptions. An exception leaves `transaction.atomic` with nothing
-- written, so an error carries no state. Row locks order concurrent transactions one after the
-- other, and a transaction runs here alone.
use fireisp.Prelude.{ℕ, suc, Bool, true, false, Option, none, some, List}
use fireisp.Prelude.Text.{Text}
use fireisp.Calendar.{Date}
use fireisp.Store.Tables.{Db, Ledger, Accounts, CashDesk, Suspensions, Operations, Journal}
use fireisp.Store.Fiscal.{Fiscal}
use fireisp.Store.Compliance.{Compliance, Content}
use fireisp.Store.Field.{Field}
use fireisp.Store.Network.{Network}

-- The exceptions that the services raise, by the message of each `ValidationError`.
pub data Error : Type 0 where
  does_not_exist value_error type_error : Error
  bad_amount not_activated off_anniversary : Error
  backdated not_renewable unpaid_period no_credit : Error
  bad_method key_reused : Error
  no_reason refunded_charge : Error
  bad_count nothing_to_close : Error
  bad_file bad_reference too_many_rows reference_changed : Error
  other_organization already_reconciled : Error
  void_invoice no_period refund_exceeds : Error
  bad_key blocked_by not_reviewed decision_differs : Error
  bad_interval not_attributable not_affected overlapping_credit incomplete_outage : Error
  bad_target bad_cancellation no_replacement extra_parameters : Error
  pending_operation maybe_stamped no_xml not_stamped : Error
  stale_claim not_prepared not_demo no_credentials not_draft xml_too_large : Error
  bad_payment_method unknown_form reserved_global foreign_allocation : Error
  related_documents bad_pdf profile_changed : Error
  permission_denied not_ready no_plan_registration no_customer_documents : Error
  not_in_force wrong_kind bad_record not_revocable no_evidence identity_reviewed : Error
  identity_pending no_decision bad_date incomplete_extension already_extended : Error
  stage_closed late_extension not_granted service_cancelled late_notice bad_proposal : Error
  not_published bad_delivery delivery_differs open_complaint nothing_to_dispose : Error
  not_confirmed expired_review file_changed overflow out_of_fuel : Error
  no_channel no_ground notice_immutable : Error
  no_installation no_equipment unverified_equipment undocumented_sector : Error
  unlicensed_site no_session work_cancelled no_work_evidence bad_ticket : Error
  wrong_node mixed_nodes node_busy lease_lost : Error

pub data Result {ℓ} (A : Type ℓ) : Type ℓ where
  ok : A → Result A
  err : Error → Result A

abbrev pub M : Type 0 → Type 0
M A = Db → Result (A × Db)

infixl 5 ◌>>=◌ ◌>>◌
abbrev pub ◌>>=◌ : {A B : Type 0} → M A → (A → M B) → M B
◌>>=◌ m f db = elim (m db) [ ok (a, db') ↦ f a db' | err e ↦ err e ]

abbrev pub ◌>>◌ : {B : Type 0} → M (Unit {0}) → M B → M B
m >> k = m >>= λ _. k

abbrev pub done : M (Unit {0})
done db = ok (tt, db)

module _ {A : Type 0} where
  abbrev pub pure : A → M A
  pure a db = ok (a, db)

  abbrev pub raise : Error → M A
  raise e db = err e

  abbrev pub gets : (Db → A) → M A
  gets f db = ok (f db, db)

  -- `.get(...)`, which raises where no row fits.
  abbrev pub or_raise : Error → Option A → M A
  or_raise e none = raise e
  or_raise e (some a) = pure a

  abbrev pub lift : Result A → M A
  lift (ok a) = pure a
  lift (err e) = raise e

-- `if row: ... else: ...` on a row that a query may not have found.
abbrev pub maybe : {A B : Type 0} → Option A → M B → (A → M B) → M B
maybe none n f = n
maybe (some a) n f = f a

abbrev pub modify : (Db → Db) → M (Unit {0})
modify f db = ok (tt, f db)

abbrev pub raise_if : Bool → Error → M (Unit {0})
raise_if true e db = err e
raise_if false e db = ok (tt, db)

-- The key of a new row.
abbrev pub fresh : M ℕ
fresh db = ok (db.next_pk, record db { next_pk = suc db.next_pk })

abbrev pub with_ledger : (Ledger → Ledger) → Db → Db
with_ledger f db = record db { ledger = f db.ledger }

abbrev pub with_accounts : (Accounts → Accounts) → Db → Db
with_accounts f db = record db { accounts = f db.accounts }

abbrev pub with_desk : (CashDesk → CashDesk) → Db → Db
with_desk f db = record db { desk = f db.desk }

abbrev pub with_suspensions : (Suspensions → Suspensions) → Db → Db
with_suspensions f db = record db { suspensions = f db.suspensions }

abbrev pub with_operations : (Operations → Operations) → Db → Db
with_operations f db = record db { operations = f db.operations }

abbrev pub with_journal : (Journal → Journal) → Db → Db
with_journal f db = record db { journal = f db.journal }

abbrev pub with_fiscal : (Fiscal → Fiscal) → Db → Db
with_fiscal f db = record db { fiscal = f db.fiscal }

abbrev pub with_compliance : (Compliance → Compliance) → Db → Db
with_compliance f db = record db { compliance = f db.compliance }

abbrev pub with_field : (Field → Field) → Db → Db
with_field f db = record db { field = f db.field }

abbrev pub with_network : (Network → Network) → Db → Db
with_network f db = record db { network = f db.network }

-- What the services take from the clock, from the time zone of the organization, and from
-- the standard library of Python: no code of the repository.
pub record Env : Type 0 where
  pub now : ℕ
  -- `timezone.localtime(t).date()`
  pub local_date : ℕ → Date
  -- `make_aware(datetime.combine(day, localtime(t).time()))`
  pub at_time_of : Date → ℕ → ℕ
  -- `make_aware(datetime.combine(day, datetime.min.time()))`
  pub at_midnight : Date → ℕ
  -- `t.date()` of an aware instant, in UTC.
  pub utc_date : ℕ → Date
  pub sha256_hex : Text → Text
  -- `json.dumps` of the contents of a file, in UTF-8.
  pub dumps : List Content → Text
  -- `str.upper`, and whether `uuid.UUID(text)` accepts a text.
  pub upper : Text → Text
  pub is_uuid : Text → Bool
