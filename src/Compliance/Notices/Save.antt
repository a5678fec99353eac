-- ===== src/Compliance/Notices/Save.antt =====
-- `RegulatoryNotice` of compliance/models.py: `notify_by`, `full_clean` and `save`.
use fireisp.Prelude.{
  ℕ, Bool, true, false, not, ◌&&◌, ◌||◌, Option, ltb, ◌==◌, if◌then◌else◌, find, is_some, opt_eq,
  length, update_where,
}
use fireisp.Prelude.Text.{Text, text_eq, is_empty, is_blank}
use fireisp.Calendar.{Date, date_eq}
use fireisp.Calendar.Days.{subtract_days}
use fireisp.Store.{
  M, ◌>>=◌, ◌>>◌, maybe, done, gets, modify, raise_if, or_raise, with_compliance, does_not_exist,
  other_organization, bad_record, notice_immutable,
}
use fireisp.Store.Compliance.{RegulatoryNotice, NoticeKind, contract_change, automatic_renewal}
use fireisp.Core.{get_customer, get_subscription}
use fireisp.Compliance.Consents.{get_version}

unfoldable pub get_notice : ℕ → M RegulatoryNotice
get_notice pk = do
  row ← gets (λ db. find (λ n. n.pk == pk) db.compliance.notices)
  or_raise does_not_exist row

unfoldable pub minimum_notice_days : NoticeKind → ℕ
minimum_notice_days contract_change = 30
minimum_notice_days automatic_renewal = 5

-- The last day to deliver the notice, if the calendar has it.
unfoldable pub notify_by : RegulatoryNotice → Option Date
notify_by n = subtract_days (minimum_notice_days n.kind) n.effective_on

abbrev within : ℕ → Text → Bool
within n t = not (ltb n (length t))

-- The columns, and what `clean` asks of the notice itself.
unfoldable pub is_clean_notice : RegulatoryNotice → Bool
is_clean_notice n =
    not (is_empty n.title)
    && within 160 n.title
    && not (is_empty n.body)
    && within 60 n.renewal_frequency
    && within 40 n.delivery_channel
    && (elim n.kind [
      | contract_change ↦ n.requires_consent
      | automatic_renewal ↦ is_some n.renewal_amount_mxn && not (is_blank n.renewal_frequency)
    ])
    && (not (is_some n.delivered_on)
        || not (is_blank n.delivery_channel) && not (is_blank n.delivery_evidence))

-- `notice.full_clean()`
unfoldable pub check_notice : RegulatoryNotice → M (Unit {0})
check_notice n = do
  maybe n.document done λ k. do
    d ← get_version k
    s ← get_subscription n.subscription
    customer ← get_customer s.customer
    raise_if (not (d.organization == customer.organization)) other_organization
  raise_if (not (is_clean_notice n)) bad_record

abbrev pub same_kind : NoticeKind → NoticeKind → Bool
same_kind contract_change contract_change = true
same_kind automatic_renewal automatic_renewal = true
same_kind _ _ = false

-- The columns that a published notice keeps.
unfoldable pub same_notice : RegulatoryNotice → RegulatoryNotice → Bool
same_notice m n =
    m.subscription == n.subscription
    && same_kind m.kind n.kind
    && date_eq m.effective_on n.effective_on
    && text_eq m.title n.title
    && text_eq m.body n.body
    && (if m.requires_consent then n.requires_consent else not n.requires_consent)
    && opt_eq m.document n.document
    && opt_eq m.renewal_amount_mxn n.renewal_amount_mxn
    && text_eq m.renewal_frequency n.renewal_frequency
    && opt_eq m.published_at n.published_at
    && opt_eq m.notification n.notification

-- `notice.save(...)`
unfoldable pub save_notice : RegulatoryNotice → M (Unit {0})
save_notice n = do
  check_notice n
  original ← get_notice n.pk
  raise_if (is_some original.published_at && not (same_notice original n)) notice_immutable
  modify (
      with_compliance
        λ c. record c { notices = update_where (λ x. x.pk == n.pk) (λ _. n) c.notices })
