-- ===== src/Compliance/Notices.antt =====
-- compliance/workflows.py: the notices of a change or a renewal, from `publish_regulatory_notice`
-- to `regulatory_notice_ready`, and `RegulatoryNotice` of compliance/models.py.
pub mod Save
pub mod Versions
pub mod Writes
pub mod Services
pub mod Laws
use fireisp.Prelude.{
  ℕ, ◌+◌, ◌/◌, ◌%◌, Bool, true, false, not, ◌&&◌, ◌||◌, Option, none, some, [], ◌∷◌, ◌++◌, ltb,
  ◌==◌, if◌then◌else◌, find, is_some, update_where,
}
use fireisp.Prelude.Text.{Text, codes, text_eq, is_blank, strip, show_ℕ}
use fireisp.Calendar.{Date, date_eq, date_leb, date_ltb}
use fireisp.Store.{
  Subscription, SubscriptionStatus, cancelled, Notification, Result, ok, err, M, ◌>>=◌, ◌>>◌, done,
  pure, gets, modify, raise, raise_if, or_raise, fresh, with_accounts, does_not_exist,
  permission_denied, overflow, service_cancelled, late_notice, bad_proposal, not_published,
  bad_delivery, delivery_differs, Env, maybe,
}
use fireisp.Store.Compliance.{RegulatoryNotice, NoticeKind, automatic_renewal, DocumentVersion}
use fireisp.Core.{audit, get_customer, get_subscription}
use fireisp.Core.Actors.{Actor, signed_in, may_act, staff}
use fireisp.Compliance.Gates.{is_approved_version}
use fireisp.Compliance.Consents.{get_version}
use fireisp.Compliance.Arco.{or_today}
use Save.{get_notice, save_notice, check_notice, notify_by}

abbrev pub is_cancelled : SubscriptionStatus → Bool
is_cancelled cancelled = true
is_cancelled _ = false

-- `f"{n:02}"` of a number below 100.
abbrev pub two_digits : ℕ → Text
two_digits n = (48 + n / 10) ∷ (48 + n % 10) ∷ []

-- `f"${...:.2f} MXN. ..."`; a renewal that passed its checks has an amount.
abbrev pub renewal_text : RegulatoryNotice → Text
renewal_text n = elim n.renewal_amount_mxn [
  | none ↦ []
  | some cents ↦
      codes "\n\nImporte con impuestos: $"
      ++ show_ℕ (cents / 100)
      ++ codes "."
      ++ two_digits (cents % 100)
      ++ codes " MXN. Periodicidad: "
      ++ n.renewal_frequency
      ++ codes "."
]

-- The body that the customer reads: the amount as `{:.2f}` and the day as `{:%d/%m/%Y}`.
unfoldable pub notice_body : RegulatoryNotice → Text
notice_body n =
    n.body
    ++ (elim n.kind [
      | NoticeKind.contract_change ↦ []
      | NoticeKind.automatic_renewal ↦ renewal_text n
    ])
    ++ codes "\n\nFecha prevista: "
    ++ two_digits n.effective_on.day
    ++ codes "/"
    ++ two_digits n.effective_on.month
    ++ codes "/"
    ++ show_ℕ n.effective_on.year
    ++ codes
        ". Puedes cancelar este servicio desde Mi servicio / Cancelar, o por el canal en que lo contrataste."

unfoldable pub enter_notification : Env → RegulatoryNotice → ℕ → M RegulatoryNotice
enter_notification env n customer = do
  pk ← fresh
  let message =
      let m : Notification = record {
        pk = pk;
        customer = customer;
        title = n.title;
        body = notice_body n;
        read_at = none;
      } in
      m
  modify (with_accounts λ a. record a { notifications = message ∷ a.notifications })
  pure (record n { notification = some pk; published_at = some env.now })

-- `notice.document and (...)`
unfoldable pub check_proposal : RegulatoryNotice → M (Unit {0})
check_proposal n = maybe n.document done λ k. do
  d ← get_version k
  raise_if (not (is_approved_version d.status) || date_ltb n.effective_on d.effective_on)
      bad_proposal

-- The part of `publish_regulatory_notice` for a notice that is not published yet.
unfoldable pub publish_new : Env → RegulatoryNotice → Option Actor → M RegulatoryNotice
publish_new env n actor = do
  check_notice n
  s ← get_subscription n.subscription
  raise_if (is_cancelled s.status) service_cancelled
  last ← or_raise overflow (notify_by n)
  raise_if (date_ltb last (env.local_date env.now)) late_notice
  check_proposal n
  n' ← enter_notification env n s.customer
  save_notice n'
  audit env (signed_in actor) (codes "regulatory_notice.published") n.pk
  pure n'

unfoldable pub publish_regulatory_notice : Env → ℕ → Option Actor → M RegulatoryNotice
publish_regulatory_notice env pk actor = do
  staff actor
  n ← get_notice pk
  if is_some n.published_at then pure n else publish_new env n actor

abbrev pub same_delivery : RegulatoryNotice → Date → Text → Text → Bool
same_delivery n day channel evidence =
    elim n.delivered_on [ none ↦ false | some d ↦ date_eq d day ]
    && text_eq n.delivery_channel (strip channel)
    && text_eq n.delivery_evidence (strip evidence)

unfoldable pub delivered : RegulatoryNotice → Date → Text → Text → RegulatoryNotice
delivered n day channel evidence = record n {
  delivered_on = some day;
  delivery_channel = strip channel;
  delivery_evidence = strip evidence;
}

unfoldable pub enter_delivery :
    Env → RegulatoryNotice → Option Actor → Date → Text → Text → M RegulatoryNotice
enter_delivery env n actor day channel evidence = do
  let n' = delivered n day channel evidence
  save_notice n'
  audit env (signed_in actor) (codes "regulatory_notice.delivery_confirmed") n.pk
  pure n'

unfoldable pub confirm_notice_delivery :
    Env → ℕ → Option Actor → Text → Text → Option Date → M RegulatoryNotice
confirm_notice_delivery env pk actor channel evidence delivered_on = do
  staff actor
  n ← get_notice pk
  published ← or_raise not_published n.published_at
  raise_if (is_blank channel || is_blank evidence) not_published
  let day = or_today env delivered_on
  raise_if (date_ltb day (env.local_date published) || date_ltb (env.local_date env.now) day)
      bad_delivery
  if is_some n.delivered_on
      then (do raise_if (not (same_delivery n day channel evidence)) delivery_differs; pure n)
      else enter_delivery env n actor day channel evidence

unfoldable pub accepted : RegulatoryNotice → ℕ → Text → RegulatoryNotice
accepted n now evidence = record n { accepted_at = some now; acceptance_evidence = strip evidence }

unfoldable pub accept_regulatory_notice : Env → ℕ → Option Actor → Text → M RegulatoryNotice
accept_regulatory_notice env pk actor evidence = do
  n ← get_notice pk
  s ← get_subscription n.subscription
  customer ← get_customer s.customer
  raise_if (not (may_act customer.user actor)) permission_denied
  raise_if (not (is_some n.published_at) || is_blank evidence) not_published
  if is_some n.accepted_at then pure n else (do
    let n' = accepted n env.now evidence
    save_notice n'
    audit env (signed_in actor) (codes "regulatory_notice.accepted") n.pk
    pure n')

-- `Notification.objects.filter(pk=..., read_at__isnull=True).update(read_at=...)`
unfoldable pub mark_read : Env → ℕ → M (Unit {0})
mark_read env pk = modify (
    with_accounts λ a. record a {
      notifications =
          update_where (λ m. m.pk == pk && not (is_some m.read_at))
            (λ m. record m { read_at = some env.now }) a.notifications;
    })

unfoldable pub receipt : RegulatoryNotice → Date → ℕ → RegulatoryNotice
receipt n today user = record n {
  delivered_on = some today;
  delivery_channel = codes "portal";
  delivery_evidence =
      codes "El titular confirmó recepción en sesión autenticada; usuario "
      ++ show_ℕ user
      ++ codes ".";
}

unfoldable pub enter_receipt : Env → RegulatoryNotice → Option Actor → ℕ → M RegulatoryNotice
enter_receipt env n actor user = do
  let n' = receipt n (env.local_date env.now) user
  save_notice n'
  maybe n.notification done (mark_read env)
  audit env (signed_in actor) (codes "regulatory_notice.receipt_acknowledged") n.pk
  pure n'

-- The customer in person, by the key of the user.
unfoldable pub holder : Option ℕ → Option Actor → Option ℕ
holder (some user) (some a) =
    if a.is_authenticated && (elim a.pk [ none ↦ false | some k ↦ user == k ])
    then some user
    else none
holder _ _ = none

unfoldable pub acknowledge_notice_receipt : Env → ℕ → Option Actor → M RegulatoryNotice
acknowledge_notice_receipt env pk actor = do
  n ← get_notice pk
  s ← get_subscription n.subscription
  customer ← get_customer s.customer
  user ← or_raise permission_denied (holder customer.user actor)
  raise_if (not (is_some n.published_at)) not_published
  if is_some n.delivered_on then pure n else enter_receipt env n actor user

unfoldable pub regulatory_notice_ready : RegulatoryNotice → Subscription → Date → Result Bool
regulatory_notice_ready n s as_of =
    if not (is_some n.published_at) then ok false else elim n.delivered_on [
      | none ↦ ok false
      | some day ↦ elim (notify_by n) [
        | none ↦ err overflow
        | some last ↦ ok (
            date_leb day last
            && (not n.requires_consent || is_some n.accepted_at)
            && date_leb n.effective_on as_of
            && not (is_cancelled s.status))
      ]
    ]
