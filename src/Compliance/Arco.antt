-- ===== src/Compliance/Arco.antt =====
-- compliance/services.py: the requests of a customer about personal data (ARCO), from
-- `create_arco_request` to `complete_arco`. A kind of request and a stage are taken as read; `none`
-- is a stage that the code does not know.
pub mod Stages
pub mod Writes
pub mod Versions
pub mod Services
pub mod Laws
pub mod Close
use fireisp.Prelude.{
  ℕ, Bool, true, false, not, ◌&&◌, ◌||◌, Option, none, some, [], ◌∷◌, ◌==◌, if◌then◌else◌, find,
  any, is_some, update_where,
}
use fireisp.Prelude.Text.{Text, codes, strip, is_empty, is_blank}
use fireisp.Prelude.Int.{pos}
use fireisp.Calendar.{Date, date_ltb}
use fireisp.Store.{
  Customer, M, ◌>>=◌, ◌>>◌, done, pure, gets, modify, raise, raise_if, or_raise, lift, fresh,
  with_compliance, does_not_exist, permission_denied, bad_record, no_evidence, identity_reviewed,
  identity_pending, no_decision, bad_date, incomplete_extension, already_extended, stage_closed,
  late_extension, not_granted, Env,
}
use fireisp.Store.Compliance.{
  RequestType, ArcoStatus, pending_identity, in_review, decision_sent, completed, ArcoRequest,
  Stage, response, implementation, ArcoExtension,
}
use fireisp.Core.{audit, get_customer}
use fireisp.Core.Actors.{Actor, signed_in, key_of, is_stranger}
use fireisp.Compliance.BusinessDays.{add_business_days}

unfoldable pub deadline : Date → ℕ → ℕ → M Date
deadline start count organization = do
  holidays ← gets (λ db. db.compliance.holidays)
  lift (add_business_days holidays organization start (pos count))

-- `ARCORequest.objects.select_for_update().get(pk=...)`
unfoldable pub get_arco : ℕ → M ArcoRequest
get_arco pk = do
  row ← gets (λ db. find (λ r. r.pk == pk) db.compliance.arco_requests)
  or_raise does_not_exist row

-- `record.save(...)`
unfoldable pub save_arco : ArcoRequest → M (Unit {0})
save_arco r = modify (
    with_compliance
      λ c. record c { arco_requests = update_where (λ x. x.pk == r.pk) (λ _. r) c.arco_requests })

-- The record that `create_arco_request` builds.
unfoldable pub new_arco : ℕ → ℕ → RequestType → Text → Date → Date → ArcoRequest
new_arco pk customer request_type description received_on due = record {
  pk = pk;
  customer = customer;
  request_type = request_type;
  description = description;
  received_on = received_on;
  identity_verified_at = none;
  identity_evidence = [];
  status = pending_identity;
  response_due_on = some due;
  decision = [];
  decision_sent_on = none;
  granted = none;
  implementation_due_on = none;
  completed_on = none;
  implementation_evidence = [];
}

unfoldable pub create_arco_request :
    Env → Customer → RequestType → Text → Option Actor → M ArcoRequest
create_arco_request env customer request_type description actor = do
  raise_if (is_stranger customer.user actor) permission_denied
  let received_on = env.local_date env.now
  due ← deadline received_on 20 customer.organization
  raise_if (is_empty description) bad_record
  pk ← fresh
  let r = new_arco pk customer.pk request_type description received_on due
  modify (with_compliance λ c. record c { arco_requests = r ∷ c.arco_requests })
  audit env (signed_in actor) (codes "arco.received") r.pk
  pure r

abbrev pub is_pending_identity : ArcoStatus → Bool
is_pending_identity pending_identity = true
is_pending_identity _ = false

abbrev pub is_in_review : ArcoStatus → Bool
is_in_review in_review = true
is_in_review _ = false

abbrev pub is_decision_sent : ArcoStatus → Bool
is_decision_sent decision_sent = true
is_decision_sent _ = false

unfoldable pub verified : ArcoRequest → ℕ → Text → ArcoRequest
verified r now evidence = record r {
  identity_verified_at = some now;
  identity_evidence = strip evidence;
  status = in_review;
}

unfoldable pub verify_arco_identity : Env → ℕ → Option Actor → Text → M ArcoRequest
verify_arco_identity env pk actor evidence = do
  r ← get_arco pk
  raise_if (is_blank evidence) no_evidence
  raise_if (not (is_pending_identity r.status)) identity_reviewed
  let r' = verified r env.now evidence
  save_arco r'
  audit env (signed_in actor) (codes "arco.identity_verified") r.pk
  pure r'

-- `day or timezone.localdate()`
abbrev pub or_today : Env → Option Date → Date
or_today env none = env.local_date env.now
or_today env (some d) = d

-- `add_business_days(sent_on, 15, ...) if granted else None`
unfoldable pub implementation_due : Bool → Date → ℕ → M (Option Date)
implementation_due false sent_on organization = pure none
implementation_due true sent_on organization = do
  due ← deadline sent_on 15 organization
  pure (some due)

unfoldable pub responded : ArcoRequest → Text → Bool → Date → Option Date → ArcoRequest
responded r decision granted sent_on due = record r {
  decision = strip decision;
  granted = some granted;
  decision_sent_on = some sent_on;
  implementation_due_on = due;
  status = if granted then decision_sent else completed;
  completed_on = if granted then r.completed_on else some sent_on;
}

unfoldable pub respond_arco : Env → ℕ → Option Actor → Text → Bool → Option Date → M ArcoRequest
respond_arco env pk actor decision granted sent = do
  r ← get_arco pk
  raise_if (not (is_in_review r.status) || not (is_some r.identity_verified_at)) identity_pending
  raise_if (is_blank decision) no_decision
  let sent_on = or_today env sent
  raise_if (date_ltb sent_on r.received_on || date_ltb (env.local_date env.now) sent_on) bad_date
  customer ← get_customer r.customer
  due ← implementation_due granted sent_on customer.organization
  let r' = responded r decision granted sent_on due
  save_arco r'
  audit env (signed_in actor) (codes "arco.responded") r.pk
  pure r'

abbrev pub stage_eq : Stage → Stage → Bool
stage_eq response response = true
stage_eq implementation implementation = true
stage_eq _ _ = false

-- `getattr(record, field)` and the days of an extension.
unfoldable pub due_of : Stage → ArcoRequest → Option Date
due_of response r = r.response_due_on
due_of implementation r = r.implementation_due_on

unfoldable pub extension_days : Stage → ℕ
extension_days response = 20
extension_days implementation = 15

-- `setattr(record, field, extended)`
unfoldable pub with_due : Stage → Date → ArcoRequest → ArcoRequest
with_due response d r = record r { response_due_on = some d }
with_due implementation d r = record r { implementation_due_on = some d }

-- The stage of the request runs.
unfoldable pub is_open_stage : Stage → ArcoStatus → Bool
is_open_stage response s = is_pending_identity s || is_in_review s
is_open_stage implementation s = is_decision_sent s

-- The record that `ARCOExtension.objects.create` enters.
unfoldable pub new_extension :
    ℕ → ArcoRequest → Stage → Date → Option Actor → Text → Text → Date → Date → ArcoExtension
new_extension pk r stage due actor reason evidence notified_on extended = record {
  pk = pk;
  request = r.pk;
  stage = stage;
  reason = reason;
  notified_on = notified_on;
  notification_evidence = evidence;
  previous_due_on = due;
  extended_due_on = extended;
  recorded_by = key_of actor;
}

unfoldable pub record_extension :
    Env → ArcoRequest → Stage → Date → Option Actor → Text → Text → Date → Date → M ArcoExtension
record_extension env r stage due actor reason evidence notified_on extended = do
  pk ← fresh
  let e = new_extension pk r stage due actor reason evidence notified_on extended
  modify (with_compliance λ c. record c { extensions = e ∷ c.extensions })
  save_arco (with_due stage extended r)
  audit env (signed_in actor) (codes "arco.extended") pk
  pure e

-- The part of `extend_arco` behind the first test.
unfoldable pub extend_stage :
    Env → ArcoRequest → Stage → Option Actor → Text → Text → Option Date → M ArcoExtension
extend_stage env r stage actor reason evidence notified = do
  taken ←
      gets (λ db. any (λ e. e.request == r.pk && stage_eq e.stage stage) db.compliance.extensions)
  raise_if taken already_extended
  due ← or_raise stage_closed (due_of stage r)
  raise_if (not (is_open_stage stage r.status)) stage_closed
  let notified_on = or_today env notified
  raise_if
      (date_ltb due notified_on
        || date_ltb (env.local_date env.now) notified_on
        || date_ltb notified_on r.received_on)
      late_extension
  customer ← get_customer r.customer
  extended ← deadline due (extension_days stage) customer.organization
  record_extension env r stage due actor reason evidence notified_on extended

unfoldable pub extend_arco :
    Env → ℕ → Option Actor → Option Stage → Text → Text → Option Date → M ArcoExtension
extend_arco env pk actor stage reason evidence notified = do
  r ← get_arco pk
  s ← or_raise incomplete_extension stage
  raise_if (is_blank reason || is_blank evidence) incomplete_extension
  extend_stage env r s actor reason evidence notified

unfoldable pub carried_out : ArcoRequest → Date → Text → ArcoRequest
carried_out r today evidence = record r {
  status = completed;
  completed_on = some today;
  implementation_evidence = strip evidence;
}

unfoldable pub complete_arco : Env → ℕ → Option Actor → Text → M ArcoRequest
complete_arco env pk actor evidence = do
  r ← get_arco pk
  raise_if (not (is_decision_sent r.status) || is_blank evidence) not_granted
  let r' = carried_out r (env.local_date env.now) evidence
  save_arco r'
  audit env (signed_in actor) (codes "arco.completed") r.pk
  pure r'
