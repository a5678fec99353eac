-- ===== src/Activation.antt =====
-- core/services.py: `activate_subscription`, the first activation of a service behind its gates; and
-- operations/services.py: `complete_work_order`, which may cause it, and `resolve_ticket`.
pub mod Laws
mod Tests
use fireisp.Prelude.{
  ℕ, Bool, true, false, not, ◌&&◌, ◌||◌, Option, none, some, ◌++◌, ltb, ◌==◌, if◌then◌else◌, find,
  is_some, length, update_where,
}
use fireisp.Prelude.Text.{Text, codes, is_empty, is_blank, strip, show_ℕ}
use fireisp.Calendar.{anniversary}
use fireisp.Store.{
  Subscription, SubscriptionStatus, active, cancelled, Ticket, TicketStatus, notification,
  subscription_changed, M, ◌>>=◌, ◌>>◌, done, maybe, pure, gets, modify, raise_if, or_raise,
  with_field, with_operations, does_not_exist, value_error, service_cancelled, work_cancelled,
  no_work_evidence, bad_ticket, Env,
}
use fireisp.Store.Field.{WorkOrder, WorkKind, WorkStatus}
use fireisp.Core.{
  audit, publish, get_customer, get_organization, get_subscription, save_subscription,
}
use fireisp.Compliance.Gates.{require_legal_readiness, require_customer_documents}
use fireisp.Operations.{is_resolved}
use fireisp.Operations.Installation.{require_installation_readiness, is_installation, is_done}
use fireisp.Billing.Periods.{create_period}

abbrev pub is_cancelled_status : SubscriptionStatus → Bool
is_cancelled_status cancelled = true
is_cancelled_status _ = false

-- The three gates, in their order.
unfoldable pub pass_gates : Env → Subscription → M (Unit {0})
pass_gates env s = do
  c ← get_customer s.customer
  o ← get_organization c.organization
  _ ← require_legal_readiness env o
  _ ← require_customer_documents env s
  _ ← require_installation_readiness env s
  done

unfoldable pub activated : Subscription → ℕ → Subscription
activated s now = record s { activated_at = some now; status = active }

-- From the first period on.
unfoldable pub open_service : Env → Subscription → Option ℕ → M Subscription
open_service env s actor = do
  save_subscription (activated s env.now)
  let start = env.local_date env.now
  end ← or_raise value_error (anniversary start 1)
  _ ← create_period env (activated s env.now) start end actor
  audit env actor (codes "subscription.activated") s.pk
  publish (codes "activation:" ++ show_ℕ s.pk)
      (notification s.customer (codes "Tu servicio está activo"))
  publish (codes "access-activation:" ++ show_ℕ s.pk) (subscription_changed s.pk)
  get_subscription s.pk

unfoldable pub activate_subscription : Env → ℕ → Option ℕ → M Subscription
activate_subscription env pk actor = do
  owned ← get_subscription pk
  _ ← get_customer owned.customer
  s ← get_subscription pk
  raise_if (is_cancelled_status s.status) service_cancelled
  if is_some s.activated_at then pure s else (do pass_gates env s; open_service env s actor)

-- The order with its evidence, if it was given.
unfoldable pub with_evidence : Option Text → WorkOrder → WorkOrder
with_evidence none w = w
with_evidence (some e) w = record w { completion_evidence = strip e }

unfoldable pub completed_work : WorkOrder → ℕ → WorkOrder
completed_work w now = record w { status = WorkStatus.completed; completed_at = some now }

abbrev pub is_cancelled_work : WorkStatus → Bool
is_cancelled_work WorkStatus.cancelled = true
is_cancelled_work _ = false

unfoldable pub save_work : WorkOrder → M (Unit {0})
save_work w = modify (
    with_field
      λ f. record f { work_orders = update_where (λ x. x.pk == w.pk) (λ _. w) f.work_orders })

-- `if work.kind == "installation": ...`
unfoldable pub activate_by : Env → WorkOrder → Option ℕ → M (Unit {0})
activate_by env w actor =
    if is_installation w.kind
    then (do
      s ← get_subscription w.subscription
      _ ← require_installation_readiness env s
      _ ← activate_subscription env w.subscription actor
      done)
    else done

unfoldable pub finish_work : Env → WorkOrder → Option ℕ → M WorkOrder
finish_work env w actor = do
  raise_if (is_blank w.completion_evidence) no_work_evidence
  let w' = completed_work w env.now
  save_work w'
  activate_by env w' actor
  audit env actor (codes "work_order.completed") w.pk
  pure w'

unfoldable pub complete_work_order : Env → ℕ → Option ℕ → Option Text → M WorkOrder
complete_work_order env pk actor evidence = do
  row ← gets (λ db. find (λ w. w.pk == pk) db.field.work_orders)
  w ← or_raise does_not_exist row
  if is_done w.status then pure w else (do
    raise_if (is_cancelled_work w.status) work_cancelled
    finish_work env (with_evidence evidence w) actor)

unfoldable pub resolved_ticket : Ticket → ℕ → Text → Ticket
resolved_ticket t now resolution = record t {
  resolution = strip resolution;
  status = TicketStatus.resolved;
  resolved_at = some now;
}

-- The columns that are shown, and `Ticket.clean` on a resolved ticket.
unfoldable pub is_clean_ticket : Ticket → Bool
is_clean_ticket t =
    not (is_empty t.subject)
    && not (ltb 200 (length t.subject))
    && not (is_empty t.description)
    && not (is_blank t.resolution)

-- `Ticket.clean`: a ticket about a service is of the customer of that service.
unfoldable pub check_ticket : Ticket → M (Unit {0})
check_ticket t = do
  maybe t.subscription done
      λ k. do s ← get_subscription k; raise_if (not (s.customer == t.customer)) bad_ticket
  raise_if (not (is_clean_ticket t)) bad_ticket

unfoldable pub close_ticket : Env → Ticket → Option ℕ → Text → M Ticket
close_ticket env t actor resolution = do
  let t' = resolved_ticket t env.now resolution
  check_ticket t'
  modify (
      with_operations
        λ o. record o { tickets = update_where (λ x. x.pk == t.pk) (λ _. t') o.tickets })
  audit env actor (codes "ticket.resolved") t.pk
  pure t'

unfoldable pub resolve_ticket : Env → ℕ → Option ℕ → Text → M Ticket
resolve_ticket env pk actor resolution = do
  row ← gets (λ db. find (λ t. t.pk == pk) db.operations.tickets)
  t ← or_raise does_not_exist row
  if is_resolved t.status then pure t else close_ticket env t actor resolution
