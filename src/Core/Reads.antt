-- ===== src/Core/Reads.antt =====
-- The look-ups write nothing, and depend on one table each.
use fireisp.Prelude.{
  not, ◌&&◌, ◌∷◌, ℕ, ◌≡◌, refl, ◌⊎◌, inl, inr, Option, none, some, any, find, ◌==◌, Bool-cases,
  Option-cases,
}
use fireisp.Store.{
  Error, does_not_exist, permission_denied, ◌>>=◌, Journal, Message, Organization, Customer, Plan,
  Subscription, Invoice, Db, ok, err,
}
use fireisp.Prelude.Text.{Text, text_eq}
use fireisp.Core.Actors.{Actor, staff}
use fireisp.Core.{
  publish, actor_lock, get_customer, get_organization, get_subscription, get_invoice, get_plan,
}

pub actor_lock_cases :
    (actor : Option ℕ) (db : Db)
    → (actor_lock actor db ≡ ok (tt, db)) ⊎ ((e : Error) × (actor_lock actor db ≡ err e))
unfolding actor_lock
actor_lock_cases none db = inl refl
actor_lock_cases (some k) db = elim (Bool-cases (any (λ u. u == k) db.accounts.users)) [
  | inl known ↦ inl (rw known)
  | inr absent ↦ inr (does_not_exist, rw absent)
]

pub actor_lock-users :
    (actor : Option ℕ) (db db' : Db)
    → db'.accounts.users ≡ db.accounts.users
    → actor_lock actor db ≡ ok (tt, db)
    → actor_lock actor db' ≡ ok (tt, db')
unfolding actor_lock
actor_lock-users none db db' same h = refl
actor_lock-users (some k) db db' same h = elim (Bool-cases (any (λ u. u == k) db.accounts.users)) [
  | inl known ↦ rw (same, known)
  | inr absent ↦ cc (rw absent at h)
]

pub get_customer_cases :
    (pk : ℕ) (db : Db)
    → ((c : Customer) × (find (λ c. c.pk == pk) db.accounts.customers ≡ some c)
        × (get_customer pk db ≡ ok (c, db)))
      ⊎ ((e : Error) × (get_customer pk db ≡ err e))
unfolding get_customer
get_customer_cases pk db = elim (Option-cases (find (λ c. c.pk == pk) db.accounts.customers)) [
  | inl absent ↦ inr (does_not_exist, rw absent)
  | inr (c, found) ↦ inl (c, found, rw found)
]

pub get_customer_found :
    (pk : ℕ) (c : Customer) (db : Db)
    → find (λ c. c.pk == pk) db.accounts.customers ≡ some c
    → get_customer pk db ≡ ok (c, db)
unfolding get_customer
get_customer_found pk c db found = rw found

pub get_subscription_cases :
    (pk : ℕ) (db : Db)
    → ((s : Subscription) × (find (λ s. s.pk == pk) db.accounts.subscriptions ≡ some s)
        × (get_subscription pk db ≡ ok (s, db)))
      ⊎ ((e : Error) × (get_subscription pk db ≡ err e))
unfolding get_subscription
get_subscription_cases pk db =
    elim (Option-cases (find (λ s. s.pk == pk) db.accounts.subscriptions)) [
      | inl absent ↦ inr (does_not_exist, rw absent)
      | inr (s, found) ↦ inl (s, found, rw found)
    ]

pub get_invoice_cases :
    (pk : ℕ) (db : Db)
    → ((v : Invoice) × (find (λ v. v.pk == pk) db.ledger.invoices ≡ some v)
        × (get_invoice pk db ≡ ok (v, db)))
      ⊎ ((e : Error) × (get_invoice pk db ≡ err e))
unfolding get_invoice
get_invoice_cases pk db = elim (Option-cases (find (λ v. v.pk == pk) db.ledger.invoices)) [
  | inl absent ↦ inr (does_not_exist, rw absent)
  | inr (v, found) ↦ inl (v, found, rw found)
]

pub get_organization_cases :
    (pk : ℕ) (db : Db)
    → ((o : Organization) × (find (λ o. o.pk == pk) db.accounts.organizations ≡ some o)
        × (get_organization pk db ≡ ok (o, db)))
      ⊎ ((e : Error) × (get_organization pk db ≡ err e))
unfolding get_organization
get_organization_cases pk db =
    elim (Option-cases (find (λ o. o.pk == pk) db.accounts.organizations)) [
      | inl absent ↦ inr (does_not_exist, rw absent)
      | inr (o, found) ↦ inl (o, found, rw found)
    ]

pub get_organization_found :
    (pk : ℕ) (o : Organization) (db : Db)
    → find (λ o. o.pk == pk) db.accounts.organizations ≡ some o
    → get_organization pk db ≡ ok (o, db)
unfolding get_organization
get_organization_found pk o db found = rw found

pub get_plan_cases :
    (pk : ℕ) (db : Db)
    → ((p : Plan) × (find (λ p. p.pk == pk) db.accounts.plans ≡ some p)
        × (get_plan pk db ≡ ok (p, db)))
      ⊎ ((e : Error) × (get_plan pk db ≡ err e))
unfolding get_plan
get_plan_cases pk db = elim (Option-cases (find (λ p. p.pk == pk) db.accounts.plans)) [
  | inl absent ↦ inr (does_not_exist, rw absent)
  | inr (p, found) ↦ inl (p, found, rw found)
]

pub staff_cases :
    (actor : Option Actor) (db : Db)
    → (staff actor db ≡ ok (tt, db)) ⊎ ((e : Error) × (staff actor db ≡ err e))
unfolding staff
staff_cases none db = inr (permission_denied, refl)
staff_cases (some a) db = elim (Bool-cases (not (a.is_authenticated && a.is_staff))) [
  | inl other ↦ inr (permission_denied, rw other refl)
  | inr member ↦ inl (rw member refl)
]

-- An event that is published changes the journal alone.
pub publish_runs :
    (key : Text) (message : Message) (db : Db)
    → (j : Journal) × (publish key message db ≡ ok (tt, record db { journal = j }))
unfolding publish
publish_runs key message db = elim (Bool-cases (any (λ e. text_eq e.key key) db.journal.outbox)) [
  | inl known ↦ (db.journal, rw (◌>>=◌, known) refl)
  | inr new ↦ (
    record db.journal { outbox = record { key = key; message = message } ∷ db.journal.outbox },
    rw (◌>>=◌, new) refl,
  )
]

pub get_subscription_found :
    (pk : ℕ) (s : Subscription) (db : Db)
    → find (λ s. s.pk == pk) db.accounts.subscriptions ≡ some s
    → get_subscription pk db ≡ ok (s, db)
unfolding get_subscription
get_subscription_found pk s db found = rw found
