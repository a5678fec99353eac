-- ===== src/Compliance/Retention.antt =====
-- compliance/services.py: `can_dispose` and `release_retention_hold`. A category is the text that
-- the column holds.
pub mod Laws
use fireisp.Prelude.{
  ℕ, Bool, true, false, not, ◌&&◌, ◌||◌, Option, none, some, List, [], ◌∷◌, ◌==◌, if◌then◌else◌,
  find, any, select, is_some, update_where,
}
use fireisp.Prelude.Text.{Text, codes, text_eq, is_blank, strip}
use fireisp.Calendar.{Date, date_leb, date_ltb}
use fireisp.Calendar.Days.{add_days}
use fireisp.Store.{
  Customer, Result, ok, err, M, ◌>>=◌, ◌>>◌, pure, gets, modify, raise_if, or_raise,
  with_compliance, does_not_exist, no_ground, overflow, Env,
}
use fireisp.Store.Compliance.{RetentionPolicy, RetentionHold, Compliance}
use fireisp.Core.{audit}
use fireisp.Core.Actors.{Actor, signed_in}

-- A hold on the category, or on all of them, that was not released.
unfoldable pub is_held : List RetentionHold → ℕ → Text → Bool
is_held holds customer category =
    any
      (λ h.
        h.customer == customer
        && not (is_some h.released_at)
        && (text_eq h.category (codes "*") || text_eq h.category category))
      holds

unfoldable pub policies_of : List RetentionPolicy → ℕ → Text → List RetentionPolicy
policies_of ps organization category =
    select (λ p. p.organization == organization && text_eq p.category category) ps

abbrev pub is_reviewed_by : Option Date → Date → Bool
is_reviewed_by none today = false
is_reviewed_by (some d) today = date_leb d today

-- The test of one policy; its last part overflows with the calendar.
unfoldable pub allows : RetentionPolicy → Date → Date → Result Bool
allows p since today =
    if not (
      p.approved
      && is_reviewed_by p.reviewed_on today
      && not (is_blank p.lawful_basis)
      && not (is_blank p.disposal_method))
    then ok false
    else elim (add_days p.retention_days since) [
      | none ↦ err overflow
      | some end ↦ ok (date_leb end today)
    ]

-- `all(...)`, which ends at the first policy that does not allow it.
unfoldable pub all_allow : List RetentionPolicy → Date → Date → Result Bool
all_allow [] since today = ok true
all_allow (p ∷ ps) since today = elim (allows p since today) [
  | err e ↦ err e
  | ok false ↦ ok false
  | ok true ↦ all_allow ps since today
]

abbrev pub is_listed : List RetentionPolicy → Bool
is_listed [] = false
is_listed (_ ∷ _) = true

-- `bool(policies) and all(...)`
unfoldable pub policies_allow : List RetentionPolicy → Date → Date → Result Bool
policies_allow ps since today = if is_listed ps then all_allow ps since today else ok false

unfoldable pub can_dispose : Compliance → Customer → Text → Option Date → Bool → Date → Result Bool
can_dispose c customer category none purpose_ended as_of = ok false
can_dispose c customer category (some since) purpose_ended as_of =
    if not purpose_ended || date_ltb as_of since || is_held c.holds customer.pk category
    then ok false
    else policies_allow (policies_of c.retention_policies customer.organization category) since
        as_of

unfoldable pub free_hold : RetentionHold → ℕ → Text → RetentionHold
free_hold h now reason = record h { released_at = some now; release_reason = strip reason }

unfoldable pub release_retention_hold : Env → ℕ → Option Actor → Text → M RetentionHold
release_retention_hold env pk actor reason = do
  raise_if (is_blank reason) no_ground
  row ← gets (λ db. find (λ h. h.pk == pk) db.compliance.holds)
  h ← or_raise does_not_exist row
  if is_some h.released_at then pure h else (do
    let h' = free_hold h env.now reason
    modify
        (with_compliance λ c. record c { holds = update_where (λ x. x.pk == pk) (λ _. h') c.holds })
    audit env (signed_in actor) (codes "retention.hold_released") pk
    pure h')
