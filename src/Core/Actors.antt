-- ===== src/Core/Actors.antt =====
-- The user who asks for an operation: `None`, an anonymous visitor without a key, a customer or a
-- member of the staff; and the tests of a permission that the services share.
use fireisp.Prelude.{
  ℕ, Bool, true, false, not, ◌&&◌, ◌||◌, Option, none, some, opt_eq, if◌then◌else◌,
}
use fireisp.Store.{M, raise_if, permission_denied}

pub record Actor : Type 0 where
  pub pk : Option ℕ
  pub is_authenticated : Bool
  pub is_staff : Bool

-- `actor if getattr(actor, 'is_authenticated', False) else None`
abbrev pub signed_in : Option Actor → Option ℕ
signed_in none = none
signed_in (some a) = if a.is_authenticated then a.pk else none

-- A foreign key to the actor.
abbrev pub key_of : Option Actor → Option ℕ
key_of none = none
key_of (some a) = a.pk

-- `not actor or not actor.is_authenticated or (not actor.is_staff and user_id != actor.pk)`
unfoldable pub may_act : Option ℕ → Option Actor → Bool
may_act user none = false
may_act user (some a) = a.is_authenticated && (a.is_staff || opt_eq user a.pk)

-- `actor and not actor.is_staff and user_id != actor.pk`
unfoldable pub is_stranger : Option ℕ → Option Actor → Bool
is_stranger user none = false
is_stranger user (some a) = not a.is_staff && not (opt_eq user a.pk)

-- `_staff(actor)` of compliance/workflows.py.
unfoldable pub staff : Option Actor → M (Unit {0})
staff none = raise_if true permission_denied
staff (some a) = raise_if (not (a.is_authenticated && a.is_staff)) permission_denied
