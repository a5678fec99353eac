-- ===== src/Billing/Allocate/Order.antt =====
-- The order of the open invoices: it decides between any two, and is transitive.
use fireisp.Prelude.{
  ℕ, ◌≡◌, Bool, true, false, Option, none, some, arith, ◌&&◌, ◌||◌, ltb, leb, ◌==◌,
}
use fireisp.Calendar.{Date, date_eq, date_ltb}
use fireisp.Store.{Invoice}
use fireisp.Billing.Allocate.{start_ltb, start_eq, invoice_leb}

abbrev before : Option Date → ℕ → ℕ → Option Date → ℕ → ℕ → Bool
before p c k q d l = start_ltb p q || start_eq p q && (ltb c d || c == d && leb k l)

before_total :
    (p : Option Date) (c k : ℕ) (q : Option Date) (d l : ℕ)
    → before p c k q d l ≡ false
    → before q d l p c k ≡ true
unfolding start_ltb start_eq date_ltb date_eq
before_total none c k none d l h = ground arith
before_total none c k (some b) d l h = ground arith
before_total (some a) c k none d l h = ground arith
before_total (some a) c k (some b) d l h = ground arith

before_trans :
    (p : Option Date) (c k : ℕ) (q : Option Date) (d l : ℕ) (r : Option Date) (e m : ℕ)
    → before p c k q d l ≡ true
    → before q d l r e m ≡ true
    → before p c k r e m ≡ true
unfolding start_ltb start_eq date_ltb date_eq
before_trans none c k none d l none e m h g = ground arith
before_trans none c k none d l (some z) e m h g = ground arith
before_trans none c k (some y) d l r e m h g = ground arith
before_trans (some x) c k none d l none e m h g = ground arith
before_trans (some x) c k none d l (some z) e m h g = ground arith
before_trans (some x) c k (some y) d l none e m h g = ground arith
before_trans (some x) c k (some y) d l (some z) e m h g = ground arith

pub invoice_leb_total : (a b : Invoice) → invoice_leb a b ≡ false → invoice_leb b a ≡ true
unfolding invoice_leb
invoice_leb_total a b =
    before_total a.period_start a.created_at a.pk b.period_start b.created_at b.pk

pub invoice_leb_trans :
    (a b c : Invoice) → invoice_leb a b ≡ true → invoice_leb b c ≡ true → invoice_leb a c ≡ true
unfolding invoice_leb
invoice_leb_trans a b c =
    before_trans a.period_start a.created_at a.pk b.period_start b.created_at b.pk c.period_start
      c.created_at c.pk
