-- ===== src/Compliance/Retention/Laws.antt =====
-- Laws of `can_dispose` of compliance/services.py.
use fireisp.Prelude.{
  ℕ, ◌≡◌, ◌≢◌, refl, Bool, true, false, not, ◌&&◌, ◌||◌, inl, inr, Option, none, some, List, [],
  ◌∷◌, ◌==◌, arith, is_some, All, Bool-cases, Option-cases, if◌then◌else◌,
}
use mathlib.Core.Path.{subst}
use fireisp.Prelude.Text.{Text, codes, text_eq, text_eq_refl, is_blank}
use fireisp.Calendar.{Date, date_leb, date_ltb}
use fireisp.Calendar.Days.{add_days}
use fireisp.Store.{Customer, ok, err}
use fireisp.Store.Ensures.{Result-cases}
use fireisp.Store.Compliance.{RetentionPolicy, RetentionHold, Compliance}
use fireisp.Compliance.Retention.{
  is_held, policies_of, is_reviewed_by, allows, all_allow, is_listed, policies_allow, can_dispose,
}

-- A policy that lets a file go: approved after a review, with its basis and method, and its days
-- gone by since the file was closed.
pub record Allows (since today : Date) (p : RetentionPolicy) : Type 0 where
  pub approved : p.approved ≡ true
  pub reviewed : is_reviewed_by p.reviewed_on today ≡ true
  pub basis : is_blank p.lawful_basis ≡ false
  pub method : is_blank p.disposal_method ≡ false
  pub end : Date
  pub is_end : add_days p.retention_days since ≡ some end
  pub gone_by : date_leb end today ≡ true

-- A hold does not stand against a category of the customer.
abbrev pub Spares : ℕ → Text → RetentionHold → Type 0
Spares customer category h =
    h.customer ≡ customer
    → h.released_at ≡ none
    → (h.category ≢ codes "*") × (h.category ≢ category)

-- Why contents may go.
pub record MayGo (c : Compliance) (customer : Customer) (category : Text) (since today : Date)
    : Type 0 where
  pub started : date_ltb today since ≡ false
  pub free : All (Spares customer.pk category) c.holds
  pub has_policy :
      is_listed (policies_of c.retention_policies customer.organization category) ≡ true
  pub policies :
      All (Allows since today) (policies_of c.retention_policies customer.organization category)

allows-Allows :
    (p : RetentionPolicy) (since today : Date)
    → allows p since today ≡ ok true
    → Allows since today p
unfolding allows
allows-Allows p since today h =
    elim (Bool-cases (
      p.approved
      && is_reviewed_by p.reviewed_on today
      && not (is_blank p.lawful_basis)
      && not (is_blank p.disposal_method))) [
        | inr refused ↦ let bad : ok false ≡ ok true = rw refused at h in absurd cc
        | inl all ↦ elim (Option-cases (add_days p.retention_days since)) [
          | inl beyond ↦ let bad : err _ ≡ ok true = rw (all, beyond) at h in absurd cc
          | inr (end, is_end) ↦
              let last : ok (date_leb end today) ≡ ok true = rw (all, is_end) at h in
              record {
                approved = ground arith;
                reviewed = ground arith;
                basis = ground arith;
                method = ground arith;
                end = end;
                is_end = is_end;
                gone_by = cc;
              }
        ]
      ]

all_allow-Allows :
    (ps : List RetentionPolicy) (since today : Date)
    → all_allow ps since today ≡ ok true
    → All (Allows since today) ps
unfolding all_allow
all_allow-Allows [] since today h = tt
all_allow-Allows (p ∷ ps) since today h = elim (Result-cases (allows p since today)) [
  | inr (e, bad) ↦ let it : err e ≡ ok true = rw (all_allow, bad) at h in absurd cc
  | inl (false, refused) ↦ let it : ok false ≡ ok true = rw (all_allow, refused) at h in absurd cc
  | inl (true, fine) ↦ (
    allows-Allows p since today fine,
    all_allow-Allows ps since today (rw (all_allow, fine) at h),
  )
]

differs : (s t : Text) → text_eq s t ≡ false → s ≢ t
differs s t h e =
    let same : text_eq s t ≡ true = subst (λ u. text_eq s u ≡ true) e (text_eq_refl s) in cc

is_held-Spares :
    (hs : List RetentionHold) (customer : ℕ) (category : Text)
    → is_held hs customer category ≡ false
    → All (Spares customer category) hs
unfolding is_held
is_held-Spares [] customer category h = tt
is_held-Spares (x ∷ hs) customer category h = (
  λ mine standing.
      let own : (x.customer == customer) ≡ true = ground (arith, mine) in
      let unreleased : is_some x.released_at ≡ false = rw standing refl in
      let neither : (text_eq x.category (codes "*") || text_eq x.category category) ≡ false =
        ground (arith, h, own, unreleased) in
      (
        λ e. differs x.category (codes "*") (ground (arith, neither)) e,
        λ e. differs x.category category (ground (arith, neither)) e,
      ),
  is_held-Spares hs customer category (ground (arith, h)),
)

-- can_dispose only lets contents go whose purpose has ended, on a day that is not before the file
-- was closed, with no standing hold on the category of the customer or on all of them, and with at
-- least one policy for the category, each of which is approved after a review, states its basis
-- and method, and has had its days go by since the file was closed.
pub can_dispose-MayGo :
    (c : Compliance) (customer : Customer) (category : Text) (since : Option Date) (ended : Bool)
    (today : Date)
    → can_dispose c customer category since ended today ≡ ok true
    → (ended ≡ true) × (d : Date) × (since ≡ some d) × MayGo c customer category d today
unfolding can_dispose policies_allow
can_dispose-MayGo c customer category none ended today h = absurd cc
can_dispose-MayGo c customer category (some d) ended today h =
    elim (Bool-cases (not ended || date_ltb today d || is_held c.holds customer.pk category)) [
      | inl refused ↦ let it : ok false ≡ ok true = rw refused at h in absurd cc
      | inr open' ↦
          let ps = policies_of c.retention_policies customer.organization category in
          let allow : (if is_listed ps then all_allow ps d today else ok false) ≡ ok true =
            rw open' at h in
          elim (Bool-cases (is_listed ps)) [
            | inr empty ↦ let it : ok false ≡ ok true = rw empty at allow in absurd cc
            | inl listed ↦ (
              ground (arith, open'),
              d,
              refl,
              record {
                started = ground (arith, open');
                free = is_held-Spares c.holds customer.pk category (ground (arith, open'));
                has_policy = listed;
                policies = all_allow-Allows ps d today (rw listed at allow);
              },
            )
          ]
    ]
