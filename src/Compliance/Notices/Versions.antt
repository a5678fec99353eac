-- ===== src/Compliance/Notices/Versions.antt =====
-- The versions of a notice: what a later one keeps of an earlier one.
use fireisp.Prelude.{
  ℕ, ◌≡◌, refl, sym, ◌∙◌, Bool, true, false, not, Option, none, some, List, is_some, opt_eq,
  if◌then◌else◌, arith,
}
use fireisp.Prelude.Versions
use fireisp.Prelude.Versions.{WriteOnce, replaced-Evolves}
use fireisp.Prelude.Text.{text_eq-eq}
use fireisp.Calendar.{Date, date_eq}
use fireisp.Store.Compliance.{RegulatoryNotice, NoticeKind, contract_change, automatic_renewal}
use fireisp.Compliance.Notices.Save.{same_kind, same_notice}

-- What the customer was shown.
pub record IsSame (m n : RegulatoryNotice) : Type 0 where
  pub subscription : n.subscription ≡ m.subscription
  pub kind : n.kind ≡ m.kind
  pub effective_on : n.effective_on ≡ m.effective_on
  pub title : n.title ≡ m.title
  pub body : n.body ≡ m.body
  pub requires_consent : n.requires_consent ≡ m.requires_consent
  pub document : n.document ≡ m.document
  pub renewal_amount_mxn : n.renewal_amount_mxn ≡ m.renewal_amount_mxn
  pub renewal_frequency : n.renewal_frequency ≡ m.renewal_frequency
  pub notification : n.notification ≡ m.notification

pub record Follows (m n : RegulatoryNotice) : Type 0 where
  pub published : WriteOnce m.published_at n.published_at
  pub shown : is_some m.published_at ≡ true → IsSame m n
  pub delivered :
      (d : Date)
      → m.delivered_on ≡ some d
      → (n.delivered_on ≡ some d)
        × (n.delivery_channel ≡ m.delivery_channel)
        × (n.delivery_evidence ≡ m.delivery_evidence)
  pub accepted :
      (t : ℕ)
      → m.accepted_at ≡ some t
      → (n.accepted_at ≡ some t) × (n.acceptance_evidence ≡ m.acceptance_evidence)

pub IsSame-refl : (n : RegulatoryNotice) → IsSame n n
IsSame-refl n = record {
  subscription = refl;
  kind = refl;
  effective_on = refl;
  title = refl;
  body = refl;
  requires_consent = refl;
  document = refl;
  renewal_amount_mxn = refl;
  renewal_frequency = refl;
  notification = refl;
}

pub Follows-refl : (n : RegulatoryNotice) → Follows n n
Follows-refl n = record {
  published = λ _ e. e;
  shown = λ _. IsSame-refl n;
  delivered = λ _ e. (e, refl, refl);
  accepted = λ _ e. (e, refl);
}

IsSame-trans : {l m n : RegulatoryNotice} → IsSame l m → IsSame m n → IsSame l n
IsSame-trans f g = record {
  subscription = g.subscription ∙ f.subscription;
  kind = g.kind ∙ f.kind;
  effective_on = g.effective_on ∙ f.effective_on;
  title = g.title ∙ f.title;
  body = g.body ∙ f.body;
  requires_consent = g.requires_consent ∙ f.requires_consent;
  document = g.document ∙ f.document;
  renewal_amount_mxn = g.renewal_amount_mxn ∙ f.renewal_amount_mxn;
  renewal_frequency = g.renewal_frequency ∙ f.renewal_frequency;
  notification = g.notification ∙ f.notification;
}

still_some : {A : Type 0} (o o' : Option A) → WriteOnce o o' → is_some o ≡ true → is_some o' ≡ true
still_some none o' w h = cc
still_some (some a) o' w h = rw (w a refl) refl

pub Follows-trans : (l m n : RegulatoryNotice) → Follows l m → Follows m n → Follows l n
Follows-trans l m n f g = record {
  published = λ a e. g.published a (f.published a e);
  shown = λ h.
      IsSame-trans (f.shown h) (g.shown (still_some l.published_at m.published_at f.published h));
  delivered = λ d e.
      let (there, channel, evidence) = f.delivered d e in
      let (there', channel', evidence') = g.delivered d there in
      (there', channel' ∙ channel, evidence' ∙ evidence);
  accepted = λ t e.
      let (there, evidence) = f.accepted t e in
      let (there', evidence') = g.accepted t there in (there', evidence' ∙ evidence);
}

opt_eq-eq : (o o' : Option ℕ) → opt_eq o o' ≡ true → o' ≡ o
opt_eq-eq none none h = refl
opt_eq-eq none (some b) h = cc
opt_eq-eq (some a) none h = cc
opt_eq-eq (some a) (some b) h = let same : a ≡ b = ground arith in cc

date_eq-eq : (a b : Date) → date_eq a b ≡ true → b ≡ a
unfolding date_eq
date_eq-eq a b h =
    let y : a.year ≡ b.year = ground arith in
    let m : a.month ≡ b.month = ground arith in let d : a.day ≡ b.day = ground arith in cc

same_kind-eq : (a b : NoticeKind) → same_kind a b ≡ true → b ≡ a
same_kind-eq contract_change contract_change h = refl
same_kind-eq automatic_renewal automatic_renewal h = refl
same_kind-eq contract_change automatic_renewal h = cc
same_kind-eq automatic_renewal contract_change h = cc

bool-eq : (a b : Bool) → (if a then b else not b) ≡ true → b ≡ a
bool-eq true b h = h
bool-eq false true h = cc
bool-eq false false h = refl

-- The test in `save` compares what the customer was shown.
pub same_notice-IsSame :
    (m n : RegulatoryNotice)
    → same_notice m n ≡ true
    → IsSame m n × (n.published_at ≡ m.published_at)
unfolding same_notice
same_notice-IsSame m n h = (
  record {
    subscription = ground arith;
    kind = same_kind-eq m.kind n.kind (ground arith);
    effective_on = date_eq-eq m.effective_on n.effective_on (ground arith);
    title = sym (text_eq-eq m.title n.title (ground arith));
    body = sym (text_eq-eq m.body n.body (ground arith));
    requires_consent = bool-eq m.requires_consent n.requires_consent (ground arith);
    document = opt_eq-eq m.document n.document (ground arith);
    renewal_amount_mxn = opt_eq-eq m.renewal_amount_mxn n.renewal_amount_mxn (ground arith);
    renewal_frequency = sym (text_eq-eq m.renewal_frequency n.renewal_frequency (ground arith));
    notification = opt_eq-eq m.notification n.notification (ground arith);
  },
  opt_eq-eq m.published_at n.published_at (ground arith),
)

abbrev pub Evolves : List RegulatoryNotice → List RegulatoryNotice → Type 0
Evolves = Versions.Evolves (λ x. x.pk) Follows
