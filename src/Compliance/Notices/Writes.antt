-- ===== src/Compliance/Notices/Writes.antt =====
-- The notices that the services write are later versions of the stored ones.
use fireisp.Prelude.{ℕ, ◌≡◌, refl, false, Option, none, some, is_some}
use fireisp.Prelude.Versions.{first_write}
use fireisp.Prelude.Text.{Text}
use fireisp.Calendar.{Date}
use fireisp.Store.Compliance.{RegulatoryNotice}
use fireisp.Compliance.Notices.{delivered, accepted, receipt}
use fireisp.Compliance.Notices.Versions.{Follows}

none_of : {A : Type 0} (o : Option A) → is_some o ≡ false → o ≡ none
none_of none h = refl
none_of (some a) h = cc

unfoldable pub published_now : RegulatoryNotice → ℕ → ℕ → RegulatoryNotice
published_now n pk now = record n { notification = some pk; published_at = some now }

pub published_now-Follows :
    (n : RegulatoryNotice) (pk now : ℕ)
    → is_some n.published_at ≡ false
    → Follows n (published_now n pk now)
unfolding published_now
published_now-Follows n pk now new = record {
  published = first_write n.published_at _ (none_of n.published_at new);
  shown = λ h. cc;
  delivered = λ _ e. (e, refl, refl);
  accepted = λ _ e. (e, refl);
}

pub delivered-Follows :
    (n : RegulatoryNotice) (day : Date) (channel evidence : Text)
    → is_some n.delivered_on ≡ false
    → Follows n (delivered n day channel evidence)
unfolding delivered
delivered-Follows n day channel evidence new = record {
  published = λ _ e. e;
  shown = λ _. record {
    subscription = refl;
    kind = refl;
    effective_on = refl;
    title = refl;
    body = refl;
    requires_consent = refl;
    document = refl;
    renewal_amount_mxn = refl;
    renewal_frequency = refl;
    notification = refl;
  };
  delivered = λ d e. let no : n.delivered_on ≡ none = none_of n.delivered_on new in cc;
  accepted = λ _ e. (e, refl);
}

pub receipt-Follows :
    (n : RegulatoryNotice) (today : Date) (user : ℕ)
    → is_some n.delivered_on ≡ false
    → Follows n (receipt n today user)
unfolding receipt
receipt-Follows n today user new = record {
  published = λ _ e. e;
  shown = λ _. record {
    subscription = refl;
    kind = refl;
    effective_on = refl;
    title = refl;
    body = refl;
    requires_consent = refl;
    document = refl;
    renewal_amount_mxn = refl;
    renewal_frequency = refl;
    notification = refl;
  };
  delivered = λ d e. let no : n.delivered_on ≡ none = none_of n.delivered_on new in cc;
  accepted = λ _ e. (e, refl);
}

pub accepted-Follows :
    (n : RegulatoryNotice) (now : ℕ) (evidence : Text)
    → is_some n.accepted_at ≡ false
    → Follows n (accepted n now evidence)
unfolding accepted
accepted-Follows n now evidence new = record {
  published = λ _ e. e;
  shown = λ _. record {
    subscription = refl;
    kind = refl;
    effective_on = refl;
    title = refl;
    body = refl;
    requires_consent = refl;
    document = refl;
    renewal_amount_mxn = refl;
    renewal_frequency = refl;
    notification = refl;
  };
  delivered = λ _ e. (e, refl, refl);
  accepted = λ t e. let no : n.accepted_at ≡ none = none_of n.accepted_at new in cc;
}
