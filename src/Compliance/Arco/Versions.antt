-- ===== src/Compliance/Arco/Versions.antt =====
-- The versions of a request that the services write follow the stored one.
use fireisp.Prelude.{ℕ, ◌≡◌, refl, sym, true, false, inl, inr, Bool, Option, is_some}
use mathlib.Core.Path.{subst}
use fireisp.Prelude.Versions.{first_write, first_written}
use fireisp.Prelude.Text.{Text, is_blank}
use fireisp.Calendar.{Date}
use fireisp.Store.Compliance.{
  ArcoStatus, pending_identity, in_review, decision_sent, completed, ArcoRequest, Stage, response,
  implementation,
}
use fireisp.Compliance.Arco.{
  verified, is_pending_identity, is_in_review, is_decision_sent, responded, with_due, carried_out,
}
use fireisp.Compliance.Arco.Stages.{
  verify, grant, refuse, carry_out, here, then, ◌⟶◌, ◌⟶*◌, IsUndecided, Stands, IsSound, Follows,
}

is_pending-eq : (s : ArcoStatus) → is_pending_identity s ≡ true → s ≡ pending_identity
is_pending-eq pending_identity h = refl
is_pending-eq in_review h = cc
is_pending-eq decision_sent h = cc
is_pending-eq completed h = cc

is_in_review-eq : (s : ArcoStatus) → is_in_review s ≡ true → s ≡ in_review
is_in_review-eq pending_identity h = cc
is_in_review-eq in_review h = refl
is_in_review-eq decision_sent h = cc
is_in_review-eq completed h = cc

is_decision_sent-eq : (s : ArcoStatus) → is_decision_sent s ≡ true → s ≡ decision_sent
is_decision_sent-eq pending_identity h = cc
is_decision_sent-eq in_review h = cc
is_decision_sent-eq decision_sent h = refl
is_decision_sent-eq completed h = cc

at_stage : (r : ArcoRequest) (s : ArcoStatus) → r.status ≡ s → IsSound r → Stands s r
at_stage r s e h = subst (λ t. Stands t r) e h

one_step : (r : ArcoRequest) (s t : ArcoStatus) → r.status ≡ s → s ⟶ t → r.status ⟶* t
one_step r s t e edge = subst (λ u. u ⟶* t) (sym e) (then here edge)

-- The records that the services build.
pub verified-Follows :
    (r : ArcoRequest) (now : ℕ) (evidence : Text)
    → is_pending_identity r.status ≡ true
    → is_blank evidence ≡ false
    → IsSound r
    → IsSound (verified r now evidence) × Follows r (verified r now evidence)
unfolding verified
verified-Follows r now evidence pending given h =
    let e = is_pending-eq r.status pending in
    let (fresh, due, undecided) = at_stage r pending_identity e h in
    (
      (
        record { verified = refl; due = due; shown = given },
        record {
          not_sent = undecided.not_sent;
          not_granted = undecided.not_granted;
          not_completed = undecided.not_completed;
        },
      ),
      record {
        path = one_step r pending_identity in_review e verify;
        customer = refl;
        received_on = refl;
        request_type = refl;
        description = refl;
        verified = first_written r.identity_verified_at _ _ _ fresh;
        sent = λ _ h. (h, refl);
        granted = λ _ h. h;
        closed = λ _ h. (h, refl);
      },
    )

pub responded-Follows :
    (r : ArcoRequest) (decision : Text) (granted : Bool) (sent_on : Date) (due : Option Date)
    → is_in_review r.status ≡ true
    → is_blank decision ≡ false
    → (granted ≡ true → is_some due ≡ true)
    → IsSound r
    → IsSound (responded r decision granted sent_on due)
      × Follows r (responded r decision granted sent_on due)
unfolding responded
responded-Follows r decision true sent_on due review given has_due h =
    let e = is_in_review-eq r.status review in
    let (known, undecided) = at_stage r in_review e h in
    (
      (
        record { verified = known.verified; due = known.due; shown = known.shown },
        refl,
        refl,
        has_due refl,
        undecided.not_completed,
        given,
      ),
      record {
        path = one_step r in_review decision_sent e grant;
        customer = refl;
        received_on = refl;
        request_type = refl;
        description = refl;
        verified = λ _ h. (h, refl);
        sent = first_written r.decision_sent_on _ _ _ undecided.not_sent;
        granted = first_write r.granted _ undecided.not_granted;
        closed = λ _ h. (h, refl);
      },
    )
responded-Follows r decision false sent_on due review given has_due h =
    let e = is_in_review-eq r.status review in
    let (known, undecided) = at_stage r in_review e h in
    (
      (
        record { verified = known.verified; due = known.due; shown = known.shown },
        refl,
        refl,
        given,
        inl refl,
      ),
      record {
        path = one_step r in_review completed e refuse;
        customer = refl;
        received_on = refl;
        request_type = refl;
        description = refl;
        verified = λ _ h. (h, refl);
        sent = first_written r.decision_sent_on _ _ _ undecided.not_sent;
        granted = first_write r.granted _ undecided.not_granted;
        closed = first_written r.completed_on _ _ _ undecided.not_completed;
      },
    )

with_due-IsUndecided :
    (r : ArcoRequest) (stage : Stage) (day : Date)
    → IsUndecided r
    → IsUndecided (with_due stage day r)
unfolding with_due
with_due-IsUndecided r response day h = record {
  not_sent = h.not_sent;
  not_granted = h.not_granted;
  not_completed = h.not_completed;
}
with_due-IsUndecided r implementation day h = record {
  not_sent = h.not_sent;
  not_granted = h.not_granted;
  not_completed = h.not_completed;
}

with_due-Stands :
    (s : ArcoStatus) (r : ArcoRequest) (stage : Stage) (day : Date)
    → Stands s r
    → Stands s (with_due stage day r)
unfolding with_due
with_due-Stands pending_identity r response day h =
    (h.0, refl, with_due-IsUndecided r response day h.2)
with_due-Stands pending_identity r implementation day h =
    (h.0, h.1, with_due-IsUndecided r implementation day h.2)
with_due-Stands in_review r response day h = (
  record { verified = h.0.verified; due = refl; shown = h.0.shown },
  with_due-IsUndecided r response day h.1,
)
with_due-Stands in_review r implementation day h = (
  record { verified = h.0.verified; due = h.0.due; shown = h.0.shown },
  with_due-IsUndecided r implementation day h.1,
)
with_due-Stands decision_sent r response day h =
    (record { verified = h.0.verified; due = refl; shown = h.0.shown }, h.1, h.2, h.3, h.4, h.5)
with_due-Stands decision_sent r implementation day h =
    (record { verified = h.0.verified; due = h.0.due; shown = h.0.shown }, h.1, h.2, refl, h.4, h.5)
with_due-Stands completed r response day h =
    (record { verified = h.0.verified; due = refl; shown = h.0.shown }, h.1, h.2, h.3, h.4)
with_due-Stands completed r implementation day h =
    (record { verified = h.0.verified; due = h.0.due; shown = h.0.shown }, h.1, h.2, h.3, h.4)

pub with_due-Follows :
    (r : ArcoRequest) (stage : Stage) (day : Date)
    → IsSound r
    → IsSound (with_due stage day r) × Follows r (with_due stage day r)
unfolding with_due
with_due-Follows r response day h = (
  with_due-Stands r.status r response day h,
  (record {
    path = here;
    customer = refl;
    received_on = refl;
    request_type = refl;
    description = refl;
    verified = λ _ h. (h, refl);
    sent = λ _ h. (h, refl);
    granted = λ _ h. h;
    closed = λ _ h. (h, refl);
  }),
)
with_due-Follows r implementation day h = (
  with_due-Stands r.status r implementation day h,
  (record {
    path = here;
    customer = refl;
    received_on = refl;
    request_type = refl;
    description = refl;
    verified = λ _ h. (h, refl);
    sent = λ _ h. (h, refl);
    granted = λ _ h. h;
    closed = λ _ h. (h, refl);
  }),
)

pub carried_out-Follows :
    (r : ArcoRequest) (today : Date) (evidence : Text)
    → is_decision_sent r.status ≡ true
    → is_blank evidence ≡ false
    → IsSound r
    → IsSound (carried_out r today evidence) × Follows r (carried_out r today evidence)
unfolding carried_out
carried_out-Follows r today evidence sent given h =
    let e = is_decision_sent-eq r.status sent in
    let (known, at, granted, due, unclosed, decided) = at_stage r decision_sent e h in
    (
      (
        record { verified = known.verified; due = known.due; shown = known.shown },
        at,
        refl,
        decided,
        inr (granted, given),
      ),
      record {
        path = one_step r decision_sent completed e carry_out;
        customer = refl;
        received_on = refl;
        request_type = refl;
        description = refl;
        verified = λ _ h. (h, refl);
        sent = λ _ h. (h, refl);
        granted = λ _ h. h;
        closed = first_written r.completed_on _ _ _ unclosed;
      },
    )

pub with_due-pk : (r : ArcoRequest) (stage : Stage) (day : Date) → (with_due stage day r).pk ≡ r.pk
unfolding with_due
with_due-pk r response day = refl
with_due-pk r implementation day = refl
