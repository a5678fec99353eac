-- ===== src/Operations/Reasons.antt =====
-- The kind and the status of a ticket, as the queries of operations/services.py test them.
use fireisp.Prelude.{◌≡◌, refl, true}
use fireisp.Prelude.Exists.{Reflects}
use fireisp.Store.{TicketKind, billing, TicketStatus, resolved}
use fireisp.Operations.{is_billing, is_resolved}

pub is_billing-Reflects : (k : TicketKind) → Reflects (is_billing k) (k ≡ billing)
is_billing-Reflects k = (of k, λ e. rw e refl)
  where
    of : (k : TicketKind) → is_billing k ≡ true → k ≡ billing
    of billing h = refl
    of _ h = cc

pub is_resolved-Reflects : (s : TicketStatus) → Reflects (is_resolved s) (s ≡ resolved)
is_resolved-Reflects s = (of s, λ e. rw e refl)
  where
    of : (s : TicketStatus) → is_resolved s ≡ true → s ≡ resolved
    of resolved h = refl
    of _ h = cc
