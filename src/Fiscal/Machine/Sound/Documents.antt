-- ===== src/Fiscal/Machine/Sound/Documents.antt =====
-- A changed document, and the workers that it concerns.
use fireisp.Prelude.{
  ℕ, ◌≡◌, ◌∙◌, sym, Bool, true, false, List, All, All-zip, All-zip_with, update_where, ◌==◌,
}
use fireisp.Prelude.Keys.{IsOnly, update-All, update-Distinct}
use fireisp.Store.{Db, with_fiscal}
use fireisp.Store.Fiscal.{FiscalDocument, FiscalJob, submitting}
use fireisp.Fiscal.Machine.{Worker, is_sending}
use fireisp.Fiscal.Machine.Sound.{DocumentOk, Sound, RunsFor, is_open, has_sent}

-- No request that is out is for the document `d`, or the change leaves it as it is for them.
abbrev pub Spares : List FiscalJob → FiscalDocument → FiscalDocument → Worker → Type 0
Spares jobs d d' w =
    is_sending w.phase ≡ true
    → All
        (λ j.
          RunsFor w.token j → d.pk ≡ w.document → d.status ≡ submitting → d'.status ≡ submitting)
        jobs

-- A document with a request out or answered, that was not rejected, does not open.
abbrev pub Shuts : FiscalDocument → FiscalDocument → Worker → Type 0
Shuts d d' w =
    has_sent w ≡ true → d.pk ≡ w.document → is_open d.status ≡ false → is_open d'.status ≡ false

module _ {finals : ℕ → Bool} {ws : List Worker} (db : Db) where
  pub update_document-Sound :
      (k : ℕ) (d : FiscalDocument) (f : FiscalDocument → FiscalDocument)
      → IsOnly (λ e. e.pk) k d db.fiscal.documents
      → ((e : FiscalDocument) → (f e).pk ≡ e.pk)
      → DocumentOk finals db.next_pk (f d)
      → All (Spares db.fiscal.jobs d (f d)) ws
      → All (Shuts d (f d)) ws
      → Sound finals ws db
      → Sound finals ws (
          with_fiscal
            (λ s. record s { documents = update_where (λ e. e.pk == k) f s.documents })
            db)
  update_document-Sound k d f only pk ok spares closed s = record {
    finals_below = s.finals_below;
    documents = update-All _ _ k d f _ only (λ _. ok) s.documents;
    documents_apart = update-Distinct _ k f _ pk s.documents_apart;
    jobs = s.jobs;
    jobs_apart = s.jobs_apart;
    active_apart = s.active_apart;
    workers =
        All-zip_with _ _ _ ws
          (λ w h both. record {
            below = h.below;
            document_below = h.document_below;
            held = h.held;
            owned = h.owned;
            alone = λ out.
                All-zip_with _ _ _ db.fiscal.jobs
                  (λ j mine kept r.
                    update-All _ _ k d f _ only
                      (λ submits e. kept r (sym (pk d) ∙ e) (submits (sym (pk d) ∙ e))) (mine r))
                  (h.alone out) (both.0 out);
            sent = λ out.
                update-All _ _ k d f _ only
                  (λ shut e. both.1 out (sym (pk d) ∙ e) (shut (sym (pk d) ∙ e))) (h.sent out);
          })
          s.workers (All-zip _ _ ws spares closed);
    workers_apart = s.workers_apart;
    once = s.once;
  }
