-- ===== src/Fiscal/Machine/Sound/Rows.antt =====
-- What single changes of the tables do to the invariant of the workers: a new key, a new row, a
-- changed job.
use fireisp.Prelude.{
  ℕ, suc, ◌≡◌, ◌≢◌, ◌∙◌, sym, ap, Bool, true, none, some, List, ◌∷◌, All, All-map, All-zip_with,
  update_where, ◌==◌, arith,
}
use fireisp.Prelude.Keys.{IsOnly, update-All, update-Distinct, update-Pairwise}
use fireisp.Store.{Db, with_fiscal}
use fireisp.Store.Fiscal.{FiscalDocument, FiscalJob}
use fireisp.Fiscal.{document_of, is_running, is_active_job}
use fireisp.Fiscal.Machine.{Worker}
use fireisp.Fiscal.Machine.Sound.{DocumentOk, JobOk, Apart, Sound}

-- A token of a worker that the job has after a change was its token before.
abbrev pub KeepsToken : FiscalJob → FiscalJob → Worker → Type 0
KeepsToken j j' w =
    j'.claim_token ≡ some w.token
    → (j.claim_token ≡ some w.token) × (is_running j'.status ≡ true → is_running j.status ≡ true)

module _ {finals : ℕ → Bool} {ws : List Worker} (db : Db) where
  -- A new key is drawn.
  pub fresh-Sound : Sound finals ws db → Sound finals ws (record db { next_pk = suc db.next_pk })
  fresh-Sound s = record {
    finals_below = λ k h. omega (arith, s.finals_below k h);
    documents =
        All-map _ _ _
          (λ d h. record { below = omega (arith, h.below); signed = h.signed; kept = h.kept })
          s.documents;
    documents_apart = s.documents_apart;
    jobs =
        All-map _ _ _
          (λ j h. record {
            below = omega (arith, h.below);
            token_below = λ t e. omega (arith, h.token_below t e);
            target_below = λ d e. omega (arith, h.target_below d e);
          })
          s.jobs;
    jobs_apart = s.jobs_apart;
    active_apart = s.active_apart;
    workers =
        All-map _ _ _
          (λ w h. record {
            below = omega (arith, h.below);
            document_below = omega (arith, h.document_below);
            held = h.held;
            owned = h.owned;
            alone = h.alone;
            sent = h.sent;
          })
          s.workers;
    workers_apart = s.workers_apart;
    once = s.once;
  }

  -- A job is entered that is not claimed, for a document that no active job is for.
  pub new_job-Sound :
      (j : FiscalJob)
      → Sound finals ws db
      → JobOk db.next_pk j
      → j.claim_token ≡ none
      → All (λ i. i.pk ≢ j.pk) db.fiscal.jobs
      → All (Apart j) db.fiscal.jobs
      → Sound finals ws (with_fiscal (λ f. record f { jobs = j ∷ f.jobs }) db)
  new_job-Sound j s ok unclaimed new apart = record {
    finals_below = s.finals_below;
    documents = s.documents;
    documents_apart = s.documents_apart;
    jobs = (ok, s.jobs);
    jobs_apart = (new, s.jobs_apart);
    active_apart = (apart, s.active_apart);
    workers =
        All-map _ _ _
          (λ w h. record {
            below = h.below;
            document_below = h.document_below;
            held = h.held;
            owned = (λ e. cc, h.owned);
            alone = λ out. (λ r. absurd (let e = r.1 in cc), h.alone out);
            sent = h.sent;
          })
          s.workers;
    workers_apart = s.workers_apart;
    once = s.once;
  }

  -- A document is entered that has no XML yet.
  pub new_document-Sound :
      (d : FiscalDocument)
      → Sound finals ws db
      → DocumentOk finals db.next_pk d
      → All (λ e. e.pk ≢ d.pk) db.fiscal.documents
      → All (λ w. w.document ≢ d.pk) ws
      → Sound finals ws (with_fiscal (λ f. record f { documents = d ∷ f.documents }) db)
  new_document-Sound d s ok new apart = record {
    finals_below = s.finals_below;
    documents = (ok, s.documents);
    documents_apart = (new, s.documents_apart);
    jobs = s.jobs;
    jobs_apart = s.jobs_apart;
    active_apart = s.active_apart;
    workers =
        All-zip_with _ _ _ ws
          (λ w h ne. record {
            below = h.below;
            document_below = h.document_below;
            held = h.held;
            owned = h.owned;
            alone = λ out. All-map _ _ _ (λ j k r. (λ e. absurd (ne (sym e)), k r)) (h.alone out);
            sent = λ out. (λ e. absurd (ne (sym e)), h.sent out);
          })
          s.workers apart;
    workers_apart = s.workers_apart;
    once = s.once;
  }

  -- A job changes, but for its target, and is not made active; a token that it has afterwards is new,
  -- or it had it before.
  pub update_job-Sound :
      (k : ℕ) (j : FiscalJob) (f : FiscalJob → FiscalJob)
      → IsOnly (λ i. i.pk) k j db.fiscal.jobs
      → ((i : FiscalJob) → (f i).pk ≡ i.pk)
      → (f j).target ≡ j.target
      → (is_active_job (f j).status ≡ true → is_active_job j.status ≡ true)
      → JobOk db.next_pk (f j)
      → All (KeepsToken j (f j)) ws
      → Sound finals ws db
      → Sound finals ws
          (with_fiscal (λ s. record s { jobs = update_where (λ i. i.pk == k) f s.jobs }) db)
  update_job-Sound k j f only pk target active ok tokens s = record {
    finals_below = s.finals_below;
    documents = s.documents;
    documents_apart = s.documents_apart;
    jobs = update-All _ _ k j f _ only (λ _. ok) s.jobs;
    jobs_apart = update-Distinct _ k f _ pk s.jobs_apart;
    active_apart =
        update-Pairwise _ Apart k j f _ only
          (λ y apart d i_active y_active e.
            apart d (active i_active) y_active (sym (ap document_of target) ∙ e))
          (λ y apart d y_active i_active e e'.
            apart d y_active (active i_active) e (sym (ap document_of target) ∙ e'))
          s.active_apart;
    workers =
        All-zip_with _ _ _ ws
          (λ w h token. record {
            below = h.below;
            document_below = h.document_below;
            held = h.held;
            owned =
                update-All _ _ k j f _ only (λ o e. ap document_of target ∙ o (token e).0) h.owned;
            alone = λ out.
                update-All _ _ k j f _ only (λ a r. a ((token r.1).1 r.0, (token r.1).0))
                  (h.alone out);
            sent = h.sent;
          })
          s.workers tokens;
    workers_apart = s.workers_apart;
    once = s.once;
  }
