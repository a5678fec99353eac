-- ===== src/Fiscal/Machine/Sound/Send.antt =====
-- `stamp_document` before the PAC keeps the invariant of the workers.
use fireisp.Prelude.{
  ℕ, ◌≡◌, ◌≢◌, ◌∙◌, sym, refl, Bool, true, false, not, ◌&&◌, some, List, All-map, find, find-All,
  update_where, ◌==◌, arith, inl, inr, Bool-cases,
}
use fireisp.Prelude.Keys.{
  IsOnly, update-All, update-All_others, update-Distinct, update-Pairwise_others,
}
use fireisp.Prelude.Text.{is_empty}
use fireisp.Store.{Db, Env, ◌>>=◌, ◌>>◌, pure, with_fiscal}
use fireisp.Store.Ensures.{Ensures, Ensures-bind}
use fireisp.Store.Fiscal.{FiscalDocument, DocumentStatus, submitting}
use fireisp.Fiscal.{get_document, update_document, get_profile}
use fireisp.Fiscal.Jobs.{is_stamp}
use fireisp.Fiscal.Stamp.{is_stamped, may_be_stamped, send_document, begin_stamp}
use fireisp.Fiscal.Machine.{skipped, sending, Worker, with_phase, is_recover, after_begin}
use fireisp.Fiscal.Machine.Sound.{DocumentOk, JobOk, WorkerOk, Sound, is_open, has_sent, OnlyOnce}
use fireisp.Fiscal.Machine.Sound.Documents.{update_document-Sound}
use fireisp.Fiscal.Machine.Sound.Prepare.{get_profile-Preserves}
use fireisp.Fiscal.Machine.Sound.Stamp.{
  claim_transaction-Ensures, get_document-Ensures, with_phase-Sound,
}

abbrev pub sent_out : FiscalDocument → FiscalDocument
sent_out r = record r { status = submitting }

-- Neither stamped, nor perhaps stamped: open.
unsent-IsOpen :
    (s : DocumentStatus) → is_stamped s ≡ false → may_be_stamped s ≡ false → is_open s ≡ true
unsent-IsOpen s h k = ground arith

module _ (finals : ℕ → Bool) (ws : List Worker) (w : Worker) (d : FiscalDocument) (db : Db)
    (s : Sound finals ws db) (only_w : IsOnly (λ v. v.token) w.token w ws)
    (ok : WorkerOk db.next_pk db.fiscal w)
    (only : IsOnly (λ e. e.pk) w.document d db.fiscal.documents)
    (found : find (λ e. e.pk == w.document) db.fiscal.documents ≡ some d) (own : d.pk ≡ w.document)
    (ok_d : DocumentOk finals db.next_pk d) (fresh : is_stamped d.status ≡ false)
    (full : is_empty d.request_xml ≡ false)
    (first : is_stamp w.job.operation ≡ true → may_be_stamped d.status ≡ false) where
  abbrev after : Db
  after =
      with_fiscal
        (λ f. record f { documents = update_where (λ e. e.pk == w.document) sent_out f.documents })
        db

  abbrev busy : Worker → Worker
  busy v = record v { phase = sending }

  sent_document-Sound : Sound finals ws after
  sent_document-Sound =
      update_document-Sound db w.document d sent_out only (λ _. refl)
        (record {
          below = ok_d.below;
          signed = λ h. absurd (let x : true ≡ false = sym h ∙ full in cc);
          kept = λ h. absurd (let x : true ≡ false = sym (ok_d.kept h) ∙ fresh in cc);
        })
        (All-map (WorkerOk db.next_pk db.fiscal) _ ws
          (λ g _ _. All-map (JobOk db.next_pk) _ _ (λ i _ _ _ _. refl) s.jobs) s.workers)
        (All-map (WorkerOk db.next_pk db.fiscal) _ ws (λ g _ _ _ _. refl) s.workers) s

  -- No unrejected request to stamp is for this document yet.
  first_request :
      (v : Worker)
      → WorkerOk db.next_pk db.fiscal v
      → is_stamp w.job.operation ≡ true
      → has_sent v ≡ true
      → v.document ≢ w.document
  first_request v ok_v stamping out same =
      let shut =
        (find-All _ (λ e. e.pk == w.document) db.fiscal.documents (ok_v.sent out) found).0
          (own ∙ sym same) in
      let free = unsent-IsOpen d.status fresh (first stamping) in
      let x : true ≡ false = sym free ∙ shut in cc

  sent-Sound : Sound finals (with_phase w.token sending ws) after
  sent-Sound =
      let moved = sent_document-Sound in
      record {
        finals_below = moved.finals_below;
        documents = moved.documents;
        documents_apart = moved.documents_apart;
        jobs = moved.jobs;
        jobs_apart = moved.jobs_apart;
        active_apart = moved.active_apart;
        workers =
            update-All (λ v. v.token) (WorkerOk after.next_pk after.fiscal) w.token w busy ws only_w
              (λ now. record {
                below = now.below;
                document_below = now.document_below;
                held = now.held;
                owned = now.owned;
                alone = λ _.
                    All-map (JobOk db.next_pk) _ _
                      (λ i _ _.
                        update-All_others (λ e. e.pk) _ w.document d sent_out db.fiscal.documents
                          only (λ _. refl)
                          (All-map (DocumentOk finals db.next_pk) _ _
                            (λ e _ ne same. absurd (ne same)) s.documents))
                      s.jobs;
                sent = λ _.
                    update-All_others (λ e. e.pk) _ w.document d sent_out db.fiscal.documents only
                      (λ _. refl)
                      (All-map (DocumentOk finals db.next_pk) _ _ (λ e _ ne same. absurd (ne same))
                        s.documents);
              })
              moved.workers;
        workers_apart =
            update-Distinct (λ v. v.token) w.token busy ws (λ _. refl) moved.workers_apart;
        once =
            update-Pairwise_others (λ v. v.token) OnlyOnce w.token w busy ws only_w s.workers_apart
              (All-map (WorkerOk db.next_pk db.fiscal) _ ws
                (λ v ok_v _. (
                  λ h k. first_request v ok_v (ground (arith, h)) k,
                  λ h k e. first_request v ok_v (ground (arith, k)) h (sym e),
                ))
                s.workers)
              s.once;
      }

module _ (finals : ℕ → Bool) (ws : List Worker) (w : Worker) (d : FiscalDocument)
    (only_w : IsOnly (λ v. v.token) w.token w ws) (own : d.pk ≡ w.document) where
  abbrev Sendable : Db → Type 0
  Sendable db =
      Sound finals ws db
      × WorkerOk db.next_pk db.fiscal w
      × IsOnly (λ e. e.pk) w.document d db.fiscal.documents
      × (find (λ e. e.pk == w.document) db.fiscal.documents ≡ some d)
      × DocumentOk finals db.next_pk d

  abbrev Begun : Bool → Db → Type 0
  Begun b db = Sound finals (with_phase w.token (after_begin b) ws) db

  send_document-Sound :
      (db : Db)
      → Sendable db
      → Ensures Begun (send_document w.document (is_recover w.job.operation) d db)
  unfolding send_document update_document
  send_document-Sound db r = elim (Bool-cases (is_stamped d.status)) [
    | inl done_before ↦
        rw done_before
          (with_phase-Sound finals ws w skipped db only_w refl (λ h. ground (arith, h)) r.1 r.0)
    | inr fresh ↦ elim (Bool-cases (may_be_stamped d.status && not (is_recover w.job.operation))) [
      | inl refused ↦ rw (fresh, ◌>>=◌, refused) tt
      | inr let_through ↦ elim (Bool-cases (is_empty d.request_xml)) [
        | inl unsigned ↦ rw (fresh, ◌>>=◌, let_through, unsigned) tt
        | inr full ↦
            rw (fresh, ◌>>=◌, let_through, full)
              (Ensures-bind (λ _ db'. Sendable db') Begun (get_profile d.organization)
                (λ _. update_document w.document sent_out >> pure true) db
                ((get_profile-Preserves d.organization).at db r)
                (λ _ db1 q.
                  sent-Sound finals ws w d db1 q.0 only_w q.1 q.2 q.3 own q.4 fresh full
                    (λ stamping. ground (arith, let_through, stamping))))
      ]
    ]
  ]

pub begin_stamp-Sound :
    (finals : ℕ → Bool) (ws : List Worker) (env : Env) (w : Worker) (db : Db)
    → Sound finals ws db
    → IsOnly (λ v. v.token) w.token w ws
    → WorkerOk db.next_pk db.fiscal w
    → Ensures
        (λ b db'. Sound finals (with_phase w.token (after_begin b) ws) db')
        (begin_stamp env w.document (is_recover w.job.operation) (some w.job) db)
unfolding begin_stamp
begin_stamp-Sound finals ws env w db s only_w ok =
    let post : Bool → Db → Type 0 =
      λ b db'. Sound finals (with_phase w.token (after_begin b) ws) db' in
    claim_transaction-Ensures post env w.job
      (get_document w.document >>= λ d. send_document w.document (is_recover w.job.operation) d) db
      (λ j _ _.
        get_document-Ensures post finals ws w.document
          (λ d. send_document w.document (is_recover w.job.operation) d) db s
          (λ d own only ok_d found.
            send_document-Sound finals ws w d only_w own db (s, ok, only, found, ok_d)))
