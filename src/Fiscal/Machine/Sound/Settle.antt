-- ===== src/Fiscal/Machine/Sound/Settle.antt =====
-- What a worker writes to the document of its request, with the phase that it moves to.
use fireisp.Prelude.{
  ℕ, ◌≡◌, ◌≢◌, ◌∙◌, sym, ap, Bool, true, false, some, List, All, All-map, All-zip_with, find,
  find-All, update_where, ◌==◌, arith, inl, inr, Bool-cases, ==_iff,
}
use fireisp.Prelude.Keys.{IsOnly, update-All_others}
use fireisp.Prelude.Text.{is_empty}
use fireisp.Store.{Db, with_fiscal}
use fireisp.Store.Fiscal.{FiscalDocument, submitting, FiscalJob}
use fireisp.Fiscal.{holds}
use fireisp.Fiscal.Machine.{Phase, Worker, with_phase, is_sending}
use fireisp.Fiscal.Machine.Sound.{DocumentOk, WorkerOk, Sound, RunsFor, has_sent}
use fireisp.Fiscal.Machine.Sound.Documents.{Spares, Shuts, update_document-Sound}
use fireisp.Fiscal.Machine.Sound.Fence.{holds-RunsFor, fence-Free, Free}
use fireisp.Fiscal.Machine.Sound.Stamp.{with_phase-Sound}

module _ (finals : ℕ → Bool) (ws : List Worker) (w : Worker) (phase : Phase) (db : Db)
    (s : Sound finals ws db) (only_w : IsOnly (λ v. v.token) w.token w ws)
    (ok : WorkerOk db.next_pk db.fiscal w) (out : is_sending w.phase ≡ true)
    (quiet : is_sending phase ≡ false)
    (less : has_sent (record w { phase = phase }) ≡ true → has_sent w ≡ true) (now : ℕ)
    (j : FiscalJob) (found : find (λ i. i.pk == w.job.pk) db.fiscal.jobs ≡ some j)
    (held : holds now w.job j ≡ true) where
  abbrev rest : List Worker
  rest = with_phase w.token phase ws

  abbrev settled : Worker → Worker
  settled v = record v { phase = phase }

  pub moved-Sound : Sound finals rest db
  moved-Sound = with_phase-Sound finals ws w phase db only_w quiet less ok s

  -- The document is as this worker left it.
  left_submitting :
      (d : FiscalDocument)
      → find (λ e. e.pk == w.document) db.fiscal.documents ≡ some d
      → d.pk ≡ w.document
      → d.status ≡ submitting
  left_submitting d there own =
      (find-All _ (λ e. e.pk == w.document) db.fiscal.documents
          ((find-All _ (λ i. i.pk == w.job.pk) db.fiscal.jobs (ok.alone out) found).0
            (holds-RunsFor now w.token w.job j ok.held held))
          there).0
        own

  settled-Spares :
      (d d' : FiscalDocument) → d.pk ≡ w.document → All (Spares db.fiscal.jobs d d') rest
  settled-Spares d d' own =
      All-zip_with (Free db.fiscal.jobs w) (λ g. g.token ≡ w.token → is_sending g.phase ≡ false) _
        rest
        (λ g free still sends. elim (Bool-cases (g.token == w.token)) [
          | inl mine ↦
              let x : true ≡ false = sym sends ∙ still ((==_iff g.token w.token).0 mine) in cc
          | inr other ↦
              All-map (λ i. RunsFor g.token i → g.document ≢ w.document) _ db.fiscal.jobs
                (λ i apart r same _. absurd (apart r (sym same ∙ own)))
                (free
                  (λ e. let x : true ≡ false = sym ((==_iff g.token w.token).1 e) ∙ other in cc))
        ])
        (fence-Free db moved-Sound now w j ok found held)
        (update-All_others (λ v. v.token) _ w.token w settled ws only_w (λ _. quiet)
          (All-map (WorkerOk db.next_pk db.fiscal) _ ws (λ v _ ne e. absurd (ne e)) s.workers))

  pub settled-Sound :
      (d : FiscalDocument) (f : FiscalDocument → FiscalDocument)
      → find (λ e. e.pk == w.document) db.fiscal.documents ≡ some d
      → d.pk ≡ w.document
      → IsOnly (λ e. e.pk) w.document d db.fiscal.documents
      → DocumentOk finals db.next_pk d
      → ((e : FiscalDocument) → (f e).pk ≡ e.pk)
      → (f d).request_xml ≡ d.request_xml
      → All (Shuts d (f d)) rest
      → Sound finals rest (
          with_fiscal
            (λ t. record t { documents = update_where (λ e. e.pk == w.document) f t.documents })
            db)
  settled-Sound d f there own only ok_d pk xml shuts =
      let status = left_submitting d there own in
      update_document-Sound db w.document d f only pk
        (record {
          below = rw (pk d) ok_d.below;
          signed = λ h.
              absurd (let x = ok_d.signed (ap is_empty (sym xml) ∙ h) in ground (arith, x, status));
          kept = λ h.
              absurd (let x = ok_d.kept (ap finals (sym (pk d)) ∙ h) in ground (arith, x, status));
        })
        (settled-Spares d (f d) own) shuts moved-Sound
