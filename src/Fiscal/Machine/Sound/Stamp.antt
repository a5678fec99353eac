-- ===== src/Fiscal/Machine/Sound/Stamp.antt =====
-- The transactions of a worker that stamps keep the invariant of the workers.
use fireisp.Prelude.{
  ℕ, ◌≡◌, ◌∙◌, sym, refl, Bool, true, false, Option, some, List, All-map, find, find-All, ◌==◌,
  arith, inl, inr, Bool-cases, Option-cases,
}
use fireisp.Prelude.Keys.{IsOnly, find-own, update-All, update-Distinct, update-Pairwise}
use fireisp.Prelude.Text.{Text, codes, is_empty}
use fireisp.Store.{Db, M, Env, ◌>>=◌, ◌>>◌}
use fireisp.Core.{audit}
use fireisp.Store.Preserves.{Preserves}
use fireisp.Store.Ensures.{Ensures, Ensures-bind}
use fireisp.Store.Fiscal.{FiscalDocument, FiscalJob}
use fireisp.Fiscal.{
  claim_transaction, holds, get_document, update_document, get_profile, bounded_xml,
}
use fireisp.Fiscal.Stamp.{is_draft, write_signed, sign_document, prepare_for_stamp}
use fireisp.Fiscal.Machine.{Phase, Worker, with_phase, is_sending}
use fireisp.Fiscal.Machine.Sound.Leases.{document_IsOnly}
use fireisp.Fiscal.Machine.Sound.Documents.{update_document-Sound}
use fireisp.Fiscal.Machine.Sound.Prepare.{get_profile-Preserves, bounded_xml-Preserves, audit-Sound}
use fireisp.Fiscal.Machine.Sound.{DocumentOk, JobOk, WorkerOk, Sound, is_open, has_sent, OnlyOnce}

-- A fenced transaction goes on only where the claim holds.
pub claim_transaction-Ensures :
    {A : Type 0} (P : A → Db → Type 0) (env : Env) (claim : FiscalJob) (k : M A) (db : Db)
    → ((j : FiscalJob)
        → find (λ i. i.pk == claim.pk) db.fiscal.jobs ≡ some j
        → holds env.now claim j ≡ true
        → Ensures P (k db))
    → Ensures P ((claim_transaction env (some claim) >> k) db)
unfolding claim_transaction
claim_transaction-Ensures P env claim k db h =
    elim (Option-cases (find (λ i. i.pk == claim.pk) db.fiscal.jobs)) [
      | inl e ↦ rw (◌>>=◌, e) tt
      | inr (j, e) ↦ elim (Bool-cases (holds env.now claim j)) [
        | inl held ↦ rw (◌>>=◌, e, held) (h j e held)
        | inr lost ↦ rw (◌>>=◌, e, lost) tt
      ]
    ]

-- A document that is looked up: the only one with its key.
pub get_document-Ensures :
    {A : Type 0} (P : A → Db → Type 0) (finals : ℕ → Bool) (ws : List Worker) (pk : ℕ)
    (k : FiscalDocument → M A) (db : Db)
    → Sound finals ws db
    → ((d : FiscalDocument)
        → d.pk ≡ pk
        → IsOnly (λ e. e.pk) pk d db.fiscal.documents
        → DocumentOk finals db.next_pk d
        → find (λ e. e.pk == pk) db.fiscal.documents ≡ some d
        → Ensures P (k d db))
    → Ensures P ((get_document pk >>= k) db)
unfolding get_document
get_document-Ensures P finals ws pk k db s h =
    elim (Option-cases (find (λ e. e.pk == pk) db.fiscal.documents)) [
      | inl e ↦ rw (◌>>=◌, e) tt
      | inr (d, e) ↦
          let own = find-own (λ x. x.pk) pk db.fiscal.documents d e in
          rw (◌>>=◌, e)
            (h d own.0 (document_IsOnly db s pk e)
              (find-All (DocumentOk finals db.next_pk) (λ x. x.pk == pk) db.fiscal.documents
                s.documents e).0
              e)
    ]

-- A worker that stops waiting for an answer.
pub with_phase-Sound :
    (finals : ℕ → Bool) (ws : List Worker) (w : Worker) (phase : Phase) (db : Db)
    → IsOnly (λ v. v.token) w.token w ws
    → is_sending phase ≡ false
    → (has_sent (record w { phase = phase }) ≡ true → has_sent w ≡ true)
    → WorkerOk db.next_pk db.fiscal w
    → Sound finals ws db
    → Sound finals (with_phase w.token phase ws) db
with_phase-Sound finals ws w phase db only quiet less ok s =
    let f : Worker → Worker = λ v. record v { phase = phase } in
    record {
      finals_below = s.finals_below;
      documents = s.documents;
      documents_apart = s.documents_apart;
      jobs = s.jobs;
      jobs_apart = s.jobs_apart;
      active_apart = s.active_apart;
      workers =
          update-All (λ v. v.token) (WorkerOk db.next_pk db.fiscal) w.token w f ws only
            (λ _. record {
              below = ok.below;
              document_below = ok.document_below;
              held = ok.held;
              owned = ok.owned;
              alone = λ h. absurd (let x : true ≡ false = sym h ∙ quiet in cc);
              sent = λ h. ok.sent (less h);
            })
            s.workers;
      workers_apart = update-Distinct (λ v. v.token) w.token f ws (λ _. refl) s.workers_apart;
      once =
          update-Pairwise (λ v. v.token) OnlyOnce w.token w f ws only
            (λ y once h k. once (less h) k) (λ y once h k. once h (less k)) s.once;
    }

-- The row `d` of the database with the key `pk`.
abbrev Row : (ℕ → Bool) → List Worker → ℕ → FiscalDocument → Db → Type 0
Row finals ws pk d db =
    Sound finals ws db
    × IsOnly (λ e. e.pk) pk d db.fiscal.documents
    × DocumentOk finals db.next_pk d

write_signed-Sound :
    {finals : ℕ → Bool} {ws : List Worker} (env : Env) (pk : ℕ) (actor : Option ℕ) (signed : Text)
    (d : FiscalDocument) (db : Db)
    → is_draft d.status ≡ true
    → Row finals ws pk d db
    → Ensures (λ _ db'. Sound finals ws db') (write_signed env pk actor signed d.organization db)
unfolding write_signed update_document
write_signed-Sound {finals} {ws} env pk actor signed d db still row =
    let free : is_open d.status ≡ true = ground (arith, still) in
    let change : Text → FiscalDocument → FiscalDocument = λ xml r. record r { request_xml = xml } in
    let write : Text → M (Unit {0}) = λ xml.
      update_document pk (change xml) >> audit env actor (codes "fiscal.document.signed") pk in
    Ensures-bind (λ _ db'. Row finals ws pk d db') (λ _ db'. Sound finals ws db')
      (get_profile d.organization) (λ _. bounded_xml signed >>= write) db
      ((get_profile-Preserves d.organization).at db row)
      (λ _ db1 row1.
        Ensures-bind (λ _ db'. Row finals ws pk d db') (λ _ db'. Sound finals ws db')
          (bounded_xml signed) write db1 ((bounded_xml-Preserves signed).at db1 row1)
          (λ xml db2 row2. (audit-Sound env actor (codes "fiscal.document.signed") pk).at _ (
            update_document-Sound db2 pk d (change xml) row2.1 (λ _. refl)
              (record { below = row2.2.below; signed = λ _. free; kept = row2.2.kept })
              (All-map (WorkerOk db2.next_pk db2.fiscal) _ ws
                (λ g _ _. All-map (JobOk db2.next_pk) _ _ (λ i _ _ _ e. e) row2.0.jobs)
                row2.0.workers)
              (All-map (WorkerOk db2.next_pk db2.fiscal) _ ws (λ g _ _ _ e. e) row2.0.workers)
              row2.0)))

signed-Sound :
    {finals : ℕ → Bool} {ws : List Worker} (env : Env) (pk : ℕ) (actor : Option ℕ) (signed : Text)
    (d : FiscalDocument) (db : Db)
    → Sound finals ws db
    → IsOnly (λ e. e.pk) pk d db.fiscal.documents
    → DocumentOk finals db.next_pk d
    → Ensures (λ _ db'. Sound finals ws db') (sign_document env pk actor signed d db)
unfolding sign_document
signed-Sound {finals} {ws} env pk actor signed d db s only ok =
    elim (Bool-cases (is_empty d.request_xml)) [
      | inr full ↦ rw full s
      | inl empty ↦ elim (Bool-cases (is_draft d.status)) [
        | inr other ↦ rw (empty, ◌>>=◌, other) tt
        | inl draft_still ↦
            rw (empty, ◌>>=◌, draft_still)
              (write_signed-Sound env pk actor signed d db draft_still (s, only, ok))
      ]
    ]

-- `_prepare_for_stamp` changes no status.
pub prepare_for_stamp-Sound :
    {finals : ℕ → Bool} {ws : List Worker} (env : Env) (pk : ℕ) (actor : Option ℕ)
    (claim : FiscalJob) (signed : Text)
    → Preserves (Sound finals ws) (prepare_for_stamp env pk actor (some claim) signed)
unfolding prepare_for_stamp
prepare_for_stamp-Sound {finals} {ws} env pk actor claim signed = record {
  at = λ db s.
      claim_transaction-Ensures (λ _ db'. Sound finals ws db') env claim
        (get_document pk >>= λ d. sign_document env pk actor signed d) db
        (λ j _ _.
          get_document-Ensures (λ _ db'. Sound finals ws db') finals ws pk
            (λ d. sign_document env pk actor signed d) db s
            (λ d own only ok found. signed-Sound env pk actor signed d db s only ok));
}
