-- ===== src/Fiscal/Machine/Sound/Answer.antt =====
-- `stamp_document` after the PAC keeps the invariant of the workers.
use fireisp.Prelude.{
  ℕ, ◌≡◌, ◌∙◌, sym, ap, refl, Bool, true, false, not, ◌&&◌, some, ◌∷◌, List, All, All-map, find,
  find-All, update_where, ◌==◌, arith, inl, inr, Bool-cases, Option-cases, ltb,
}
use fireisp.Prelude.Keys.{IsOnly, update-All_others, update_none, find-own, find-Pairwise}
use fireisp.Prelude.Text.{Text, codes, text_eq}
use fireisp.Store.{Db, M, Result, Env, ◌>>=◌, ◌>>◌, pure, modify, with_fiscal}
use fireisp.Store.Ensures.{Ensures, Ensures-map}
use fireisp.Store.Fiscal.{
  FiscalDocument, DocumentStatus, stamped, rejected, uncertain, Fiscal, FiscalAttempt,
}
use fireisp.Core.{audit}
use mathlib.Core.Path.{subst}
use fireisp.Fiscal.{max_xml, utf8_length, update_document, get_document}
use fireisp.Fiscal.Jobs.{is_stamp}
use fireisp.Fiscal.Stamp.{
  record_stamp, record_failure, failed_status, settle_stamp, Reply, returned, response_error,
  failure,
}
use fireisp.Fiscal.Machine.{
  Phase, answered, dismissed, Worker, with_phase, is_sending, is_recover, may_stamp, after_answer,
}
use fireisp.Fiscal.Machine.Sound.{DocumentOk, WorkerOk, SoundAt, Sound, is_open, has_sent, OnlyOnce}
use fireisp.Fiscal.Machine.Sound.Documents.{Shuts}
use fireisp.Fiscal.Machine.Sound.Leases.{document_IsOnly}
use fireisp.Fiscal.Machine.Sound.Stamp.{
  claim_transaction-Ensures, get_document-Ensures, with_phase-Sound,
}
use fireisp.Fiscal.Machine.Sound.Settle.{moved-Sound, settled-Sound}

-- The attempts are only a record.
attempts-Sound :
    {finals : ℕ → Bool} {ws : List Worker} {next : ℕ} {t : Fiscal} (rows : List FiscalAttempt)
    → SoundAt finals ws next t
    → SoundAt finals ws next (record t { fiscal_attempts = rows })
attempts-Sound rows s = record {
  finals_below = s.finals_below;
  documents = s.documents;
  documents_apart = s.documents_apart;
  jobs = s.jobs;
  jobs_apart = s.jobs_apart;
  active_apart = s.active_apart;
  workers =
      All-map _ _ _
        (λ w h. record {
          below = h.below;
          document_below = h.document_below;
          held = h.held;
          owned = h.owned;
          alone = h.alone;
          sent = h.sent;
        })
        s.workers;
  workers_apart = s.workers_apart;
  once = s.once;
}

stamping-Sends :
    (w : Worker) (phase : Phase)
    → is_sending w.phase ≡ true
    → has_sent (record w { phase = phase }) ≡ true
    → has_sent w ≡ true
stamping-Sends w phase out h = ground (arith, out, h)

module _ (finals : ℕ → Bool) (ws : List Worker) (w : Worker) (env : Env) (db : Db)
    (p : Worker → Bool) (picked : find p ws ≡ some w) (s : Sound finals ws db)
    (only_w : IsOnly (λ v. v.token) w.token w ws) (ok : WorkerOk db.next_pk db.fiscal w)
    (out : is_sending w.phase ≡ true) where
  abbrev After : Phase → Db → Type 0
  After phase db' = Sound finals (with_phase w.token phase ws) db'

  -- The answer stamps the document.
  record_stamp-Sound :
      (xml uuid : Text)
      → Ensures
          (λ b db'. After answered db')
          (record_stamp env w.document (some w.job) w.job.actor xml uuid db)
  unfolding record_stamp update_document audit
  record_stamp-Sound xml uuid =
      let f : FiscalDocument → FiscalDocument =
        λ r. record r { xml = xml; uuid = uuid; status = stamped } in
      let write : M Bool =
        update_document w.document f
        >> (audit env w.job.actor (codes "fiscal.document.stamped") w.document >> pure true) in
      claim_transaction-Ensures (λ _ db'. After answered db') env w.job
        (get_document w.document >>= λ _. write) db
        (λ j found held.
          get_document-Ensures (λ _ db'. After answered db') finals ws w.document (λ _. write) db s
            (λ d own only ok_d there.
              settled-Sound finals ws w answered db s only_w ok out refl
                (stamping-Sends w answered out) env.now j found held d f there own only ok_d
                (λ _. refl) refl
                (All-map (WorkerOk db.next_pk db.fiscal) _ _ (λ g _ _ _ _. refl)
                  (moved-Sound finals ws w answered db s only_w ok out refl
                    (stamping-Sends w answered out) env.now j found held).workers)))

  -- The failure is recorded.
  record_failure-Sound :
      (status : DocumentStatus) (phase : Phase)
      → is_sending phase ≡ false
      → ((d : FiscalDocument)
          → d.pk ≡ w.document
          → All (Shuts d (record d { status = status })) (with_phase w.token phase ws))
      → Ensures
          (λ b db'. After phase db' × (b ≡ false))
          (record_failure env w.document (some w.job) status db)
  unfolding record_failure update_document
  record_failure-Sound status phase quiet shuts =
      let f : FiscalDocument → FiscalDocument = λ r. record r { status = status } in
      claim_transaction-Ensures (λ b db'. After phase db' × (b ≡ false)) env w.job
        (modify (
            with_fiscal λ t. record t {
              fiscal_attempts =
                  record { document = w.document; outcome = status } ∷ t.fiscal_attempts;
            })
          >> (update_document w.document f >> pure false))
        db
        (λ j found held.
          let less = stamping-Sends w phase out in
          (
            attempts-Sound
                {t = record db.fiscal {
                  documents = update_where (λ e. e.pk == w.document) f db.fiscal.documents;
                }}
                _
                (elim (Option-cases (find (λ e. e.pk == w.document) db.fiscal.documents)) [
                  | inl gone ↦
                      rw (update_none _ f db.fiscal.documents gone)
                        (with_phase-Sound finals ws w phase db only_w quiet less ok s)
                  | inr (d, there) ↦
                      let own = find-own (λ x. x.pk) w.document db.fiscal.documents d there in
                      settled-Sound finals ws w phase db s only_w ok out quiet less env.now j found
                        held d f there own.0 (document_IsOnly db s w.document there)
                        (find-All (DocumentOk finals db.next_pk) (λ x. x.pk == w.document)
                          db.fiscal.documents s.documents there).0
                        (λ _. refl) refl (shuts d own.0)
                ]),
            refl,
          ))

  still_shut :
      (status : DocumentStatus) (phase : Phase)
      → is_open status ≡ false
      → is_sending phase ≡ false
      → (d : FiscalDocument) → d.pk ≡ w.document
      → All (Shuts d (record d { status = status })) (with_phase w.token phase ws)
  still_shut status phase shut quiet d _ =
      All-map (WorkerOk db.next_pk db.fiscal) _ _ (λ g _ _ _ _. shut)
        (with_phase-Sound finals ws w phase db only_w quiet (stamping-Sends w phase out) ok
          s).workers

  -- A rejected document opens: nobody else has a request for it.
  nobody_else :
      is_stamp w.job.operation ≡ true
      → (d : FiscalDocument) → d.pk ≡ w.document
      → All (Shuts d (record d { status = rejected })) (with_phase w.token dismissed ws)
  nobody_else stamping d own =
      let mine : has_sent w ≡ true = ground (arith, stamping, out) in
      update-All_others (λ v. v.token) _ w.token w (λ v. record v { phase = dismissed }) ws only_w
        (λ h _ _. ground (arith, h))
        (All-map _ _ ws
          (λ g near other sends same _. elim near [
            | inl is ↦ absurd (other (ap (λ v. v.token) is))
            | inr (inl once) ↦ absurd (once mine sends (sym same ∙ own))
            | inr (inr once) ↦ absurd (once sends mine (sym own ∙ same))
          ])
          (find-Pairwise OnlyOnce p ws s.once picked))

  abbrev Settled : Bool → Reply → Bool → Db → Type 0
  Settled again reply b db' = After (after_answer again reply b) db'

  unsettled-Sound :
      Ensures
        (λ b db'. After answered db')
        (record_failure env w.document (some w.job) uncertain db)
  unsettled-Sound =
      Ensures-map (λ b db'. After answered db' × (b ≡ false)) (λ _ db'. After answered db')
        (record_failure env w.document (some w.job) uncertain db) (λ _ _ h. h.0)
        (record_failure-Sound uncertain answered refl (still_shut uncertain answered refl refl))

  error-Settled :
      (again : Bool)
      → (again ≡ false → is_stamp w.job.operation ≡ true)
      → Ensures
          (Settled again response_error)
          (record_failure env w.document (some w.job) (failed_status again response_error) db)
  error-Settled true stamping = unsettled-Sound
  error-Settled false stamping =
      Ensures-map (λ b db'. After dismissed db' × (b ≡ false)) (Settled false response_error)
        (record_failure env w.document (some w.job) rejected db)
        (λ b db' h. subst (λ c. Settled false response_error c db') (sym h.1) h.0)
        (record_failure-Sound rejected dismissed refl (nobody_else (stamping refl)))

  failure-Settled :
      (again : Bool)
      → Ensures
          (Settled again failure)
          (record_failure env w.document (some w.job) (failed_status again failure) db)
  failure-Settled true = unsettled-Sound
  failure-Settled false = unsettled-Sound

  returned-Settled :
      (again : Bool) (xml uuid document_id : Text)
      → Ensures (Settled again (returned xml uuid document_id)) (
          settle_stamp env w.document again
            (some w.job)
            w.job.actor
            (returned xml uuid document_id)
            db)
  unfolding settle_stamp
  returned-Settled again xml uuid document_id =
      elim (Bool-cases
        (not (ltb max_xml (utf8_length xml)) && text_eq (env.upper uuid) (env.upper document_id))) [
          | inl good ↦ rw good (
              answered_by again (record_stamp env w.document (some w.job) w.job.actor xml uuid db)
                (record_stamp-Sound xml uuid))
          | inr bad ↦ rw bad (
              answered_by again (record_failure env w.document (some w.job) uncertain db)
                unsettled-Sound)
        ]
    where
      answered_by :
          (again : Bool) (r : Result (Bool × Db))
          → Ensures (λ _ db'. After answered db') r
          → Ensures (Settled again (returned xml uuid document_id)) r
      answered_by true r h = h
      answered_by false r h = h

  pub settle_stamp-Sound :
      (may : may_stamp w.job.operation ≡ true) (reply : Reply)
      → Ensures (Settled (is_recover w.job.operation) reply) (
          settle_stamp env w.document
            (is_recover w.job.operation)
            (some w.job)
            w.job.actor
            reply
            db)
  unfolding settle_stamp
  settle_stamp-Sound may (returned xml uuid document_id) =
      returned-Settled (is_recover w.job.operation) xml uuid document_id
  settle_stamp-Sound may response_error =
      error-Settled (is_recover w.job.operation) (λ first. ground (arith, may, first))
  settle_stamp-Sound may failure = failure-Settled (is_recover w.job.operation)
