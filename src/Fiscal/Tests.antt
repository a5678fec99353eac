-- ===== src/Fiscal/Tests.antt =====
-- A run of two workers on one document.
use fireisp.Prelude.{◌≡◌, refl, true, false, none, some, List, [], ◌∷◌, All, map, arith}
use fireisp.Prelude.Text.{Text, codes, text_eq}
use fireisp.Prelude.Keys.{Pairwise}
use fireisp.Store.{Env}
use fireisp.Store.Fiscal.{
  FiscalDocument, income, DocumentStatus, draft, stamped, stamp, cancel_pending, on_document,
  failed, succeeded,
}
use fireisp.Core.{audit}
use fireisp.Billing.Tests.Samples.{env, start}
use fireisp.Fiscal.{
  holds, claim_transaction, get_document, update_document, update_job, get_profile, utf8_length,
  bounded_xml,
}
use fireisp.Fiscal.Queue.{
  read_payload, lock_target, check_document, has_key, create_job, keep_active, enter_job,
  keep_known, request_job, queue_job,
}
use fireisp.Fiscal.Jobs.{claim_job, finish_job, end_job}
use fireisp.Fiscal.Stamp.{
  returned, response_error, write_signed, sign_document, prepare_for_stamp, send_document,
  begin_stamp, record_stamp, record_failure, settle_stamp, is_stamped,
}
use fireisp.Fiscal.Machine.{
  Machine, Action, queue, claim, sign, begin, answer, finish, commit, advance, hire, take_job,
  with_worker, step, run,
}
use fireisp.Fiscal.Machine.Sound.{OnlyOnce, has_sent, is_open}
use fireisp.Fiscal.Machine.Laws.{IsSound, run-OnlyOnce, run-stays_stamped}

abbrev document : DocumentStatus → Text → FiscalDocument
document status xml = record {
  pk = 5;
  kind = income;
  organization = 1;
  invoice = some 1;
  global_batch = none;
  allocation = none;
  credit_memo = none;
  uuid = [];
  status = status;
  payment_method = codes "PPD";
  payment_form = codes "99";
  request_xml = xml;
  xml = xml;
  pdf_content = [];
  pdf_source_sha256 = [];
  cancellation_xml = [];
  cancellation_reason = [];
  cancellation_replacement = [];
  cancellation_code = [];
}

abbrev machine : FiscalDocument → Machine
machine d = record {
  db = record start {
    next_pk = 20;
    fiscal = record {
      profiles =
          record {
            pk = 2;
            organization = 1;
            is_demo = true;
            demo_mode = true;
            has_credentials = true;
          }
          ∷ [];
      documents = d ∷ [];
      jobs = [];
      fiscal_attempts = [];
      global_items = [];
    };
  };
  workers = [];
}

-- The PAC rejects the first request, and stamps the second.
abbrev steps : List (Env × Action)
steps =
    (env, queue stamp (on_document 5) [] (some 1) none)
    ∷ (env, claim 20)
    ∷ (env, sign 21 (codes "x"))
    ∷ (env, begin 21)
    ∷ (env, answer 21 response_error)
    ∷ (env, finish 21 failed)
    ∷ (env, queue stamp (on_document 5) [] (some 1) none)
    ∷ (env, claim 22)
    ∷ (env, begin 23)
    ∷ (env, answer 23 (returned (codes "y") (codes "A") (codes "A")))
    ∷ (env, finish 23 succeeded)
    ∷ []

steps_stamp :
    map (λ d. d.status) (run steps (machine (document draft []))).db.fiscal.documents ≡ stamped ∷ []
unfolding audit holds claim_transaction get_document update_document update_job get_profile
    utf8_length bounded_xml read_payload lock_target check_document has_key create_job keep_active
    enter_job keep_known request_job queue_job claim_job finish_job end_job write_signed
    sign_document prepare_for_stamp send_document begin_stamp record_stamp record_failure
    settle_stamp commit advance hire take_job with_worker step run text_eq
steps_stamp = refl

machine-IsSound : IsSound (λ _. false) (machine (document draft []))
machine-IsSound = record {
  finals_below = λ k h. cc;
  documents = (record { below = omega arith; signed = λ _. refl; kept = λ h. cc }, tt);
  documents_apart = (tt, tt);
  jobs = tt;
  jobs_apart = tt;
  active_apart = tt;
  workers = tt;
  workers_apart = tt;
  once = tt;
}

stamped-IsSound : IsSound (λ _. false) (machine (document cancel_pending (codes "x")))
stamped-IsSound = record {
  finals_below = λ k h. cc;
  documents = (record { below = omega arith; signed = λ h. cc; kept = λ h. cc }, tt);
  documents_apart = (tt, tt);
  jobs = tt;
  jobs_apart = tt;
  active_apart = tt;
  workers = tt;
  workers_apart = tt;
  once = tt;
}

run-OnlyOnce_example :
    Pairwise OnlyOnce (run steps (machine (document draft []))).workers
    × All
        (λ w.
          has_sent w ≡ true
          → All
              (λ d. d.pk ≡ w.document → is_open d.status ≡ false)
              (run steps (machine (document draft []))).db.fiscal.documents)
        (run steps (machine (document draft []))).workers
run-OnlyOnce_example = run-OnlyOnce steps (machine (document draft [])) machine-IsSound

run-stays_stamped_example :
    All
      (λ d. d.pk ≡ 5 → is_stamped d.status ≡ true)
      (run steps (machine (document cancel_pending (codes "x")))).db.fiscal.documents
run-stays_stamped_example =
    run-stays_stamped steps (machine (document cancel_pending (codes "x"))) 5 stamped-IsSound
      (omega arith) (λ _. refl, tt)
