-- ===== src/Fiscal/Queue.antt =====
-- `queue_job` of fiscal/jobs.py.
use fireisp.Prelude.{
  ℕ, Bool, true, false, not, ◌&&◌, ◌||◌, Option, none, some, List, [], ◌∷◌, ◌==◌, if◌then◌else◌,
  find, any,
}
use fireisp.Prelude.Text.{Text, codes, text_eq, is_empty}
use fireisp.Store.{
  M, ◌>>=◌, ◌>>◌, maybe, done, pure, gets, modify, raise_if, fresh, lift, Result, ok, err,
  with_fiscal, does_not_exist, bad_target, bad_cancellation, no_replacement, extra_parameters,
  pending_operation, maybe_stamped, no_xml, not_stamped, key_reused, Env,
}
use fireisp.Store.Fiscal.{
  FiscalDocument, FiscalJob, queued, Operation, stamp, recover, cancel, cancellation_status, verify,
  pdf, Target, on_document, on_profile, Payload,
}
use fireisp.Core.{audit}
use fireisp.Fiscal.{is_active_job, target_eq, get_document}
use fireisp.Fiscal.Stamp.{is_stamped, may_be_stamped}

-- The parameters of a request: a dictionary.
abbrev pub Parameters : Type 0
Parameters = List (Text × Text)

-- `payload.get(key, default)`
abbrev pub parameter : Text → Text → Parameters → Text
parameter key default [] = default
parameter key default (p ∷ ps) = if text_eq p.0 key then p.1 else parameter key default ps

abbrev pub operation_eq : Operation → Operation → Bool
operation_eq stamp stamp = true
operation_eq recover recover = true
operation_eq cancel cancel = true
operation_eq cancellation_status cancellation_status = true
operation_eq verify verify = true
operation_eq pdf pdf = true
operation_eq _ _ = false

abbrev pub payload_eq : Payload → Payload → Bool
payload_eq none none = true
payload_eq (some p) (some q) = text_eq p.0 q.0 && text_eq p.1 q.1
payload_eq _ _ = false

abbrev pub is_no_parameter : Parameters → Bool
is_no_parameter [] = true
is_no_parameter (_ ∷ _) = false

-- `{'01', '02', '03', '04'}`
unfoldable pub is_reason : Text → Bool
is_reason t =
    text_eq t (codes "01")
    || text_eq t (codes "02")
    || text_eq t (codes "03")
    || text_eq t (codes "04")

unfoldable pub is_unknown : Text × Text → Bool
is_unknown p = not (text_eq p.0 (codes "reason") || text_eq p.0 (codes "replacement"))

-- The payload of a cancellation, once its reason and its replacement are checked.
unfoldable pub cancel_payload : Env → Parameters → Result Payload
cancel_payload env ps =
    let reason = parameter (codes "reason") (codes "02") ps in
    let replacement = parameter (codes "replacement") [] ps in
    if any is_unknown ps || not (is_reason reason)
    then err bad_cancellation
    else if text_eq reason (codes "01") && not (env.is_uuid replacement)
    then err no_replacement
    else ok (some (reason, replacement))

unfoldable pub read_payload : Env → Operation → Parameters → Result Payload
read_payload env cancel ps = cancel_payload env ps
read_payload env _ ps = if is_no_parameter ps then ok none else err extra_parameters

-- `verify` takes a profile and no parameters, any other operation a document.
abbrev pub is_request : Operation → Target → Parameters → Bool
is_request verify (on_profile _) ps = is_no_parameter ps
is_request verify (on_document _) ps = false
is_request _ (on_document _) ps = true
is_request _ (on_profile _) ps = false

-- The row that the job is for, which must be there.
unfoldable pub lock_target : Target → M (Option FiscalDocument)
lock_target (on_document k) = do d ← get_document k; pure (some d)
lock_target (on_profile k) = do
  known ← gets (λ db. any (λ p. p.pk == k) db.fiscal.profiles)
  raise_if (not known) does_not_exist
  pure none

-- What the state of the document forbids.
unfoldable pub check_document : Operation → FiscalDocument → M (Unit {0})
check_document stamp d = raise_if (may_be_stamped d.status) maybe_stamped
check_document recover d = raise_if (is_empty d.request_xml) no_xml
check_document pdf d = raise_if (is_empty d.xml) no_xml
check_document cancellation_status d = raise_if (is_empty d.xml) no_xml
check_document cancel d = raise_if (not (is_stamped d.status)) not_stamped
check_document verify d = done

unfoldable pub has_key : Option Text → FiscalJob → Bool
has_key none j = false
has_key (some key) j = elim j.request_key [ none ↦ false | some k ↦ text_eq k key ]

-- `FiscalJob.objects.create`
unfoldable pub create_job :
    Env → Operation → Target → Payload → Option ℕ → Option Text → M FiscalJob
create_job env operation target payload actor key = do
  pk ← fresh
  let j =
      let r : FiscalJob = record {
        pk = pk;
        request_key = key;
        target = target;
        actor = actor;
        operation = operation;
        payload = payload;
        status = queued;
        attempts = 0;
        claim_token = none;
        available_at = env.now;
        lease_until = none;
        created_at = env.now;
        finished_at = none;
      } in
      r
  modify (with_fiscal λ s. record s { jobs = j ∷ s.jobs })
  audit env actor (codes "fiscal.job.queued") pk
  pure j

unfoldable pub keep_active : Operation → Payload → FiscalJob → M FiscalJob
keep_active operation payload j = do
  raise_if (not (operation_eq j.operation operation && payload_eq j.payload payload))
      pending_operation
  pure j

-- Where no job with the key is known: an active job for the target stands for the request.
unfoldable pub enter_job :
    Env
    → Operation
    → Target
    → Option FiscalDocument
    → Payload
    → Option ℕ
    → Option Text
    → M FiscalJob
enter_job env operation target document payload actor key = do
  active ←
      gets (λ db. find (λ j. target_eq j.target target && is_active_job j.status) db.fiscal.jobs)
  maybe active
      (do
        maybe document done (check_document operation)
        create_job env operation target payload actor key)
      (keep_active operation payload)

unfoldable pub keep_known : Operation → Target → Payload → FiscalJob → M FiscalJob
keep_known operation target payload j = do
  raise_if
      (not (
        operation_eq j.operation operation
        && payload_eq j.payload payload
        && target_eq j.target target))
      key_reused
  pure j

-- The part of `queue_job` after the lock of the target.
unfoldable pub request_job :
    Env
    → Operation
    → Target
    → Option FiscalDocument
    → Parameters
    → Option ℕ
    → Option Text
    → M FiscalJob
request_job env operation target document parameters actor key = do
  payload ← lift (read_payload env operation parameters)
  known ← gets (λ db. find (has_key key) db.fiscal.jobs)
  maybe known (enter_job env operation target document payload actor key)
      (keep_known operation target payload)

unfoldable pub queue_job :
    Env → Operation → Target → Parameters → Option ℕ → Option Text → M FiscalJob
queue_job env operation target parameters actor key = do
  raise_if (not (is_request operation target parameters)) bad_target
  document ← lock_target target
  request_job env operation target document parameters actor key
