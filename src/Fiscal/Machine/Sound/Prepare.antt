-- ===== src/Fiscal/Machine/Sound/Prepare.antt =====
-- `prepare_document` keeps the invariant of the workers.
use fireisp.Prelude.{
  ℕ, suc, ◌≡◌, ◌≢◌, refl, Bool, true, ◌||◌, if◌then◌else◌, Option, List, [], All, All-map, find,
  find-All, any, ◌&&◌, arith, inl, inr, Bool-cases, Option-cases,
}
use fireisp.Prelude.Keys.{IsOnly, found-IsOnly}
use fireisp.Prelude.Text.{Text, codes, is_empty}
use fireisp.Store.{Db, Env, ◌>>=◌, ◌>>◌, pure}
use fireisp.Store.Ensures.{Ensures, Ensures-bind}
use fireisp.Store.Preserves.{Preserves, Preserves-modify, preserves_rules}
use fireisp.Store.Fiscal.{FiscalDocument, DocumentStatus, submitting, on_document}
use fireisp.Core.{audit}
use fireisp.Core.Preserves.{reads_rules}
use fireisp.Fiscal.{
  target_eq, is_active_job, get_document, update_document, get_profile, bounded_xml,
}
use fireisp.Fiscal.Stamp.{is_stamped}
use fireisp.Fiscal.Prepare.{
  AllocationRef, is_document_of, is_rejected, rebuilt, write_rebuilt, new_document, get_or_create,
  rebuild, keep_pending, rebuild_unless_pending, check_terms, prepare_document,
}
use fireisp.Fiscal.Machine.{Worker}
use fireisp.Fiscal.Machine.Sound.{is_open, DocumentOk, WorkerOk, Sound}
use fireisp.Fiscal.Machine.Sound.Rows.{fresh-Sound, new_document-Sound}
use fireisp.Fiscal.Machine.Sound.Documents.{update_document-Sound}

pub get_profile-Preserves :
    {P : Db → Type 0} (organization : ℕ) → Preserves P (get_profile organization)
unfolding get_profile
get_profile-Preserves organization = search preserves_rules

pub get_document-Preserves : {P : Db → Type 0} (pk : ℕ) → Preserves P (get_document pk)
unfolding get_document
get_document-Preserves pk = search preserves_rules

pub bounded_xml-Preserves : {P : Db → Type 0} (xml : Text) → Preserves P (bounded_xml xml)
unfolding bounded_xml
bounded_xml-Preserves xml = search preserves_rules

pub audit-Sound :
    {finals : ℕ → Bool} {ws : List Worker} (env : Env) (actor : Option ℕ) (action : Text)
    (target : ℕ)
    → Preserves (Sound finals ws) (audit env actor action target)
unfolding audit
audit-Sound env actor action target = Preserves-modify _ (λ db s. s)

pub ruleset fiscal_rules =
    (reads_rules, get_profile-Preserves, get_document-Preserves, bounded_xml-Preserves, audit-Sound)

check_terms-Preserves :
    {P : Db → Type 0} (invoice : ℕ) (method form : Text) (allocation : AllocationRef)
    → Preserves P (check_terms invoice method form allocation)
unfolding check_terms
check_terms-Preserves invoice method form allocation = search preserves_rules depth 9

keep_pending-Preserves :
    {P : Db → Type 0} (d : FiscalDocument) (method form : Text) (allocation : AllocationRef)
    → Preserves P (keep_pending d method form allocation)
unfolding keep_pending
keep_pending-Preserves d method form allocation = search preserves_rules

-- A document that may be built again is one that may be sent.
rebuilt-IsOpen :
    {finals : ℕ → Bool} {next : ℕ} (d : FiscalDocument)
    → DocumentOk finals next d
    → (is_empty d.request_xml || is_rejected d.status) ≡ true
    → is_open d.status ≡ true
rebuilt-IsOpen d ok h = elim (Bool-cases (is_empty d.request_xml)) [
  | inl empty ↦ ok.signed empty
  | inr full ↦ ground (arith, h, full)
]

open-Apart_stamped : (s : DocumentStatus) → is_open s ≡ true → is_stamped s ≡ true → s ≢ s
open-Apart_stamped s h k = ground arith

open-Apart_submitting : (s : DocumentStatus) → is_open s ≡ true → s ≢ submitting
open-Apart_submitting s h e = ground arith

module _ (finals : ℕ → Bool) (ws : List Worker) where
  -- `d` is the row that the database has.
  abbrev Current : FiscalDocument → Db → Type 0
  Current d db =
      Sound finals ws db
      × IsOnly (λ e. e.pk) d.pk d db.fiscal.documents
      × DocumentOk finals db.next_pk d

  get_or_create-Current :
      (organization invoice : ℕ) (method form : Text) (allocation : AllocationRef) (db : Db)
      → Sound finals ws db
      → Ensures Current (get_or_create organization invoice method form allocation db)
  unfolding get_or_create
  get_or_create-Current organization invoice method form allocation db s =
      elim (Option-cases (find (is_document_of invoice allocation) db.fiscal.documents)) [
        | inr (d, e) ↦
            rw (◌>>=◌, e)
              (
                s,
                found-IsOnly _ _ _ s.documents_apart e,
                (find-All _ _ db.fiscal.documents s.documents e).0,
              )
        | inl e ↦
            rw (◌>>=◌, e)
              (let ok : DocumentOk finals (suc db.next_pk)
                    (new_document db.next_pk organization invoice method form allocation) =
                  record {
                    below = omega arith;
                    signed = λ _. refl;
                    kept = λ h. absurd (omega (arith, s.finals_below db.next_pk h));
                  } in
                let new : All (λ d. d.pk ≢ db.next_pk) db.fiscal.documents =
                  All-map _ _ _ (λ d h e'. omega (arith, h.below)) s.documents in
                (
                  new_document-Sound (record db { next_pk = suc db.next_pk }) _ (fresh-Sound db s)
                      ok new (All-map _ _ _ (λ w h e'. omega (arith, h.document_below)) s.workers),
                  (λ _. refl, All-map _ _ _ (λ d ne h. absurd (ne h)) new),
                  ok,
                ))
      ]

  write_rebuilt-Sound :
      (env : Env) (d : FiscalDocument) (method form : Text) (allocation : AllocationRef)
      (actor : Option ℕ) (xml : Text) (db : Db)
      → is_open d.status ≡ true
      → Current d db
      → Ensures
          (λ _ db'. Sound finals ws db')
          (write_rebuilt env d actor (rebuilt method form allocation xml) db)
  unfolding write_rebuilt update_document
  write_rebuilt-Sound env d method form allocation actor xml db free c =
      let rest : Preserves (Sound finals ws)
          (audit env actor (codes "fiscal.document.prepared") d.pk >> get_document d.pk) =
        search fiscal_rules in
      rest.at _ (
        update_document-Sound db d.pk d (rebuilt method form allocation xml) c.1 (λ _. refl)
          (record {
            below = c.2.below;
            signed = λ _. refl;
            kept = λ h. absurd (open-Apart_stamped d.status free (c.2.kept h) refl);
          })
          (All-map _ _ ws
            (λ g _ _.
              All-map _ _ _ (λ j _ _ _ e. absurd (open-Apart_submitting d.status free e)) c.0.jobs)
            c.0.workers)
          (All-map (WorkerOk db.next_pk db.fiscal) _ ws (λ g _ _ _ h. ground (arith, free))
            c.0.workers)
          c.0)

  rebuild-Sound :
      (env : Env) (d : FiscalDocument) (method form : Text) (allocation : AllocationRef)
      (actor : Option ℕ) (defer_build : Bool) (signed : Text) (db : Db)
      → Current d db
      → Ensures
          (λ _ db'. Sound finals ws db')
          (rebuild env d method form allocation actor defer_build signed db)
  unfolding rebuild
  rebuild-Sound env d method form allocation actor defer_build signed db c =
      let free = rebuilt-IsOpen d c.2 in
      let built : Preserves (Current d) (if defer_build then pure [] else bounded_xml signed) =
        search (preserves_rules, bounded_xml-Preserves) in
      elim (Bool-cases (is_empty d.request_xml || is_rejected d.status)) [
        | inr complete ↦ rw complete c.0
        | inl again ↦ rw again (
            Ensures-bind (λ _ db'. Current d db') (λ _ db'. Sound finals ws db')
              (if defer_build then pure [] else bounded_xml signed)
              (λ xml. write_rebuilt env d actor (rebuilt method form allocation xml)) db
              (built.at db c)
              (λ xml db1.
                write_rebuilt-Sound env d method form allocation actor xml db1 (free again)))
      ]

  rebuild_unless_pending-Sound :
      (env : Env) (d : FiscalDocument) (method form : Text) (allocation : AllocationRef)
      (actor : Option ℕ) (defer_build : Bool) (signed : Text) (db : Db)
      → Current d db
      → Ensures
          (λ _ db'. Sound finals ws db')
          (rebuild_unless_pending env d method form allocation actor defer_build signed db)
  unfolding rebuild_unless_pending
  rebuild_unless_pending-Sound env d method form allocation actor defer_build signed db c =
      elim (Bool-cases (
        defer_build
        && any (λ j. target_eq j.target (on_document d.pk) && is_active_job j.status)
            db.fiscal.jobs)) [
              | inl waits ↦
                  rw (◌>>=◌, waits) ((keep_pending-Preserves d method form allocation).at db c.0)
              | inr goes ↦
                  rw (◌>>=◌, goes)
                    (rebuild-Sound env d method form allocation actor defer_build signed db c)
            ]

  prepared-Sound :
      (env : Env) (organization invoice : ℕ) (actor : Option ℕ) (method form : Text)
      (allocation : AllocationRef) (defer_build : Bool) (signed : Text)
      → Preserves (Sound finals ws) (
          get_or_create organization invoice method form allocation >>= λ d.
          rebuild_unless_pending env d method form allocation actor defer_build signed)
  prepared-Sound env organization invoice actor method form allocation defer_build signed = record {
    at = λ db s.
        Ensures-bind Current (λ _ db'. Sound finals ws db')
          (get_or_create organization invoice method form allocation)
          (λ d. rebuild_unless_pending env d method form allocation actor defer_build signed) db
          (get_or_create-Current organization invoice method form allocation db s)
          (λ d. rebuild_unless_pending-Sound env d method form allocation actor defer_build signed);
  }

  pub prepare_document-Sound :
      (env : Env) (invoice : ℕ) (actor : Option ℕ) (method form : Text) (allocation : AllocationRef)
      (defer_build : Bool) (signed : Text)
      → Preserves
          (Sound finals ws)
          (prepare_document env invoice actor method form allocation defer_build signed)
  unfolding prepare_document
  prepare_document-Sound env invoice actor method form allocation defer_build signed =
      search (fiscal_rules, check_terms-Preserves, prepared-Sound) depth 12
