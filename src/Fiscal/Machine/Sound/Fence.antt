-- ===== src/Fiscal/Machine/Sound/Fence.antt =====
-- `claim_transaction`: where the claim of a worker holds, no other request is out for its document.
use fireisp.Prelude.{
  ℕ, ◌≡◌, ◌≢◌, ◌∙◌, refl, sym, ap, Bool, true, false, ◌&&◌, Option, none, some, List, All, All-map,
  All-zip_with, find, find-All, ◌==◌, arith, inl, inr, opt_eq,
}
use fireisp.Prelude.Keys.{find-Pairwise}
use fireisp.Store.{Db}
use fireisp.Store.Fiscal.{FiscalJob, JobStatus}
use fireisp.Fiscal.{holds, document_of, is_running, is_active_job, is_leased}
use fireisp.Fiscal.Machine.{Worker}
use fireisp.Fiscal.Machine.Sound.{WorkerOk, Apart, Sound, RunsFor}

opt_eq-some : (o : Option ℕ) (t : ℕ) → opt_eq o (some t) ≡ true → o ≡ some t
opt_eq-some none t h = cc
opt_eq-some (some a) t h = ground arith

pub both : (a b c : Bool) → (a && b && c) ≡ true → (a ≡ true) × (b ≡ true)
both true true c h = (refl, refl)
both true false c h = cc
both false b c h = cc

pub running-Active : (s : JobStatus) → is_running s ≡ true → is_active_job s ≡ true
running-Active s h = ground arith

pub holds-RunsFor :
    (now t : ℕ) (claim j : FiscalJob)
    → claim.claim_token ≡ some t
    → holds now claim j ≡ true
    → RunsFor t j
unfolding holds
holds-RunsFor now t claim j mine h =
    let facts =
      both (is_running j.status) (opt_eq j.claim_token claim.claim_token)
        (is_leased now j.lease_until) h in
    (facts.0, opt_eq-some j.claim_token t (rw mine at facts.1))

abbrev pub Free : List FiscalJob → Worker → Worker → Type 0
Free jobs w g = g.token ≢ w.token → All (λ i. RunsFor g.token i → g.document ≢ w.document) jobs

module _ {finals : ℕ → Bool} {ws : List Worker} (db : Db) (s : Sound finals ws db) (now : ℕ)
    (w : Worker) (j : FiscalJob) (ok : WorkerOk db.next_pk db.fiscal w)
    (found : find (λ i. i.pk == w.job.pk) db.fiscal.jobs ≡ some j)
    (held : holds now w.job j ≡ true) where
  abbrev mine : RunsFor w.token j
  mine = holds-RunsFor now w.token w.job j ok.held held

  pub fence-document : document_of j.target ≡ some w.document
  fence-document = (find-All _ _ db.fiscal.jobs ok.owned found).0 mine.1

  pub fence-Free : All (Free db.fiscal.jobs w) ws
  fence-Free =
      All-map _ _ ws
        (λ g g_ok other.
          All-zip_with _ _ _ db.fiscal.jobs
            (λ i near owned runs same. elim near [
              | inl is ↦
                  let a : i.claim_token ≡ j.claim_token = ap (λ u. u.claim_token) is in
                  let b : some g.token ≡ some w.token = sym runs.1 ∙ a ∙ mine.1 in other cc
              | inr (inl apart) ↦
                  apart w.document (running-Active j.status mine.0) (running-Active i.status runs.0)
                    fence-document (owned runs.1 ∙ ap some same)
              | inr (inr apart) ↦
                  apart w.document (running-Active i.status runs.0) (running-Active j.status mine.0)
                    (owned runs.1 ∙ ap some same) fence-document
            ])
            (find-Pairwise Apart (λ i. i.pk == w.job.pk) db.fiscal.jobs s.active_apart found)
            g_ok.owned)
        s.workers
