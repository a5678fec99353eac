-- ===== src/Compliance/Arco/Writes.antt =====
-- The writes of the services on requests keep them orderly.
use fireisp.Prelude.{
  ℕ, suc, ◌≡◌, refl, sym, ◌∙◌, true, false, inl, inr, Bool, Option, some, List, [], ◌∷◌, ◌<◌, ◌==◌,
  find, All, All-map, find-All, arith, Option-cases, any, ◌&&◌,
}
use mathlib.Core.Path.{subst}
use fireisp.Prelude.Keys.{update-All_any, find-own}
use fireisp.Prelude.Versions.{replaced-Evolves}
use fireisp.Prelude.Text.{Text}
use fireisp.Calendar.{Date}
use fireisp.Store.{Db, fresh, modify, ◌>>=◌, M, with_compliance, Env}
use fireisp.Store.Compliance.{ArcoRequest, ArcoExtension, Stage, response, implementation}
use fireisp.Store.Preserves.{Preserves, Preserves-modify, preserves_rules}
use fireisp.Store.Leads.{Leads}
use fireisp.Core.{audit}
use fireisp.Compliance.Arco.{get_arco, save_arco, deadline, stage_eq}
use fireisp.Compliance.Arco.Stages.{IsSound, Follows, Follows-trans, Apart, After}

module _ (old : List ArcoRequest) where
  pub audit-After :
      (env : Env) (actor : Option ℕ) (action : Text) (target : ℕ)
      → Preserves (After old) (audit env actor action target)
  unfolding audit
  audit-After env actor action target = Preserves-modify _ λ db h. record {
    orderly = record {
      sound = h.orderly.sound;
      numbered = h.orderly.numbered;
      once = h.orderly.once;
    };
    evolved = h.evolved;
  }

  -- The record that `get_arco` returns is in the table.
  abbrev pub Holds : ArcoRequest → Db → Type 0
  Holds r db =
      After old db × (find (λ x. x.pk == r.pk) db.compliance.arco_requests ≡ some r) × IsSound r

  pub get_arco-Leads :
      {B : Type 0} {P : Db → Type 0} (pk : ℕ) {k : ArcoRequest → M B}
      → ((r : ArcoRequest) → Leads (Holds r) P (k r))
      → Leads (After old) P (get_arco pk >>= k)
  unfolding get_arco
  get_arco-Leads pk h = record {
    at = λ db after.
        let rows = db.compliance.arco_requests in
        elim (Option-cases (find (λ x. x.pk == pk) rows)) [
          | inl absent ↦ rw (◌>>=◌, absent) tt
          | inr (r, found) ↦
              rw (◌>>=◌, found)
                ((h r).at db (
                  after,
                  (find-own (λ x. x.pk) pk rows r found).1,
                  (find-All IsSound (λ x. x.pk == pk) rows after.orderly.sound found).0,
                ))
        ];
  }

  pub save_arco-Leads :
      (r r' : ArcoRequest)
      → r'.pk ≡ r.pk
      → (IsSound r → IsSound r' × Follows r r')
      → Leads (Holds r) (After old) (save_arco r')
  unfolding save_arco
  save_arco-Leads r r' same h = record {
    at = λ db held.
        let rows = db.compliance.arco_requests in
        let (sound, follows) = h held.2 in
        let last : r'.pk < db.next_pk =
          subst (λ k. k < db.next_pk) (sym same)
            (find-All (λ x. x.pk < db.next_pk) (λ x. x.pk == r.pk) rows held.0.orderly.numbered
              held.1).0 in
        record {
          orderly = record {
            sound =
                update-All_any (λ x. x.pk) IsSound r'.pk (λ _. r') rows (λ _ _. sound)
                  held.0.orderly.sound;
            numbered =
                update-All_any (λ x. x.pk) (λ x. x.pk < db.next_pk) r'.pk (λ _. r') rows
                  (λ _ _. last) held.0.orderly.numbered;
            once = held.0.orderly.once;
          };
          evolved =
              replaced-Evolves (λ x. x.pk) Follows Follows-trans old rows r r' same held.1 follows
                held.0.evolved;
        };
  }

  later : (db : Db) → After old db → After old (record db { next_pk = suc db.next_pk })
  later db h = record {
    orderly = record {
      sound = h.orderly.sound;
      numbered =
          All-map (λ x. x.pk < db.next_pk) (λ x. x.pk < suc db.next_pk) db.compliance.arco_requests
            (λ _ lt. omega arith) h.orderly.numbered;
      once = h.orderly.once;
    };
    evolved = h.evolved;
  }

  -- A key that no request has yet.
  abbrev pub IsFresh : ℕ → Db → Type 0
  IsFresh pk db =
      After old db × All (λ x. x.pk < pk) db.compliance.arco_requests × (pk < db.next_pk)

  pub fresh-Leads :
      {B : Type 0} {P : Db → Type 0} {k : ℕ → M B}
      → ((pk : ℕ) → Leads (IsFresh pk) P (k pk))
      → Leads (After old) P (fresh >>= k)
  fresh-Leads h = record {
    at = λ db after.
        (h db.next_pk).at (record db { next_pk = suc db.next_pk })
          (later db after, after.orderly.numbered, omega arith);
  }

  pub add-Leads :
      (r : ArcoRequest)
      → IsSound r
      → Leads
          (IsFresh r.pk)
          (After old)
          (modify (with_compliance λ c. record c { arco_requests = r ∷ c.arco_requests }))
  add-Leads r sound = record {
    at = λ db fresh. record {
      orderly = record {
        sound = (sound, fresh.0.orderly.sound);
        numbered = (fresh.2, fresh.0.orderly.numbered);
        once = fresh.0.orderly.once;
      };
      evolved = λ k r0 found0.
          let rows = db.compliance.arco_requests in
          let (r1, found1, follows) = fresh.0.evolved k r0 found0 in
          let (less, is_k) = find-All (λ x. x.pk < r.pk) (λ x. x.pk == k) rows fresh.1 found1 in
          let other : (r.pk == k) ≡ false = ground (arith, less, is_k) in
          (r1, rw other found1, follows);
    };
  }

  -- The request is in the table, and the stage was not extended.
  abbrev pub IsExtensible : ArcoRequest → Stage → Db → Type 0
  IsExtensible r stage db =
      Holds r db
      × (any (λ e. e.request == r.pk && stage_eq e.stage stage) db.compliance.extensions ≡ false)

  pub fresh-IsExtensible :
      (r : ArcoRequest) (stage : Stage) → Preserves (IsExtensible r stage) fresh
  fresh-IsExtensible r stage = record { at = λ db h. ((later db h.0.0, h.0.1, h.0.2), h.1) }

  pub extension-Leads :
      (r : ArcoRequest) (stage : Stage) (e : ArcoExtension)
      → e.request ≡ r.pk
      → e.stage ≡ stage
      → Leads
          (IsExtensible r stage)
          (Holds r)
          (modify (with_compliance λ c. record c { extensions = e ∷ c.extensions }))
  extension-Leads r stage e is_request is_stage = record {
    at = λ db h. (
      record {
        orderly = record {
          sound = h.0.0.orderly.sound;
          numbered = h.0.0.orderly.numbered;
          once = (others db.compliance.extensions h.1, h.0.0.orderly.once);
        };
        evolved = h.0.0.evolved;
      },
      h.0.1,
      h.0.2,
    );
  }
    where
      both_true : (a b : Bool) → a ≡ true → b ≡ true → (a && b) ≡ true
      both_true a b h k = rw (h, k) refl

      stage_eq_refl : (s : Stage) → stage_eq s s ≡ true
      stage_eq_refl response = refl
      stage_eq_refl implementation = refl

      stage_eq_of : (s t : Stage) → s ≡ t → stage_eq s t ≡ true
      stage_eq_of s t e = subst (λ u. stage_eq s u ≡ true) e (stage_eq_refl s)

      others :
          (es : List ArcoExtension)
          → any (λ f. f.request == r.pk && stage_eq f.stage stage) es ≡ false
          → All (Apart e) es
      others [] h = tt
      others (f ∷ es) h =
          let apart : (f.request == r.pk && stage_eq f.stage stage) ≡ false = ground (arith, h) in
          (
            λ same_request same_stage.
                let one : (f.request == r.pk) ≡ true =
                  ground (arith, sym same_request ∙ is_request) in
                let two : stage_eq f.stage stage ≡ true =
                  stage_eq_of f.stage stage (sym same_stage ∙ is_stage) in
                cc (apart, both_true (f.request == r.pk) (stage_eq f.stage stage) one two),
            others es (ground (arith, h)),
          )

  pub deadline-Preserves :
      {P : Db → Type 0} (start : Date) (count organization : ℕ)
      → Preserves P (deadline start count organization)
  unfolding deadline
  deadline-Preserves start count organization = search preserves_rules
