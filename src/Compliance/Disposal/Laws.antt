-- ===== src/Compliance/Disposal/Laws.antt =====
-- Laws of the disposal of contents.
use fireisp.Prelude.{
  ℕ, ◌≡◌, refl, ap, ◌∙◌, ◌<◌, Bool, true, false, not, ◌||◌, inl, inr, Option, none, some, List, [],
  ◌∷◌, map, ◌==◌, leb, arith, find, select, is_some, All, Bool-cases, if◌then◌else◌, select-All,
}
use mathlib.Core.Path.{subst}
use fireisp.Prelude.Exists.{Exists, refuted}
use fireisp.Prelude.Text.{Text, text_eq, text_eq-eq, is_blank}
use fireisp.Store.{Customer, Db, Env, ok, err, ◌>>=◌}
use fireisp.Store.Compliance.{Category, RetentionDisposal, Compliance}
use fireisp.Store.Ensures.{Ensures, Ensures-eq, Ensures-map, Result-cases}
use fireisp.Core.Reads.{get_customer_cases, get_organization_cases}
use fireisp.Core.Actors.{Actor}
use fireisp.Core.Reads.{staff_cases}
use fireisp.Compliance.Retention.{can_dispose}
use fireisp.Compliance.Retention.Laws.{MayGo, can_dispose-MayGo}
use fireisp.Compliance.Disposal.Files.{
  File, category_name, closing_day, disposable, has_complaint, content_rows, digest,
}
use fireisp.Compliance.Disposal.{
  eligible_rows, lock_context, is_member, keys_eq, carry_out, execute_new, get_disposal,
  execute_retention_disposal, suppress,
}
use fireisp.Compliance.Disposal.Records.{
  Complains, has_complaint-Reflects, IsStored, content_rows-IsStored,
}
use fireisp.Compliance.Disposal.Effects.{Removed, suppress-Removed}

-- Each file that passes the selection may go.
abbrev pub FileMayGo : Env → Compliance → Customer → Category → File → Type 0
FileMayGo env c customer category f =
    MayGo c customer (category_name category) (closing_day env f.closed) (env.local_date env.now)

disposable-MayGo :
    (P : File → Type 0) (env : Env) (c : Compliance) (customer : Customer) (category : Category)
    (fs gs : List File)
    → All P fs
    → disposable env c customer category fs ≡ ok gs
    → All (λ f. P f × FileMayGo env c customer category f) gs
unfolding disposable
disposable-MayGo P env c customer category [] gs all h =
    let nothing : [] ≡ gs = cc in
    subst (λ l. All (λ f. P f × FileMayGo env c customer category f) l) nothing tt
disposable-MayGo P env c customer category (f ∷ fs) gs all h =
    let Q : File → Type 0 = λ f. P f × FileMayGo env c customer category f in
    let name = category_name category in
    let day = closing_day env f.closed in
    let today = env.local_date env.now in
    elim (Result-cases (can_dispose c customer name (some day) true today)) [
      | inr (e, bad) ↦ let it : err e ≡ ok gs = rw (disposable, bad) at h in absurd cc
      | inl (keep, known) ↦ elim (Result-cases (disposable env c customer category fs)) [
        | inr (e, bad) ↦ let it : err e ≡ ok gs = rw (disposable, known, bad) at h in absurd cc
        | inl (rest, is_rest) ↦
            let it : ok (if keep then f ∷ rest else rest) ≡ ok gs =
              rw (disposable, known, is_rest) at h in
            let same : (if keep then f ∷ rest else rest) ≡ gs = cc in
            let others = disposable-MayGo P env c customer category fs rest all.1 is_rest in
            subst (λ l. All Q l) same
              (kept Q f rest keep
                (λ e.
                  let (_, d, is_d, go) =
                    can_dispose-MayGo c customer name (some day) true today (known ∙ ap ok e) in
                  let same_day : d ≡ day = cc in
                  (all.0, subst (λ x. MayGo c customer name x today) same_day go))
                others)
      ]
    ]
  where
    kept :
        {A : Type 0} (P : A → Type 0) (x : A) (xs : List A) (b : Bool)
        → (b ≡ true → P x)
        → All P xs
        → All P (if b then x ∷ xs else xs)
    kept P x xs true h all = (h refl, all)
    kept P x xs false h all = all

keys_eq-eq : (js ks : List ℕ) → keys_eq js ks ≡ true → js ≡ ks
unfolding keys_eq
keys_eq-eq [] [] h = refl
keys_eq-eq (a ∷ js) (b ∷ ks) h = ground (arith, keys_eq-eq js ks)
keys_eq-eq [] (b ∷ ks) h = cc
keys_eq-eq (a ∷ js) [] h = cc

-- Why a review was carried out: `files` are the records of the reviewed list as they are stored.
pub record CarriedOut (env : Env) (confirmed : Bool) (evidence : Text) (p : RetentionDisposal)
    (db : Db) : Type 0 where
  pub is_confirmed : confirmed ≡ true
  pub has_evidence : is_blank evidence ≡ false
  pub in_time : env.now < p.expires_at
  pub customer : Customer
  pub is_customer : find (λ c. c.pk == p.customer) db.accounts.customers ≡ some customer
  pub no_complaint : ¬ Exists (Complains customer.pk) db.operations.tickets
  pub files : List File
  pub is_list : map (λ f. f.pk) files ≡ p.record_ids
  pub unchanged : digest env files ≡ p.snapshot_hash
  pub may_go :
      All
        (λ f.
          IsStored db customer.pk p.category f × FileMayGo env db.compliance customer p.category f)
        files

module _ (env : Env) (actor : Option Actor) (confirmed : Bool) (evidence : Text)
    (p : RetentionDisposal) (db : Db) where
  abbrev Carried : RetentionDisposal → Db → Type 0
  Carried p' db' = CarriedOut env confirmed evidence p db × Removed env actor evidence p p' db db'

  carry_out-Carried :
      (rows : List File)
      → ((map (λ f. f.pk) rows ≡ p.record_ids)
          → (digest env rows ≡ p.snapshot_hash)
          → CarriedOut env confirmed evidence p db)
      → Ensures Carried (carry_out env p rows actor evidence db)
  unfolding carry_out
  carry_out-Carried rows h =
      elim (Bool-cases (
        not (keys_eq (map (λ f. f.pk) rows) p.record_ids)
        || not (text_eq (digest env rows) p.snapshot_hash))) [
          | inl changed ↦ rw (◌>>=◌, changed) tt
          | inr same ↦
              let reason =
                h (keys_eq-eq (map (λ f. f.pk) rows) p.record_ids (ground (arith, same)))
                  (text_eq-eq (digest env rows) p.snapshot_hash (ground (arith, same))) in
              rw (◌>>=◌, same)
                (Ensures-map (λ p' d. Removed env actor evidence p p' db d) Carried
                  (suppress env p actor evidence db) (λ _ _ removed. (reason, removed))
                  (suppress-Removed env actor evidence p db))
        ]

  execute_new-Carried :
      confirmed ≡ true
      → is_blank evidence ≡ false
      → Ensures Carried (execute_new env p actor evidence db)
  unfolding execute_new eligible_rows lock_context
  execute_new-Carried sure proof = elim (Bool-cases (leb p.expires_at env.now)) [
    | inl late ↦ rw (◌>>=◌, late) tt
    | inr in_time ↦ elim (get_customer_cases p.customer db) [
      | inr (e, bad) ↦ rw (◌>>=◌, in_time, bad) tt
      | inl (c, is_c, ec) ↦ elim (get_organization_cases c.organization db) [
        | inr (e, bad) ↦ rw (◌>>=◌, in_time, ec, bad) tt
        | inl (o, _, eo) ↦ elim (Bool-cases (has_complaint db.operations c.pk)) [
          | inl complaint ↦ rw (◌>>=◌, in_time, ec, eo, complaint) tt
          | inr clear ↦
              elim (Result-cases
                (disposable env db.compliance c p.category (content_rows db c.pk p.category))) [
                  | inr (e, bad) ↦ rw (◌>>=◌, in_time, ec, eo, clear, bad) tt
                  | inl (rows, found) ↦
                      let chosen = select (λ f. is_member p.record_ids f.pk) rows in
                      rw (◌>>=◌, in_time, ec, eo, clear, found)
                        (carry_out-Carried chosen λ listed same. record {
                          is_confirmed = sure;
                          has_evidence = proof;
                          in_time = ground (arith, in_time);
                          customer = c;
                          is_customer = is_c;
                          no_complaint = refuted (has_complaint-Reflects db.operations c.pk) clear;
                          files = chosen;
                          is_list = listed;
                          unchanged = same;
                          may_go =
                              select-All
                                (λ f.
                                  IsStored db c.pk p.category f
                                  × FileMayGo env db.compliance c p.category f)
                                (λ f. is_member p.record_ids f.pk) rows
                                (disposable-MayGo (IsStored db c.pk p.category) env db.compliance c
                                  p.category (content_rows db c.pk p.category) rows
                                  (content_rows-IsStored db c.pk p.category) found);
                        })
                ]
        ]
      ]
    ]
  ]

get_disposal_found :
    (pk : ℕ) (p : RetentionDisposal) (db : Db)
    → find (λ x. x.pk == pk) db.compliance.disposals ≡ some p
    → get_disposal pk db ≡ ok (p, db)
unfolding get_disposal
get_disposal_found pk p db found = rw found

-- If execute_retention_disposal succeeds on a stored review that was not carried out before, then
-- it was confirmed with evidence, before the review expired, and no ticket of the customer is an
-- unresolved complaint about a bill. The keys and the digest of the review are those of closed
-- records of the customer as they are stored, and for each of these its policies allow it, its
-- days have gone by, and no hold stands against it. Behind it exactly the records with a key of
-- the review, and the extensions of such requests, have their contents suppressed, the review is
-- closed with its time, actor and evidence, and every other row of the accounts, the operations
-- and the compliance tables is as it was.
pub execute_retention_disposal-CarriedOut :
    (env : Env) (pk : ℕ) (actor : Option Actor) (confirmed : Bool) (evidence : Text)
    (p p' : RetentionDisposal) (db db' : Db)
    → find (λ x. x.pk == pk) db.compliance.disposals ≡ some p
    → p.performed_at ≡ none
    → execute_retention_disposal env pk actor confirmed evidence db ≡ ok (p', db')
    → CarriedOut env confirmed evidence p db × Removed env actor evidence p p' db db'
unfolding execute_retention_disposal
execute_retention_disposal-CarriedOut env pk actor confirmed evidence p p' db db' is_p new run =
    Ensures-eq (Carried env actor confirmed evidence p db) all run
  where
    all :
        Ensures
          (Carried env actor confirmed evidence p db)
          (execute_retention_disposal env pk actor confirmed evidence db)
    all = elim (staff_cases actor db) [
      | inr (e, bad) ↦ rw (execute_retention_disposal, ◌>>=◌, bad) tt
      | inl es ↦ elim (Bool-cases (not confirmed || is_blank evidence)) [
        | inl missing ↦ rw (execute_retention_disposal, ◌>>=◌, es, missing) tt
        | inr sure ↦
            let open_review : is_some p.performed_at ≡ false = ap is_some new in
            rw
              (
                execute_retention_disposal,
                ◌>>=◌,
                es,
                sure,
                get_disposal_found pk p db is_p,
                open_review,
              )
              (execute_new-Carried env actor confirmed evidence p db (ground (arith, sure))
                (ground (arith, sure)))
      ]
    ]
