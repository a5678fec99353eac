-- ===== src/Operations/Installation/Laws.antt =====
-- Laws of the gate of an installation.
use fireisp.Prelude.{
  ℕ, ◌≡◌, refl, true, false, not, ◌&&◌, inl, inr, some, List, [], ◌∷◌, arith, All, Bool-cases,
  Option-cases,
}
use fireisp.Prelude.Text.{is_blank}
use fireisp.Calendar.{Date}
use fireisp.Store.{Subscription, Accounts, Db, Env, ok, err, ◌>>=◌}
use fireisp.Store.Field.{WorkOrder, Equipment, Sector, Site, Field}
use fireisp.Store.Ensures.{Ensures, Result-cases}
use fireisp.Operations.Installation.{
  finished_work, cpes, is_clean_equipment, is_verified, sector_of, site_of, is_clean_sector,
  is_clean_site, is_documented, is_licensed, check_item, check_items, has_session, no_items,
  check_installation,
}

-- A CPE that may serve: verified, at a documented sector of a licensed site.
pub record MayServe (a : Accounts) (f : Field) (today : Date) (e : Equipment) : Type 0 where
  pub is_clean : is_clean_equipment a f e ≡ true
  pub verified : is_verified e ≡ true
  pub sector : Sector
  pub is_sector : sector_of f e ≡ some sector
  pub site : Site
  pub is_site : site_of f sector ≡ some site
  pub both_clean : (is_clean_sector sector && is_clean_site site) ≡ true
  pub documented : is_documented sector ≡ true
  pub licensed : is_licensed site today ≡ true

check_item-MayServe :
    (a : Accounts) (f : Field) (today : Date) (e : Equipment)
    → check_item a f today e ≡ ok tt
    → MayServe a f today e
unfolding check_item
check_item-MayServe a f today e h = elim (Bool-cases (not (is_clean_equipment a f e))) [
  | inl bad ↦ let it : err _ ≡ ok tt = rw (check_item, bad) at h in absurd cc
  | inr fine ↦ elim (Bool-cases (not (is_verified e))) [
    | inl bad ↦ let it : err _ ≡ ok tt = rw (check_item, fine, bad) at h in absurd cc
    | inr verified ↦ elim (Option-cases (sector_of f e)) [
      | inl missing ↦
          let it : err _ ≡ ok tt = rw (check_item, fine, verified, missing) at h in absurd cc
      | inr (s, is_s) ↦ elim (Option-cases (site_of f s)) [
        | inl missing ↦
            let it : err _ ≡ ok tt = rw (check_item, fine, verified, is_s, missing) at h in
            absurd cc
        | inr (x, is_x) ↦ elim (Bool-cases (not (is_clean_sector s && is_clean_site x))) [
          | inl bad ↦
              let it : err _ ≡ ok tt = rw (check_item, fine, verified, is_s, is_x, bad) at h in
              absurd cc
          | inr both ↦ elim (Bool-cases (not (is_documented s))) [
            | inl bad ↦
                let it : err _ ≡ ok tt =
                  rw (check_item, fine, verified, is_s, is_x, both, bad) at h in
                absurd cc
            | inr documented ↦ elim (Bool-cases (not (is_licensed x today))) [
              | inl bad ↦
                  let it : err _ ≡ ok tt =
                    rw (check_item, fine, verified, is_s, is_x, both, documented, bad) at h in
                  absurd cc
              | inr licensed ↦ record {
                is_clean = ground (arith, fine);
                verified = ground (arith, verified);
                sector = s;
                is_sector = is_s;
                site = x;
                is_site = is_x;
                both_clean = ground (arith, both);
                documented = ground (arith, documented);
                licensed = ground (arith, licensed);
              }
            ]
          ]
        ]
      ]
    ]
  ]
]

check_items-MayServe :
    (a : Accounts) (f : Field) (today : Date) (es : List Equipment)
    → check_items a f today es ≡ ok tt
    → All (MayServe a f today) es
unfolding check_items
check_items-MayServe a f today [] h = tt
check_items-MayServe a f today (e ∷ es) h = elim (Result-cases (check_item a f today e)) [
  | inr (x, bad) ↦ let it : err x ≡ ok tt = rw (check_items, bad) at h in absurd cc
  | inl (tt, fine) ↦ (
    check_item-MayServe a f today e fine,
    check_items-MayServe a f today es (rw (check_items, fine) at h),
  )
]

-- An installation that was finished: its work order has evidence, it has a CPE, each of them may
-- serve, and a session of the customer is live.
pub record IsInstalled (env : Env) (s : Subscription) (organization : ℕ) (db : Db) : Type 0 where
  pub work : WorkOrder
  pub is_work : finished_work s.pk db.field.work_orders ≡ some work
  pub has_evidence : is_blank work.completion_evidence ≡ false
  pub has_cpe : no_items (cpes s.pk db.field.equipment) ≡ false
  pub cpes_serve :
      All (MayServe db.accounts db.field (env.local_date env.now)) (cpes s.pk db.field.equipment)
  pub live : has_session db.field s organization env.now ≡ true

pub check_installation-IsInstalled :
    (env : Env) (s : Subscription) (organization : ℕ) (db : Db)
    → Ensures
        (λ _ d. (d ≡ db) × IsInstalled env s organization db)
        (check_installation env s organization db)
unfolding check_installation
check_installation-IsInstalled env s organization db =
    elim (Option-cases (finished_work s.pk db.field.work_orders)) [
      | inl missing ↦ rw (◌>>=◌, missing) tt
      | inr (w, is_w) ↦ elim (Bool-cases (is_blank w.completion_evidence)) [
        | inl blank ↦ rw (◌>>=◌, is_w, blank) tt
        | inr proof ↦ elim (Bool-cases (no_items (cpes s.pk db.field.equipment))) [
          | inl empty ↦ rw (◌>>=◌, is_w, proof, empty) tt
          | inr listed ↦
              elim (Result-cases (
                check_items db.accounts db.field (env.local_date env.now)
                  (cpes s.pk db.field.equipment))) [
                    | inr (x, bad) ↦ rw (◌>>=◌, is_w, proof, listed, bad) tt
                    | inl (tt, fine) ↦
                        elim (Bool-cases (has_session db.field s organization env.now)) [
                          | inr dead ↦ rw (◌>>=◌, is_w, proof, listed, fine, dead) tt
                          | inl live ↦
                              rw (◌>>=◌, is_w, proof, listed, fine, live)
                                (
                                  refl,
                                  record {
                                    work = w;
                                    is_work = is_w;
                                    has_evidence = proof;
                                    has_cpe = listed;
                                    cpes_serve =
                                        check_items-MayServe db.accounts db.field
                                          (env.local_date env.now) (cpes s.pk db.field.equipment)
                                          fine;
                                    live = live;
                                  },
                                )
                        ]
                  ]
        ]
      ]
    ]
