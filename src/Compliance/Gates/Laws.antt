-- ===== src/Compliance/Gates/Laws.antt =====
-- Laws of the gates of compliance/services.py.
use fireisp.Prelude.{
  ◌≡◌, ◌↔◌, refl, ap, Bool, true, false, not, ◌&&◌, ◌⊎◌, inl, inr, List, [], ◌∷◌, ◌++◌, map, arith,
  any, select, is_some, All, All-map, Bool-cases,
}
use fireisp.Prelude.Text.{Text, text_eq, is_blank}
use fireisp.Calendar.{Date}
use fireisp.Store.{Organization}
use fireisp.Store.Compliance.{LegalRequirement, ReviewStatus}
use fireisp.Compliance.Gates.{
  is_expired, required_codes, mandatory_codes, is_valid, counts, missing_records, invalid_records,
  readiness, is_nil, is_approved,
}

-- A requirement that was verified: evidence, an approval with its reviewer and time, in force, and
-- applicable where the law leaves no choice.
pub record IsVerified (today : Date) (r : LegalRequirement) : Type 0 where
  pub has_evidence : is_blank r.evidence ≡ false
  pub approved : r.status ≡ ReviewStatus.approved
  pub reviewer : is_some r.reviewed_by ≡ true
  pub reviewed : is_some r.reviewed_at ≡ true
  pub applies : (r.applicable ≡ true) ⊎ (any (text_eq r.code) mandatory_codes ≡ false)
  pub in_time : is_expired r.expires_on today ≡ false

is_approved-eq : (s : ReviewStatus) → is_approved s ≡ true → s ≡ ReviewStatus.approved
is_approved-eq ReviewStatus.approved h = refl
is_approved-eq ReviewStatus.unreviewed h = cc
is_approved-eq ReviewStatus.in_progress h = cc

is_valid-IsVerified :
    (today : Date) (r : LegalRequirement)
    → (is_valid mandatory_codes today r ≡ true) ↔ IsVerified today r
unfolding is_valid
is_valid-IsVerified today r = (
  λ h. record {
    has_evidence = ground arith;
    approved = is_approved-eq r.status (ground arith);
    reviewer = ground arith;
    reviewed = ground arith;
    applies = ground arith;
    in_time = ground arith;
  },
  λ v. ground (
    arith,
    v.has_evidence,
    v.reviewer,
    v.reviewed,
    v.applies,
    v.in_time,
    ap is_approved v.approved,
  ),
)

is_nil-append :
    (xs ys : List Text) → (is_nil (xs ++ ys) ≡ true) ↔ ((is_nil xs ≡ true) × (is_nil ys ≡ true))
is_nil-append [] ys = (λ h. (refl, h), λ h. h.1)
is_nil-append (x ∷ xs) ys = (λ h. absurd cc, λ h. absurd (cc h.0))

-- A list of texts taken from selected rows is empty just if no row is selected.
is_nil-select :
    {A : Type 0} (f : A → Text) (p : A → Bool) (xs : List A)
    → (is_nil (map f (select p xs)) ≡ true) ↔ All (λ x. p x ≡ false) xs
is_nil-select f p [] = (λ _. tt, λ _. refl)
is_nil-select f p (x ∷ xs) = elim (Bool-cases (p x)) [
  | inl here ↦ rw here (λ h. absurd cc, λ h. absurd cc)
  | inr other ↦
      let (there, back) = is_nil-select f p xs in rw other (λ h. (refl, there h), λ h. back h.1)
]

-- The required code has a record.
abbrev pub IsRecorded : List LegalRequirement → Text × Text → Type 0
IsRecorded rows c = any (λ r. text_eq r.code c.0) rows ≡ true

-- legal_readiness finds an organization ready exactly if every required code has a record, and
-- each record that has a required code or is required for production was verified: it has evidence
-- and an approval with its reviewer and time, has not expired, and is applicable where its code
-- must be.
pub readiness_iff :
    (o : Organization) (today : Date) (rows : List LegalRequirement)
    → ((readiness o today rows).ready ≡ true) ↔ (
        All (IsRecorded rows) required_codes
        × All (λ r. counts required_codes r ≡ true → IsVerified today r) rows)
unfolding readiness missing_records invalid_records
readiness_iff o today rows =
    let (split, join) =
      is_nil-append (missing_records required_codes rows)
        (invalid_records required_codes mandatory_codes today rows) in
    let (recorded, recorded') =
      is_nil-select (λ c. c.1) (λ c. not (any (λ r. text_eq r.code c.0) rows)) required_codes in
    let (valid, valid') =
      is_nil-select (λ r. r.title)
        (λ r. counts required_codes r && not (is_valid mandatory_codes today r)) rows in
    (
      λ h. (
        All-map (λ c. not (recorded_in c) ≡ false) (IsRecorded rows) required_codes
            (λ c e. ground (arith, e)) (recorded (split h).0),
        All-map (λ r. skipped r ≡ false) Checked rows
            (λ r e c. (is_valid-IsVerified today r).0 (ground (arith, e, c))) (valid (split h).1),
      ),
      λ h. join (
        recorded' (
            All-map (IsRecorded rows) (λ c. not (recorded_in c) ≡ false) required_codes
              (λ c e. ground (arith, e)) h.0),
        valid' (
            All-map Checked (λ r. skipped r ≡ false) rows
              (λ r e. invalid_none r (λ c. (is_valid-IsVerified today r).1 (e c))) h.1),
      ),
    )
  where
    recorded_in : Text × Text → Bool
    recorded_in c = any (λ r. text_eq r.code c.0) rows

    skipped : LegalRequirement → Bool
    skipped r = counts required_codes r && not (is_valid mandatory_codes today r)

    Checked : LegalRequirement → Type 0
    Checked r = counts required_codes r ≡ true → IsVerified today r

    invalid_none :
        (r : LegalRequirement)
        → (counts required_codes r ≡ true → is_valid mandatory_codes today r ≡ true)
        → skipped r ≡ false
    invalid_none r h = elim (Bool-cases (counts required_codes r)) [
      | inl c ↦ rw (c, h c) refl
      | inr c ↦ rw c refl
    ]
