-- ===== src/Compliance/Tests/Requests.antt =====
-- A request is verified and refused.
use fireisp.Prelude.{◌≡◌, refl, false, none, some, arith, find, ◌==◌}
use fireisp.Prelude.Text.{codes, strip, is_blank}
use fireisp.Calendar.{date_ltb}
use fireisp.Store.{Db, ok, ◌>>=◌}
use fireisp.Store.Compliance.{ArcoRequest, completed}
use fireisp.Core.{audit}
use fireisp.Compliance.Arco.{get_arco, save_arco, verified, verify_arco_identity, respond_arco}
use fireisp.Compliance.Arco.Stages.{IsOrderly, Evolves}
use fireisp.Compliance.Arco.Laws.{Step, here, then, Reach-IsOrderly}
use fireisp.Compliance.Arco.Close.{arco_can_be_closed}
use fireisp.Billing.Tests.Samples.{day, env, value_of, db_of}
use fireisp.Compliance.Tests.Samples.{clerk, owner, request, office}

abbrev checked : Db
checked = db_of office (verify_arco_identity env 3 clerk (codes "INE") office)

verify_runs :
    verify_arco_identity env 3 clerk (codes "INE") office
    ≡ ok (value_of request (verify_arco_identity env 3 clerk (codes "INE") office), checked)
unfolding verify_arco_identity get_arco save_arco verified audit strip
verify_runs = refl

office-IsOrderly : IsOrderly office
office-IsOrderly = record {
  sound = ((refl, refl, record { not_sent = refl; not_granted = refl; not_completed = refl }), tt);
  numbered = omega arith;
  once = tt;
}

Reach-IsOrderly_example :
    IsOrderly checked × Evolves office.compliance.arco_requests checked.compliance.arco_requests
Reach-IsOrderly_example = Reach-IsOrderly office checked office-IsOrderly (
    then
      (Step.verify env 3 clerk (codes "INE")
        (value_of request (verify_arco_identity env 3 clerk (codes "INE") office)) verify_runs)
      here)

ine_is_evidence : is_blank (codes "INE") ≡ false
unfolding strip
ine_is_evidence = refl

in_time : date_ltb (day 1) (day 1) ≡ false
unfolding date_ltb
in_time = refl

arco_can_be_closed_example :
    (r' : ArcoRequest) × (db' : Db) × ((verify_arco_identity env 3 clerk (codes "INE") >>= λ _.
    respond_arco env 3 clerk (codes "INE") false none)
        office
      ≡ ok (r', db'))
    × (r'.status ≡ completed)
    × (find (λ x. x.pk == 3) db'.compliance.arco_requests ≡ some r')
arco_can_be_closed_example =
    arco_can_be_closed env env 3 clerk (codes "INE") (codes "INE") request owner office refl refl
      refl ine_is_evidence ine_is_evidence in_time
