-- ===== src/Compliance/Tests/Papers.antt =====
-- Notices, cancellations and the disposal of contents.
use fireisp.Prelude.{◌≡◌, refl, true, false, some, [], ◌∷◌}
use fireisp.Prelude.Text.{codes, strip, is_blank, text_eq, show_ℕ}
use fireisp.Prelude.Sort.{order_by}
use fireisp.Calendar.{Date, date_ltb, date_leb, days_in_month}
use fireisp.Calendar.Days.{add_days, next_day, subtract_days, previous_day}
use fireisp.Store.{Db, ok, Result}
use fireisp.Store.Compliance.{
  ArcoRequest, completed, RegulatoryNotice, RetentionDisposal, CancellationRequest,
}
use fireisp.Core.{
  audit, publish, get_customer, get_subscription, get_organization, save_subscription,
}
use fireisp.Core.Actors.{staff, may_act}
use fireisp.Compliance.Retention.{
  can_dispose, is_held, policies_of, policies_allow, all_allow, allows,
}
use fireisp.Compliance.Retention.Laws.{MayGo, can_dispose-MayGo}
use fireisp.Compliance.Cancellation.{new_cancellation, enter_cancellation, cancel_subscription}
use fireisp.Compliance.Cancellation.Laws.{cancel_subscription_again}
use fireisp.Compliance.Notices.Save.{
  get_notice, notify_by, minimum_notice_days, is_clean_notice, check_notice, save_notice,
}
use fireisp.Compliance.Notices.{
  notice_body, enter_notification, check_proposal, publish_new, publish_regulatory_notice,
}
use fireisp.Compliance.Notices.Versions.{Evolves}
use fireisp.Compliance.Notices.Laws.{Step, here, then, Reach-Evolves}
use fireisp.Compliance.Disposal.Files.{
  has_complaint, content_rows, request_files, extension_texts, category_name, closing_day,
  disposable, digest,
}
use fireisp.Compliance.Disposal.{
  eligible_rows, lock_context, keys_eq, redact, redact_requests, performed, save_disposal, suppress,
  carry_out, execute_new, get_disposal, execute_retention_disposal,
}
use fireisp.Compliance.Disposal.Effects.{Removed}
use fireisp.Compliance.Disposal.Laws.{CarriedOut, execute_retention_disposal-CarriedOut}
use fireisp.Billing.Tests.Samples.{day, env, value_of, db_of}
use fireisp.Compliance.Tests.Samples.{clerk, owner, request, notice, review, papers, office}

abbrev new_year : Date
new_year = record { year = 2026; month = 1; day = 1 }

goes :
    can_dispose papers owner (codes "arco_request_content") (some new_year) true (day 1) ≡ ok true
unfolding can_dispose is_held policies_of policies_allow all_allow allows add_days next_day
    days_in_month date_ltb date_leb text_eq strip
goes = refl

can_dispose-MayGo_example :
    (◌≡◌ true true)
    × (d : Date) × (◌≡◌ (some new_year) (some d))
    × MayGo papers owner (codes "arco_request_content") d (day 1)
can_dispose-MayGo_example =
    can_dispose-MayGo papers owner (codes "arco_request_content") (some new_year) true (day 1) goes

-- A request that was refused on new year's day, an open one of the same customer, and a review of
-- the first.
abbrev finished : ArcoRequest
finished = record request {
  pk = 2;
  status = completed;
  decision = codes "no";
  granted = some false;
  completed_on = some new_year;
}

abbrev review_of_one : RetentionDisposal
review_of_one = record review { record_ids = 2 ∷ [] }

abbrev archive : Db
archive = record office {
  compliance = record papers {
    arco_requests = finished ∷ request ∷ [];
    disposals = review_of_one ∷ [];
  };
}

abbrev execution : Result (RetentionDisposal × Db)
execution = execute_retention_disposal env 6 clerk true (codes "copias") archive

execution_runs : execution ≡ ok (value_of review execution, db_of archive execution)
unfolding execute_retention_disposal execute_new get_disposal lock_context eligible_rows carry_out
    has_complaint content_rows request_files extension_texts disposable closing_day category_name
    digest keys_eq redact redact_requests performed save_disposal suppress audit staff get_customer
    get_organization order_by can_dispose is_held policies_of policies_allow all_allow allows
    add_days next_day days_in_month date_ltb date_leb text_eq strip
execution_runs = refl

execute_retention_disposal-CarriedOut_example :
    CarriedOut env true (codes "copias") review_of_one archive
    × Removed env clerk
        (codes "copias")
        review_of_one
        (value_of review execution)
        archive
        (db_of archive execution)
execute_retention_disposal-CarriedOut_example =
    execute_retention_disposal-CarriedOut env 6 clerk true (codes "copias") review_of_one
      (value_of review execution) archive (db_of archive execution) refl refl execution_runs

abbrev publication : Result (RegulatoryNotice × Db)
publication = publish_regulatory_notice env 4 clerk office

publication_runs : publication ≡ ok (value_of notice publication, db_of office publication)
unfolding publish_regulatory_notice publish_new get_notice check_notice is_clean_notice
    get_subscription notify_by minimum_notice_days subtract_days previous_day days_in_month date_ltb
    check_proposal enter_notification notice_body show_ℕ save_notice audit staff strip
publication_runs = refl

Reach-Evolves_example :
    Evolves office.compliance.notices (db_of office publication).compliance.notices
Reach-Evolves_example =
    Reach-Evolves office (db_of office publication)
      (then (Step.publish env 4 clerk (value_of notice publication) publication_runs) here)

abbrev farewell : CancellationRequest
farewell = new_cancellation 10 5 (codes "tienda") [] clerk

abbrev cancellation : Result (CancellationRequest × Db)
cancellation = cancel_subscription env 5 clerk (codes "tienda") [] office

cancellation_runs : cancellation ≡ ok (farewell, db_of office cancellation)
unfolding cancel_subscription enter_cancellation new_cancellation get_subscription get_customer
    may_act save_subscription audit publish show_ℕ strip text_eq
cancellation_runs = refl

portal_is_named : is_blank (codes "portal") ≡ false
unfolding strip
portal_is_named = refl

cancel_subscription_again_example :
    cancel_subscription env 5 clerk (codes "portal") [] (db_of office cancellation)
    ≡ ok (farewell, db_of office cancellation)
cancel_subscription_again_example =
    cancel_subscription_again env env 5 clerk (codes "tienda") [] (codes "portal") [] farewell
      office (db_of office cancellation) cancellation_runs portal_is_named
