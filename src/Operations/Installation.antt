-- ===== src/Operations/Installation.antt =====
-- operations/services.py: `require_installation_readiness`, with `clean` of the sites, sectors and
-- equipment in operations/models.py. The validators of single columns are left out.
pub mod Laws
use fireisp.Prelude.{
  ℕ, ◌+◌, ◌-◌, ◌*◌, Bool, true, false, not, ◌&&◌, ◌||◌, Option, none, some, List, [], ◌∷◌, leb, ltb,
  ◌==◌, if◌then◌else◌, find, any, select, is_some, opt_eq,
}
use fireisp.Prelude.Int.{ℤ, pos, negsuc, leb_ℤ, ◌+ℤ◌, ◌-ℤ◌}
use fireisp.Prelude.Text.{Text, text_eq, is_empty, is_blank}
use fireisp.Prelude.Sort.{order_by}
use fireisp.Calendar.{Date}
use fireisp.Store.{
  Subscription, Db, Accounts, Result, ok, err, M, ◌>>=◌, ◌>>◌, pure, gets, raise_if, or_raise, lift,
  Env, bad_record, does_not_exist, no_installation, no_equipment, unverified_equipment,
  undocumented_sector, unlicensed_site, no_session,
}
use fireisp.Store.Field.{
  WorkOrder, WorkKind, WorkStatus, PermitStatus, Site, Sector, Role, EquipmentStatus, Equipment,
  AccessCredential, RadiusSession, Field,
}
use fireisp.Core.{get_customer, get_organization}
use fireisp.Compliance.Gates.{Gate, passed, waived, is_expired}

abbrev pub is_installation : WorkKind → Bool
is_installation WorkKind.installation = true
is_installation _ = false

abbrev pub is_done : WorkStatus → Bool
is_done WorkStatus.completed = true
is_done _ = false

abbrev pub is_cpe : Role → Bool
is_cpe Role.cpe = true
is_cpe _ = false

abbrev pub is_installed : EquipmentStatus → Bool
is_installed EquipmentStatus.installed = true
is_installed _ = false

abbrev pub is_unreviewed : PermitStatus → Bool
is_unreviewed PermitStatus.unreviewed = true
is_unreviewed _ = false

-- The query for the work order; `first()` takes the oldest key.
unfoldable pub is_finished : ℕ → WorkOrder → Bool
is_finished subscription w =
    w.subscription == subscription
    && is_installation w.kind
    && is_done w.status
    && is_some w.completed_at
    && not (is_empty w.completion_evidence)

unfoldable pub finished_work : ℕ → List WorkOrder → Option WorkOrder
finished_work subscription ws = find (is_finished subscription) (order_by (λ a b. leb a.pk b.pk) ws)

unfoldable pub cpes : ℕ → List Equipment → List Equipment
cpes subscription es =
    select
      (λ e. opt_eq e.subscription (some subscription) && is_cpe e.role && is_installed e.status) es

-- `Equipment.eirp_dbm`
unfoldable pub eirp_dbm : Equipment → Option ℤ
eirp_dbm e = elim e.tx_power_dbm [
  | none ↦ none
  | some power ↦ elim e.antenna_gain_dbi [
    | none ↦ none
    | some gain ↦ some (power +ℤ gain -ℤ pos e.cable_loss_db)
  ]
]

-- A calculated power is within the documented limit, where both are known.
unfoldable pub within_eirp : Equipment → Bool
within_eirp e = elim (eirp_dbm e) [
  | none ↦ true
  | some power ↦ elim e.allowed_eirp_dbm [ none ↦ true | some limit ↦ leb_ℤ power limit ]
]

abbrev pub in_degrees : ℕ → Option ℤ → Bool
in_degrees n none = true
in_degrees n (some d) = leb_ℤ (pos 0 -ℤ pos (n * 10000000)) d && leb_ℤ d (pos (n * 10000000))

-- `Site.clean`
unfoldable pub is_clean_site : Site → Bool
is_clean_site s =
    in_degrees 90 s.latitude
    && in_degrees 180 s.longitude
    && (is_unreviewed s.permit_status || not (is_blank s.permit_evidence))

-- `Sector.clean`
unfoldable pub is_clean_sector : Sector → Bool
is_clean_sector s = (not s.dfs_required || s.dfs_enabled) && (not s.tpc_required || s.tpc_enabled)

unfoldable pub site_of : Field → Sector → Option Site
site_of f s = find (λ x. x.pk == s.site) f.sites

unfoldable pub sector_of : Field → Equipment → Option Sector
sector_of f e = elim e.sector [ none ↦ none | some k ↦ find (λ x. x.pk == k) f.sectors ]

-- The organization of the customer of the equipment's subscription.
unfoldable pub service_organization : Accounts → ℕ → Option ℕ
service_organization a subscription = elim (find (λ s. s.pk == subscription) a.subscriptions) [
  | none ↦ none
  | some s ↦ elim (find (λ c. c.pk == s.customer) a.customers) [
    | none ↦ none
    | some c ↦ some c.organization
  ]
]

-- `Equipment.clean`
unfoldable pub is_clean_equipment : Accounts → Field → Equipment → Bool
is_clean_equipment a f e =
    (elim (sector_of f e) [
      | none ↦ true
      | some s ↦ elim (site_of f s) [ none ↦ true | some x ↦ x.organization == e.organization ]
    ])
    && (elim e.subscription [
      | none ↦ true
      | some k ↦ opt_eq (service_organization a k) (some e.organization)
    ])
    && (not e.homologation_verified
        || not (is_empty e.homologation_certificate) && not (is_blank e.homologation_evidence))
    && within_eirp e

-- The test of the CPE itself.
unfoldable pub is_verified : Equipment → Bool
is_verified e =
    e.homologation_verified
    && is_some e.sector
    && not (is_blank e.regulatory_profile)
    && is_some (eirp_dbm e)
    && is_some e.allowed_eirp_dbm

-- `not value` of a number that may be absent.
abbrev pub is_given : Option ℕ → Bool
is_given none = false
is_given (some n) = ltb 0 n

unfoldable pub is_documented : Sector → Bool
is_documented s =
    is_given s.frequency_mhz && is_given s.channel_width_mhz && not (is_blank s.regulatory_basis)

unfoldable pub is_licensed : Site → Date → Bool
is_licensed s today =
    not (is_unreviewed s.permit_status)
    && not (is_blank s.owner_permission)
    && not (is_expired s.permit_expires_on today)

-- The body of the loop over the equipment.
unfoldable pub check_item : Accounts → Field → Date → Equipment → Result (Unit {0})
check_item a f today e =
    if not (is_clean_equipment a f e)
    then err bad_record
    else if not (is_verified e)
    then err unverified_equipment
    else elim (sector_of f e) [
      | none ↦ err does_not_exist
      | some s ↦ elim (site_of f s) [
        | none ↦ err does_not_exist
        | some x ↦
            if not (is_clean_sector s && is_clean_site x)
            then err bad_record
            else if not (is_documented s)
            then err undocumented_sector
            else if not (is_licensed x today)
            then err unlicensed_site
            else ok tt
      ]
    ]

unfoldable pub check_items : Accounts → Field → Date → List Equipment → Result (Unit {0})
check_items a f today [] = ok tt
check_items a f today (e ∷ es) = elim (check_item a f today e) [
  | err x ↦ err x
  | ok _ ↦ check_items a f today es
]

-- `INSTALLATION_SESSION_MAX_AGE_MINUTES`, which the settings leave at its default.
abbrev pub session_max_age : ℕ
session_max_age = 15 * 60

unfoldable pub serves : Subscription → ℕ → ℕ → AccessCredential → Bool
serves s organization now c =
    c.subscription == s.pk
    && text_eq c.username s.access_username
    && c.enabled
    && not c.is_lab
    && not c.router_is_lab
    && c.router_organization == organization
    && (elim c.expires_at [ none ↦ true | some t ↦ ltb now t ])

unfoldable pub is_live : AccessCredential → ℕ → RadiusSession → Bool
is_live c now x =
    x.router == c.router
    && text_eq x.username c.username
    && not (is_some x.stopped_at)
    && leb now (x.updated_at + session_max_age)

-- The last test: a credential of the service has a recent session.
unfoldable pub has_session : Field → Subscription → ℕ → ℕ → Bool
has_session f s organization now = elim (find (serves s organization now) f.access) [
  | none ↦ false
  | some c ↦ any (is_live c now) f.sessions
]

abbrev pub no_items : List Equipment → Bool
no_items [] = true
no_items (_ ∷ _) = false

unfoldable pub check_installation : Env → Subscription → ℕ → M Gate
check_installation env s organization = do
  work ← gets (λ db. finished_work s.pk db.field.work_orders)
  w ← or_raise no_installation work
  raise_if (is_blank w.completion_evidence) no_installation
  items ← gets (λ db. cpes s.pk db.field.equipment)
  raise_if (no_items items) no_equipment
  checked ← gets (λ db. check_items db.accounts db.field (env.local_date env.now) items)
  lift checked
  session ← gets (λ db. has_session db.field s organization env.now)
  raise_if (not session) no_session
  pure passed

unfoldable pub require_installation_readiness : Env → Subscription → M Gate
require_installation_readiness env s = do
  c ← get_customer s.customer
  o ← get_organization c.organization
  if o.demo_mode then pure waived else check_installation env s o.pk
