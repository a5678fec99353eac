-- ===== src/Store/Field.antt =====
-- The rows of the field work: operations/models.py, and the sessions of network/models.py. Powers
-- are in hundredths of a decibel, and may be negative.
use fireisp.Prelude.{ℕ, Bool, Option, List}
use fireisp.Prelude.Text.{Text}
use fireisp.Prelude.Int.{ℤ}
use fireisp.Calendar.{Date}

pub data WorkKind : Type 0 where
  installation repair retrieval : WorkKind

pub data WorkStatus : Type 0 where
  scheduled in_progress completed cancelled : WorkStatus

pub record WorkOrder : Type 0 where
  pub pk : ℕ
  pub subscription : ℕ
  pub kind : WorkKind
  pub status : WorkStatus
  pub completion_evidence : Text
  pub completed_at : Option ℕ

pub data PermitStatus : Type 0 where
  unreviewed approved not_required : PermitStatus

-- The position of a site, in units of 10 ^ -7 degrees.
pub record Site : Type 0 where
  pub pk : ℕ
  pub organization : ℕ
  pub latitude : Option ℤ
  pub longitude : Option ℤ
  pub owner_permission : Text
  pub permit_status : PermitStatus
  pub permit_evidence : Text
  pub permit_expires_on : Option Date

pub record Sector : Type 0 where
  pub pk : ℕ
  pub site : ℕ
  pub frequency_mhz : Option ℕ
  pub channel_width_mhz : Option ℕ
  pub dfs_required : Bool
  pub dfs_enabled : Bool
  pub tpc_required : Bool
  pub tpc_enabled : Bool
  pub regulatory_basis : Text

pub data Role : Type 0 where
  cpe ap backhaul router : Role

pub data EquipmentStatus : Type 0 where
  stock installed repair retired : EquipmentStatus

pub record Equipment : Type 0 where
  pub pk : ℕ
  pub organization : ℕ
  pub role : Role
  pub sector : Option ℕ
  pub subscription : Option ℕ
  pub status : EquipmentStatus
  pub homologation_certificate : Text
  pub homologation_verified : Bool
  pub homologation_evidence : Text
  pub regulatory_profile : Text
  pub tx_power_dbm : Option ℤ
  pub antenna_gain_dbi : Option ℤ
  pub cable_loss_db : ℕ
  pub allowed_eirp_dbm : Option ℤ

-- A credential with the organization and the kind of its router.
pub record AccessCredential : Type 0 where
  pub subscription : ℕ
  pub username : Text
  pub enabled : Bool
  pub is_lab : Bool
  pub expires_at : Option ℕ
  pub router : ℕ
  pub router_is_lab : Bool
  pub router_organization : ℕ

pub record RadiusSession : Type 0 where
  pub router : ℕ
  pub username : Text
  pub stopped_at : Option ℕ
  pub updated_at : ℕ

pub record Field : Type 0 where
  pub work_orders : List WorkOrder
  pub sites : List Site
  pub sectors : List Sector
  pub equipment : List Equipment
  pub access : List AccessCredential
  pub sessions : List RadiusSession
