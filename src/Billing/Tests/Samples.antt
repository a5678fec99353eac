-- ===== src/Billing/Tests/Samples.antt =====
-- A database with one customer, two monthly invoices and a first payment.
use fireisp.Prelude.{ℕ, true, false, none, some, [], ◌∷◌}
use fireisp.Prelude.Text.{codes}
use fireisp.Calendar.{Date}
use fireisp.Store.{
  Subscription, active, Invoice, opened, Payment, cash, SuspensionPolicy, SuspensionProposal,
  SuspensionDecision, Ledger, Db, Result, ok, err, Env,
}

abbrev pub day : ℕ → Date
day m = record { year = 2026; month = m; day = 31 }

abbrev pub env : Env
env = record {
  now = 9000000;
  local_date = λ _. day 1;
  at_time_of = λ _ t. t;
  at_midnight = λ _. 0;
  utc_date = λ _. day 1;
  sha256_hex = λ t. t;
  dumps = λ _. [];
  upper = λ t. t;
  is_uuid = λ _. true;
}

abbrev pub invoice : ℕ → ℕ → ℕ → Invoice
invoice pk month total = record {
  pk = pk;
  customer = 7;
  subscription = none;
  number = (5, day month);
  period_start = some (day month);
  period_end = some (day (month));
  subtotal = total;
  tax = 0;
  total = total;
  status = opened;
  created_at = pk;
}

abbrev pub payment : ℕ → ℕ → Payment
payment pk amount = record {
  pk = pk;
  customer = 7;
  amount = amount;
  method = cash;
  reference = [];
  paid_at = 100;
  created_at = 100;
  created_by = some 1;
  idempotency_key = codes "first";
}

-- The first payment has paid a part of January.
abbrev pub ledger : Ledger
ledger = record {
  invoices = invoice 2 2 50000 ∷ invoice 1 1 30000 ∷ [];
  payments = payment 3 40000 ∷ [];
  allocations = record { payment = 3; invoice = 1; amount = 10000 } ∷ [];
  reversals = [];
  memos = [];
  refunds = [];
}

abbrev pub service : Subscription
service = record {
  pk = 5;
  customer = 7;
  plan = 4;
  status = active;
  activated_at = some 1000;
  paid_until = some 2000;
  access_username = codes "u5";
}

abbrev pub policy : SuspensionPolicy
policy = record { organization = 1; automatic_enabled = true; grace_hours = 24 }

abbrev pub proposal : SuspensionProposal
proposal = record {
  pk = 8;
  subscription = 5;
  snapshot_paid_until = 2000;
  idempotency_key = codes "p";
  created_by = some 1;
}

abbrev pub decision : SuspensionDecision
decision = record { pk = 9; proposal = 8; approved = true; note = codes "ok"; created_by = some 1 }

abbrev pub start : Db
start = record {
  next_pk = 10;
  accounts = record {
    organizations = record { pk = 1; demo_mode = false } ∷ [];
    users = 1 ∷ [];
    customers = record { pk = 7; organization = 1; user = some 70 } ∷ [];
    plans = [];
    subscriptions = service ∷ [];
    notifications = [];
  };
  ledger = ledger;
  desk = record { closures = []; items = [] };
  bank = [];
  suspensions = record {
    policies = policy ∷ [];
    proposals = proposal ∷ [];
    decisions = decision ∷ [];
    applications = [];
    releases = [];
  };
  operations = record {
    tickets = [];
    outages = [];
    credits = [];
    credentials = [];
    checks = record { code = codes "network_sync"; healthy = true; checked_at = 8999990 } ∷ [];
  };
  journal = record { audits = []; outbox = [] };
  fiscal = record {
    profiles = [];
    documents = [];
    jobs = [];
    fiscal_attempts = [];
    global_items = [];
  };
  compliance = record {
    requirements = [];
    versions = [];
    consents = [];
    holidays = [];
    arco_requests = [];
    extensions = [];
    retention_policies = [];
    holds = [];
    cancellations = [];
    notices = [];
    disposals = [];
    registrations = [];
  };
  field = record {
    work_orders = [];
    sites = [];
    sectors = [];
    equipment = [];
    access = [];
    sessions = [];
  };
  network = record { nodes = []; routers = []; jobs = [] };
}

-- What a run returns, and the database that it leaves.
abbrev pub value_of : {A : Type 0} → A → Result (A × Db) → A
value_of a (ok (b, _)) = b
value_of a (err _) = a

abbrev pub db_of : {A : Type 0} → Db → Result (A × Db) → Db
db_of db (ok (_, db')) = db'
db_of db (err _) = db
