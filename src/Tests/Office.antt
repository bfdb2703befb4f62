-- ===== src/Tests/Office.antt =====
-- The endpoints of the back office and its integrity job at concrete inputs.
use livekit_agent.Base.{◌≡◌, refl, false, none, some, [], ◌∷◌}
use livekit_agent.Business.Integrity.{is_ok, summarize, orphans, run_integrity}
use livekit_agent.Business.Roles.{role_rank, require_role}
use livekit_agent.Business.Api.{
  BackOffice, ApiEnv, forbidden, kpi_view, retention_job, serve, office_of,
}
use livekit_agent.Business.Api.Access.{IsServed, serve-IsServed}
use livekit_agent.Base.Int.{pos}
use livekit_agent.Audit.Ledger.{pg_verify, verify_from}
use livekit_agent.Tests.Fixtures.{hasher, uuids}
use livekit_agent.Tests.Context.{records}
use livekit_agent.Tests.Business.{job, old_call}

abbrev back_office : BackOffice
back_office = record {
  stores = old_call;
  crm = records;
  accounts = record { id = "a1"; customer_id = "nobody" } ∷ [];
  tickets = [];
  actions = [];
  verdicts = [];
  rules = [];
}

one_orphan : is_ok (run_integrity hasher (office_of back_office)) ≡ false
unfolding run_integrity summarize orphans pg_verify verify_from
one_orphan = refl

abbrev env : ApiEnv
env = record {
  uuids = uuids;
  rounding = record { quotient = λ a b. pos 0; average = λ xs. pos 0; hundredths = λ x. x };
  job = job;
  by_domain = λ rules. rules;
  default_role = none;
}

kept_out : serve env (some "conseiller") kpi_view back_office ≡ (forbidden, back_office)
unfolding serve require_role role_rank
kept_out = refl

serve-IsServed_example :
    IsServed env (some "administrateur") (retention_job (pos 9) false) back_office
serve-IsServed_example =
    serve-IsServed env (some "administrateur") (retention_job (pos 9) false) back_office
