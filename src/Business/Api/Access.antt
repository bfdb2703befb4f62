-- ===== src/Business/Api/Access.antt =====
-- Who may do what through the endpoints.
use text.Mathlib.TextEquality.{eq_iff}
use livekit_agent.Base.{
  String, ◌≡◌, ◌≢◌, ◌⊎◌, ◌↔◌, inl, inr, refl, sym, ap, subst, ◌∙◌, Bool, true, false, Option, none,
  some, List, [], ◌∷◌, any, or_else, str_eq, Bool-cases, arith, leb, if◌then◌else◌,
}
use livekit_agent.Base.Int.{ℤ}
use livekit_agent.Business.Roles.{role_rank, minimum_rank, role_of, require_role}
use livekit_agent.Business.Retention.{cutoff_date, old_ids, retain, run_retention}
use livekit_agent.Business.Retention.Purged.{IsPurged, run_retention-IsPurged}
use livekit_agent.Business.Records.{customer_360}
use livekit_agent.Business.Supervision.{session_detail}
use livekit_agent.Business.Api.{
  customer, session, BackOffice, ApiRequest, customer_view, session_view, escalation_list,
  verdict_list, action_list, kpi_view, audit_check, rule_list, integrity_job, retention_job, Reply,
  forbidden, or_missing, minimum, ApiEnv, respond, serve,
}

-- The one change that a request can make: the purge of an administrator who did not ask for a dry
-- run.
pub record IsPurge (env : ApiEnv) (role : String) (q : ApiRequest) (b b' : BackOffice)
    : Type 0 where
  pub days : ℤ
  pub asked : q ≡ retention_job days false
  pub allowed : role ≡ "administrateur"
  pub purged :
      IsPurged env.job
        (old_ids (cutoff_date days env.job.now) b.stores.db.sessions)
        b.stores
        (run_retention env.job days false b.stores)
  pub result : b' ≡ record b { stores = (run_retention env.job days false b.stores).1 }

abbrev pub Effect : ApiEnv → String → ApiRequest → BackOffice → BackOffice → Type 0
Effect env role q b b' = (b' ≡ b) ⊎ IsPurge env role q b b'

or_missing-ne :
    {A : Type 0} (f : A → Reply)
    → ((a : A) → f a ≢ forbidden)
    → (o : Option A) → or_missing f o ≢ forbidden
or_missing-ne f h none e = cc e
or_missing-ne f h (some a) e = h a e

-- No endpoint's body answers 403.
respond-ne-forbidden :
    (env : ApiEnv) (q : ApiRequest) (b : BackOffice) → (respond env q b).0 ≢ forbidden
unfolding respond
respond-ne-forbidden env (customer_view id) b e =
    or_missing-ne customer (λ a h. cc h) (customer_360 env.uuids id b.crm b.tickets) e
respond-ne-forbidden env (session_view id) b e =
    or_missing-ne session (λ a h. cc h) (session_detail env.uuids id b.stores.db) e
respond-ne-forbidden env (escalation_list status) b e = cc e
respond-ne-forbidden env (verdict_list id) b e = cc e
respond-ne-forbidden env (action_list status) b e = cc e
respond-ne-forbidden env kpi_view b e = cc e
respond-ne-forbidden env audit_check b e = cc e
respond-ne-forbidden env rule_list b e = cc e
respond-ne-forbidden env integrity_job b e = cc e
respond-ne-forbidden env (retention_job days dry_run) b e = cc e

administrator : (role : String) → leb 3 (role_rank (some role)) ≡ true → role ≡ "administrateur"
unfolding role_rank
administrator role h = ground (arith, h, eq_iff role "administrateur")

respond-Effect :
    (env : ApiEnv) (role : String) (q : ApiRequest) (b : BackOffice)
    → leb (minimum_rank (minimum q)) (role_rank (some role)) ≡ true
    → Effect env role q b (respond env q b).1
unfolding respond run_retention retain
respond-Effect env role (customer_view id) b h = inl refl
respond-Effect env role (session_view id) b h = inl refl
respond-Effect env role (escalation_list status) b h = inl refl
respond-Effect env role (verdict_list id) b h = inl refl
respond-Effect env role (action_list status) b h = inl refl
respond-Effect env role kpi_view b h = inl refl
respond-Effect env role audit_check b h = inl refl
respond-Effect env role rule_list b h = inl refl
respond-Effect env role integrity_job b h = inl refl
respond-Effect env role (retention_job days true) b h = inl refl
respond-Effect env role (retention_job days false) b h = inr (record {
  days = days;
  asked = refl;
  allowed = administrator role h;
  purged = run_retention-IsPurged env.job days b.stores;
  result = refl;
})

-- The role that a request presents: that of its header; where it has none, or an empty one, the
-- default of the settings; and where these have none, the administrateur's.
pub data Presents : Option String → Option String → String → Type 0 where
  by_header :
      (setting : Option String) (role : String) → role ≢ "" → Presents setting (some role) role
  no_header : (role : String) → Presents (some role) none role
  empty_header : (role : String) → Presents (some role) (some "") role
  no_default : Presents none none "administrateur"
  no_default_empty : Presents none (some "") "administrateur"

-- The roles that an endpoint lets in, by name.
abbrev pub let_in : ApiRequest → List String
let_in (customer_view id) = "conseiller" ∷ "superviseur" ∷ "administrateur" ∷ []
let_in (session_view id) = "conseiller" ∷ "superviseur" ∷ "administrateur" ∷ []
let_in (escalation_list status) = "superviseur" ∷ "administrateur" ∷ []
let_in (verdict_list id) = "superviseur" ∷ "administrateur" ∷ []
let_in (action_list status) = "superviseur" ∷ "administrateur" ∷ []
let_in kpi_view = "superviseur" ∷ "administrateur" ∷ []
let_in audit_check = "administrateur" ∷ []
let_in rule_list = "administrateur" ∷ []
let_in integrity_job = "administrateur" ∷ []
let_in (retention_job days dry_run) = "administrateur" ∷ []

abbrev pub is_let_in : String → ApiRequest → Bool
is_let_in role q = any (λ (name : String). str_eq role name) (let_in q)

-- What a request comes to, by the role that it presents.
pub record IsServed (env : ApiEnv) (x_role : Option String) (q : ApiRequest) (b : BackOffice)
    : Type 0 where
  pub role : String
  pub presented : Presents env.default_role x_role role
  pub refused : ((serve env x_role q b).0 ≡ forbidden) ↔ (is_let_in role q ≡ false)
  pub effect : Effect env role q b (serve env x_role q b).1

role_of-Presents :
    (setting x_role : Option String) → Presents setting x_role (role_of setting x_role)
role_of-Presents none none = no_default
role_of-Presents (some role) none = no_header role
role_of-Presents setting (some role) = elim (Bool-cases (str_eq role "")) [
  | inl e ↦
      let empty : role ≡ "" = ground (arith, e, eq_iff role "") in
      subst (λ r. Presents setting (some r) (role_of setting (some r))) (sym empty)
        (default_role setting)
  | inr e ↦
      subst (Presents setting (some role))
        (ap (λ b. if b then or_else setting "administrateur" else role) (sym e))
        (by_header setting role (ground (arith, e, eq_iff role "")))
]
  where
    default_role : (d : Option String) → Presents d (some "") (role_of d (some ""))
    default_role none = no_default_empty
    default_role (some role) = empty_header role

-- No role has two of the names.
names :
    (role : String)
    → (str_eq role "conseiller" ≡ false)
      ⊎ ((str_eq role "superviseur" ≡ false) × (str_eq role "administrateur" ≡ false))
names role = elim (Bool-cases (str_eq role "conseiller")) [
  | inr e ↦ inl e
  | inl e ↦
      let same : role ≡ "conseiller" = ground (arith, e, eq_iff role "conseiller") in
      inr (ap (λ r. str_eq r "superviseur") same, ap (λ r. str_eq r "administrateur") same)
]

not_both : (role : String) → str_eq role "superviseur" ≡ true → str_eq role "administrateur" ≡ false
not_both role e =
    let same : role ≡ "superviseur" = ground (arith, e, eq_iff role "superviseur") in
    ap (λ r. str_eq r "administrateur") same

-- The ranks say the same as the names.
rank-let_in :
    (role : String) (q : ApiRequest)
    → leb (minimum_rank (minimum q)) (role_rank (some role)) ≡ is_let_in role q
unfolding role_rank
rank-let_in role (customer_view id) = ground arith
rank-let_in role (session_view id) = ground arith
rank-let_in role (escalation_list status) = ground (arith, names role, not_both role)
rank-let_in role (verdict_list id) = ground (arith, names role, not_both role)
rank-let_in role (action_list status) = ground (arith, names role, not_both role)
rank-let_in role kpi_view = ground (arith, names role, not_both role)
rank-let_in role audit_check = ground (arith, names role, not_both role)
rank-let_in role rule_list = ground (arith, names role, not_both role)
rank-let_in role integrity_job = ground (arith, names role, not_both role)
rank-let_in role (retention_job days dry_run) = ground (arith, names role, not_both role)

-- The same for a test whose value is known.
served :
    (env : ApiEnv) (role : String) (q : ApiRequest) (b : BackOffice) (ok : Bool)
    → leb (minimum_rank (minimum q)) (role_rank (some role)) ≡ ok
    → let r = if ok then respond env q b else (forbidden, b) in
      ((r.0 ≡ forbidden) ↔ (ok ≡ false)) × Effect env role q b r.1
served env role q b true h =
    ((λ e. absurd (respond-ne-forbidden env q b e), λ l. cc l), respond-Effect env role q b h)
served env role q b false h = ((λ _. refl, λ _. refl), inl refl)

-- A request is refused exactly when the role that it presents, its header's or else the default, is
-- not among those that the endpoint lets in by name; and the only request that changes anything is a
-- retention run of an administrateur that is not dry, which purges.
pub serve-IsServed :
    (env : ApiEnv) (x_role : Option String) (q : ApiRequest) (b : BackOffice)
    → IsServed env x_role q b
unfolding serve require_role
serve-IsServed env x_role q b =
    let role = role_of env.default_role x_role in
    let (refused, effect) =
      served env role q b (leb (minimum_rank (minimum q)) (role_rank (some role))) refl in
    record {
      role = role;
      presented = role_of-Presents env.default_role x_role;
      refused =
          (λ e. sym (rank-let_in role q) ∙ refused.0 e, λ e. refused.1 (rank-let_in role q ∙ e));
      effect = effect;
    }
