-- ===== src/Execution/Projections/Billing.antt =====
-- projections.py of the execution service: payments and payment plans.
-- `none` is an exception of the database or of a conversion.
use Prim.Native.String.{String}
use mathlib.Core.List.{◌++◌ as append_list}
use livekit_agent.Base.{
  zero, not, ◌&&◌, Option, none, some, List, [], ◌∷◌, str_eq, any, member, leb, if◌then◌else◌,
}
use livekit_agent.Base.Int.{ℤ, pos, negsuc}
use livekit_agent.Base.Json.{Scalar, null, int, str}
use livekit_agent.Base.Dict.{lookup}
use livekit_agent.Persistence.Uuid.{to_uuid}
use livekit_agent.Persistence.Tables.{Domain, Account, Payment}
use livekit_agent.Execution.Executor.{amount_or_zero}
use livekit_agent.Execution.Projections.Mapping.{
  Effect, account_for, invoice_of, installment_amount,
}

-- `payload.get("method", "card")`; the column takes texts.
abbrev pub method_of : Option Scalar → Option String
method_of none = some "card"
method_of (some (str s)) = some s
method_of (some _) = none

abbrev pub payment_methods : List String
payment_methods = "card" ∷ "bank_transfer" ∷ "wallet" ∷ "voucher" ∷ "cash" ∷ []

-- Adds a payment: the amount and the method are texts and numbers that the columns take, and the
-- key is new.
unfoldable pub add_payment : Effect → Account → Domain → Option ℤ → Option String → Option Domain
unfolding invoice_of
add_payment e account d none method = none
add_payment e account d (some amount) none = none
add_payment e account d (some amount) (some method) =
    if member method payment_methods
      && not (any (λ (p : Payment). str_eq p.idempotency_key e.idempotency_key) d.payments)
    then some (record d {
      payments = append_list d.payments (
          (record {
            account_id = account.id;
            invoice_id = invoice_of e.payload d;
            customer_id = to_uuid e.uuids e.customer_id;
            amount = amount;
            method = method;
            gateway_reference = e.adapter_reference;
            idempotency_key = e.idempotency_key;
            status = "succeeded";
            paid_at = e.now;
          })
          ∷ []);
    })
    else none

-- `_payment`; without an account nothing is written.
unfoldable pub project_payment : Effect → Domain → Option Domain
unfolding add_payment account_for amount_or_zero
project_payment e d = elim (account_for e d) [
  | none ↦ some d
  | some account ↦
      add_payment e account d (amount_or_zero (lookup "amount" e.payload))
        (method_of (lookup "method" e.payload))
]

-- `payload.get("amount") or payload.get("unpaid_amount") or 0`
abbrev pub total_or_else : Option ℤ → Option ℤ → Option ℤ
total_or_else none second = none
total_or_else (some (pos zero)) second = second
total_or_else (some x) second = some x

-- `payload.get("installment_count") or 1`, for counts that are integers; what is none is refused
-- by the column.
abbrev pub count_or_one : Option Scalar → Option ℤ
count_or_one none = some (pos 1)
count_or_one (some null) = some (pos 1)
count_or_one (some (int (pos zero))) = some (pos 1)
count_or_one (some (int n)) = some n
count_or_one (some _) = none

-- Adds a payment plan of one to twelve instalments.
unfoldable pub add_plan : Effect → Account → Domain → Option ℤ → Option ℤ → Option Domain
unfolding installment_amount
add_plan e account d none count = none
add_plan e account d (some total) none = none
add_plan e account d (some total) (some (negsuc n)) = none
add_plan e account d (some total) (some (pos count)) =
    if leb 1 count && leb count 12
    then some (record d {
      payment_plans = append_list d.payment_plans (
          (record {
            account_id = account.id;
            customer_id = to_uuid e.uuids e.customer_id;
            total_amount = total;
            installment_count = count;
            installment_amount = installment_amount total (pos count);
            status = "active";
            policy_verdict_id = to_uuid e.uuids (some e.policy_verdict_id);
          })
          ∷ []);
    })
    else none

-- `_payment_plan`
unfoldable pub project_plan : Effect → Domain → Option Domain
unfolding add_plan account_for amount_or_zero
project_plan e d = elim (account_for e d) [
  | none ↦ some d
  | some account ↦
      add_plan e account d
        (total_or_else (amount_or_zero (lookup "amount" e.payload))
          (amount_or_zero (lookup "unpaid_amount" e.payload)))
        (count_or_one (lookup "installment_count" e.payload))
]
