-- ===== src/Business/Kpis.antt =====
-- apps/business-api/src/business_api/kpis.py and the counts of repositories.py. A rate is in
-- ten-thousandths; `round` of a quotient and of an average are arguments.
use livekit_agent.Base.{
  ℕ, String, Bool, false, none, some, List, keep, length, map, str_eq, ◌==◌, if◌then◌else◌,
}
use livekit_agent.Base.Int.{ℤ, pos}
use livekit_agent.Persistence.Conversation.{CallSession}

pub record Kpis : Type 0 where
  pub total_sessions : ℕ
  pub resolved : ℕ
  pub escalated : ℕ
  pub containment_rate : ℤ
  pub escalation_rate : ℤ
  pub avg_frustration : ℤ

-- `round(n / d, 4)`, `func.coalesce(func.avg(x), 0)` and `round(float(x or 0), 2)`
pub record Rounding : Type 0 where
  pub quotient : ℕ → ℕ → ℤ
  pub average : List ℤ → ℤ
  pub hundredths : ℤ → ℤ

module _ (r : Rounding) where
  -- `_ratio`
  unfoldable pub ratio : ℕ → ℕ → ℤ
  ratio numerator denominator = if denominator == 0 then pos 0 else r.quotient numerator denominator

  -- `compute_kpis`
  unfoldable pub compute_kpis : ℕ → ℕ → ℕ → ℤ → Kpis
  unfolding ratio
  compute_kpis total resolved escalated avg_frustration = record {
    total_sessions = total;
    resolved = resolved;
    escalated = escalated;
    containment_rate = ratio resolved total;
    escalation_rate = ratio escalated total;
    avg_frustration = r.hundredths avg_frustration;
  }

  abbrev pub has_disposition : String → CallSession → Bool
  has_disposition d s = elim s.final_disposition [ none ↦ false | some x ↦ str_eq x d ]

  -- `SupervisionRepository.kpis`
  unfoldable pub kpis : List CallSession → Kpis
  unfolding compute_kpis
  kpis sessions =
      compute_kpis (length sessions) (length (keep (has_disposition "resolved") sessions))
        (length (keep (has_disposition "escalated") sessions))
        (r.average (map (λ (s : CallSession). s.max_frustration_score) sessions))
