-- ===== src/Worker/Call/Ended.antt =====
-- The row of a call that is over, described by what happened.
use livekit_agent.Base.{
  ℕ, zero, suc, ◌+◌, ◌-◌, ◌*◌, ◌/◌, ◌≤◌, ◌<◌, ◌≡◌, refl, ap, ◌∙◌, ◌⊎◌, inl, inr, Bool, String,
  Option, none, some, List, [], ◌∷◌, ltb, leb, arith, Bool-cases, if◌then◌else◌,
}
use livekit_agent.Base.Int.{ℤ, pos, negsuc, neg_part, ltb_ℤ}
use livekit_agent.Persistence.Uuid.{UuidLib, to_uuid}
use livekit_agent.Persistence.Conversation.{CallSession}
use livekit_agent.Worker.Conversation.{Caller, opening_row, minus, whole_seconds, closing}
use livekit_agent.Worker.Conversation.Drain.{numeric, closed}
use livekit_agent.Worker.Call.{lowest, negate, peak}

-- A duration in whole seconds, towards zero; a clock that was set back gives a negative one.
abbrev pub IsDuration : ℕ → ℕ → ℤ → Type 0
IsDuration start end d =
    (q : ℕ) × (((d ≡ pos q) × (start + q * 1000000 ≤ end) × (end < start + (q + 1) * 1000000))
      ⊎ ((d ≡ minus q) × (end + q * 1000000 ≤ start) × (start < end + (q + 1) * 1000000)))

-- How far below zero the worst of some scores is.
abbrev pub worst : List ℤ → ℕ
worst [] = 0
worst (v ∷ vs) = if ltb (worst vs) (neg_part v) then neg_part v else worst vs

-- The last answer about consent, if the call had one, else the one that it began with.
abbrev pub last_answer : Option Bool → Option Bool → Option Bool
last_answer none first = first
last_answer (some answer) first = some answer

-- The record of a call that is over: who called and when, by the opening, and how it ended.
pub record IsClosedCall (uuids : UuidLib) (id : String) (now end : ℕ) (caller : Caller)
    (history : List ℤ) (answer : Option Bool) (r : CallSession) : Type 0 where
  pub named : r.id ≡ id
  pub customer : r.customer_id ≡ to_uuid uuids caller.customer_id
  pub line : r.subscription_id ≡ to_uuid uuids caller.subscription_id
  pub msisdn : r.msisdn ≡ caller.msisdn
  pub channel : r.channel ≡ "voice"
  pub room : r.livekit_room ≡ caller.livekit_room
  pub started : r.start_time ≡ now
  pub ended : r.end_time ≡ some end
  pub duration : (d : ℤ) × (r.duration_seconds ≡ some d) × IsDuration now end d
  pub disposition : r.final_disposition ≡ none
  pub frustration : r.max_frustration_score ≡ numeric (pos (worst history))
  pub consent : r.recording_consent ≡ last_answer answer caller.recording_consent
  pub audio : r.audio_record_url ≡ none

whole_seconds-IsDuration : (start end : ℕ) → IsDuration start end (whole_seconds start end)
whole_seconds-IsDuration start end = elim (Bool-cases (leb start end)) [
  | inl e ↦
      let le : start ≤ end = ground (arith, e) in
      ((end - start) / 1000000, inl (rw e refl, omega (arith, le), omega (arith, le)))
  | inr e ↦
      let gt : end < start = ground (arith, e) in
      ((start - end) / 1000000, inr (rw e refl, omega (arith, gt), omega (arith, gt)))
]

-- The lower of two scores is as far below zero as the worse.
neg_part-lower :
    (v w : ℤ)
    → neg_part (if ltb_ℤ w v then w else v)
      ≡ (if ltb (neg_part v) (neg_part w) then neg_part w else neg_part v)
neg_part-lower (pos n) (pos m) = ground arith
neg_part-lower (pos n) (negsuc m) = ground arith
neg_part-lower (negsuc n) (pos m) = ground arith
neg_part-lower (negsuc n) (negsuc m) = ground arith

neg_part-lowest : (v : ℤ) (vs : List ℤ) → neg_part (lowest v vs) ≡ worst (v ∷ vs)
neg_part-lowest v [] = ground arith
neg_part-lowest v (w ∷ vs) =
    neg_part-lowest (if ltb_ℤ w v then w else v) vs ∙ ground (arith, neg_part-lower v w)

peak-worst : (history : List ℤ) → peak history ≡ pos (worst history)
unfolding peak
peak-worst [] = refl
peak-worst (v ∷ vs) = below_zero (lowest v vs) ∙ ap pos (neg_part-lowest v vs)
  where
    below_zero : (z : ℤ) → (if ltb_ℤ (pos 0) (negate z) then negate z else pos 0) ≡ pos (neg_part z)
    below_zero (pos zero) = refl
    below_zero (pos (suc n)) = ground arith
    below_zero (negsuc n) = ground arith

pub closed-IsClosedCall :
    (uuids : UuidLib) (id : String) (now end : ℕ) (caller : Caller) (history : List ℤ)
    (answer : Option Bool)
    → IsClosedCall uuids id now end caller history answer (
        closed
          (closing id (some now) end none (peak history) answer)
          (opening_row uuids id now caller))
closed-IsClosedCall uuids id now end caller history answer = record {
  named = refl;
  customer = refl;
  line = refl;
  msisdn = refl;
  channel = refl;
  room = refl;
  started = refl;
  ended = refl;
  duration = (whole_seconds now end, refl, whole_seconds-IsDuration now end);
  disposition = refl;
  frustration = ap numeric (peak-worst history);
  consent = said answer;
  audio = refl;
}
  where
    said :
        (a : Option Bool)
        → (closed
            (closing id (some now) end none (peak history) a)
            (opening_row uuids id now caller)).recording_consent
          ≡ last_answer a caller.recording_consent
    said none = refl
    said (some b) = refl
