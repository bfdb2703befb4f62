-- ===== src/Tests/Conversation.antt =====
-- A call on the queue of the conversation writer.
use livekit_agent.Base.{ℕ, suc, String, ◌≡◌, refl, true, not, ◌==◌, none, some, List, [], ◌∷◌, ◌++◌}
use livekit_agent.Base.Int.{pos, negsuc}
use livekit_agent.Audit.Ledger.{verify_from, pg_verify}
use livekit_agent.Persistence.Uuid.{to_uuid}
use livekit_agent.Persistence.Conversation.{Turn, Conversations}
use livekit_agent.Worker.Conversation.{
  new_writer, Caller, opening_row, start_session, Speech, sentiment_label, aclose,
}
use livekit_agent.Worker.Conversation.Drain.{WriteEnv, can_start, drain}
use livekit_agent.Worker.Conversation.Consistent.{IsConsistent, drain-IsConsistent}
use livekit_agent.Worker.Conversation.Events.{
  Event, spoke, felt, escalated, called_back, consented, finished, perform_all,
}
use livekit_agent.Worker.Conversation.Recorded.{transcript, drain-transcript}
use livekit_agent.Worker.Conversation.Dropped.{SameRecord, drain_lost_start}
use livekit_agent.Tests.Fixtures.{hasher, uuids}

abbrev pub as_is : String → String
as_is t = t

abbrev pub no_calls : Conversations
no_calls = record {
  customers = "c1" ∷ [];
  subscriptions = "l1" ∷ [];
  sessions = [];
  turns = [];
  sentiments = [];
  escalations = [];
  callbacks = [];
  consents = [];
  audit = [];
}

pub no_calls-IsConsistent : IsConsistent hasher no_calls
unfolding pg_verify verify_from
no_calls-IsConsistent = record {
  chain = refl;
  sessions_once = tt;
  turns_once = tt;
  turns_filed = tt;
  samples_filed = tt;
  cases_filed = tt;
  callbacks_filed = tt;
}

abbrev pub caller : Caller
caller = record {
  customer_id = some "c1";
  subscription_id = some "l1";
  msisdn = some "20123456";
  livekit_room = some "room-1";
  recording_consent = none;
}

abbrev said : String → String → Speech
said who what = record {
  speaker = who;
  text = what;
  active_agent = none;
  language = some "fr";
  intent = none;
}

abbrev pub call : List Event
call =
    spoke (said "agent" "Bonjour")
    ∷ consented true (some "fr") (some "c1")
    ∷ spoke (said "caller" "Nul")
    ∷ felt (negsuc 999) "angry"
    ∷ spoke (said "agent" "Pardon")
    ∷ escalated "human" "human_advisor" [] (some "c1")
    ∷ called_back 7 (some "c1") none none 1
    ∷ finished 9 none (pos 999) none
    ∷ []

-- Postgres is down for one write.
abbrev pub down_at : ℕ → ℕ → WriteEnv
down_at k n = record { is_up = not (n == k); now = "t"; audit_id = "a"; record_id = "r" }

pub opened : can_start no_calls (opening_row uuids "s1" 5 caller) ≡ true
unfolding to_uuid
opened = refl

labels : (sentiment_label (negsuc 699) ≡ "angry") × (sentiment_label (pos 349) ≡ "neutral")
unfolding sentiment_label
labels = (refl, refl)

-- The second turn's write fails: the first and the third are on file, with their numbers.
abbrev numbers : List Turn → List ℕ
numbers [] = []
numbers (t ∷ ts) = t.turn_index ∷ numbers ts

one_lost : numbers (transcript as_is uuids "s1" (some 5) (λ n. down_at 2 n) 0 call) ≡ 1 ∷ 3 ∷ []
one_lost = refl

drain-transcript_example :
    (drain hasher
      (down_at 3)
      (perform_all as_is uuids call (start_session uuids "s1" 5 caller new_writer)).queue
      no_calls).turns
    ≡ [] ++ transcript as_is uuids "s1" (some 5) (λ n. down_at 3 (suc n)) 0 call
drain-transcript_example =
    drain-transcript hasher as_is uuids (down_at 3) "s1" 5 caller call no_calls
      no_calls-IsConsistent refl opened (refl, (tt, (refl, (tt, (refl, (tt, (tt, (tt, tt))))))))

drain-IsConsistent_example : IsConsistent hasher (
    drain hasher
      (down_at 3)
      (aclose (perform_all as_is uuids call (start_session uuids "s1" 5 caller new_writer))).queue
      no_calls)
drain-IsConsistent_example = drain-IsConsistent hasher (down_at 3) _ no_calls no_calls-IsConsistent

drain_lost_start_example : SameRecord no_calls (
    drain hasher
      (down_at 0)
      (perform_all as_is uuids call (start_session uuids "s1" 5 caller new_writer)).queue
      no_calls)
drain_lost_start_example =
    drain_lost_start hasher as_is uuids (down_at 0) "s1" 5 caller call no_calls refl refl
