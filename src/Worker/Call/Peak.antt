-- ===== src/Worker/Call/Peak.antt =====
-- The highest frustration of a call fits its column.
use livekit_agent.Base.{
  zero, suc, ◌≤◌, String, ◌≡◌, refl, Bool, true, false, none, some, List, [], ◌∷◌, All, All-append,
  str_eq, arith, if◌then◌else◌,
}
use livekit_agent.Base.Int.{ℤ, pos, negsuc, neg_part, ltb_ℤ}
use livekit_agent.Worker.Session.{SessionUserData}
use livekit_agent.Worker.Sentiment.{value_of, score}
use livekit_agent.Worker.Sentiment.Streak.{score_all}
use livekit_agent.Worker.Conversation.Drain.{fits_numeric}
use livekit_agent.Worker.Hooks.{extract_text, Texts}
use livekit_agent.Worker.Call.{
  lowest, negate, peak, Moment, turned, manager_asked, consent_answered, human_asked,
}
use livekit_agent.Worker.Call.Queue.{user_after, user_after_all}

-- No score of a turn is below -1.
abbrev pub IsSmall : ℤ → Type 0
IsSmall v = neg_part v ≤ 1000

value_of-IsSmall : (text : String) → IsSmall (value_of text)
unfolding value_of
value_of-IsSmall text = ground arith

lower_of : (test : Bool) (v w : ℤ) → IsSmall v → IsSmall w → IsSmall (if test then w else v)
lower_of true v w hv hw = hw
lower_of false v w hv hw = hv

lowest-IsSmall : (v : ℤ) (vs : List ℤ) → IsSmall v → All IsSmall vs → IsSmall (lowest v vs)
lowest-IsSmall v [] h hs = h
lowest-IsSmall v (w ∷ vs) h hs =
    lowest-IsSmall (if ltb_ℤ w v then w else v) vs (lower_of (ltb_ℤ w v) v w h hs.0) hs.1

negate-fits :
    (v : ℤ) → IsSmall v → fits_numeric (if ltb_ℤ (pos 0) (negate v) then negate v else pos 0) ≡ true
negate-fits (pos zero) h = refl
negate-fits (pos (suc n)) h = ground arith
negate-fits (negsuc n) h = ground arith

pub peak-fits : (history : List ℤ) → All IsSmall history → fits_numeric (peak history) ≡ true
unfolding peak
peak-fits [] h = refl
peak-fits (v ∷ vs) h = negate-fits (lowest v vs) (lowest-IsSmall v vs h.0 h.1)

module _ (texts : Texts) where
  abbrev pub HasSmall : SessionUserData → Type 0
  HasSmall user = All IsSmall user.sentiment_history

  score-HasSmall :
      (blank : Bool) (t : String) (user : SessionUserData)
      → HasSmall user
      → HasSmall (score_all texts.lower (if blank then [] else t ∷ []) user)
  unfolding score
  score-HasSmall true t user h = h
  score-HasSmall false t user h =
      All-append IsSmall user.sentiment_history (value_of (texts.lower t) ∷ []) h
        (value_of-IsSmall (texts.lower t), tt)

  user_after-HasSmall :
      (m : Moment) (user : SessionUserData) → HasSmall user → HasSmall (user_after texts m user)
  user_after-HasSmall (turned agent m) user h =
      score-HasSmall (str_eq (texts.strip (extract_text m)) "") (texts.strip (extract_text m)) user
        h
  user_after-HasSmall manager_asked user h = h
  user_after-HasSmall (consent_answered granted) user h = h
  user_after-HasSmall (human_asked sip_works now none) user h = h
  user_after-HasSmall (human_asked sip_works now (some time)) user h = h

  pub user_after_all-HasSmall :
      (ms : List Moment) (user : SessionUserData)
      → HasSmall user
      → HasSmall (user_after_all texts ms user)
  user_after_all-HasSmall [] user h = h
  user_after_all-HasSmall (m ∷ ms) user h =
      user_after_all-HasSmall ms _ (user_after-HasSmall m user h)
