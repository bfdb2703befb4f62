-- ===== src/Tests/Pii.antt =====
-- The masker at concrete texts.
use livekit_agent.Base.{◌≡◌, refl, ◌==◌}
use livekit_agent.Policy.Types.{authorized}
use livekit_agent.Policy.Outbound.{check_outbound}
use livekit_agent.Pii.{TextClass, mask, substitute, match_email, match_phone, match_id}
use livekit_agent.Pii.Runs.{EveryRest, FewDigits, NoDigits, mask-FewDigits}
use livekit_agent.Pii.Speakable.{mask-authorized}
use livekit_agent.Tests.Fixtures.{ascii}

abbrev pub ascii_text : TextClass
ascii_text = record { chars = ascii; is_space = λ c. c == 32 }

masked :
    mask ascii_text "mail a.b@x.tn tel +216 20 123 456 id 12345"
    ≡ "mail [EMAIL] tel [PHONE] id [ID]"
unfolding mask substitute match_email match_phone match_id
masked = refl

short_kept : mask ascii_text "room 123" ≡ "room 123"
unfolding mask substitute match_email match_phone match_id
short_kept = refl

plain : NoDigits ascii_text "[ID]"
plain = (refl, (refl, (refl, (refl, tt))))

mask-FewDigits_example : EveryRest (FewDigits ascii_text) (mask ascii_text "id 12345, 20 123 456")
mask-FewDigits_example = mask-FewDigits ascii_text plain "id 12345, 20 123 456"

mask-authorized_example :
    (check_outbound ascii_text.chars (mask ascii_text "code 99887766")).verdict ≡ authorized
mask-authorized_example = mask-authorized ascii_text plain "code 99887766"
