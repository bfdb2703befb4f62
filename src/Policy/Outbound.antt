-- ===== src/Policy/Outbound.antt =====
-- rules/outbound.py: the guardrail on what the agent says.
pub mod Unmasked
use Prim.Native.Char.{code}
use Prim.Native.String.{String, [] as empty, ◌∷◌ as char_cons}
use livekit_agent.Base.{
  ℕ, zero, suc, ◌≡◌, Bool, true, false, not, ◌&&◌, ◌||◌, List, [], ◌∷◌, if◌then◌else◌,
}
use livekit_agent.Policy.Types.{authorized, refused, VerdictResult}
use livekit_agent.Policy.Rules.{result}

-- The character classes `\d` and `\w` of `re` over text: every digit is a word character.
pub record CharClass : Type 0 where
  pub is_digit : ℕ → Bool
  pub is_word : ℕ → Bool
  pub digit-word : (c : ℕ) → is_digit c ≡ true → is_word c ≡ true

-- The code points of a text.
abbrev pub codes : String → List ℕ
codes empty = []
codes (char_cons c s) = code c ∷ codes s

module _ (k : CharClass) where
  -- Whether the first character of a rest is a word character; at the end it is not.
  abbrev pub word_ahead : List ℕ → Bool
  word_ahead [] = false
  word_ahead (c ∷ s) = k.is_word c

  -- `\b` between a character that is a word character or not, and what follows
  abbrev pub boundary : Bool → List ℕ → Bool
  boundary before rest = if before then not (word_ahead rest) else word_ahead rest

  -- `\d{n}\b` at a position
  unfoldable pub digits_then_boundary : ℕ → Bool → List ℕ → Bool
  digits_then_boundary zero before rest = boundary before rest
  digits_then_boundary (suc n) before [] = false
  digits_then_boundary (suc n) before (c ∷ rest) =
      k.is_digit c && digits_then_boundary n (k.is_word c) rest

  -- `\b\d{8,12}\b` at a position: the repetition is greedy, and backtracks down to eight.
  unfoldable pub match_here : Bool → List ℕ → Bool
  unfolding digits_then_boundary
  match_here before rest =
      boundary before rest
      && (digits_then_boundary 12 before rest
          || (digits_then_boundary 11 before rest
              || (digits_then_boundary 10 before rest
                  || (digits_then_boundary 9 before rest || digits_then_boundary 8 before rest))))

  -- `_UNMASKED_ID.search(text)`, from a position on
  unfoldable pub search_from : Bool → List ℕ → Bool
  unfolding match_here
  search_from before [] = match_here before []
  search_from before (c ∷ rest) = match_here before (c ∷ rest) || search_from (k.is_word c) rest

  unfoldable pub check_outbound : String → VerdictResult
  unfolding search_from
  check_outbound text =
      if search_from false (codes text)
      then result refused "OUT_PII" "response contains an unmasked identifier"
      else result authorized "OUT_OK" "response permitted"
