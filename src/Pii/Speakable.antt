-- ===== src/Pii/Speakable.antt =====
-- A masked text and the outbound guardrail of the policy service.
use Prim.Native.Char.{code}
use Prim.Native.String.{String, [] as empty, ◌∷◌ as char_cons}
use livekit_agent.Base.{
  ℕ, ◌≤◌, ◌≡◌, refl, ◌∙◌, Bool, true, List, [], ◌∷◌, ◌++◌, length, All, arith, inl, inr,
}
use livekit_agent.Policy.Types.{authorized}
use livekit_agent.Policy.Outbound.{codes, check_outbound}
use livekit_agent.Policy.Outbound.Unmasked.{Unmasked, here, later, check_outbound-Unmasked}
use livekit_agent.Pii.{TextClass, mask}
use livekit_agent.Pii.Runs.{EveryRest, FewDigits, NoDigits, digits, mask-FewDigits}

module _ (k : TextClass) where
  -- A run of digits at the front of a text is counted whole.
  length-le-digits :
      (s : String) (ds rest : List ℕ)
      → codes s ≡ ds ++ rest
      → All (λ (c : ℕ). k.is_digit c ≡ true) ds
      → length ds ≤ digits k s
  length-le-digits s [] rest e h = omega arith
  length-le-digits empty (d ∷ ds) rest e h = cc e
  length-le-digits (char_cons c s) (d ∷ ds) rest e h =
      let p : code c ≡ d = cc e in
      let q : codes s ≡ ds ++ rest = cc e in
      let digit : k.is_digit (code c) ≡ true = rw p h.0 in
      ground (arith, digit, length-le-digits s ds rest q h.1)

  FewDigits-masked :
      (s : String) {before : Bool} {t : List ℕ}
      → Unmasked k.chars before t
      → codes s ≡ t
      → EveryRest (FewDigits k) s
      → ⊥
  FewDigits-masked empty (here f) e h =
      omega (arith, length-le-digits empty f.run f.rest (e ∙ f.split) f.digits, f.size.0, h)
  FewDigits-masked (char_cons c s) (here f) e h =
      omega
        (arith, length-le-digits (char_cons c s) f.run f.rest (e ∙ f.split) f.digits, f.size.0, h.0)
  FewDigits-masked empty (later before c u) e h = cc e
  FewDigits-masked (char_cons c s) (later before d u) e h = FewDigits-masked s u (cc e) h.1

  -- A masked text passes the outbound guardrail.
  pub mask-authorized :
      NoDigits k "[ID]"
      → (text : String) → (check_outbound k.chars (mask k text)).verdict ≡ authorized
  mask-authorized plain text =
      let (found, either) = check_outbound-Unmasked k.chars (mask k text) in
      elim either [
        | inl bad ↦
            absurd (FewDigits-masked (mask k text) (found.0 bad) refl (mask-FewDigits k plain text))
        | inr ok ↦ ok
      ]
