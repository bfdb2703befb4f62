-- ===== src/Pii/Runs.antt =====
-- What the masker leaves of digits.
use Prim.Native.Char.{code}
use Prim.Native.String.{String, ◌++◌ as cat, [] as empty, ◌∷◌ as char_cons}
use text.Mathlib.TextLemmas.{cons-append, nil-append}
use livekit_agent.Base.{
  ℕ, zero, suc, ◌≤◌, ◌≢◌, ◌≡◌, refl, true, false, Option, none, some, arith, Option-cases, inl, inr,
}
use livekit_agent.Pii.{TextClass, substitute, run, after_digit, long_run, match_id, mask}

-- A property of every rest of a text.
abbrev pub EveryRest : (String → Type 0) → String → Type 0
EveryRest P empty = P empty
EveryRest P (char_cons c s) = P (char_cons c s) × EveryRest P s

module _ (k : TextClass) where
  abbrev pub digits : String → ℕ
  digits = run k.is_digit

  abbrev pub FewDigits : String → Type 0
  FewDigits s = digits s ≤ 3

  -- A text with no digit in it.
  abbrev pub NoDigits : String → Type 0
  NoDigits empty = Unit
  NoDigits (char_cons c s) = (k.is_digit (code c) ≡ false) × NoDigits s

  digits-cat :
      (c : _) (r t : String) → k.is_digit (code c) ≡ false → digits (cat (char_cons c r) t) ≡ 0
  digits-cat c r t h = rw (cons-append c r t) (rw h)

  EveryRest-cat :
      (r t : String) → NoDigits r → EveryRest FewDigits t → EveryRest FewDigits (cat r t)
  EveryRest-cat empty t n e = rw (nil-append t) e
  EveryRest-cat (char_cons c r) t n e =
      rw (cons-append c r t) (ground arith, EveryRest-cat r t n.1 e)

  -- What holds where the substitution stands: inside a match, its digits are those to skip; after
  -- a digit that was kept, few digits follow.
  abbrev Standing : Option ℕ → ℕ → String → Type 0
  Standing before zero s = after_digit k before ≡ true → digits s ≤ 3
  Standing before (suc skip) s = digits s ≡ suc skip

  abbrev sub_id : Option ℕ → ℕ → String → String
  sub_id = substitute (match_id k) "[ID]"

  long_run-none : (n : ℕ) → long_run k n ≡ none → n ≤ 3
  long_run-none n h = ground arith

  long_run-some : (n m : ℕ) → long_run k n ≡ some m → n ≡ suc m
  long_run-some n m h = ground arith

  -- The parts of the invariant for what is put out, from a place on.
  record Left (before : Option ℕ) (skip : ℕ) (s : String) : Type 0 where
    few : EveryRest FewDigits (sub_id before skip s)
    front :
        (skip ≡ 0 → digits (sub_id before skip s) ≤ digits s)
        × (skip ≢ 0 → digits (sub_id before skip s) ≡ 0)

  match_id-none :
      (before : Option ℕ) (s : String)
      → Standing before 0 s
      → match_id k before s ≡ none
      → digits s ≤ 3
  unfolding match_id
  match_id-none before s h e = ground (arith, h, long_run-none (digits s))

  match_id-some :
      (before : Option ℕ) (s : String) (more : ℕ)
      → match_id k before s ≡ some more
      → digits s ≡ suc more
  unfolding match_id
  match_id-some before s more e = ground (arith, long_run-some (digits s) more)

  Standing-inside :
      (c : _) (s : String) (skip : ℕ)
      → digits (char_cons c s) ≡ suc skip
      → Standing (some (code c)) skip s
  Standing-inside c s zero h = λ d. ground arith
  Standing-inside c s (suc skip) h = ground arith

  -- Inside a match nothing is put out before its end.
  Left-inside :
      (before : Option ℕ) (c : _) (skip : ℕ) (s : String)
      → digits (char_cons c s) ≡ suc skip
      → Left (some (code c)) skip s
      → digits (sub_id (some (code c)) skip s) ≡ 0
  Left-inside before c zero s h left = ground (arith, left.front.0 refl)
  Left-inside before c (suc skip) s h left = left.front.1 (omega arith)

  module _ (plain : NoDigits "[ID]") where
    sub_id-Left :
        (before : Option ℕ) (skip : ℕ) (s : String) → Standing before skip s → Left before skip s
    unfolding substitute
    sub_id-Left before zero empty h = record {
      few = omega arith;
      front = (λ e. omega arith, λ e. absurd (e refl));
    }
    sub_id-Left before (suc skip) empty h = absurd (omega arith)
    sub_id-Left before (suc skip) (char_cons c s) h =
        let left = sub_id-Left (some (code c)) skip s (Standing-inside c s skip h) in
        record {
          few = left.few;
          front = (λ e. absurd (omega arith), λ e. Left-inside before c skip s h left);
        }
    sub_id-Left before zero (char_cons c s) h =
        elim (Option-cases (match_id k before (char_cons c s))) [
          | inl e ↦
              let left =
                sub_id-Left (some (code c)) 0 s
                  (λ d. ground (arith, match_id-none before (char_cons c s) h e)) in
              record {
                few =
                    rw (e, substitute)
                      (
                        ground (arith, left.front.0 refl, match_id-none before (char_cons c s) h e),
                        left.few,
                      );
                front = (
                  λ z. rw (e, substitute) (ground (arith, left.front.0 refl)),
                  λ z. absurd (z refl),
                );
              }
          | inr (more, e) ↦
              let inside = match_id-some before (char_cons c s) more e in
              let left = sub_id-Left (some (code c)) more s (Standing-inside c s more inside) in
              record {
                few = rw (e, substitute) (EveryRest-cat "[ID]" _ plain left.few);
                front = (
                  λ z. rw (e, substitute) (rw (digits-cat _ _ _ plain.0) (omega arith)),
                  λ z. absurd (z refl),
                );
              }
        ]

    -- Nowhere in a masked text do four digits stand in a row; `[`, `I`, `D` and `]` are no digits.
    pub mask-FewDigits : (text : String) → EveryRest FewDigits (mask k text)
    unfolding mask
    mask-FewDigits text = (sub_id-Left none 0 _ (λ e. cc)).few
