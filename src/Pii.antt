-- ===== src/Pii.antt =====
-- packages/pii-shield/src/pii_shield/masker.py: the three regular expressions and their
-- substitutions, over texts by characters.
pub mod Runs
pub mod Speakable
use Prim.Native.Char.{code}
use Prim.Native.String.{String, ◌++◌, [] as empty, ◌∷◌ as char_cons}
use livekit_agent.Base.{
  ℕ, zero, suc, ◌+◌, ◌-◌, Bool, true, false, ◌&&◌, ◌||◌, Option, none, some, leb, ◌==◌,
  if◌then◌else◌,
}
use livekit_agent.Policy.Outbound.{CharClass}

-- The character classes of `re` that the patterns name.
pub record TextClass : Type 0 where
  pub chars : CharClass
  pub open chars use {is_digit, is_word}
  pub is_space : ℕ → Bool

-- A match at a position, after the character before it: the number of characters past the first.
abbrev pub Matcher : Type 0
Matcher = Option ℕ → String → Option ℕ

-- `pattern.sub(replacement, text)`: the leftmost matches that do not overlap, from a position
-- where `skip` characters still belong to the last match.
unfoldable pub substitute : Matcher → String → Option ℕ → ℕ → String → String
substitute m replacement before skip empty = empty
substitute m replacement before (suc skip) (char_cons c s) =
    substitute m replacement (some (code c)) skip s
substitute m replacement before zero (char_cons c s) = elim (m before (char_cons c s)) [
  | none ↦ char_cons c (substitute m replacement (some (code c)) 0 s)
  | some more ↦ replacement ++ substitute m replacement (some (code c)) more s
]

-- How many characters at the front of a text are in a class, and what follows them.
abbrev pub run : (ℕ → Bool) → String → ℕ
run p empty = 0
run p (char_cons c s) = if p (code c) then suc (run p s) else 0

abbrev pub after_run : (ℕ → Bool) → String → String
after_run p empty = empty
after_run p (char_cons c s) = if p (code c) then after_run p s else char_cons c s

-- A run of at least one, then one character.
abbrev pub run_then : (ℕ → Bool) → ℕ → String → Option (ℕ × String)
run_then p stop s = elim (after_run p s) [
  | empty ↦ none
  | char_cons c rest ↦ if leb 1 (run p s) && code c == stop then some (run p s, rest) else none
]

module _ (k : TextClass) where
  -- The classes `[\w.+-]`, `[\w-]`, `[\w.-]` and `[\d\s-]`.
  abbrev pub in_local : ℕ → Bool
  in_local c = k.is_word c || (c == 46 || (c == 43 || c == 45))

  abbrev pub in_host : ℕ → Bool
  in_host c = k.is_word c || c == 45

  abbrev pub in_domain : ℕ → Bool
  in_domain c = k.is_word c || (c == 46 || c == 45)

  abbrev pub in_phone : ℕ → Bool
  in_phone c = k.is_digit c || (k.is_space c || c == 45)

  -- `[\w.+-]+@[\w-]+\.[\w.-]+`: `@` and the first dot end their runs, so nothing is given back.
  unfoldable pub match_email : Matcher
  match_email before s = elim (run_then in_local 64 s) [
    | none ↦ none
    | some (n, rest) ↦ elim (run_then in_host 46 rest) [
      | none ↦ none
      | some (host, rest') ↦
          if leb 1 (run in_domain rest')
          then some (n + (host + (run in_domain rest' + 1)))
          else none
    ]
  ]

  -- The last digit of a run of `[\d\s-]` that has at least six characters of it before.
  abbrev pub last_digit : ℕ → String → Option ℕ
  last_digit i empty = none
  last_digit i (char_cons c s) =
      let later = last_digit (suc i) s in
      let here = if k.is_digit (code c) && leb 6 i then some i else none in
      if in_phone (code c) then elim later [ some j ↦ some j | none ↦ here ] else none

  -- `\d[\d\s-]{6,}\d`
  abbrev pub match_number : String → Option ℕ
  match_number empty = none
  match_number (char_cons c s) =
      if k.is_digit (code c)
      then elim (last_digit 0 s) [ none ↦ none | some j ↦ some (suc j) ]
      else none

  -- `\+?\d[\d\s-]{6,}\d`
  unfoldable pub match_phone : Matcher
  match_phone before empty = none
  match_phone before (char_cons c s) =
      if code c == 43
      then elim (match_number s) [ none ↦ none | some n ↦ some (suc n) ]
      else match_number (char_cons c s)

  abbrev pub after_digit : Option ℕ → Bool
  after_digit none = false
  after_digit (some c) = k.is_digit c

  abbrev pub long_run : ℕ → Option ℕ
  long_run n = if leb 4 n then some (n - 1) else none

  -- `(?<!\d)\d{4,}(?!\d)`
  unfoldable pub match_id : Matcher
  match_id before s = if after_digit before then none else long_run (run k.is_digit s)

  -- `PiiMasker.mask`
  unfoldable pub mask : String → String
  mask text =
      substitute match_id "[ID]" none 0
        (substitute match_phone "[PHONE]" none 0 (substitute match_email "[EMAIL]" none 0 text))
