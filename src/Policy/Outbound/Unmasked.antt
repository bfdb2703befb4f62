-- ===== src/Policy/Outbound/Unmasked.antt =====
-- The guardrail finds exactly the free-standing runs of eight to twelve digits.
use livekit_agent.Base.{
  ℕ, zero, suc, ◌≤◌, ◌≡◌, ◌↔◌, ◌⊎◌, inl, inr, refl, ap, Bool, true, false, ◌&&◌, ◌||◌, List, [],
  ◌∷◌, ◌++◌, arith, length, All, Bool-cases,
}
use Prim.Native.String.{String}
use livekit_agent.Policy.Types.{authorized, refused}
use livekit_agent.Policy.Outbound.{
  CharClass, codes, word_ahead, boundary, digits_then_boundary, match_here, search_from,
  check_outbound,
}

or_right : (a b : Bool) → b ≡ true → (a || b) ≡ true
or_right a b h = ground arith

one_of_five :
    (a b c d e : Bool)
    → (a ≡ true) ⊎ (b ≡ true) ⊎ (c ≡ true) ⊎ (d ≡ true) ⊎ (e ≡ true)
    → (a || (b || (c || (d || e)))) ≡ true
one_of_five a b c d e h = ground arith

size_cases : (n : ℕ) → 8 ≤ n → n ≤ 12 → (n ≡ 12) ⊎ (n ≡ 11) ⊎ (n ≡ 10) ⊎ (n ≡ 9) ⊎ (n ≡ 8)
size_cases n lo hi = ground arith

and_true : (a b : Bool) → a ≡ true → b ≡ true → (a && b) ≡ true
and_true a b p q = ground arith

module _ (k : CharClass) where
  -- A run of digits, all digits, with no word character on either side.
  pub record FreeRun (before : Bool) (s : List ℕ) : Type 0 where
    pub run : List ℕ
    pub rest : List ℕ
    pub split : s ≡ run ++ rest
    pub digits : All (λ (c : ℕ). k.is_digit c ≡ true) run
    pub starts : before ≡ false
    pub stops : word_ahead k rest ≡ false
    pub size : (8 ≤ length run) × (length run ≤ 12)

  -- A text in which one stands, behind a part `past`.
  pub data Unmasked : Bool → List ℕ → Type 0 where
    here : {before : Bool} {s : List ℕ} → FreeRun before s → Unmasked before s
    later :
        (before : Bool) (c : ℕ) {s : List ℕ} → Unmasked (k.is_word c) s → Unmasked before (c ∷ s)

  digits-split :
      (n : ℕ) (before : Bool) (s : List ℕ)
      → digits_then_boundary k (suc n) before s ≡ true
      → (run : List ℕ) × (rest : List ℕ) × (s ≡ run ++ rest)
        × All (λ (c : ℕ). k.is_digit c ≡ true) run
        × (length run ≡ suc n)
        × (word_ahead k rest ≡ false)
  unfolding digits_then_boundary
  digits-split n before [] h = cc
  digits-split zero before (c ∷ s) h =
      (c ∷ [], s, refl, (ground arith, tt), refl, ground (arith, k.digit-word c))
  digits-split (suc n) before (c ∷ s) h =
      let (run, rest, e, ds, len, stop) = digits-split n (k.is_word c) s (ground arith) in
      (c ∷ run, rest, ap (λ t. c ∷ t) e, (ground arith, ds), ap suc len, stop)

  digits-join :
      (n : ℕ) (before : Bool) (run rest : List ℕ)
      → All (λ (c : ℕ). k.is_digit c ≡ true) run
      → length run ≡ suc n
      → word_ahead k rest ≡ false
      → digits_then_boundary k (suc n) before (run ++ rest) ≡ true
  unfolding digits_then_boundary
  digits-join n before [] rest ds len stop = absurd (omega arith)
  digits-join zero before (c ∷ []) rest ds len stop = ground (arith, k.digit-word c)
  digits-join zero before (c ∷ d ∷ run) rest ds len stop = absurd (omega arith)
  digits-join (suc n) before (c ∷ run) rest ds len stop =
      ground (arith, digits-join n (k.is_word c) run rest ds.1)

  boundary-digit :
      (before : Bool) (c : ℕ) (s : List ℕ)
      → boundary k before (c ∷ s) ≡ true
      → k.is_digit c ≡ true
      → before ≡ false
  boundary-digit before c s b d = ground (arith, k.digit-word c)

  free_run :
      (n : ℕ) (before : Bool) (s : List ℕ)
      → boundary k before s ≡ true
      → 7 ≤ n
      → n ≤ 11
      → digits_then_boundary k (suc n) before s ≡ true
      → FreeRun before s
  free_run n before s b lo hi h =
      let (run, rest, e, ds, len, stop) = digits-split n before s h in
      record {
        run = run;
        rest = rest;
        split = e;
        digits = ds;
        starts = starts run rest e ds (omega arith);
        stops = stop;
        size = (omega arith, omega arith);
      }
    where
      starts :
          (run rest : List ℕ)
          → s ≡ run ++ rest
          → All (λ (c : ℕ). k.is_digit c ≡ true) run
          → 1 ≤ length run
          → before ≡ false
      starts [] rest e ds one = absurd (omega arith)
      starts (c ∷ run) rest e ds one = boundary-digit before c (run ++ rest) (rw e at b) ds.0

  match_here-FreeRun :
      (before : Bool) (s : List ℕ) → match_here k before s ≡ true → FreeRun before s
  unfolding match_here
  match_here-FreeRun before s h = elim (Bool-cases (digits_then_boundary k 12 before s)) [
    | inl d ↦ free_run 11 before s (ground arith) (omega arith) (omega arith) d
    | inr n12 ↦ elim (Bool-cases (digits_then_boundary k 11 before s)) [
      | inl d ↦ free_run 10 before s (ground arith) (omega arith) (omega arith) d
      | inr n11 ↦ elim (Bool-cases (digits_then_boundary k 10 before s)) [
        | inl d ↦ free_run 9 before s (ground arith) (omega arith) (omega arith) d
        | inr n10 ↦ elim (Bool-cases (digits_then_boundary k 9 before s)) [
          | inl d ↦ free_run 8 before s (ground arith) (omega arith) (omega arith) d
          | inr n9 ↦ free_run 7 before s (ground arith) (omega arith) (omega arith) (ground arith)
        ]
      ]
    ]
  ]

  digit_boundary :
      (before : Bool) (c : ℕ) (s : List ℕ)
      → before ≡ false
      → k.is_digit c ≡ true
      → boundary k before (c ∷ s) ≡ true
  digit_boundary before c s b d = ground (arith, k.digit-word c)

  match_run :
      (before : Bool) (run rest : List ℕ)
      → before ≡ false
      → All (λ (c : ℕ). k.is_digit c ≡ true) run
      → word_ahead k rest ≡ false
      → 8 ≤ length run
      → length run ≤ 12
      → match_here k before (run ++ rest) ≡ true
  unfolding match_here
  match_run before [] rest b ds stop lo hi = absurd (omega arith)
  match_run before (c ∷ run) rest b ds stop lo hi =
      and_true _ _ (digit_boundary before c (run ++ rest) b ds.0) (
        one_of_five _ _ _ _ _ (elim (size_cases (suc (length run)) lo hi) [
          | inl e ↦ inl (digits-join 11 before (c ∷ run) rest ds e stop)
          | inr (inl e) ↦ inr (inl (digits-join 10 before (c ∷ run) rest ds e stop))
          | inr (inr (inl e)) ↦ inr (inr (inl (digits-join 9 before (c ∷ run) rest ds e stop)))
          | inr (inr (inr (inl e))) ↦
              inr (inr (inr (inl (digits-join 8 before (c ∷ run) rest ds e stop))))
          | inr (inr (inr (inr e))) ↦
              inr (inr (inr (inr (digits-join 7 before (c ∷ run) rest ds e stop))))
        ]))

  FreeRun-match_here :
      (before : Bool) (s : List ℕ) → FreeRun before s → match_here k before s ≡ true
  FreeRun-match_here before s f =
      rw f.split (match_run before f.run f.rest f.starts f.digits f.stops f.size.0 f.size.1)

  search_from-Unmasked :
      (before : Bool) (s : List ℕ) → search_from k before s ≡ true → Unmasked before s
  unfolding search_from
  search_from-Unmasked before [] h = here (match_here-FreeRun before [] h)
  search_from-Unmasked before (c ∷ s) h = elim (Bool-cases (match_here k before (c ∷ s))) [
    | inl m ↦ here (match_here-FreeRun before (c ∷ s) m)
    | inr m ↦ later before c (search_from-Unmasked (k.is_word c) s (ground arith))
  ]

  Unmasked-search_from :
      {before : Bool} {s : List ℕ} → Unmasked before s → search_from k before s ≡ true
  Unmasked-search_from (here {before = before} {s = s} f) =
      search_here before s (FreeRun-match_here before s f)
    where
      search_here :
          (before : Bool) (s : List ℕ)
          → match_here k before s ≡ true
          → search_from k before s ≡ true
      search_here before [] m = unfold search_from in m
      search_here before (c ∷ s) m = unfold search_from in rw m
  Unmasked-search_from (later before c {s = s} u) = search_later before c s (Unmasked-search_from u)
    where
      search_later :
          (before : Bool) (c : ℕ) (s : List ℕ)
          → search_from k (k.is_word c) s ≡ true
          → search_from k before (c ∷ s) ≡ true
      search_later before c s h = unfold search_from in or_right (match_here k before (c ∷ s)) _ h

  -- A response is refused exactly when some run of eight to twelve digits stands in it with no
  -- word character on either side; every other response is authorised.
  pub check_outbound-Unmasked :
      (text : String)
      → (((check_outbound k text).verdict ≡ refused) ↔ Unmasked false (codes text))
        × (((check_outbound k text).verdict ≡ refused)
            ⊎ ((check_outbound k text).verdict ≡ authorized))
  unfolding check_outbound
  check_outbound-Unmasked text = (
    (λ h. search_from-Unmasked false (codes text) (ground arith), λ u. rw (Unmasked-search_from u)),
    ground arith,
  )
