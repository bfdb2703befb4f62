-- ===== src/Audit/Lock/Rows.antt =====
-- The rows of a table in which only the holder of the lock has rows that are not committed.
use livekit_agent.Base.{
  ℕ, ◌≡◌, refl, subst, sym, ap, ◌∙◌, Bool, true, false, not, ◌||◌, Option, none, some, List, [],
  ◌∷◌, ◌++◌, ◌⊎◌, inl, inr, All, All-map, map, keep, ◌==◌, Bool-cases, arith,
}
use livekit_agent.Audit.Lock.{
  Stored, is_own, is_committed, is_visible, rows_of, commit_row, is_kept,
}

module _ {ℓ} {A : Type ℓ} where
  keep-yes : (p : A → Bool) (x : A) (xs : List A) → p x ≡ true → keep p (x ∷ xs) ≡ x ∷ keep p xs
  keep-yes p x xs e = ap (λ b. elim b [ true ↦ x ∷ keep p xs | false ↦ keep p xs ]) e

  keep-no : (p : A → Bool) (x : A) (xs : List A) → p x ≡ false → keep p (x ∷ xs) ≡ keep p xs
  keep-no p x xs e = ap (λ b. elim b [ true ↦ x ∷ keep p xs | false ↦ keep p xs ]) e

  pub keep-append : (p : A → Bool) (xs ys : List A) → keep p (xs ++ ys) ≡ keep p xs ++ keep p ys
  keep-append p [] ys = refl
  keep-append p (x ∷ xs) ys = elim (Bool-cases (p x)) [
    | inl e ↦
        keep-yes p x (xs ++ ys) e
        ∙ ap (λ zs. x ∷ zs) (keep-append p xs ys)
        ∙ ap (λ zs. zs ++ keep p ys) (sym (keep-yes p x xs e))
    | inr e ↦
        keep-no p x (xs ++ ys) e
        ∙ keep-append p xs ys
        ∙ ap (λ zs. zs ++ keep p ys) (sym (keep-no p x xs e))
  ]

  pub keep_all : (p : A → Bool) (xs : List A) → All (λ x. p x ≡ true) xs → keep p xs ≡ xs
  keep_all p [] h = refl
  keep_all p (x ∷ xs) h = keep-yes p x xs h.0 ∙ ap (λ zs. x ∷ zs) (keep_all p xs h.1)

  pub keep_none : (p : A → Bool) (xs : List A) → All (λ x. p x ≡ false) xs → keep p xs ≡ []
  keep_none p [] h = refl
  keep_none p (x ∷ xs) h = keep-no p x xs h.0 ∙ keep_none p xs h.1

  pub keep_same : (p q : A → Bool) (xs : List A) → All (λ x. p x ≡ q x) xs → keep p xs ≡ keep q xs
  keep_same p q [] h = refl
  keep_same p q (x ∷ xs) h = elim (Bool-cases (q x)) [
    | inl e ↦
        keep-yes p x xs (h.0 ∙ e)
        ∙ ap (λ zs. x ∷ zs) (keep_same p q xs h.1)
        ∙ sym (keep-yes q x xs e)
    | inr e ↦ keep-no p x xs (h.0 ∙ e) ∙ keep_same p q xs h.1 ∙ sym (keep-no q x xs e)
  ]

keep-All {ℓ} : {A : Type ℓ} (p : A → Bool) (xs : List A) → All (λ x. p x ≡ true) (keep p xs)
keep-All p [] = tt
keep-All p (x ∷ xs) = elim (Bool-cases (p x)) [
  | inl e ↦ subst (All (λ x. p x ≡ true)) (sym (keep-yes p x xs e)) (e, keep-All p xs)
  | inr e ↦ subst (All (λ x. p x ≡ true)) (sym (keep-no p x xs e)) (keep-All p xs)
]

-- A row is committed, or its transaction holds the lock.
abbrev pub Owned : Option ℕ → Option ℕ → Type 0
Owned lock none = Unit
Owned lock (some i) = lock ≡ some i

abbrev pub AllOwned : Option ℕ → List Stored → Type 0
AllOwned lock = All (λ (s : Stored). Owned lock s.writer)

abbrev pub is_pending : Stored → Bool
is_pending s = not (is_committed s)

pub Holder-cases : (i : ℕ) (lock : Option ℕ) → (lock ≡ some i) ⊎ (is_own i lock ≡ false)
Holder-cases i none = inr refl
Holder-cases i (some j) = elim (Bool-cases (i == j)) [
  | inl e ↦ inl (ap (λ (k : ℕ). some k) (ground (arith, e)))
  | inr e ↦ inr e
]

some-eq : (i j : ℕ) → ◌≡◌ {A = Option ℕ} (some i) (some j) → (i == j) ≡ true
some-eq i j e = let p : i ≡ j = cc e in ground (arith, p)

-- What the holder sees and keeps of a row.
own_visible : (i : ℕ) (s : Stored) → Owned (some i) s.writer → is_visible i s ≡ true
own_visible i s o = go s.writer o
  where
    go :
        (w : Option ℕ)
        → Owned (some i) w
        → (elim w [ none ↦ true | some j ↦ false ] || is_own i w) ≡ true
    go none o = refl
    go (some j) o = some-eq i j o

own_kept : (i : ℕ) (s : Stored) → Owned (some i) s.writer → is_kept i s ≡ is_committed s
own_kept i s o = go s.writer o
  where
    go :
        (w : Option ℕ)
        → Owned (some i) w
        → not (is_own i w) ≡ elim w [ none ↦ true | some j ↦ false ]
    go none o = refl
    go (some j) o = ap not (some-eq i j o)

pub keep-visible :
    (i : ℕ) (table : List Stored) → AllOwned (some i) table → keep (is_visible i) table ≡ table
keep-visible i table h = keep_all (is_visible i) table (
    All-map (λ (s : Stored). Owned (some i) s.writer) (λ s. is_visible i s ≡ true) (own_visible i)
      table h)

pub keep-kept :
    (i : ℕ) (table : List Stored)
    → AllOwned (some i) table
    → keep (is_kept i) table ≡ keep is_committed table
keep-kept i table h = keep_same (is_kept i) is_committed table (
    All-map (λ (s : Stored). Owned (some i) s.writer) (λ s. is_kept i s ≡ is_committed s)
      (own_kept i) table h)

-- A transaction that does not hold the lock has no such row.
not_own : (i : ℕ) (lock w : Option ℕ) → is_own i lock ≡ false → Owned lock w → is_own i w ≡ false
not_own i lock none e o = refl
not_own i lock (some j) e o = ap (is_own i) (sym o) ∙ e

pub rows-commit : (i : ℕ) (table : List Stored) → rows_of (map (commit_row i) table) ≡ rows_of table
rows-commit i [] = refl
rows-commit i (s ∷ table) = elim (Bool-cases (is_own i s.writer)) [
  | inl e ↦ rw (e, rows-commit i table) refl
  | inr e ↦ rw (e, rows-commit i table) refl
]

not_held : (i : ℕ) (w : Option ℕ) → Owned (some i) w → is_own i w ≡ false → w ≡ none
not_held i none o e = refl
not_held i (some j) o e = cc (sym (some-eq i j o) ∙ e)

-- After the holder's commit every row is committed.
own_committed : (i : ℕ) (s : Stored) → Owned (some i) s.writer → (commit_row i s).writer ≡ none
own_committed i s o = elim (Bool-cases (is_own i s.writer)) [
  | inl e ↦ rw e refl
  | inr e ↦ rw e (not_held i s.writer o e)
]

pub commit-All :
    (i : ℕ) (table : List Stored)
    → AllOwned (some i) table
    → All (λ (s : Stored). s.writer ≡ none) (map (commit_row i) table)
commit-All i [] h = tt
commit-All i (s ∷ table) h = (own_committed i s h.0, commit-All i table h.1)

pub commit_other :
    (i : ℕ) (lock : Option ℕ) (table : List Stored)
    → is_own i lock ≡ false
    → AllOwned lock table
    → map (commit_row i) table ≡ table
commit_other i lock [] e h = refl
commit_other i lock (s ∷ table) e h =
    let foreign : is_own i s.writer ≡ false = not_own i lock s.writer e h.0 in
    rw (foreign, commit_other i lock table e h.1) refl

pub keep_other :
    (i : ℕ) (lock : Option ℕ) (table : List Stored)
    → is_own i lock ≡ false
    → AllOwned lock table
    → keep (is_kept i) table ≡ table
keep_other i lock table e h = keep_all (is_kept i) table (
    All-map (λ (s : Stored). Owned lock s.writer) (λ s. is_kept i s ≡ true)
      (λ s o. ap not (not_own i lock s.writer e o)) table h)

committed_none : (w : Option ℕ) → elim w [ none ↦ true | some j ↦ false ] ≡ true → w ≡ none
committed_none none e = refl
committed_none (some j) e = cc e

pub committed-All :
    (table : List Stored) → All (λ (r : Stored). r.writer ≡ none) (keep is_committed table)
committed-All table =
    All-map (λ (r : Stored). is_committed r ≡ true) (λ r. r.writer ≡ none)
      (λ r e. committed_none r.writer e) (keep is_committed table) (keep-All is_committed table)

pub committed-commit :
    (i : ℕ) (table : List Stored)
    → AllOwned (some i) table
    → keep is_committed (map (commit_row i) table) ≡ map (commit_row i) table
committed-commit i table h = keep_all is_committed (map (commit_row i) table) (
    All-map (λ (r : Stored). r.writer ≡ none) (λ r. is_committed r ≡ true) (λ r e. rw e refl)
      (map (commit_row i) table) (commit-All i table h))

pub keep-committed_again :
    (table : List Stored) → keep is_committed (keep is_committed table) ≡ keep is_committed table
keep-committed_again table =
    keep_all is_committed (keep is_committed table) (keep-All is_committed table)
