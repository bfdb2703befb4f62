-- ===== src/Audit/Lock/Inside.antt =====
-- What a transaction within an append holds, from one step to the next.
use livekit_agent.Base.{
  ℕ, ◌≡◌, sym, ap, subst, ◌∙◌, Option, none, some, List, inl, inr, ◌==◌, Bool-cases, arith,
  if◌then◌else◌,
}
use livekit_agent.Audit.Ledger.{genesis_hash, Link, row_links, last_hash}
use livekit_agent.Audit.Lock.{Stored, Point, outside, locked, looked, rows_of, at}

abbrev pub links_of : List Stored → List Link
links_of table = row_links (rows_of table)

-- A transaction within an append holds the lock, and what it read is the hash of the last row.
abbrev pub Inside : Option ℕ → List Stored → ℕ → Point → Type 0
Inside lock table i outside = Unit
Inside lock table i (locked a) = lock ≡ some i
Inside lock table i (looked a previous) =
    (lock ≡ some i) × (previous ≡ last_hash genesis_hash (links_of table))

-- One that does not hold the lock is outside.
pub Inside-outside :
    (lock lock' : Option ℕ) (table table' : List Stored) (i : ℕ) (p : Point)
    → ¬ (lock ≡ some i)
    → Inside lock table i p
    → Inside lock' table' i p
Inside-outside lock lock' table table' i outside free h = tt
Inside-outside lock lock' table table' i (locked a) free h = absurd (free h)
Inside-outside lock lock' table table' i (looked a previous) free h = absurd (free h.0)

-- The transactions after one of them has moved, where nobody else holds the lock.
pub Inside-at :
    (lock lock' : Option ℕ) (table table' : List Stored) (i : ℕ) (p : Point) (points : ℕ → Point)
    → ((j : ℕ) → lock ≡ some j → i ≡ j)
    → ((j : ℕ) → Inside lock table j (points j))
    → Inside lock' table' i p
    → (j : ℕ) → Inside lock' table' j (at i p points j)
Inside-at lock lock' table table' i p points alone h here j = elim (Bool-cases (i == j)) [
  | inl e ↦
      let q : i ≡ j = ground (arith, e) in
      subst (λ b. Inside lock' table' j (if b then p else points j)) (sym e)
        (subst (λ k. Inside lock' table' k p) q here)
  | inr e ↦
      subst (λ b. Inside lock' table' j (if b then p else points j)) (sym e)
        (Inside-outside lock lock' table table' j (points j)
          (λ l. let q : i ≡ j = alone j l in ground (arith, e, q)) (h j))
]

pub some-injective : {i j : ℕ} → ◌≡◌ {A = Option ℕ} (some i) (some j) → i ≡ j
some-injective e = cc e

-- After a commit of the holder, and after a rollback of another.
pub Inside-committed :
    (lock : Option ℕ) (table table' : List Stored) (i : ℕ) (points : ℕ → Point)
    → points i ≡ outside
    → lock ≡ some i
    → ((j : ℕ) → Inside lock table j (points j))
    → (j : ℕ) → Inside none table' j (points j)
Inside-committed lock table table' i points out hold h j = elim (Bool-cases (i == j)) [
  | inl e ↦
      let q : i ≡ j = ground (arith, e) in
      subst (Inside none table' j) (sym (ap points (sym q) ∙ out)) tt
  | inr e ↦
      Inside-outside lock none table table' j (points j)
        (λ l. let q : i ≡ j = some-injective (sym hold ∙ l) in ground (arith, e, q)) (h j)
]

pub Inside-left :
    (lock : Option ℕ) (table : List Stored) (i : ℕ) (points : ℕ → Point)
    → ((j : ℕ) → Inside lock table j (points j))
    → (j : ℕ) → Inside lock table j (at i outside points j)
Inside-left lock table i points h j = elim (Bool-cases (i == j)) [
  | inl e ↦ subst (λ b. Inside lock table j (if b then outside else points j)) (sym e) tt
  | inr e ↦ subst (λ b. Inside lock table j (if b then outside else points j)) (sym e) (h j)
]
