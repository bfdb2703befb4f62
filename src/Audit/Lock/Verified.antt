-- ===== src/Audit/Lock/Verified.antt =====
-- What the advisory lock keeps: the chain on file verifies, and only grows.
use mathlib.Core.List.{append-nil, append_assoc, map-append}
use livekit_agent.Base.{
  ℕ, String, ◌≡◌, refl, sym, ap, subst, ◌∙◌, true, false, Option, none, some, List, [], ◌∷◌, ◌++◌,
  ◌⊎◌, inl, inr, All, All-append, All-map, map, keep, ◌==◌, arith, if◌then◌else◌,
}
use livekit_agent.Audit.Ledger.{
  Hasher, genesis_hash, row_links, last_hash, build_link, verify_from, pg_verify,
}
use livekit_agent.Audit.Chain.{verify_from-build}
use livekit_agent.Audit.Lock.{
  Stored, Append, Point, outside, locked, looked, System, is_own, is_committed, on_file,
  previous_hash_for, release, commit_row, is_kept, at, new_row, Step, take_lock, look, insert_row,
  commit, rollback, Reach, start, later,
}
use livekit_agent.Audit.Lock.Rows.{
  keep-append, keep_all, keep_none, Owned, AllOwned, is_pending, Holder-cases, keep-visible,
  keep-kept, rows-commit, commit-All, commit_other, keep_other, committed-All,
}
use livekit_agent.Audit.Lock.Inside.{
  links_of, Inside, Inside-at, some-injective, Inside-committed, Inside-left,
}

module _ (h : Hasher) where
  pub record IsSerial (s : System) : Type 0 where
    pub owned : AllOwned s.lock s.table
    pub inside : (i : ℕ) → Inside s.lock s.table i (s.point i)
    pub verified : verify_from h genesis_hash (links_of s.table) ≡ true
    pub filed : pg_verify h (on_file s) ≡ true
    pub shape : s.table ≡ keep is_committed s.table ++ keep is_pending s.table

  -- The lock goes from nobody to a transaction.
  Owned-taken :
      (i : ℕ) (lock w : Option ℕ)
      → (lock ≡ none) ⊎ (lock ≡ some i)
      → Owned lock w
      → Owned (some i) w
  Owned-taken i lock none l o = tt
  Owned-taken i lock (some j) (inl e) o = cc (sym e ∙ o)
  Owned-taken i lock (some j) (inr e) o = sym e ∙ o

  take_lock-IsSerial :
      (s : System) (i : ℕ) (a : Append)
      → (s.lock ≡ none) ⊎ (s.lock ≡ some i)
      → IsSerial s
      → IsSerial (record s { lock = some i; point = at i (locked a) s.point })
  take_lock-IsSerial s i a l c = record {
    owned =
        All-map (λ (r : Stored). Owned s.lock r.writer) (λ r. Owned (some i) r.writer)
          (λ r o. Owned-taken i s.lock r.writer l o) s.table c.owned;
    inside =
        Inside-at s.lock (some i) s.table s.table i (locked a) s.point
          (λ j e. elim l [ inl n ↦ cc (sym n ∙ e) | inr m ↦ some-injective (sym m ∙ e) ]) c.inside
          refl;
    verified = c.verified;
    filed = c.filed;
    shape = c.shape;
  }

  alone : {lock : Option ℕ} {i : ℕ} → lock ≡ some i → (j : ℕ) → lock ≡ some j → i ≡ j
  alone hold j e = some-injective (sym hold ∙ e)

  look-IsSerial :
      (s : System) (i : ℕ) (a : Append)
      → s.lock ≡ some i
      → IsSerial s
      → IsSerial (record s { point = at i (looked a (previous_hash_for i s.table)) s.point })
  look-IsSerial s i a hold c = record {
    owned = c.owned;
    inside =
        Inside-at s.lock s.lock s.table s.table i (looked a (previous_hash_for i s.table)) s.point
          (alone hold) c.inside
          (
            hold,
            ap (λ t. last_hash genesis_hash (links_of t))
                (keep-visible i s.table (subst (λ l. AllOwned l s.table) hold c.owned)),
          );
    verified = c.verified;
    filed = c.filed;
    shape = c.shape;
  }

  module _ (i : ℕ) (a : Append) (previous : String) where
    abbrev pub inserted : Stored
    inserted = record { row = new_row h a previous; writer = some i }

    pub committed-insert :
        (table : List Stored) → keep is_committed (table ++ inserted ∷ []) ≡ keep is_committed table
    committed-insert table =
        keep-append is_committed table (inserted ∷ []) ∙ append-nil (keep is_committed table)

    insert_row-IsSerial :
        (s : System)
        → s.lock ≡ some i
        → previous ≡ last_hash genesis_hash (links_of s.table)
        → IsSerial s
        → IsSerial (record s { table = s.table ++ inserted ∷ []; point = at i outside s.point })
    unfolding pg_verify
    insert_row-IsSerial s hold read c =
        let e : links_of (s.table ++ inserted ∷ [])
            ≡ links_of s.table
              ++ build_link h a.now a.payload (last_hash genesis_hash (links_of s.table)) ∷ [] =
          rw (map-append, map-append, read) refl in
        record {
          owned = All-append (λ (r : Stored). Owned s.lock r.writer) s.table _ c.owned (hold, tt);
          inside =
              Inside-at s.lock s.lock s.table (s.table ++ inserted ∷ []) i outside s.point
                (alone hold) c.inside tt;
          verified =
              ap (verify_from h genesis_hash) e
              ∙ verify_from-build h (links_of s.table) a.now a.payload c.verified;
          filed =
              ap (λ t. verify_from h genesis_hash (links_of t)) (committed-insert s.table)
              ∙ c.filed;
          shape =
              ap (λ t. t ++ inserted ∷ []) c.shape
              ∙ append_assoc (keep is_committed s.table) (keep is_pending s.table) (inserted ∷ [])
              ∙ ap (λ t. t ++ (keep is_pending s.table ++ inserted ∷ []))
                  (sym (committed-insert s.table))
              ∙ ap (λ t. keep is_committed (s.table ++ inserted ∷ []) ++ t)
                  (sym (keep-append is_pending s.table (inserted ∷ [])));
        }

  -- A table whose rows are all committed.
  settled-IsSerial :
      (table : List Stored) (point : ℕ → Point)
      → All (λ (r : Stored). r.writer ≡ none) table
      → verify_from h genesis_hash (links_of table) ≡ true
      → ((j : ℕ) → Inside none table j (point j))
      → IsSerial (record { table = table; lock = none; point = point })
  unfolding pg_verify
  settled-IsSerial table point all verified inside =
      let whole : keep is_committed table ≡ table = keep_all is_committed table (
        All-map (λ (r : Stored). r.writer ≡ none) (λ r. is_committed r ≡ true) (λ r e. rw e refl)
          table all) in
      let rest : keep is_pending table ≡ [] = keep_none is_pending table (
        All-map (λ (r : Stored). r.writer ≡ none) (λ r. is_pending r ≡ false) (λ r e. rw e refl)
          table all) in
      record {
        owned =
            All-map (λ (r : Stored). r.writer ≡ none) (λ r. Owned none r.writer)
              (λ r e. subst (Owned none) (sym e) tt) table all;
        inside = inside;
        verified = verified;
        filed = ap (λ t. verify_from h genesis_hash (links_of t)) whole ∙ verified;
        shape = sym (
            ap (λ t. t ++ keep is_pending table) whole
            ∙ ap (λ t. table ++ t) rest
            ∙ append-nil table);
      }

  IsSerial-as :
      (table table' : List Stored) (lock lock' : Option ℕ) (point : ℕ → Point)
      → table' ≡ table
      → lock' ≡ lock
      → IsSerial (record { table = table; lock = lock; point = point })
      → IsSerial (record { table = table'; lock = lock'; point = point })
  IsSerial-as table table' lock lock' point p q c =
      subst (λ t. IsSerial (record { table = t; lock = lock'; point = point })) (sym p)
        (subst (λ l. IsSerial (record { table = table; lock = l; point = point })) (sym q) c)

  release-held : (i : ℕ) (lock : Option ℕ) → lock ≡ some i → release i lock ≡ none
  release-held i lock e = ap (release i) e ∙ ap (λ b. if b then none else some i) (self i)
    where
      self : (n : ℕ) → (n == n) ≡ true
      self n = ground arith

  release-other : (i : ℕ) (lock : Option ℕ) → is_own i lock ≡ false → release i lock ≡ lock
  release-other i lock e = ap (λ b. if b then none else lock) e

  commit-IsSerial :
      (s : System) (i : ℕ)
      → s.point i ≡ outside
      → IsSerial s
      → IsSerial (record s { table = map (commit_row i) s.table; lock = release i s.lock })
  commit-IsSerial s i out c = elim (Holder-cases i s.lock) [
    | inl hold ↦
        let mine : AllOwned (some i) s.table = subst (λ l. AllOwned l s.table) hold c.owned in
        IsSerial-as (map (commit_row i) s.table) _ none _ s.point refl (release-held i s.lock hold)
          (settled-IsSerial (map (commit_row i) s.table) s.point (commit-All i s.table mine)
            (ap (λ t. verify_from h genesis_hash (row_links t)) (rows-commit i s.table)
              ∙ c.verified)
            (Inside-committed s.lock s.table (map (commit_row i) s.table) i s.point out hold
              c.inside))
    | inr other ↦
        IsSerial-as s.table _ s.lock _ s.point (commit_other i s.lock s.table other c.owned)
          (release-other i s.lock other) c
  ]

  rollback-IsSerial :
      (s : System) (i : ℕ)
      → IsSerial s
      → IsSerial (record s {
        table = keep (is_kept i) s.table;
        lock = release i s.lock;
        point = at i outside s.point;
      })
  unfolding pg_verify
  rollback-IsSerial s i c = elim (Holder-cases i s.lock) [
    | inl hold ↦
        let mine : AllOwned (some i) s.table = subst (λ l. AllOwned l s.table) hold c.owned in
        IsSerial-as (keep is_committed s.table) _ none _ (at i outside s.point)
          (keep-kept i s.table mine) (release-held i s.lock hold)
          (settled-IsSerial (keep is_committed s.table) (at i outside s.point)
            (committed-All s.table) c.filed
            (Inside-at s.lock none s.table (keep is_committed s.table) i outside s.point
              (alone hold) c.inside tt))
    | inr other ↦
        IsSerial-as s.table _ s.lock _ (at i outside s.point)
          (keep_other i s.lock s.table other c.owned) (release-other i s.lock other)
          (record {
            owned = c.owned;
            inside = Inside-left s.lock s.table i s.point c.inside;
            verified = c.verified;
            filed = c.filed;
            shape = c.shape;
          })
  ]

  Inside-held :
      (s : System) (i : ℕ) (a : Append) → IsSerial s → s.point i ≡ locked a → s.lock ≡ some i
  Inside-held s i a c e = subst (Inside s.lock s.table i) e (c.inside i)

  pub Inside-read :
      (s : System) (i : ℕ) (a : Append) (previous : String)
      → IsSerial s
      → s.point i ≡ looked a previous
      → (s.lock ≡ some i) × (previous ≡ last_hash genesis_hash (links_of s.table))
  Inside-read s i a previous c e = subst (Inside s.lock s.table i) e (c.inside i)

  pub Step-IsSerial : {s t : System} → Step h s t → IsSerial s → IsSerial t
  Step-IsSerial {s} (take_lock i a out l) c = take_lock-IsSerial s i a l c
  Step-IsSerial {s} (look i a e) c = look-IsSerial s i a (Inside-held s i a c e) c
  Step-IsSerial {s} (insert_row i a previous e) c =
      let (hold, read) = Inside-read s i a previous c e in
      insert_row-IsSerial i a previous s hold read c
  Step-IsSerial {s} (commit i out) c = commit-IsSerial s i out c
  Step-IsSerial {s} (rollback i) c = rollback-IsSerial s i c

  pub Reach-IsSerial : {s : System} → Reach h s → IsSerial s
  unfolding pg_verify verify_from
  Reach-IsSerial start = record {
    owned = tt;
    inside = λ i. tt;
    verified = refl;
    filed = refl;
    shape = refl;
  }
  Reach-IsSerial (later r st) = Step-IsSerial st (Reach-IsSerial r)
