-- ===== src/Audit/Lock/Grown.antt =====
-- What the interleaved transactions put on file, and in what order.
use mathlib.Core.List.{append-nil, map-append}
use livekit_agent.Base.{
  ℕ, String, ◌≡◌, refl, sym, ap, subst, ◌∙◌, true, some, [], ◌∷◌, ◌++◌, inl, inr, map, keep,
}
use livekit_agent.Audit.Ledger.{Hasher, Table, pg_append, pg_verify}
use livekit_agent.Audit.Lock.{
  Stored, Append, looked, System, is_committed, rows_of, on_file, commit_row, is_kept, new_row,
  Step, take_lock, look, insert_row, commit, rollback, Reach,
}
use livekit_agent.Audit.Lock.Rows.{
  AllOwned, is_pending, Holder-cases, keep-kept, keep_other, keep-committed_again, rows-commit,
  commit_other, committed-commit,
}
use livekit_agent.Audit.Lock.Verified.{
  IsSerial, inserted, committed-insert, Inside-read, Step-IsSerial, Reach-IsSerial,
}

-- A table has the rows of another, and more after them.
abbrev pub Extends : Table → Table → Type 0
Extends before after = (more : Table) × (after ≡ before ++ more)

Extends-same : (before after : Table) → after ≡ before → Extends before after
Extends-same before after e = ([], e ∙ sym (append-nil before))

module _ (h : Hasher) where
  commit-Extends :
      (s : System) (i : ℕ)
      → IsSerial h s
      → Extends (on_file s) (rows_of (keep is_committed (map (commit_row i) s.table)))
  commit-Extends s i c = elim (Holder-cases i s.lock) [
    | inl hold ↦
        let mine : AllOwned (some i) s.table = subst (λ l. AllOwned l s.table) hold c.owned in
        (
          rows_of (keep is_pending s.table),
          ap rows_of (committed-commit i s.table mine)
              ∙ rows-commit i s.table
              ∙ ap rows_of c.shape
              ∙ map-append (λ (r : Stored). r.row) (keep is_committed s.table)
                  (keep is_pending s.table),
        )
    | inr other ↦
        Extends-same (on_file s) (rows_of (keep is_committed (map (commit_row i) s.table)))
          (ap (λ t. rows_of (keep is_committed t)) (commit_other i s.lock s.table other c.owned))
  ]

  rollback-same :
      (s : System) (i : ℕ)
      → IsSerial h s
      → keep is_committed (keep (is_kept i) s.table) ≡ keep is_committed s.table
  rollback-same s i c = elim (Holder-cases i s.lock) [
    | inl hold ↦
        ap (keep is_committed) (keep-kept i s.table (subst (λ l. AllOwned l s.table) hold c.owned))
        ∙ keep-committed_again s.table
    | inr other ↦ ap (keep is_committed) (keep_other i s.lock s.table other c.owned)
  ]

  Step-Extends : {s t : System} → Step h s t → IsSerial h s → Extends (on_file s) (on_file t)
  Step-Extends {s} (take_lock i a out l) c = Extends-same (on_file s) (on_file s) refl
  Step-Extends {s} (look i a e) c = Extends-same (on_file s) (on_file s) refl
  Step-Extends {s} (insert_row i a previous e) c =
      Extends-same (on_file s)
        (rows_of (keep is_committed (s.table ++ inserted h i a previous ∷ [])))
        (ap rows_of (committed-insert h i a previous s.table))
  Step-Extends {s} (commit i out) c = commit-Extends s i c
  Step-Extends {s} (rollback i) c =
      Extends-same (on_file s) (rows_of (keep is_committed (keep (is_kept i) s.table)))
        (ap rows_of (rollback-same s i c))

  -- However any number of transactions interleave the statements of their appends, commit, and are
  -- rolled back: at each step from a state so reached, the committed rows verify after it, and
  -- the committed rows from before it stand first among them, unchanged.
  pub Step-IsLedger :
      {s t : System}
      → Reach h s
      → Step h s t
      → (pg_verify h (on_file t) ≡ true) × Extends (on_file s) (on_file t)
  Step-IsLedger r st =
      let c = Reach-IsSerial h r in ((Step-IsSerial h st c).filed, Step-Extends st c)

  -- The insert of a transaction, whatever the others did since it took the lock, adds the row that
  -- the append in one step adds to the rows of the table.
  pub insert_row-pg_append :
      {s : System} (i : ℕ) (a : Append) (previous : String)
      → Reach h s
      → s.point i ≡ looked a previous
      → rows_of (s.table ++ record { row = new_row h a previous; writer = some i } ∷ [])
        ≡ (pg_append h a.now a.id a.session_id a.event_type a.payload a.reference
            (rows_of s.table)).0
  unfolding pg_append
  insert_row-pg_append {s} i a previous r e =
      let (hold, read) = Inside-read h s i a previous (Reach-IsSerial h r) e in
      rw (map-append, read) refl
