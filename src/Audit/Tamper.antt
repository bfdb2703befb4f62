-- ===== src/Audit/Tamper.antt =====
-- What the hash chain shows about an edit, and what it does not.
use mathlib.Core.Path.{ap₂, subst}
use Prim.Native.String.{char_at, count, ◌++◌ as cat, ◌∷◌ as char_cons, [] as empty}
use Prim.Native.Char.{Char, code}
use mathlib.Core.List.{map-append}
use text.Mathlib.TextLemmas.{
  append_inj, append_cancel_left, append_cancel_right, cons-append, nil-append, tail-eq_of_cons-eq,
  head-eq_of_cons-eq,
}
use livekit_agent.Base.{
  String, ◌≡◌, refl, sym, ap, ◌∙◌, ◌≢◌, ◌⊎◌, true, false, List, [], ◌∷◌, ◌++◌, length, arith,
  length-map, str_eq, Bool-cases, eq_iff, inl, inr, All, map,
}
use livekit_agent.Base.Json.{Payload}
use livekit_agent.Audit.Ledger.{
  Hasher, genesis_hash, Link, AuditLedgerEntry, Table, compute_entry_hash, verify_from, last_hash,
  pg_verify, pg_count, row_links, digest_input,
}
use livekit_agent.Audit.Chain.{verify_from-step, verify_from-split}

module _ (h : Hasher) where
  -- Two texts with one digest.
  abbrev pub Collision : Type 0
  Collision = (x : String) × (y : String) × (x ≢ y) × (h.sha256 x ≡ h.sha256 y)

  -- The same chained content: link by link the same hashes, and the same text behind the
  -- previous hash, canonical payload and timestamp.
  abbrev hashed_text : Link → String
  hashed_text l = digest_input h l.previous_hash l.payload l.timestamp

  abbrev pub SameLinks : List Link → List Link → Type 0
  SameLinks [] [] = Unit
  SameLinks [] (_ ∷ _) = ⊥
  SameLinks (_ ∷ _) [] = ⊥
  SameLinks (l ∷ ls) (k ∷ ks) =
      (hashed_text l ≡ hashed_text k) × (l.entry_hash ≡ k.entry_hash) × SameLinks ls ks

  digests_decide : (x y : String) → h.sha256 x ≡ h.sha256 y → (x ≡ y) ⊎ Collision
  digests_decide x y e = elim (Bool-cases (str_eq x y)) [
    | inl same ↦ inl ((eq_iff x y).0 same)
    | inr differ ↦ inr (x, y, (λ p. cc (differ, (eq_iff x y).1 p)), e)
  ]

  step_back :
      (start start' : String) (l k : Link) (ls ks : List Link)
      → count start ≡ 64
      → count start' ≡ 64
      → l.previous_hash ≡ start
      → k.previous_hash ≡ start'
      → h.sha256 (hashed_text l) ≡ l.entry_hash
      → h.sha256 (hashed_text k) ≡ k.entry_hash
      → ((l.entry_hash ≡ k.entry_hash) × SameLinks ls ks) ⊎ Collision
      → ((start ≡ start') × SameLinks (l ∷ ls) (k ∷ ks)) ⊎ Collision
  step_back start start' l k ls ks c c' p p' q q' (inr found) = inr found
  step_back start start' l k ls ks c c' p p' q q' (inl (e, same)) =
      elim (digests_decide (hashed_text l) (hashed_text k) (q ∙ e ∙ sym q')) [
        | inr found ↦ inr found
        | inl text ↦ inl (
          sym p ∙ (append_inj text (ap count p ∙ c ∙ sym c' ∙ ap count (sym p'))).0 ∙ p',
          (text, e, same),
        )
      ]

  pub verify_from_tamper :
      (start start' : String) (ls ks : List Link)
      → count start ≡ 64
      → count start' ≡ 64
      → length ls ≡ length ks
      → verify_from h start ls ≡ true
      → verify_from h start' ks ≡ true
      → last_hash start ls ≡ last_hash start' ks
      → ((start ≡ start') × SameLinks ls ks) ⊎ Collision
  unfolding compute_entry_hash
  verify_from_tamper start start' [] [] c c' len v w last = inl (last, tt)
  verify_from_tamper start start' [] (k ∷ ks) c c' len v w last = absurd (omega arith)
  verify_from_tamper start start' (l ∷ ls) [] c c' len v w last = absurd (omega arith)
  verify_from_tamper start start' (l ∷ ls) (k ∷ ks) c c' len v w last =
      let (p, q, r) = verify_from-step h start l ls v in
      let (p', q', r') = verify_from-step h start' k ks w in
      step_back start start' l k ls ks c c' p p' q q' (
        verify_from_tamper l.entry_hash k.entry_hash ls ks (ap count (sym q) ∙ h.digest_length _)
          (ap count (sym q') ∙ h.digest_length _) (omega arith) r r' last)

-- A text without the separator `|`.
abbrev pub IsBarFree : String → Type 0
IsBarFree empty = Unit
IsBarFree (char_cons c s) = (code c ≢ 124) × IsBarFree s

abbrev bar : Char
bar = char_at "|" 0

bar_first : (t : String) → cat "|" t ≡ char_cons bar t
bar_first t = cons-append bar empty t ∙ ap (char_cons bar) (nil-append t)

IsBarFree-bar : (a t : String) → IsBarFree (cat a (cat "|" t)) → ⊥
IsBarFree-bar empty t f =
    let g : IsBarFree (char_cons bar t) =
      subst IsBarFree (nil-append (cat "|" t) ∙ bar_first t) f in
    g.0 refl
IsBarFree-bar (char_cons c a) t f =
    let g : IsBarFree (char_cons c (cat a (cat "|" t))) = subst IsBarFree (cons-append c a _) f in
    IsBarFree-bar a t g.1

first_bar :
    (c : Char) (a t t' : String)
    → IsBarFree t
    → cat empty (cat "|" t) ≡ cat (char_cons c a) (cat "|" t')
    → ⊥
first_bar c a t t' f e =
    let e' : char_cons bar t ≡ char_cons c (cat a (cat "|" t')) =
      sym (bar_first t) ∙ sym (nil-append (cat "|" t)) ∙ e ∙ cons-append c a _ in
    IsBarFree-bar a t' (subst IsBarFree (tail-eq_of_cons-eq e') f)

-- The last separator splits a text in one way.
split_unique :
    (a a' t t' : String)
    → IsBarFree t
    → IsBarFree t'
    → cat a (cat "|" t) ≡ cat a' (cat "|" t')
    → (a ≡ a') × (t ≡ t')
split_unique empty empty t t' f f' e =
    (refl, append_cancel_left "|" t t' (append_cancel_left empty _ _ e))
split_unique empty (char_cons c a') t t' f f' e = absurd (first_bar c a' t t' f e)
split_unique (char_cons c a) empty t t' f f' e = absurd (first_bar c a t' t f' (sym e))
split_unique (char_cons c a) (char_cons c' a') t t' f f' e =
    let e' : char_cons c (cat a (cat "|" t)) ≡ char_cons c' (cat a' (cat "|" t')) =
      sym (cons-append c a _) ∙ e ∙ cons-append c' a' _ in
    let (p, q) = split_unique a a' t t' f f' (tail-eq_of_cons-eq e') in
    (ap₂ char_cons (head-eq_of_cons-eq e') p, q)

module _ (h : Hasher) where
  -- The same canonical payload at the same time.
  abbrev pub SameContent : List Link → List Link → Type 0
  SameContent [] [] = Unit
  SameContent [] (_ ∷ _) = ⊥
  SameContent (_ ∷ _) [] = ⊥
  SameContent (l ∷ ls) (k ∷ ks) =
      (h.dumps l.payload ≡ h.dumps k.payload) × (l.timestamp ≡ k.timestamp) × SameContent ls ks

  abbrev pub TimesBarFree : List Link → Type 0
  TimesBarFree = All (λ (l : Link). IsBarFree l.timestamp)

  same_content :
      (start start' : String) (ls ks : List Link)
      → count start ≡ 64
      → count start' ≡ 64
      → verify_from h start ls ≡ true
      → verify_from h start' ks ≡ true
      → SameLinks h ls ks
      → TimesBarFree ls
      → TimesBarFree ks
      → SameContent ls ks
  unfolding compute_entry_hash
  same_content start start' [] [] c c' v w s f f' = tt
  same_content start start' [] (k ∷ ks) c c' v w s f f' = s
  same_content start start' (l ∷ ls) [] c c' v w s f f' = s
  same_content start start' (l ∷ ls) (k ∷ ks) c c' v w s f f' =
      let (p, q, r) = verify_from-step h start l ls v in
      let (p', q', r') = verify_from-step h start' k ks w in
      let body = (append_inj s.0 (ap count p ∙ c ∙ sym c' ∙ ap count (sym p'))).1 in
      let (same, at) =
        split_unique (h.dumps l.payload) (h.dumps k.payload) l.timestamp k.timestamp f.0 f'.0
          (append_cancel_left "|" _ _ body) in
      (
        same,
        at,
        same_content l.entry_hash k.entry_hash ls ks (ap count (sym q) ∙ h.digest_length _)
            (ap count (sym q') ∙ h.digest_length _) r r' s.2 f.1 f'.1,
      )

  -- Two tables of one size that verify and end in one hash hold, row by row, the same canonical
  -- payloads at the same times, or two texts with one digest are known. The timestamps are free
  -- of the separator, as ISO dates are.
  pub pg_verify_tamper :
      (rows rows' : Table)
      → pg_count rows ≡ pg_count rows'
      → pg_verify h rows ≡ true
      → pg_verify h rows' ≡ true
      → last_hash genesis_hash (row_links rows) ≡ last_hash genesis_hash (row_links rows')
      → TimesBarFree (row_links rows)
      → TimesBarFree (row_links rows')
      → SameContent (row_links rows) (row_links rows') ⊎ Collision h
  unfolding pg_verify pg_count
  pg_verify_tamper rows rows' n v w last f f' =
      elim (verify_from_tamper h genesis_hash genesis_hash (row_links rows) (row_links rows') refl
        refl
        (omega (
          arith,
          length-map (λ (e : AuditLedgerEntry). e.link) rows,
          length-map (λ (e : AuditLedgerEntry). e.link) rows',
        ))
        v w last) [
          | inr found ↦ inr found
          | inl (_, same) ↦ inl (
              same_content genesis_hash genesis_hash (row_links rows) (row_links rows') refl refl v
                w same f f')
        ]

  edit_texts :
      (l : Link) (payload : Payload)
      → compute_entry_hash h l.previous_hash l.payload l.timestamp ≡ l.entry_hash
      → compute_entry_hash h l.previous_hash payload l.timestamp ≡ l.entry_hash
      → (h.dumps l.payload ≡ h.dumps payload) ⊎ Collision h
  unfolding compute_entry_hash
  edit_texts l payload p q = elim (digests_decide h _ _ (p ∙ sym q)) [
    | inr found ↦ inr found
    | inl text ↦ inl (
        append_cancel_right _ _ (cat "|" l.timestamp)
          (append_cancel_left "|" _ _ (append_cancel_left l.previous_hash _ _ text)))
  ]

  -- Changing one payload in a table that verifies, so that its canonical text changes, breaks
  -- verification, or two texts with one digest are known.
  pub pg_verify_edit :
      (before after : Table) (row : AuditLedgerEntry) (payload : Payload)
      → pg_verify h (before ++ row ∷ after) ≡ true
      → h.dumps payload ≢ h.dumps row.payload
      → (pg_verify h
            (before ++ (record row { link = record (row.link) { payload = payload } }) ∷ after)
          ≡ false)
        ⊎ Collision h
  unfolding pg_verify
  pg_verify_edit before after row payload v differ =
      elim (Bool-cases (pg_verify h (before ++ edited ∷ after))) [
        | inr fails ↦ inl fails
        | inl passes ↦ elim (edit_texts row.link payload (hash_of row v) (hash_of edited passes)) [
          | inl same ↦ absurd (differ (sym same))
          | inr found ↦ inr found
        ]
      ]
    where
      edited : AuditLedgerEntry
      edited = record row { link = record (row.link) { payload = payload } }

      hash_of :
          (r : AuditLedgerEntry)
          → pg_verify h (before ++ r ∷ after) ≡ true
          → compute_entry_hash h r.previous_hash r.payload r.timestamp ≡ r.entry_hash
      hash_of r w =
          (verify_from-step h _ r.link (row_links after)
            (verify_from-split h genesis_hash (row_links before) (row_links (r ∷ after)) (
              subst (λ ls. verify_from h genesis_hash ls ≡ true) (map-append _ before (r ∷ after))
                w)).1).1

  -- Session, event type, reference and row id are not hashed: a table in which only they are
  -- changed verifies as before.
  pub pg_verify_relabel :
      (relabel : AuditLedgerEntry → AuditLedgerEntry) (rows : Table)
      → ((row : AuditLedgerEntry) → (relabel row).link ≡ row.link)
      → pg_verify h (map relabel rows) ≡ pg_verify h rows
  unfolding pg_verify
  pg_verify_relabel relabel rows kept = ap (verify_from h genesis_hash) (links rows)
    where
      links : (rows : Table) → row_links (map relabel rows) ≡ row_links rows
      links [] = refl
      links (row ∷ rows) = ap₂ ◌∷◌ (kept row) (links rows)

  -- Dropping the newest rows leaves a table that verifies.
  pub pg_verify_truncate :
      (rows dropped : Table) → pg_verify h (rows ++ dropped) ≡ true → pg_verify h rows ≡ true
  unfolding pg_verify
  pg_verify_truncate rows dropped v =
      (verify_from-split h genesis_hash (row_links rows) (row_links dropped)
        (subst (λ ls. verify_from h genesis_hash ls ≡ true) (map-append _ rows dropped) v)).0
