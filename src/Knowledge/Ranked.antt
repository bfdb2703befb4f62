-- ===== src/Knowledge/Ranked.antt =====
-- The passages of a search: the best of those that share a term.
use mathlib.Core.List.{Perm}
use mathlib.Core.List.Perm
use livekit_agent.Base.{
  ℕ, zero, suc, ◌≤◌, String, ◌≡◌, ◌⊎◌, refl, sym, ap, subst, ◌∙◌, Bool, true, false, not, List, [],
  ◌∷◌, ◌++◌, map, length, member, any, keep, All, All-map, arith, Bool-cases, inl, inr, leb, ◌==◌,
  if◌then◌else◌,
}
use livekit_agent.Base.Int.{pos}
use livekit_agent.Knowledge.{
  Document, Passage, tokenize, count_in, doc_terms, passage_of, scored, place, sort, take_passages,
  slice_to, search,
}

-- Whether a document has a term of the query.
abbrev pub shares : (String → String) → List String → Document → Bool
shares lower query_terms doc = any (λ t. member t query_terms) (doc_terms lower doc)

-- What is on the left scores at least what is on the right.
abbrev pub Above : List Passage → List Passage → Type 0
Above found rest = All (λ (p : Passage). All (λ (q : Passage). q.score ≤ p.score) rest) found

abbrev pub IsRanked : List Passage → Type 0
IsRanked [] = Unit
IsRanked (p ∷ ps) = All (λ (q : Passage). q.score ≤ p.score) ps × IsRanked ps

-- The best of a list of passages, up to a number of them.
pub record IsBest (n : ℕ) (all found : List Passage) : Type 0 where
  pub rest : List Passage
  pub whole : Perm (found ++ rest) all
  pub ranked : IsRanked found
  pub above : Above found rest
  pub bounded : length found ≤ n
  pub filled : (length found ≡ n) ⊎ (rest ≡ [])

count-shares :
    (query_terms ts : List String)
    → (count_in query_terms ts == 0) ≡ not (any (λ t. member t query_terms) ts)
count-shares query_terms [] = refl
count-shares query_terms (t ∷ ts) = elim (Bool-cases (member t query_terms)) [
  | inl e ↦ rw e (ground arith)
  | inr e ↦ rw e (count-shares query_terms ts)
]

scored-keep :
    (lower : String → String) (query_terms : List String) (docs : List Document)
    → scored lower query_terms docs
      ≡ map (passage_of lower query_terms) (keep (shares lower query_terms) docs)
scored-keep lower query_terms [] = refl
scored-keep lower query_terms (doc ∷ docs) =
    let make = passage_of lower query_terms in
    let ps = scored lower query_terms docs in
    let kept = keep (shares lower query_terms) docs in
    elim (Bool-cases (shares lower query_terms doc)) [
      | inl share ↦
          ap (λ b. if b then ps else make doc ∷ ps)
            (count-shares query_terms (doc_terms lower doc) ∙ ap not share)
          ∙ ap (λ (qs : List Passage). make doc ∷ qs) (scored-keep lower query_terms docs)
          ∙ ap (λ b. map make (elim b [ true ↦ doc ∷ kept | false ↦ kept ])) (sym share)
      | inr none_of ↦
          ap (λ b. if b then ps else make doc ∷ ps)
            (count-shares query_terms (doc_terms lower doc) ∙ ap not none_of)
          ∙ scored-keep lower query_terms docs
          ∙ ap (λ b. map make (elim b [ true ↦ doc ∷ kept | false ↦ kept ])) (sym none_of)
    ]

place-perm : (p : Passage) (ps : List Passage) → Perm (place p ps) (p ∷ ps)
place-perm p [] = Perm.rfl
place-perm p (q ∷ qs) = elim (Bool-cases (leb q.score p.score)) [
  | inl e ↦ rw e Perm.rfl
  | inr e ↦ rw e (Perm.trans (Perm.cons q (place-perm p qs)) (Perm.swap p q qs))
]

sort-perm : (ps : List Passage) → Perm (sort ps) ps
sort-perm [] = Perm.nil
sort-perm (p ∷ ps) = Perm.trans (place-perm p (sort ps)) (Perm.cons p (sort-perm ps))

place-All :
    (P : Passage → Type 0) (p : Passage) (ps : List Passage) → P p → All P ps → All P (place p ps)
place-All P p [] h hs = (h, tt)
place-All P p (q ∷ qs) h hs = elim (Bool-cases (leb q.score p.score)) [
  | inl e ↦ rw e (h, hs)
  | inr e ↦ rw e (hs.0, place-All P p qs h hs.1)
]

place-IsRanked : (p : Passage) (ps : List Passage) → IsRanked ps → IsRanked (place p ps)
place-IsRanked p [] r = (tt, tt)
place-IsRanked p (q ∷ qs) r = elim (Bool-cases (leb q.score p.score)) [
  | inl e ↦
      let le : q.score ≤ p.score = ground (arith, e) in
      rw e ((le, All-map _ _ (λ o h. omega (arith, le, h)) qs r.0), r)
  | inr e ↦
      let le : p.score ≤ q.score = ground (arith, e) in
      rw e (place-All (λ o. o.score ≤ q.score) p qs le r.0, place-IsRanked p qs r.1)
]

sort-IsRanked : (ps : List Passage) → IsRanked (sort ps)
sort-IsRanked [] = tt
sort-IsRanked (p ∷ ps) = place-IsRanked p (sort ps) (sort-IsRanked ps)

-- The passages that a slice leaves out.
abbrev drop : ℕ → List Passage → List Passage
drop zero ps = ps
drop (suc n) [] = []
drop (suc n) (p ∷ ps) = drop n ps

take_passages-drop : (n : ℕ) (ps : List Passage) → take_passages n ps ++ drop n ps ≡ ps
take_passages-drop zero ps = refl
take_passages-drop (suc n) [] = refl
take_passages-drop (suc n) (p ∷ ps) = ap (λ (qs : List Passage). p ∷ qs) (take_passages-drop n ps)

length-take_passages : (n : ℕ) (ps : List Passage) → length (take_passages n ps) ≤ n
length-take_passages zero ps = omega arith
length-take_passages (suc n) [] = omega arith
length-take_passages (suc n) (p ∷ ps) = omega (arith, length-take_passages n ps)

take_passages-filled :
    (n : ℕ) (ps : List Passage) → (length (take_passages n ps) ≡ n) ⊎ (drop n ps ≡ [])
take_passages-filled zero ps = inl refl
take_passages-filled (suc n) [] = inr refl
take_passages-filled (suc n) (p ∷ ps) = elim (take_passages-filled n ps) [
  | inl e ↦ inl (ap suc e)
  | inr e ↦ inr e
]

take_passages-All :
    (P : Passage → Type 0) (n : ℕ) (ps : List Passage)
    → All P ps
    → All P (take_passages n ps) × All P (drop n ps)
take_passages-All P zero ps h = (tt, h)
take_passages-All P (suc n) [] h = (tt, tt)
take_passages-All P (suc n) (p ∷ ps) h =
    let (left, right) = take_passages-All P n ps h.1 in ((h.0, left), right)

take_passages-IsRanked :
    (n : ℕ) (ps : List Passage)
    → IsRanked ps
    → IsRanked (take_passages n ps) × Above (take_passages n ps) (drop n ps)
take_passages-IsRanked zero ps r = (tt, tt)
take_passages-IsRanked (suc n) [] r = (tt, tt)
take_passages-IsRanked (suc n) (p ∷ ps) r =
    let (left, right) = take_passages-All (λ q. q.score ≤ p.score) n ps r.0 in
    let (ranked, above) = take_passages-IsRanked n ps r.1 in ((left, ranked), (right, above))

take_passages-sort-IsBest : (n : ℕ) (ps : List Passage) → IsBest n ps (take_passages n (sort ps))
take_passages-sort-IsBest n ps =
    let (ranked, above) = take_passages-IsRanked n (sort ps) (sort-IsRanked ps) in
    record {
      rest = drop n (sort ps);
      whole = subst (λ qs. Perm qs ps) (sym (take_passages-drop n (sort ps))) (sort-perm ps);
      ranked = ranked;
      above = above;
      bounded = length-take_passages n (sort ps);
      filled = take_passages-filled n (sort ps);
    }

count-nil : (ts : List String) → count_in [] ts ≡ 0
count-nil [] = refl
count-nil (t ∷ ts) = count-nil ts

scored-nil : (lower : String → String) (docs : List Document) → scored lower [] docs ≡ []
scored-nil lower [] = refl
scored-nil lower (doc ∷ docs) = rw (count-nil (doc_terms lower doc)) (scored-nil lower docs)

take_passages-nil : (n : ℕ) → take_passages n [] ≡ []
take_passages-nil zero = refl
take_passages-nil (suc n) = refl

-- The return before the loop is what the loop gives on a query without terms.
search-scored :
    (lower : String → String) (docs : List Document) (query : String) (n : ℕ)
    → search lower docs query (pos n)
      ≡ take_passages n (sort (scored lower (tokenize lower query) docs))
unfolding search
search-scored lower docs query n = go (tokenize lower query)
  where
    go :
        (terms : List String)
        → (elim terms [ [] ↦ [] | t ∷ ts ↦ slice_to (pos n) (sort (scored lower (t ∷ ts) docs)) ])
          ≡ take_passages n (sort (scored lower terms docs))
    go [] =
        sym (take_passages-nil n)
        ∙ ap (λ ps. take_passages n (sort ps)) (sym (scored-nil lower docs))
    go (t ∷ ts) = refl

-- A search for any query over any documents, with a limit that is not negative: the passages found
-- are, with some others, exactly the passages of the documents that share a term with the query,
-- each once; they come with the highest score first, none of the others scores higher than one of
-- them, they are at most as many as the limit, and where they are fewer no others are left out.
pub search-IsBest :
    (lower : String → String) (docs : List Document) (query : String) (n : ℕ)
    → let terms = tokenize lower query in
      IsBest n
        (map (passage_of lower terms) (keep (shares lower terms) docs))
        (search lower docs query (pos n))
search-IsBest lower docs query n =
    let terms = tokenize lower query in
    subst (IsBest n _) (sym (search-scored lower docs query n)) (
      subst (λ ps. IsBest n ps (take_passages n (sort (scored lower terms docs))))
        (scored-keep lower terms docs) (take_passages-sort-IsBest n (scored lower terms docs)))
