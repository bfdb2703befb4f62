-- ===== src/Knowledge.antt =====
-- services/knowledge-service/src/knowledge_service: retriever.py, main.py and schemas.py, and the
-- knowledge tool of mcp-servers/ai-knowledge-rag. `str.lower`, the documents and the settings
-- are arguments. The retriever over a vector store is left out.
pub mod Ranked
use Prim.Native.Char.{code}
use Prim.Native.String.{String, [] as empty, ◌∷◌ as char_cons, ◌++◌ as cat}
use livekit_agent.Base.{
  ℕ, zero, suc, ◌+◌, ◌-◌, ◌*◌, ◌/◌, ◌%◌, Bool, true, false, ◌&&◌, ◌||◌, Option, none, some, List,
  [], ◌∷◌, map, length, member, str_eq, leb, ◌==◌, if◌then◌else◌,
}
use livekit_agent.Base.Int.{ℤ, pos, negsuc}
use livekit_agent.Auth.{require_internal_key}

pub record Document : Type 0 where
  pub doc_id : String
  pub title : String
  pub text : String
  pub source : String

-- A score is a float of four decimals: here the number of ten-thousandths.
pub record Passage : Type 0 where
  pub text : String
  pub source : String
  pub score : ℕ

-- The class `[a-z0-9]`, on code points
abbrev pub is_term_char : ℕ → Bool
is_term_char c = leb 97 c && leb c 122 || leb 48 c && leb c 57

abbrev pub add_term : String → List String → List String
add_term t ts = if str_eq t "" then ts else t ∷ ts

-- The run of term characters that a text begins with, and the runs after it.
abbrev pub runs : String → String × List String
runs empty = ("", [])
runs (char_cons c s) =
    let (t, ts) = runs s in
    if is_term_char (code c) then (char_cons c t, ts) else ("", add_term t ts)

-- `_tokenize`, with `str.lower` as an argument
unfoldable pub tokenize : (String → String) → String → List String
tokenize lower text = let (t, ts) = runs (lower text) in add_term t ts

-- The terms of a document that are among those of the query, each as often as it stands there.
abbrev pub count_in : List String → List String → ℕ
count_in query_terms [] = 0
count_in query_terms (t ∷ ts) =
    let rest = count_in query_terms ts in if member t query_terms then suc rest else rest

-- The integer part of a square root; the fuel is above the number, and a round divides it by four.
abbrev pub root : ℕ → ℕ → ℕ
root zero n = 0
root (suc f) n = elim (n == 0) [
  | true ↦ 0
  | false ↦ let r = 2 * root f (n / 4) in if leb ((r + 1) * (r + 1)) n then r + 1 else r
]

-- `round(overlap / (terms ** 0.5), 4)` in ten-thousandths, a half to the even one
abbrev pub score_of : ℕ → ℕ → ℕ
score_of overlap terms =
    let square = 400000000 * (overlap * overlap) in
    let halves = root (suc (square / terms)) (square / terms) in
    let up = (halves + 1) / 2 in
    if halves % 2 == 1 && (halves * halves * terms == square && up % 2 == 1) then up - 1 else up

-- The terms of a document, and the passage that the loop makes of it where it shares a term.
abbrev pub doc_terms : (String → String) → Document → List String
doc_terms lower doc = tokenize lower (cat doc.title (cat " " doc.text))

abbrev pub passage_of : (String → String) → List String → Document → Passage
passage_of lower query_terms doc = record {
  text = doc.text;
  source = doc.source;
  score = score_of (count_in query_terms (doc_terms lower doc)) (length (doc_terms lower doc));
}

-- The loop of `LexicalRetriever.search`
abbrev pub scored : (String → String) → List String → List Document → List Passage
scored lower query_terms [] = []
scored lower query_terms (doc ∷ docs) =
    let rest = scored lower query_terms docs in
    if count_in query_terms (doc_terms lower doc) == 0
    then rest
    else passage_of lower query_terms doc ∷ rest

-- `sort(key=score, reverse=True)`: the highest score first, equal ones in their order
abbrev pub place : Passage → List Passage → List Passage
place p [] = p ∷ []
place p (q ∷ qs) = let rest = place p qs in if leb q.score p.score then p ∷ q ∷ qs else q ∷ rest

abbrev pub sort : List Passage → List Passage
sort [] = []
sort (p ∷ ps) = place p (sort ps)

-- `scored[:top_k]`: a negative number counts from the end.
abbrev pub take_passages : ℕ → List Passage → List Passage
take_passages zero ps = []
take_passages (suc n) [] = []
take_passages (suc n) (p ∷ ps) = p ∷ take_passages n ps

abbrev pub slice_to : ℤ → List Passage → List Passage
slice_to (pos n) ps = take_passages n ps
slice_to (negsuc n) ps = take_passages (length ps - suc n) ps

-- `LexicalRetriever.search`
unfoldable pub search : (String → String) → List Document → String → ℤ → List Passage
search lower documents query top_k = elim (tokenize lower query) [
  | [] ↦ []
  | t ∷ ts ↦ slice_to top_k (sort (scored lower (t ∷ ts) documents))
]

pub record SearchRequest : Type 0 where
  pub query : String
  pub top_k : ℤ

-- `POST /search` behind the key, with its header: the passages, or `none` where the key is refused.
unfoldable pub serve_search :
    Option String
    → (String → String)
    → List Document
    → Option String
    → SearchRequest
    → Option (List Passage)
serve_search expected lower documents x_api_key req =
    if require_internal_key expected "/search" x_api_key
    then some (search lower documents req.query req.top_k)
    else none

-- `knowledge_search` of the tool server, which sends no header; `none` when it raises, where the
-- service is not reached or refuses.
unfoldable pub knowledge_search :
    Option String → Bool → (String → String) → List Document → String → ℤ → Option (List Passage)
knowledge_search expected is_reached lower documents query top_k =
    if is_reached
    then serve_search expected lower documents none (record { query = query; top_k = top_k })
    else none
