-- ===== src/Tests/Knowledge.antt =====
-- Searches over two documents.
use livekit_agent.Base.{◌≡◌, refl, true, String, none, some, List, [], ◌∷◌, map, keep}
use livekit_agent.Base.Int.{pos, negsuc}
use livekit_agent.Auth.{require_internal_key}
use livekit_agent.Knowledge.{
  Document, tokenize, score_of, passage_of, search, knowledge_search, serve_search,
}
use livekit_agent.Knowledge.Ranked.{IsBest, shares, search-IsBest}

abbrev as_is : String → String
as_is text = text

abbrev plan : Document
plan = record { doc_id = "p"; title = "plan"; text = "20 gb plan"; source = "offers" }

abbrev roaming : Document
roaming = record { doc_id = "r"; title = "roaming"; text = "daily"; source = "procedures" }

abbrev two : List Document
two = roaming ∷ plan ∷ []

terms_cut : tokenize as_is "20 gb, plan!" ≡ "20" ∷ "gb" ∷ "plan" ∷ []
unfolding tokenize
terms_cut = refl

-- 2 / 4 ** 0.5, 1 / 2 ** 0.5 and 1 / 1024 ** 0.5, which is half way between two numbers
scores : (score_of 2 4 ≡ 10000) × (score_of 1 2 ≡ 7071) × (score_of 1 1024 ≡ 312)
scores = (refl, refl, refl)

best_first :
    search as_is two "plan daily" (pos 1)
    ≡ record { text = "20 gb plan"; source = "offers"; score = 10000 } ∷ []
unfolding search tokenize
best_first = refl

-- A negative limit counts from the end.
all_but_one : search as_is two "plan daily" (negsuc 0) ≡ search as_is two "plan daily" (pos 1)
unfolding search tokenize
all_but_one = refl

refused_without_key : knowledge_search (some "k") true as_is two "plan" (pos 4) ≡ none
unfolding knowledge_search serve_search require_internal_key
refused_without_key = refl

search-IsBest_example :
    IsBest 1
      (map
        (passage_of as_is (tokenize as_is "plan daily"))
        (keep (shares as_is (tokenize as_is "plan daily")) two))
      (search as_is two "plan daily" (pos 1))
search-IsBest_example = search-IsBest as_is two "plan daily" 1
