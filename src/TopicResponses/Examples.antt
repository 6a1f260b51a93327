-- ===== src/TopicResponses/Examples.antt =====
-- A topic in memory, and the theorem at a concrete input.
use reasonbridge.Prelude.{
  ◌≡◌, ℕ, Bool, ltb, length, ◌==◌, Bool-cases, inl, inr, refl, true, false, some, none, List, [],
  ◌∷◌, map, trim, is_space, text,
}
use reasonbridge.Exec.{err, forbidden, foreign_key_violation}
use reasonbridge.Database.Memory.{memory}
use reasonbridge.Topics.{TopicStatus}
use reasonbridge.TopicResponses.{
  Topic, Response, ResponseProposition, State, TopicTable, ResponseTable, LinkTable, CreateResponse,
  UpdateResponse, topic_key, response_key, link_key, same_link, create_response, update_response,
}
use reasonbridge.TopicResponses.Counts.{
  Operation, AreCounted, perform, perform_all, perform_all-AreCounted, lost_in,
}

instance abbrev topic_memory : TopicTable (List Topic)
topic_memory = memory topic_key (λ _ _. false)

instance abbrev response_memory : ResponseTable (List Response)
response_memory = memory response_key (λ _ _. false)

instance abbrev link_memory : LinkTable (List ResponseProposition)
link_memory = memory link_key same_link

abbrev Memory : Type 0
Memory = State (List Topic) (List Response) (List ResponseProposition)

abbrev topic : Topic
topic = record { id = 4; status = TopicStatus.active; response_count = 0 }

abbrev before : Memory
before = record { topics = topic ∷ []; responses = []; links = [] }

abbrev posting : CreateResponse
posting = record {
  content = text "  A considered answer ";
  parent_id = none;
  cited_sources = [];
  contains_opinion = some true;
  contains_factual_claims = none;
  proposition_ids = 8 ∷ 8 ∷ 9 ∷ [];
}

abbrev revision : UpdateResponse
revision = record {
  content = none;
  cited_sources = some (text "https://example.org" ∷ []);
  contains_opinion = none;
  contains_factual_claims = some true;
  proposition_ids = some (9 ∷ []);
}

opened : Unit {0}
unfolding create_response update_response perform perform_all trim is_space
opened = tt

-- The proposition 10 is not stored.
abbrev is_stored : ℕ → Bool
is_stored i = ltb i 10

abbrev strange : CreateResponse
strange = record posting { proposition_ids = 8 ∷ 10 ∷ [] }

abbrev posted : Memory
posted = (create_response is_stored 4 7 posting before).1

topic_response_tests :
    (map (λ r. r.content) posted.responses ≡ text "A considered answer" ∷ [])
    × (map (λ l. l.proposition_id) posted.links ≡ 9 ∷ 8 ∷ [])
    × (map (λ l. l.proposition_id) (update_response is_stored 0 7 revision posted).1.links ≡ 9 ∷ [])
    × ((update_response is_stored 0 8 revision posted).0 ≡ err forbidden)
    × (posted.topics ≡ record topic { response_count = 1 } ∷ [])
    × ((create_response is_stored 4 7 strange posted).0 ≡ err foreign_key_violation)
    × (length (create_response is_stored 4 7 strange posted).1.responses ≡ 2)
    × ((create_response is_stored 4 7 strange posted).1.topics ≡ posted.topics)
unfolding opened
topic_response_tests = (refl, refl, refl, refl, refl, refl, refl, refl)

abbrev requests : List Operation
requests =
    Operation.create 4 7 posting ∷ Operation.create 4 7 strange ∷ Operation.update 0 7 revision ∷ []

before-AreCounted : AreCounted is_stored (λ i. 0) before
before-AreCounted i = elim (Bool-cases (4 == i)) [ inl t ↦ rw t refl | inr t ↦ rw t tt ]

perform_all-AreCounted_example :
    AreCounted is_stored (lost_in is_stored requests before) (perform_all is_stored requests before)
perform_all-AreCounted_example = perform_all-AreCounted is_stored requests before before-AreCounted
