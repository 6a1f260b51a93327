-- ===== src/TopicResponses.antt =====
-- services/discussion-service/src/responses/responses.service.ts: `createResponse` and
-- `updateResponse`, for the responses of a topic. The titles and times of cited sources, the trigger
-- of the common ground analysis, which is not waited for, and the answers are left out.
pub mod Counts
mod Examples
use reasonbridge.Prelude.{
  ℕ, ◌+◌, Bool, true, false, not, ◌&&◌, ◌||◌, Option, none, some, List, [], ◌∷◌, length, ltb, ◌==◌,
  if◌then◌else◌, Text, trim,
}
use reasonbridge.Exec.{
  Exec, ok, err, Entity, Cause, not_found, bad_request, forbidden, foreign_key_violation,
  unique_violation, pure, gets, guard, require, ◌>>=◌, ◌>>◌,
}
use reasonbridge.Database.{Table}
use reasonbridge.Topics.{TopicStatus, same_status}

pub data ResponseStatus : Type 0 where
  visible hidden removed : ResponseStatus

pub record Topic : Type 0 where
  pub id : ℕ
  pub status : TopicStatus
  pub response_count : ℕ

-- An empty list of sources is stored as null.
pub record Response : Type 0 where
  pub id : ℕ
  pub topic_id : ℕ
  pub author_id : ℕ
  pub parent_id : Option ℕ
  pub content : Text
  pub cited_sources : Option (List Text)
  pub contains_opinion : Bool
  pub contains_factual_claims : Bool
  pub status : ResponseStatus
  pub revision_count : ℕ

-- A row of the table has a number of its own here; its key in the schema is the pair of ids.
pub record ResponseProposition : Type 0 where
  pub id : ℕ
  pub response_id : ℕ
  pub proposition_id : ℕ

abbrev pub topic_key : Topic → ℕ
topic_key t = t.id

abbrev pub response_key : Response → ℕ
response_key r = r.id

abbrev pub link_key : ResponseProposition → ℕ
link_key l = l.id

-- `@@id([responseId, propositionId])`
abbrev pub same_link : ResponseProposition → ResponseProposition → Bool
same_link a b = a.response_id == b.response_id && a.proposition_id == b.proposition_id

abbrev pub TopicTable : Type 0 → Type 0
TopicTable S = Table S Topic topic_key (λ _ _. false)

abbrev pub ResponseTable : Type 0 → Type 0
ResponseTable S = Table S Response response_key (λ _ _. false)

abbrev pub LinkTable : Type 0 → Type 0
LinkTable S = Table S ResponseProposition link_key same_link

pub record State (ST SR SL : Type 0) : Type 0 where
  pub topics : ST
  pub responses : SR
  pub links : SL

-- `CreateResponseDto`, as far as `createResponse` reads it.
pub record CreateResponse : Type 0 where
  pub content : Text
  pub parent_id : Option ℕ
  pub cited_sources : List Text
  pub contains_opinion : Option Bool
  pub contains_factual_claims : Option Bool
  pub proposition_ids : List ℕ

-- `UpdateResponseDto`; `none` is a field that is not given.
pub record UpdateResponse : Type 0 where
  pub content : Option Text
  pub cited_sources : Option (List Text)
  pub contains_opinion : Option Bool
  pub contains_factual_claims : Option Bool
  pub proposition_ids : Option (List ℕ)

abbrev pub or_else {ℓ} : {A : Type ℓ} → Option A → A → A
or_else none a = a
or_else (some b) a = b

abbrev pub sources_of : List Text → Option (List Text)
sources_of [] = none
sources_of (x ∷ xs) = some (x ∷ xs)

abbrev pub new_sources : Option (List Text) → Option (List Text) → Option (List Text)
new_sources none old = old
new_sources (some xs) old = sources_of xs

abbrev pub new_content : Option Text → Text → Text
new_content none old = old
new_content (some t) old = trim t

abbrev pub is_visible : ResponseStatus → Bool
is_visible ResponseStatus.visible = true
is_visible _ = false

abbrev pub is_too_short : Text → Bool
is_too_short t = length t == 0 || ltb (length (trim t)) 10

abbrev pub new_response : ℕ → ℕ → CreateResponse → ℕ → Response
new_response topic_id author_id dto id = record {
  id = id;
  topic_id = topic_id;
  author_id = author_id;
  parent_id = dto.parent_id;
  content = trim dto.content;
  cited_sources = sources_of dto.cited_sources;
  contains_opinion = or_else dto.contains_opinion false;
  contains_factual_claims = or_else dto.contains_factual_claims false;
  status = ResponseStatus.visible;
  revision_count = 0;
}

abbrev pub revised : UpdateResponse → Response → Response
revised dto r = record r {
  content = new_content dto.content r.content;
  contains_opinion = or_else dto.contains_opinion r.contains_opinion;
  contains_factual_claims = or_else dto.contains_factual_claims r.contains_factual_claims;
  cited_sources = new_sources dto.cited_sources r.cited_sources;
  revision_count = r.revision_count + 1;
}

abbrev pub new_link : ℕ → ℕ → ℕ → ResponseProposition
new_link response_id proposition_id id = record {
  id = id;
  response_id = response_id;
  proposition_id = proposition_id;
}

abbrev pub one_more : Topic → Topic
one_more t = record t { response_count = t.response_count + 1 }

-- `createMany` inserts all rows or, where a proposition is not stored, none. `is_proposition` says which
-- propositions are.
abbrev pub are_stored : (ℕ → Bool) → List ℕ → Bool
are_stored p [] = true
are_stored p (x ∷ xs) = p x && are_stored p xs

module _ {SL : Type 0} ⦃tl : LinkTable SL⦄ where
  abbrev pub linked : SL → Option (ResponseProposition × SL) → SL
  linked s none = s
  linked s (some (_, t)) = t

  -- `createMany` with `skipDuplicates`, where the propositions are stored.
  abbrev pub link_all : ℕ → List ℕ → SL → SL
  link_all response_id [] s = s
  link_all response_id (p ∷ ps) s =
      link_all response_id ps (linked s (tl.create s (new_link response_id p)))

module _ {ST SR SL : Type 0} ⦃tp : TopicTable ST⦄ ⦃tr : ResponseTable SR⦄ ⦃tl : LinkTable SL⦄ where
  abbrev pub check_content : Option Text → Exec (State ST SR SL) (Unit {0})
  check_content none = pure tt
  check_content (some t) = do
    guard (not (is_too_short t)) (bad_request Cause.content_too_short)
    guard (not (ltb 10000 (length t))) (bad_request Cause.content_too_long)

  abbrev pub check_parent : ℕ → Option ℕ → Exec (State ST SR SL) (Unit {0})
  check_parent topic_id none = pure tt
  check_parent topic_id (some p) = do
    found ← gets (λ s. tr.find_unique s.responses p)
    parent ← require found (not_found Entity.response)
    guard (parent.topic_id == topic_id) (bad_request Cause.parent_elsewhere)

  abbrev pub create_links :
      (is_proposition : ℕ → Bool) → ℕ → List ℕ → Exec (State ST SR SL) (Unit {0})
  create_links is_proposition response_id ps = do
    guard (are_stored is_proposition ps) foreign_key_violation
    (λ s. (ok tt, record s { links = link_all response_id ps s.links }))

  abbrev pub delete_links : ℕ → Exec (State ST SR SL) (Unit {0})
  delete_links response_id s =
      (ok tt, record s { links = tl.delete_many s.links (λ l. l.response_id == response_id) })

  abbrev pub relink :
      (is_proposition : ℕ → Bool) → ℕ → Option (List ℕ) → Exec (State ST SR SL) (Unit {0})
  relink is_proposition response_id none = pure tt
  relink is_proposition response_id (some ps) = do
    delete_links response_id
    create_links is_proposition response_id ps

  abbrev pub inserted : Option (Response × SR) → Exec (State ST SR SL) Response
  inserted none s = (err unique_violation, s)
  inserted (some (r, t)) s = (ok r, record s { responses = t })

  -- The writes, in no transaction: the response, its links and the count of the topic.
  abbrev pub stored :
      (is_proposition : ℕ → Bool)
      → ℕ
      → List ℕ
      → Option (Response × SR)
      → Exec (State ST SR SL) Response
  stored is_proposition topic_id propositions made = do
    r ← inserted made
    create_links is_proposition r.id propositions
    (λ s. (ok r, record s { topics = tp.update s.topics topic_id one_more }))

  unfoldable pub create_response :
      (is_proposition : ℕ → Bool) → ℕ → ℕ → CreateResponse → Exec (State ST SR SL) Response
  create_response is_proposition topic_id author_id dto = do
    check_content (some dto.content)
    found ← gets (λ s. tp.find_unique s.topics topic_id)
    topic ← require found (not_found Entity.topic)
    guard (not (same_status topic.status TopicStatus.archived)) (bad_request Cause.topic_archived)
    check_parent topic_id dto.parent_id
    (λ s.
        stored is_proposition topic_id dto.proposition_ids
          (tr.create s.responses (new_response topic_id author_id dto)) s)

  unfoldable pub update_response :
      (is_proposition : ℕ → Bool) → ℕ → ℕ → UpdateResponse → Exec (State ST SR SL) (Unit {0})
  update_response is_proposition response_id author_id dto = do
    found ← gets (λ s. tr.find_unique s.responses response_id)
    r ← require found (not_found Entity.response)
    guard (r.author_id == author_id) forbidden
    guard (is_visible r.status) (bad_request Cause.response_not_visible)
    of_topic ← gets (λ s. tp.find_unique s.topics r.topic_id)
    topic ← require of_topic (not_found Entity.topic)
    guard (not (same_status topic.status TopicStatus.archived)) (bad_request Cause.topic_archived)
    check_content dto.content
    (λ s. (ok tt, record s { responses = tr.update s.responses response_id (revised dto) }))
    relink is_proposition response_id dto.proposition_ids
