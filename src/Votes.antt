-- ===== src/Votes.antt =====
-- services/discussion-service/src/votes/votes.service.ts. A DTO is the row that it copies; the
-- creation and update times of a vote are left out, since nothing reads them.
pub mod Summary
pub mod Summaries
pub mod Toggle
pub mod Fairness
mod Examples
use reasonbridge.Prelude.{
  ℕ, Bool, true, false, not, ◌&&◌, Option, none, some, List, [], ◌∷◌, if◌then◌else◌, count, find,
  filter, any, ◌==◌,
}
use reasonbridge.Prelude.Int.{ℤ, pos, ◌-ℤ◌}
use reasonbridge.Exec.{
  Exec, ok, err, unique_violation, not_found, bad_request, Entity, Cause, pure, gets, guard,
  require, ◌>>=◌, ◌>>◌,
}
use reasonbridge.Database.{Table}

pub data VoteType : Type 0 where
  upvote downvote : VoteType

pub record Vote : Type 0 where
  pub id : ℕ
  pub user_id : ℕ
  pub response_id : ℕ
  pub vote_type : VoteType

pub record Response : Type 0 where
  pub id : ℕ
  pub author_id : ℕ

abbrev pub vote_key : Vote → ℕ
vote_key v = v.id

abbrev pub response_key : Response → ℕ
response_key r = r.id

abbrev pub same_type : VoteType → VoteType → Bool
same_type VoteType.upvote VoteType.upvote = true
same_type VoteType.downvote VoteType.downvote = true
same_type _ _ = false

-- `where: { userId_responseId: { … } }`
abbrev pub is_vote_of : ℕ → ℕ → Vote → Bool
is_vote_of user_id response_id v = v.user_id == user_id && v.response_id == response_id

-- `@@unique([userId, responseId])`
abbrev pub same_vote : Vote → Vote → Bool
same_vote v x = is_vote_of v.user_id v.response_id x

abbrev pub VoteTable : Type 0 → Type 0
VoteTable S = Table S Vote vote_key same_vote

abbrev pub ResponseTable : Type 0 → Type 0
ResponseTable S = Table S Response response_key (λ _ _. false)

pub record State (SV SR : Type 0) : Type 0 where
  pub votes : SV
  pub responses : SR

abbrev pub new_vote : ℕ → ℕ → VoteType → ℕ → Vote
new_vote user_id response_id vote_type id = record {
  id = id;
  user_id = user_id;
  response_id = response_id;
  vote_type = vote_type;
}

abbrev pub is_type : VoteType → Vote → Bool
is_type t v = same_type v.vote_type t

-- `VoteSummaryDto`
pub record VoteSummary : Type 0 where
  pub upvotes : ℕ
  pub downvotes : ℕ
  pub score : ℤ
  pub user_vote : Option VoteType

abbrev pub type_of : Option Vote → Option VoteType
type_of none = none
type_of (some v) = some v.vote_type

abbrev pub vote_by : List Vote → Option ℕ → Option Vote
vote_by votes none = none
vote_by votes (some user_id) = find (λ v. v.user_id == user_id) votes

-- The summary of the votes of one response.
unfoldable pub summary_of : List Vote → Option ℕ → VoteSummary
summary_of votes user_id =
    let upvotes = count (is_type VoteType.upvote) votes in
    let downvotes = count (is_type VoteType.downvote) votes in
    record {
      upvotes = upvotes;
      downvotes = downvotes;
      score = pos upvotes -ℤ pos downvotes;
      user_vote = type_of (vote_by votes user_id);
    }

abbrev pub set_type : VoteType → Vote → Vote
set_type t v = record v { vote_type = t }

-- The map of `getVoteSummaries` as the list of its entries, in the order they are set.
unfoldable pub summaries_of : List Vote → Option ℕ → List ℕ → List (ℕ × VoteSummary)
unfolding summary_of
summaries_of votes user_id [] = []
summaries_of votes user_id (i ∷ is) =
    (i, summary_of (filter (λ v. v.response_id == i) votes) user_id) ∷ summaries_of votes user_id is

-- `responseId: { in: responseIds }`
abbrev pub is_among : List ℕ → Vote → Bool
is_among response_ids v = any (λ i. v.response_id == i) response_ids

module _ {SV SR : Type 0} ⦃tv : VoteTable SV⦄ ⦃tr : ResponseTable SR⦄ where
  abbrev pub inserted_vote : Option (Vote × SV) → Exec (State SV SR) (Option Vote)
  inserted_vote none s = (err unique_violation, s)
  inserted_vote (some (v, t)) s = (ok (some v), record s { votes = t })

  abbrev pub delete_vote : ℕ → Exec (State SV SR) (Unit {0})
  delete_vote id s = (ok tt, record s { votes = tv.delete s.votes id })

  -- What `voteOnResponse` does with the vote that the user already has.
  abbrev pub cast : ℕ → ℕ → VoteType → Option Vote → Exec (State SV SR) (Option Vote)
  cast user_id response_id t none s =
      inserted_vote (tv.create s.votes (new_vote user_id response_id t)) s
  cast user_id response_id t (some v) s =
      if same_type v.vote_type t
      then (do delete_vote v.id; pure none) s
      else (ok (some (set_type t v)), record s { votes = tv.update s.votes v.id (set_type t) })

  unfoldable pub vote_on_response : ℕ → ℕ → VoteType → Exec (State SV SR) (Option Vote)
  vote_on_response response_id user_id t = do
    found ← gets (λ s. tr.find_unique s.responses response_id)
    response ← require found (not_found Entity.response)
    guard (not (response.author_id == user_id)) (bad_request Cause.own_response)
    existing ← gets (λ s. tv.find_unique_by s.votes (is_vote_of user_id response_id))
    cast user_id response_id t existing

  unfoldable pub remove_vote : ℕ → ℕ → Exec (State SV SR) (Unit {0})
  remove_vote response_id user_id = do
    found ← gets (λ s. tv.find_unique_by s.votes (is_vote_of user_id response_id))
    vote ← require found (not_found Entity.vote)
    delete_vote vote.id

  unfoldable pub get_vote_summary : ℕ → Option ℕ → State SV SR → VoteSummary
  unfolding summary_of
  get_vote_summary response_id user_id s =
      summary_of (tv.find_many s.votes (λ v. v.response_id == response_id)) user_id

  unfoldable pub get_vote_summaries : List ℕ → Option ℕ → State SV SR → List (ℕ × VoteSummary)
  unfolding summaries_of
  get_vote_summaries response_ids user_id s =
      summaries_of (tv.find_many s.votes (is_among response_ids)) user_id response_ids
