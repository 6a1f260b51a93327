-- ===== src/Votes/Summary.antt =====
-- What a vote does to the summary of a response.
use reasonbridge.Prelude.{
  ℕ, ◌+◌, ◌≡◌, ◌≢◌, ◌&&◌, Option, none, some, arith, if◌then◌else◌, count, ◌==◌,
}
use reasonbridge.Exec.{ok}
use reasonbridge.Votes.{
  VoteType, Vote, Response, State, VoteTable, ResponseTable, is_vote_of, is_type, get_vote_summary,
  vote_on_response,
}
use reasonbridge.Votes.Toggle.{vote-cast, inserted_first}

module _ {SV SR : Type 0} ⦃tv : VoteTable SV⦄ ⦃tr : ResponseTable SR⦄ where
  abbrev counted : VoteType → ℕ → State SV SR → ℕ
  counted t response_id s =
      count (λ v. v.response_id == response_id && is_type t v) (tv.rows s.votes)

  upvotes-counted :
      (response_id : ℕ) (viewer : Option ℕ) (s : State SV SR)
      → (get_vote_summary response_id viewer s).upvotes ≡ counted VoteType.upvote response_id s
  unfolding get_vote_summary
  upvotes-counted response_id viewer s = tv.count-find_many s.votes _ _

  downvotes-counted :
      (response_id : ℕ) (viewer : Option ℕ) (s : State SV SR)
      → (get_vote_summary response_id viewer s).downvotes ≡ counted VoteType.downvote response_id s
  unfolding get_vote_summary
  downvotes-counted response_id viewer s = tv.count-find_many s.votes _ _

module _ {SV SR : Type 0} ⦃tv : VoteTable SV⦄ ⦃tr : ResponseTable SR⦄ (s : State SV SR) where
  -- Where a user without a vote on a response of another author upvotes it and the vote is stored,
  -- the summary of that response counts one upvote more and the same downvotes, and the summaries
  -- of all other responses keep both counts.
  pub upvote-summary :
      (response_id user_id : ℕ) (r : Response) (v : Vote)
      → tr.find_unique s.responses response_id ≡ some r
      → r.author_id ≢ user_id
      → tv.find_unique_by s.votes (is_vote_of user_id response_id) ≡ none
      → (vote_on_response response_id user_id VoteType.upvote s).0 ≡ ok (some v)
      → (j : ℕ) (viewer : Option ℕ)
      → ((get_vote_summary j viewer
            (vote_on_response response_id user_id VoteType.upvote s).1).upvotes
          ≡ (if j == response_id then 1 else 0) + (get_vote_summary j viewer s).upvotes)
        × ((get_vote_summary j viewer
              (vote_on_response response_id user_id VoteType.upvote s).1).downvotes
            ≡ (get_vote_summary j viewer s).downvotes)
  upvote-summary response_id user_id r v e other none_yet done j viewer =
      let first = rw none_yet at (vote-cast s response_id user_id VoteType.upvote r e other) in
      let (votes, at_first, mine, typed, held) =
        inserted_first s response_id user_id VoteType.upvote v (rw first at done) in
      let t = record s { votes = votes } in
      let on_it : v.response_id ≡ response_id = ground arith in
      rw
        (
          first,
          at_first,
          upvotes-counted j viewer t,
          downvotes-counted j viewer t,
          upvotes-counted j viewer s,
          downvotes-counted j viewer s,
          held,
          typed,
          on_it,
        )
        (ground arith, ground arith)
