-- ===== src/Votes/Examples.antt =====
-- Votes on tables in memory, and the theorems at concrete inputs.
use reasonbridge.Prelude.{◌≡◌, refl, false, some, List, [], ◌∷◌, arith}
use reasonbridge.Exec.{ok}
use reasonbridge.Database.Memory.{memory}
use reasonbridge.Votes.{
  VoteType, Vote, Response, State, VoteTable, ResponseTable, vote_key, response_key, same_vote,
  vote_on_response, remove_vote, get_vote_summary, new_vote,
}
use reasonbridge.Votes.Fairness.{Operation, IsFair, perform, perform_all, perform_all-IsFair}

instance abbrev vote_memory : VoteTable (List Vote)
vote_memory = memory vote_key same_vote

instance abbrev response_memory : ResponseTable (List Response)
response_memory = memory response_key (λ _ _. false)

abbrev Memory : Type 0
Memory = State (List Vote) (List Response)

abbrev written : Response
written = record { id = 4; author_id = 1 }

abbrev fresh : Memory
fresh = record { votes = new_vote 8 4 VoteType.downvote 0 ∷ []; responses = written ∷ [] }

opened : Unit {0}
unfolding vote_on_response remove_vote get_vote_summary perform perform_all
opened = tt

vote_tests :
    ((vote_on_response 4 7 VoteType.upvote fresh).0 ≡ ok (some (new_vote 7 4 VoteType.upvote 1)))
    × ((vote_on_response 4 7 VoteType.upvote (vote_on_response 4 7 VoteType.upvote fresh).1).1
        ≡ fresh)
    × ((remove_vote 4 8 fresh).1.votes ≡ [])
unfolding opened
vote_tests = (refl, refl, refl)

abbrev requests : List Operation
requests =
    Operation.vote 4 1 VoteType.upvote
    ∷ Operation.vote 4 7 VoteType.upvote
    ∷ Operation.remove 4 8
    ∷ []

fresh-IsFair : IsFair fresh
fresh-IsFair = record { votes = (λ r h. let same : written ≡ r = ground arith in ground arith, tt) }

perform_all-IsFair_example : IsFair (perform_all requests fresh)
perform_all-IsFair_example = perform_all-IsFair requests fresh fresh-IsFair
