-- ===== src/Votes/Toggle.antt =====
-- Voting, and voting again.
use reasonbridge.Prelude.{
  ℕ, ◌≡◌, ◌≢◌, refl, ap, true, false, none, some, ◌∷◌, arith, ◌==◌, Option-cases, inl, inr,
}
use reasonbridge.Exec.{ok}
use reasonbridge.Votes.{
  VoteType, Vote, Response, State, VoteTable, ResponseTable, is_vote_of, same_type, cast,
  vote_on_response, new_vote,
}

same_type_refl : (t : VoteType) → same_type t t ≡ true
same_type_refl VoteType.upvote = refl
same_type_refl _ = refl

module _ {SV SR : Type 0} ⦃tv : VoteTable SV⦄ ⦃tr : ResponseTable SR⦄ (s : State SV SR) where
  -- Where the user may vote, the outcome is that of the vote that the user already has.
  pub vote-cast :
      (response_id user_id : ℕ) (t : VoteType) (r : Response)
      → tr.find_unique s.responses response_id ≡ some r
      → r.author_id ≢ user_id
      → vote_on_response response_id user_id t s
        ≡ cast user_id response_id t (tv.find_unique_by s.votes (is_vote_of user_id response_id)) s
  unfolding vote_on_response
  vote-cast response_id user_id t r e other =
      let test : (r.author_id == user_id) ≡ false = ground arith in rw (e, test)

  pub inserted_first :
      (response_id user_id : ℕ) (t : VoteType) (v : Vote)
      → (cast user_id response_id t none s).0 ≡ ok (some v)
      → (votes : SV) × (cast user_id response_id t none s
          ≡ (ok (some v), record s { votes = votes }))
        × (is_vote_of user_id response_id v ≡ true)
        × (v.vote_type ≡ t)
        × (tv.rows votes ≡ v ∷ tv.rows s.votes)
  inserted_first response_id user_id t v =
      elim (Option-cases (tv.create s.votes (new_vote user_id response_id t))) [
        | inl e ↦ rw e (λ h. cc)
        | inr ((x, votes), e) ↦
            let (i, made, _, _, held) = tv.create-some s.votes _ e in
            rw e (λ h.
              let same : x ≡ v = ground arith in
              (
                votes,
                ap (λ (y : Vote). (ok (some y), record s { votes = votes })) same,
                ground arith,
                ground arith,
                rw (← same) held,
              ))
      ]

module _ {SV SR : Type 0} ⦃tv : VoteTable SV⦄ ⦃tr : ResponseTable SR⦄ (s : State SV SR) where
  -- A new vote and the same vote again: where a user without a vote on a response of another author
  -- votes and the vote is stored, voting the same once more returns null, and the table of votes
  -- then holds what it held before.
  pub vote_toggle :
      (response_id user_id : ℕ) (t : VoteType) (r : Response) (v : Vote)
      → tr.find_unique s.responses response_id ≡ some r
      → r.author_id ≢ user_id
      → tv.find_unique_by s.votes (is_vote_of user_id response_id) ≡ none
      → (vote_on_response response_id user_id t s).0 ≡ ok (some v)
      → (votes : SV) × (vote_on_response response_id user_id t
            (vote_on_response response_id user_id t s).1
          ≡ (ok none, record s { votes = votes }))
        × (tv.rows votes ≡ tv.rows s.votes)
  vote_toggle response_id user_id t r v e other fresh done =
      let first = rw fresh at (vote-cast s response_id user_id t r e other) in
      let (votes, at_first, mine, typed, held) =
        inserted_first s response_id user_id t v (rw first at done) in
      let s1 = record s { votes = votes } in
      let found : tv.find_unique_by votes (is_vote_of user_id response_id) ≡ some v =
        rw (tv.find_unique_by-eq, held, mine) in
      let same : same_type v.vote_type t ≡ true = rw typed (same_type_refl t) in
      let second = rw (found, same) at (vote-cast s1 response_id user_id t r e other) in
      (tv.delete votes v.id, rw (first, at_first) second, rw (tv.rows-delete, held) (ground arith))
