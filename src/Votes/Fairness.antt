-- ===== src/Votes/Fairness.antt =====
-- Nobody holds a vote on a response of their own.
use reasonbridge.Prelude.{
  ℕ, ◌≡◌, ◌≢◌, refl, sym, Option, none, some, List, [], ◌∷◌, arith, ◌==◌, All, Bool-cases,
  Option-cases, inl, inr,
}
use mathlib.Core.Path.{subst}
use reasonbridge.Database.{All-modify_first_any, All-remove_first}
use reasonbridge.Votes.{
  VoteType, Vote, Response, State, VoteTable, ResponseTable, is_vote_of, same_type, cast,
  vote_on_response, remove_vote, new_vote,
}

-- A request to the service.
pub data Operation : Type 0 where
  vote : (response_id user_id : ℕ) → VoteType → Operation
  remove : (response_id user_id : ℕ) → Operation

module _ {SR : Type 0} ⦃tr : ResponseTable SR⦄ where
  abbrev pub IsFairVote : SR → Vote → Type 0
  IsFairVote rs v =
      (r : Response) → tr.find_unique rs v.response_id ≡ some r → r.author_id ≢ v.user_id

module _ {SV SR : Type 0} ⦃tv : VoteTable SV⦄ ⦃tr : ResponseTable SR⦄ where
  -- Every vote is of somebody else than the author of its response.
  pub record IsFair (s : State SV SR) : Type 0 where
    pub votes : All (IsFairVote s.responses) (tv.rows s.votes)

  unfoldable pub perform : Operation → State SV SR → State SV SR
  perform (vote response_id user_id t) s = (vote_on_response response_id user_id t s).1
  perform (remove response_id user_id) s = (remove_vote response_id user_id s).1

  unfoldable pub perform_all : List Operation → State SV SR → State SV SR
  perform_all [] s = s
  perform_all (o ∷ os) s = perform_all os (perform o s)

  delete-IsFair :
      (s : State SV SR) (id : ℕ) → IsFair s → IsFair (record s { votes = tv.delete s.votes id })
  delete-IsFair s id h = record { votes = rw tv.rows-delete (All-remove_first _ _ _ h.votes) }

  cast-IsFair :
      (s : State SV SR) (response_id user_id : ℕ) (t : VoteType) (o : Option Vote) (r : Response)
      → tr.find_unique s.responses response_id ≡ some r
      → r.author_id ≢ user_id
      → tv.find_unique_by s.votes (is_vote_of user_id response_id) ≡ o
      → IsFair s
      → IsFair (cast user_id response_id t o s).1
  cast-IsFair s response_id user_id t none r e other found h =
      elim (Option-cases (tv.create s.votes (new_vote user_id response_id t))) [
        | inl c ↦ rw c h
        | inr ((v, votes), c) ↦
            let (i, made, _, _, held) = tv.create-some s.votes _ c in
            rw c (record {
              votes = rw held (
                subst (IsFairVote s.responses) {x = new_vote user_id response_id t i} (sym made)
                    (λ q f.
                      subst (λ x. x.author_id ≢ user_id) (let same : r ≡ q = ground arith in same)
                        other),
                h.votes,
              );
            })
      ]
  cast-IsFair s response_id user_id t (some v) r e other found h =
      elim (Bool-cases (same_type v.vote_type t)) [
        | inl same ↦ rw same (delete-IsFair s v.id h)
        | inr differ ↦
            rw differ (record {
              votes = rw tv.rows-update (All-modify_first_any _ _ _ _ (λ x k. k) h.votes);
            })
      ]

  vote_on_response-IsFair :
      (response_id user_id : ℕ) (t : VoteType) (s : State SV SR)
      → IsFair s
      → IsFair (vote_on_response response_id user_id t s).1
  unfolding vote_on_response
  vote_on_response-IsFair response_id user_id t s h =
      elim (Option-cases (tr.find_unique s.responses response_id)) [
        | inl e ↦ rw e h
        | inr (r, e) ↦ rw e (elim (Bool-cases (r.author_id == user_id)) [
          | inl own ↦ rw own h
          | inr other ↦ rw other (cast-IsFair s response_id user_id t _ r e (ground arith) refl h)
        ])
      ]

  remove_vote-IsFair :
      (response_id user_id : ℕ) (s : State SV SR)
      → IsFair s
      → IsFair (remove_vote response_id user_id s).1
  unfolding remove_vote
  remove_vote-IsFair response_id user_id s h =
      elim (Option-cases (tv.find_unique_by s.votes (is_vote_of user_id response_id))) [
        | inl e ↦ rw e h
        | inr (v, e) ↦ rw e (delete-IsFair s v.id h)
      ]

  perform-IsFair : (o : Operation) (s : State SV SR) → IsFair s → IsFair (perform o s)
  unfolding perform
  perform-IsFair (vote response_id user_id t) s h =
      vote_on_response-IsFair response_id user_id t s h
  perform-IsFair (remove response_id user_id) s h = remove_vote-IsFair response_id user_id s h

  -- From a state in which every vote is of somebody else than the author of its response, any votes
  -- and removals, returning or throwing, lead to such a state.
  pub perform_all-IsFair :
      (os : List Operation) (s : State SV SR) → IsFair s → IsFair (perform_all os s)
  unfolding perform_all
  perform_all-IsFair [] s h = h
  perform_all-IsFair (o ∷ os) s h = perform_all-IsFair os (perform o s) (perform-IsFair o s h)
