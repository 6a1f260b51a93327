-- ===== src/Votes/Summaries.antt =====
-- The summaries for a list of responses are those of the single responses.
use reasonbridge.Prelude.{
  ℕ, ◌≡◌, refl, sym, ◌∙◌, true, ◌&&◌, Option, List, [], ◌∷◌, arith, count, filter, any, count_congr,
  All, ◌==◌, Bool-cases, inl, inr,
}
use reasonbridge.Database.Memory.{count-filter}
use reasonbridge.Votes.{
  VoteType, State, VoteTable, ResponseTable, VoteSummary, is_type, is_among, summary_of,
  summaries_of, get_vote_summary, get_vote_summaries,
}

-- Two summaries with the same counts and score.
pub record Agree (x y : VoteSummary) : Type 0 where
  pub upvotes : x.upvotes ≡ y.upvotes
  pub downvotes : x.downvotes ≡ y.downvotes
  pub score : x.score ≡ y.score

among-All :
    (ids rest : List ℕ)
    → ((i : ℕ) → any (λ j. i == j) rest ≡ true → any (λ j. i == j) ids ≡ true)
    → All (λ i. any (λ j. i == j) ids ≡ true) rest
among-All ids [] f = tt
among-All ids (i ∷ rest) f =
    (f i (ground arith), among-All ids rest (λ j k. f j (ground (arith, k))))

module _ {SV SR : Type 0} ⦃tv : VoteTable SV⦄ ⦃tr : ResponseTable SR⦄ (s : State SV SR) where
  counts_agree :
      (ids : List ℕ) (i : ℕ) (t : VoteType)
      → any (λ j. i == j) ids ≡ true
      → count (is_type t) (filter (λ v. v.response_id == i) (tv.find_many s.votes (is_among ids)))
        ≡ count (is_type t) (tv.find_many s.votes (λ v. v.response_id == i))
  counts_agree ids i t h =
      count-filter (λ v. v.response_id == i) (is_type t) (tv.find_many s.votes (is_among ids))
      ∙ tv.count-find_many s.votes (is_among ids) (λ v. v.response_id == i && is_type t v)
      ∙ count_congr _ _ (tv.rows s.votes) (λ v. elim (Bool-cases (v.response_id == i)) [
        | inl e ↦
            let same : v.response_id ≡ i = ground arith in
            let listed : is_among ids v ≡ true = rw same h in rw listed refl
        | inr e ↦
            rw e (elim (Bool-cases (is_among ids v)) [ inl a ↦ rw a refl | inr a ↦ rw a refl ])
      ])
      ∙ sym (tv.count-find_many s.votes (λ v. v.response_id == i) (is_type t))

  summaries-Agree :
      (ids rest : List ℕ) (viewer : Option ℕ)
      → All (λ i. any (λ j. i == j) ids ≡ true) rest
      → All
          (λ e. Agree e.1 (get_vote_summary e.0 viewer s))
          (summaries_of (tv.find_many s.votes (is_among ids)) viewer rest)
  unfolding summaries_of get_vote_summary summary_of
  summaries-Agree ids [] viewer h = tt
  summaries-Agree ids (i ∷ rest) viewer (h, hs) =
      let up = counts_agree ids i VoteType.upvote h in
      let down = counts_agree ids i VoteType.downvote h in
      (
        record { upvotes = up; downvotes = down; score = rw (up, down) refl },
        summaries-Agree ids rest viewer hs,
      )

  -- The summaries for a list of responses have, response by response, the counts and the score of
  -- the summary of that response alone.
  pub get_vote_summaries-Agree :
      (ids : List ℕ) (viewer : Option ℕ)
      → All (λ e. Agree e.1 (get_vote_summary e.0 viewer s)) (get_vote_summaries ids viewer s)
  unfolding get_vote_summaries
  get_vote_summaries-Agree ids viewer =
      summaries-Agree ids ids viewer (among-All ids ids (λ i h. h))
