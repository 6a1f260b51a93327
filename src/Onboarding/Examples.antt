-- ===== src/Onboarding/Examples.antt =====
-- Progress and interests in memory, and the theorems at concrete inputs.
use reasonbridge.Prelude.{ℕ, Bool, ◌==◌, ◌≡◌, refl, true, false, some, List, [], ◌∷◌}
use reasonbridge.Exec.{err, unique_violation}
use reasonbridge.Database.Memory.{memory}
use reasonbridge.Database.Evolution.{Evolves}
use reasonbridge.Topics.{TopicStatus}
use reasonbridge.Discussions.{Topic, TopicTable, topic_key}
use reasonbridge.Onboarding.{
  OnboardingStep, OnboardingProgress, TopicInterest, TopicPriority, State, ProgressTable,
  InterestTable, progress_key, same_user, interest_key, same_interest, new_progress, select_topics,
  create_interests, create_progress, mark_email_verified, mark_orientation_viewed, mark_first_post,
  calculate_completion_percentage, get_completion_percentage, is_complete,
}
use reasonbridge.Onboarding.Selection.{IsSelection, select_topics-IsSelection}
use reasonbridge.Onboarding.Steps.{IsSound, Keeps}
use reasonbridge.Onboarding.Runs.{Operation, perform, perform_all, perform_all-Keeps}

instance abbrev progress_memory : ProgressTable (List OnboardingProgress)
progress_memory = memory progress_key same_user

instance abbrev interest_memory : InterestTable (List TopicInterest)
interest_memory = memory interest_key same_interest

instance abbrev topic_memory : TopicTable (List Topic)
topic_memory = memory topic_key (λ _ _. false)

unfolded : Unit {0}
unfolding perform_all perform create_progress mark_email_verified mark_orientation_viewed
    mark_first_post select_topics create_interests
unfolded = tt

abbrev Memory : Type 0
Memory = State (List OnboardingProgress) (List TopicInterest)

abbrev empty : Memory
empty = record { progress = []; interests = [] }

abbrev topics : List Topic
topics =
    record { id = 8; status = TopicStatus.active }
    ∷ record { id = 9; status = TopicStatus.active }
    ∷ []

abbrev two_topics : List TopicPriority
two_topics = record { topic_id = 8; priority = 1 } ∷ record { topic_id = 9; priority = 2 } ∷ []

abbrev one_twice : List TopicPriority
one_twice = record { topic_id = 9; priority = 1 } ∷ record { topic_id = 9; priority = 2 } ∷ []

-- User 5 alone is stored.
abbrev is_five : ℕ → Bool
is_five i = i == 5

abbrev requests : List Operation
requests =
    Operation.create 5
    ∷ Operation.verify_email 5
    ∷ Operation.select 100 5 two_topics
    ∷ Operation.post 200 5
    ∷ []

abbrev after : Memory
after = perform_all is_five topics requests empty

-- Selecting topics again takes a complete user back to the orientation. A topic named twice is an error
-- that leaves one interest of the two from before.
selection_tests :
    ((select_topics is_five topics 300 5 two_topics after).1.progress
      ≡ record {
        id = 0;
        user_id = 5;
        email_verified = true;
        topics_selected = true;
        orientation_viewed = false;
        first_post_made = true;
        current_step = OnboardingStep.orientation;
        completed_at = some 200;
      }
        ∷ [])
    × ((select_topics is_five topics 300 5 one_twice after).0 ≡ err unique_violation)
    × ((select_topics is_five topics 300 5 one_twice after).1.interests
        ≡ record { id = 0; user_id = 5; topic_id = 9; priority = 1; selected_at = 300 } ∷ [])
unfolding unfolded
selection_tests = (refl, refl, refl)

abbrev finished : OnboardingProgress
finished = record (new_progress 5 0) {
  first_post_made = true;
  current_step = OnboardingStep.complete;
}

-- The two percentages of a new user, and of one who only has made the first post.
percentage_tests :
    (calculate_completion_percentage (new_progress 5 0).current_step ≡ 25)
    × (get_completion_percentage (new_progress 5 0) ≡ 0)
    × (calculate_completion_percentage finished.current_step ≡ 100)
    × (get_completion_percentage finished ≡ 25)
    × (is_complete finished ≡ false)
percentage_tests = (refl, refl, refl, refl, refl)

select_topics-IsSelection_example :
    IsSelection 5 is_five topics 300 one_twice after
      (select_topics is_five topics 300 5 one_twice after)
select_topics-IsSelection_example = select_topics-IsSelection 5 is_five topics 300 one_twice after

perform_all-Keeps_example : IsSound after.progress × Evolves progress_key Keeps [] after.progress
perform_all-Keeps_example = perform_all-Keeps is_five topics requests empty (tt, tt)
