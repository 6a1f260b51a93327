-- ===== src/Onboarding/Records.antt =====
-- The rows of the onboarding, the conditions on a selection, what is written to a row of progress, and the
-- percentages of a stored row.
use reasonbridge.Prelude.{
  ℕ, ◌+◌, ◌*◌, ◌/◌, Bool, true, false, ◌&&◌, Option, none, some, List, [], ◌∷◌, leb, ◌==◌, is_some,
  if◌then◌else◌,
}
use reasonbridge.Database.{Table}
use reasonbridge.Discussions.{TopicTable}

pub data OnboardingStep : Type 0 where
  verification topics orientation complete : OnboardingStep

pub record OnboardingProgress : Type 0 where
  pub id : ℕ
  pub user_id : ℕ
  pub email_verified : Bool
  pub topics_selected : Bool
  pub orientation_viewed : Bool
  pub first_post_made : Bool
  pub current_step : OnboardingStep
  pub completed_at : Option ℕ

pub record TopicInterest : Type 0 where
  pub id : ℕ
  pub user_id : ℕ
  pub topic_id : ℕ
  pub priority : ℕ
  pub selected_at : ℕ

pub record TopicPriority : Type 0 where
  pub topic_id : ℕ
  pub priority : ℕ

abbrev pub progress_key : OnboardingProgress → ℕ
progress_key p = p.id

abbrev pub is_progress_of : ℕ → OnboardingProgress → Bool
is_progress_of user_id p = p.user_id == user_id

-- `userId @unique`
abbrev pub same_user : OnboardingProgress → OnboardingProgress → Bool
same_user p x = is_progress_of p.user_id x

abbrev pub interest_key : TopicInterest → ℕ
interest_key x = x.id

abbrev pub is_interest_of : ℕ → ℕ → TopicInterest → Bool
is_interest_of user_id topic_id x = x.user_id == user_id && x.topic_id == topic_id

-- `@@unique([userId, topicId])`
abbrev pub same_interest : TopicInterest → TopicInterest → Bool
same_interest x y = is_interest_of x.user_id x.topic_id y

abbrev pub ProgressTable : Type 0 → Type 0
ProgressTable S = Table S OnboardingProgress progress_key same_user

abbrev pub InterestTable : Type 0 → Type 0
InterestTable S = Table S TopicInterest interest_key same_interest

pub record State (SP SI : Type 0) : Type 0 where
  pub progress : SP
  pub interests : SI

abbrev pub new_progress : ℕ → ℕ → OnboardingProgress
new_progress user_id id = record {
  id = id;
  user_id = user_id;
  email_verified = false;
  topics_selected = false;
  orientation_viewed = false;
  first_post_made = false;
  current_step = OnboardingStep.verification;
  completed_at = none;
}

abbrev pub email_verified : OnboardingProgress → OnboardingProgress
email_verified p = record p { email_verified = true; current_step = OnboardingStep.topics }

abbrev pub topics_selected : OnboardingProgress → OnboardingProgress
topics_selected p = record p { topics_selected = true; current_step = OnboardingStep.orientation }

abbrev pub orientation_viewed : OnboardingProgress → OnboardingProgress
orientation_viewed p = record p { orientation_viewed = true }

abbrev pub first_post_made : ℕ → OnboardingProgress → OnboardingProgress
first_post_made now p = record p {
  first_post_made = true;
  current_step = OnboardingStep.complete;
  completed_at = some now;
}

abbrev pub new_interest : ℕ → ℕ → TopicPriority → ℕ → TopicInterest
new_interest now user_id x id = record {
  id = id;
  user_id = user_id;
  topic_id = x.topic_id;
  priority = x.priority;
  selected_at = now;
}

abbrev pub is_ranked : List TopicPriority → Bool
is_ranked [] = true
is_ranked (x ∷ xs) = leb 1 x.priority && leb x.priority 3 && is_ranked xs

module _ {ST : Type 0} ⦃tq : TopicTable ST⦄ (topics : ST) where
  abbrev pub all_exist : List TopicPriority → Bool
  all_exist [] = true
  all_exist (x ∷ xs) = is_some (tq.find_unique topics x.topic_id) && all_exist xs

-- `calculateCompletionPercentage` of the service, and `getCompletionPercentage` and `isComplete` of the
-- repository, of a stored row.
abbrev pub calculate_completion_percentage : OnboardingStep → ℕ
calculate_completion_percentage OnboardingStep.verification = 25
calculate_completion_percentage OnboardingStep.topics = 50
calculate_completion_percentage OnboardingStep.orientation = 75
calculate_completion_percentage OnboardingStep.complete = 100

abbrev pub one_if : Bool → ℕ
one_if b = if b then 1 else 0

abbrev pub get_completion_percentage : OnboardingProgress → ℕ
get_completion_percentage p =
    100
    * (one_if p.email_verified
        + one_if p.topics_selected
        + one_if p.orientation_viewed
        + one_if p.first_post_made)
    / 4

abbrev pub is_complete : OnboardingProgress → Bool
is_complete p = p.email_verified && p.topics_selected && p.orientation_viewed && p.first_post_made
