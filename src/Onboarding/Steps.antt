-- ===== src/Onboarding/Steps.antt =====
-- The progress of the users under any requests: what each step of it means, and what no request takes back.
use reasonbridge.Prelude.{
  ℕ, ◌≡◌, refl, sym, ◌∙◌, Bool, true, false, not, ◌||◌, Option, none, some, List, ◌∷◌, All, find,
  arith, ◌==◌, is_some, inl, inr, ◌⊎◌,
}
use reasonbridge.Database.{
  modify_first, IsDistinct, modify_first-IsDistinct, find-find_key, All-find, All-modify_first,
}
use reasonbridge.Database.Evolution.{
  find_key, Evolves, Evolves-refl, Evolves-cons, Evolves-modify_first,
}
use reasonbridge.Onboarding.{
  OnboardingStep, OnboardingProgress, progress_key, new_progress, email_verified, topics_selected,
  orientation_viewed, first_post_made,
}

abbrev pub is_reached : OnboardingStep → OnboardingProgress → Bool
is_reached OnboardingStep.verification p =
    not (p.email_verified || p.topics_selected || p.first_post_made)
is_reached OnboardingStep.topics p = p.email_verified
is_reached OnboardingStep.orientation p = p.topics_selected
is_reached OnboardingStep.complete p = p.first_post_made

-- The step is one that the flags allow, and a row has a time of completion where the first post is made.
abbrev pub IsReached : OnboardingProgress → Type 0
IsReached p = (is_reached p.current_step p ≡ true) × (p.first_post_made ≡ is_some p.completed_at)

abbrev pub IsSound : List OnboardingProgress → Type 0
IsSound xs = IsDistinct progress_key xs × All IsReached xs

-- No flag is withdrawn, and a time of completion is never replaced.
abbrev pub Keeps : OnboardingProgress → OnboardingProgress → Type 0
Keeps p q =
    (q.user_id ≡ p.user_id)
    × ((not p.email_verified || q.email_verified) ≡ true)
    × ((not p.topics_selected || q.topics_selected) ≡ true)
    × ((not p.orientation_viewed || q.orientation_viewed) ≡ true)
    × ((not p.first_post_made || q.first_post_made) ≡ true)
    × ((p.completed_at ≡ none) ⊎ (q.completed_at ≡ p.completed_at))

kept : (b : Bool) → (not b || b) ≡ true
kept true = refl
kept false = refl

raised : (b : Bool) → (not b || true) ≡ true
raised true = refl
raised false = refl

kept_trans : (a b c : Bool) → (not a || b) ≡ true → (not b || c) ≡ true → (not a || c) ≡ true
kept_trans a b c f g = ground (arith, f, g)

completed_trans :
    (a b c : Option ℕ) → (a ≡ none) ⊎ (b ≡ a) → (b ≡ none) ⊎ (c ≡ b) → (a ≡ none) ⊎ (c ≡ a)
completed_trans a b c (inl e) g = inl e
completed_trans a b c (inr e) (inl g) = inl (sym e ∙ g)
completed_trans a b c (inr e) (inr g) = inr (g ∙ e)

pub Keeps-refl : (p : OnboardingProgress) → Keeps p p
Keeps-refl p = (
  refl,
  kept p.email_verified,
  kept p.topics_selected,
  kept p.orientation_viewed,
  kept p.first_post_made,
  inr refl,
)

pub Keeps-trans : (p q r : OnboardingProgress) → Keeps p q → Keeps q r → Keeps p r
Keeps-trans p q r (a, b, c, d, e, f) (a', b', c', d', e', f') = (
  a' ∙ a,
  kept_trans p.email_verified q.email_verified r.email_verified b b',
  kept_trans p.topics_selected q.topics_selected r.topics_selected c c',
  kept_trans p.orientation_viewed q.orientation_viewed r.orientation_viewed d d',
  kept_trans p.first_post_made q.first_post_made r.first_post_made e e',
  completed_trans p.completed_at q.completed_at r.completed_at f f',
)

pub email_verified-Keeps : (p : OnboardingProgress) → Keeps p (email_verified p)
email_verified-Keeps p = (
  refl,
  raised p.email_verified,
  kept p.topics_selected,
  kept p.orientation_viewed,
  kept p.first_post_made,
  inr refl,
)

pub topics_selected-Keeps : (p : OnboardingProgress) → Keeps p (topics_selected p)
topics_selected-Keeps p = (
  refl,
  kept p.email_verified,
  raised p.topics_selected,
  kept p.orientation_viewed,
  kept p.first_post_made,
  inr refl,
)

pub orientation_viewed-Keeps : (p : OnboardingProgress) → Keeps p (orientation_viewed p)
orientation_viewed-Keeps p = (
  refl,
  kept p.email_verified,
  kept p.topics_selected,
  raised p.orientation_viewed,
  kept p.first_post_made,
  inr refl,
)

not_completed : (b : Bool) (c : Option ℕ) → b ≡ is_some c → b ≡ false → c ≡ none
not_completed b none h e = refl
not_completed b (some c) h e = ground arith

pub first_post_made-Keeps :
    (now : ℕ) (p : OnboardingProgress)
    → p.first_post_made ≡ false
    → IsReached p
    → Keeps p (first_post_made now p)
first_post_made-Keeps now p e (_, h) = (
  refl,
  kept p.email_verified,
  kept p.topics_selected,
  kept p.orientation_viewed,
  raised p.first_post_made,
  inl (not_completed p.first_post_made p.completed_at h e),
)

pub is_reached-orientation_viewed :
    (step : OnboardingStep) (p : OnboardingProgress)
    → is_reached step (orientation_viewed p) ≡ is_reached step p
is_reached-orientation_viewed OnboardingStep.verification p = refl
is_reached-orientation_viewed OnboardingStep.topics p = refl
is_reached-orientation_viewed OnboardingStep.orientation p = refl
is_reached-orientation_viewed OnboardingStep.complete p = refl

-- One request, on the rows.
abbrev pub Advances : List OnboardingProgress → List OnboardingProgress → Type 0
Advances xs ys = IsSound xs → IsSound ys × Evolves progress_key Keeps xs ys

pub Advances-refl : (xs : List OnboardingProgress) → Advances xs xs
Advances-refl xs h = (h, Evolves-refl progress_key Keeps Keeps-refl xs)

pub created-Advances :
    (u k : ℕ) (xs : List OnboardingProgress)
    → find_key progress_key k xs ≡ none
    → Advances xs (new_progress u k ∷ xs)
created-Advances u k xs fresh (d, h) = (
  ((fresh, d), ((refl, refl), h)),
  Evolves-cons progress_key Keeps Keeps-refl (new_progress u k) xs fresh,
)

pub changed-Advances :
    (f : OnboardingProgress → OnboardingProgress) (q : OnboardingProgress → Bool)
    (p : OnboardingProgress) (xs : List OnboardingProgress)
    → ((x : OnboardingProgress) → (f x).id ≡ x.id)
    → find q xs ≡ some p
    → (IsReached p → IsReached (f p) × Keeps p (f p))
    → Advances xs (modify_first (λ x. x.id == p.id) f xs)
changed-Advances f q p xs same found step (d, h) =
    let at_key = find-find_key progress_key q xs p d found in
    let (sound, keeps) = step (All-find IsReached q xs h found) in
    (
      (
        modify_first-IsDistinct progress_key f same p.id xs d,
        All-modify_first IsReached (λ x. x.id == p.id) f xs h at_key sound,
      ),
      Evolves-modify_first progress_key Keeps Keeps-refl p.id f xs same at_key keeps,
    )
