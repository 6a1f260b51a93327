-- ===== src/Responses/Metrics/Contributions.antt =====
-- What a contribution changes in the activities of the participants.
use reasonbridge.Prelude.{
  ℕ, ◌+◌, ◌≡◌, ◌≢◌, refl, sym, Bool, true, false, ◌&&◌, Option, none, some, List, [], ◌∷◌, arith,
  count, find, ◌==◌, Bool-cases, inl, inr, if◌then◌else◌,
}
use reasonbridge.Database.{
  modify_first, find-true, IsDistinct, modify_first-IsDistinct, find-find_key,
}
use reasonbridge.Responses.{Response, ParticipantActivity, is_activity_of, activity_key}
use reasonbridge.Responses.Service.{contributed, is_in_discussion}
use reasonbridge.Responses.Metrics.Posting.{is_active_in, IsContribution}

abbrev pub is_in : ℕ → Response → Bool
is_in i r = is_in_discussion i r.discussion_id

abbrev pub is_by : ℕ → ℕ → Response → Bool
is_by i u r = is_in i r && r.author_id == u

-- The responses that the activity of a user counts.
abbrev pub tally : Option ParticipantActivity → ℕ
tally none = 0
tally (some a) = a.response_count

abbrev pub IsTracked : List Response → List ParticipantActivity → Type 0
IsTracked rs acts = (i u : ℕ) → tally (find (is_activity_of i u) acts) ≡ count (is_by i u) rs

module _ (p q : ParticipantActivity → Bool) (f : ParticipantActivity → ParticipantActivity) where
  find-modify_first :
      (xs : List ParticipantActivity) (a : ParticipantActivity)
      → find p xs ≡ some a
      → find q xs ≡ some a
      → p (f a) ≡ true
      → find p (modify_first q f xs) ≡ some (f a)
  find-modify_first [] a h k g = absurd (ground arith)
  find-modify_first (x ∷ xs) a h k g = elim (Bool-cases (q x)) [
    | inl t ↦ let same : x ≡ a = ground arith in rw t (rw same (rw g refl))
    | inr t ↦ elim (Bool-cases (p x)) [
      | inl u ↦
          let same : x ≡ a = ground arith in
          let clash : q x ≡ true = rw same (find-true q (x ∷ xs) a k) in absurd (ground arith)
      | inr u ↦ rw (t, u) (find-modify_first xs a (rw u at h) (rw t at k) g)
    ]
  ]

  find-modify_first_other :
      (xs : List ParticipantActivity) (a : ParticipantActivity)
      → find q xs ≡ some a
      → p a ≡ false
      → p (f a) ≡ false
      → find p (modify_first q f xs) ≡ find p xs
  find-modify_first_other [] a k h g = refl
  find-modify_first_other (x ∷ xs) a k h g = elim (Bool-cases (q x)) [
    | inl t ↦ let same : x ≡ a = ground arith in rw t (rw same (rw (g, h) refl))
    | inr t ↦ ground (arith, find-modify_first_other xs a (rw t at k) h g)
  ]

module _ (now i u : ℕ) where
  -- A contribution adds one to the tally of its user in its discussion, and to no other.
  pub contribution-tally :
      (o : Option ParticipantActivity) (before after : List ParticipantActivity) (j v : ℕ)
      → find (is_activity_of i u) before ≡ o
      → IsDistinct activity_key before
      → IsContribution now i u o before after
      → tally (find (is_activity_of j v) after)
        ≡ tally (find (is_activity_of j v) before) + (if i == j && u == v then 1 else 0)
  contribution-tally none before after j v found distinct (id, h, fresh) =
      elim (Bool-cases (i == j && u == v)) [
        | inl t ↦
            let same : (i ≡ j) × (u ≡ v) = ground arith in
            let missing : find (is_activity_of j v) before ≡ none =
              rw (sym same.0, sym same.1) found in
            rw (h, t, missing) refl
        | inr t ↦ rw (h, t) (omega arith)
      ]
  contribution-tally (some a) before after j v found distinct h =
      let by_key = find-find_key activity_key (is_activity_of i u) before a distinct found in
      let this : is_activity_of i u a ≡ true = find-true (is_activity_of i u) before a found in
      elim (Bool-cases (i == j && u == v)) [
        | inl t ↦
            let same : (i ≡ j) × (u ≡ v) = ground arith in
            let held : find (is_activity_of j v) before ≡ some a =
              rw (sym same.0, sym same.1) found in
            let kept : is_activity_of j v (contributed now a) ≡ true = ground arith in
            let changed =
              find-modify_first (is_activity_of j v) (λ x. activity_key x == a.id) (contributed now)
                before a held by_key kept in
            rw (h, t, held, changed) refl
        | inr t ↦
            let other : is_activity_of j v a ≡ false = ground arith in
            let changed =
              find-modify_first_other (is_activity_of j v) (λ x. activity_key x == a.id)
                (contributed now) before a by_key other other in
            rw (h, t, changed) (omega arith)
      ]

  pub contribution-IsDistinct :
      (o : Option ParticipantActivity) (before after : List ParticipantActivity)
      → IsDistinct activity_key before
      → IsContribution now i u o before after
      → IsDistinct activity_key after
  contribution-IsDistinct none before after distinct (id, h, fresh) = rw h (fresh, distinct)
  contribution-IsDistinct (some a) before after distinct h =
      rw h (modify_first-IsDistinct activity_key (contributed now) (λ x. refl) a.id before distinct)

  count-contributed :
      (j k : ℕ) (xs : List ParticipantActivity)
      → count (is_active_in j) (modify_first (λ x. activity_key x == k) (contributed now) xs)
        ≡ count (is_active_in j) xs
  count-contributed j k [] = refl
  count-contributed j k (x ∷ xs) = ground (arith, count-contributed j k xs)

  -- The participants of another discussion are as many as before.
  pub contribution-count :
      (o : Option ParticipantActivity) (before after : List ParticipantActivity) (j : ℕ)
      → IsContribution now i u o before after
      → i ≢ j
      → count (is_active_in j) after ≡ count (is_active_in j) before
  contribution-count none before after j (id, h, fresh) other =
      let differ : (i == j) ≡ false = ground arith in rw (h, differ) (omega arith)
  contribution-count (some a) before after j h other = rw h (count-contributed j a.id before)
