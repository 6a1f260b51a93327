-- ===== src/Topics/Status.antt =====
-- Who may change the status of a topic, and to what.
use reasonbridge.Prelude.{
  ℕ, ◌≡◌, refl, ap, ◌∙◌, Bool, true, false, ◌&&◌, ◌||◌, Option, none, some, arith, ◌==◌,
  if◌then◌else◌, Bool-cases, Option-cases, inl, inr, ◌⊎◌,
}
use reasonbridge.Exec.{Result, ok, err, Error, Cause, bad_request}
use reasonbridge.Database.{find_key-modify_first, mapped}
use reasonbridge.Database.Evolution.{find_key}
use reasonbridge.Topics.{
  Cache, invalidate_caches, TopicStatus, Topic, State, TopicTable, ResponseTable, MergeTable,
  topic_key, with_status, check_creator, check_transition, update_topic, update_topic_status,
}

-- The changes that the creator of a topic may make, by the status from and the status to.
abbrev pub creator_may : TopicStatus → TopicStatus → Bool
creator_may TopicStatus.seeding TopicStatus.locked = false
creator_may TopicStatus.seeding _ = true
creator_may TopicStatus.active TopicStatus.active = true
creator_may TopicStatus.active TopicStatus.archived = true
creator_may TopicStatus.active _ = false
creator_may TopicStatus.archived TopicStatus.active = true
creator_may TopicStatus.archived TopicStatus.archived = true
creator_may TopicStatus.archived _ = false
creator_may TopicStatus.locked _ = false

abbrev pub is_permitted : ℕ → Bool → TopicStatus → Topic → Bool
is_permitted user_id is_moderator status t =
    is_moderator || (t.creator_id == user_id && creator_may t.status status)

abbrev pub is_ok : Result (Unit {0}) → Bool
is_ok (ok tt) = true
is_ok (err e) = false

module _ {ST SR SM : Type 0} ⦃tp : TopicTable ST⦄ ⦃tr : ResponseTable SR⦄ ⦃tm : MergeTable SM⦄ where
  -- A permitted change is the only change of the topic, and returns where the caches can be invalidated; any
  -- other throws and changes nothing.
  abbrev pub IsChange :
      (is_invalidated : Bool)
      → ℕ
      → ℕ
      → ℕ
      → TopicStatus
      → Bool
      → State ST SR SM
      → Option Topic
      → Result (Unit {0}) × State ST SR SM
      → Type 0
  IsChange is_invalidated now id user_id status is_moderator s none (r, t) =
      (is_ok r ≡ false) × (t ≡ s)
  IsChange is_invalidated now id user_id status is_moderator s (some x) (r, t) =
      (is_ok r ≡ (is_permitted user_id is_moderator status x && is_invalidated))
      × (find_key topic_key id (tp.rows t.topics)
          ≡ some
              (if is_permitted user_id is_moderator status x then with_status now status x else x))

  changed :
      (now id : ℕ) (status : TopicStatus) (s : State ST SR SM) (x : Topic)
      → find_key topic_key id (tp.rows s.topics) ≡ some x
      → find_key topic_key id (tp.rows (tp.update s.topics id (with_status now status)))
        ≡ some (with_status now status x)
  changed now id status s x h = rw tp.rows-update (
      find_key-modify_first topic_key (with_status now status) (λ y. refl) id (tp.rows s.topics)
      ∙ ap (mapped (with_status now status)) h)

  -- The checks of the source against the table of the changes that a creator may make.
  check_creator-cases :
      (status old : TopicStatus) (s : State ST SR SM)
      → ((e : Error) × (check_creator status old s ≡ (err e, s)) × (creator_may old status ≡ false))
        ⊎ ((check_creator status old s ≡ (ok tt, s)) × (creator_may old status ≡ true))
  check_creator-cases TopicStatus.seeding TopicStatus.seeding s = inr (refl, refl)
  check_creator-cases TopicStatus.active TopicStatus.seeding s = inr (refl, refl)
  check_creator-cases TopicStatus.archived TopicStatus.seeding s = inr (refl, refl)
  check_creator-cases TopicStatus.locked TopicStatus.seeding s =
      inl (bad_request Cause.cannot_lock, refl, refl)
  check_creator-cases TopicStatus.seeding TopicStatus.active s =
      inl (bad_request Cause.cannot_revert, refl, refl)
  check_creator-cases TopicStatus.active TopicStatus.active s = inr (refl, refl)
  check_creator-cases TopicStatus.archived TopicStatus.active s = inr (refl, refl)
  check_creator-cases TopicStatus.locked TopicStatus.active s =
      inl (bad_request Cause.cannot_lock, refl, refl)
  check_creator-cases TopicStatus.seeding TopicStatus.archived s =
      inl (bad_request Cause.cannot_revert, refl, refl)
  check_creator-cases TopicStatus.active TopicStatus.archived s = inr (refl, refl)
  check_creator-cases TopicStatus.archived TopicStatus.archived s = inr (refl, refl)
  check_creator-cases TopicStatus.locked TopicStatus.archived s =
      inl (bad_request Cause.cannot_lock, refl, refl)
  check_creator-cases TopicStatus.seeding TopicStatus.locked s =
      inl (bad_request Cause.cannot_unlock, refl, refl)
  check_creator-cases TopicStatus.active TopicStatus.locked s =
      inl (bad_request Cause.cannot_unlock, refl, refl)
  check_creator-cases TopicStatus.archived TopicStatus.locked s =
      inl (bad_request Cause.cannot_unlock, refl, refl)
  check_creator-cases TopicStatus.locked TopicStatus.locked s =
      inl (bad_request Cause.cannot_lock, refl, refl)

  check_transition-cases :
      (m : Bool) (status old : TopicStatus) (s : State ST SR SM)
      → ((e : Error) × (check_transition m status old s ≡ (err e, s))
          × ((m || creator_may old status) ≡ false))
        ⊎ ((check_transition m status old s ≡ (ok tt, s)) × ((m || creator_may old status) ≡ true))
  check_transition-cases true status old s = inr (refl, refl)
  check_transition-cases false status old s = check_creator-cases status old s

  module _ {K : Type 0} (cache : Cache K) (now id user_id : ℕ) (status : TopicStatus) (m : Bool)
      (s : State ST SR SM) (x : Topic) (h : find_key topic_key id (tp.rows s.topics) ≡ some x) where
    abbrev invalidated : Bool
    invalidated = is_ok (invalidate_caches cache id)

    refused :
        (e : Error)
        → is_permitted user_id m status x ≡ false
        → IsChange invalidated now id user_id status m s (some x) (err e, s)
    refused e p = (rw p refl, rw p h)

    accepted :
        is_permitted user_id m status x ≡ true
        → IsChange invalidated now id user_id status m s
            (some x)
            (invalidate_caches cache id, (update_topic id (with_status now status) s).1)
    accepted p = (rw p refl, rw p (changed now id status s x h))

    update_topic_status-found :
        IsChange invalidated now id user_id status m s
          (some x)
          (update_topic_status cache now id user_id status m s)
    unfolding update_topic_status
    update_topic_status-found =
        let found : tp.find_unique s.topics id ≡ some x = tp.find_unique-eq s.topics id ∙ h in
        elim (Bool-cases (x.creator_id == user_id || m)) [
          | inr b ↦ rw (found, b) (refused (bad_request Cause.not_permitted) (ground arith))
          | inl b ↦ elim (check_transition-cases m status x.status s) [
            | inl (e, k, c) ↦ rw (found, b, k) (refused e (ground arith))
            | inr (k, c) ↦ rw (found, b, k) (accepted (ground arith))
          ]
        ]

  -- A user may change the status of a topic exactly as a moderator, or as the creator of the topic by a
  -- change of the table. A call with such a change gives the topic the new status and its timestamps, and
  -- returns exactly where the caches can be invalidated; any other call throws and leaves the topic as it
  -- was.
  pub update_topic_status-IsChange :
      {K : Type 0} (cache : Cache K) (now id user_id : ℕ) (status : TopicStatus)
      (is_moderator : Bool) (s : State ST SR SM)
      → IsChange
          (is_ok (invalidate_caches cache id))
          now
          id
          user_id
          status
          is_moderator
          s
          (find_key topic_key id (tp.rows s.topics))
          (update_topic_status cache now id user_id status is_moderator s)
  unfolding update_topic_status
  update_topic_status-IsChange cache now id user_id status m s =
      elim (Option-cases (find_key topic_key id (tp.rows s.topics))) [
        | inl h ↦
            let missing : tp.find_unique s.topics id ≡ none = tp.find_unique-eq s.topics id ∙ h in
            rw (h, missing) (refl, refl)
        | inr (x, h) ↦ rw h (update_topic_status-found cache now id user_id status m s x h)
      ]
