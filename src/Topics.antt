-- ===== src/Topics.antt =====
-- services/discussion-service/src/topics/topics.service.ts: `updateTopicStatus`, `rollbackTopicMerge`
-- and, in Topics/Merge, `mergeTopics`. The tags of a topic and the answers are left out, and so are the
-- caches but for those of `updateTopicStatus`.
pub mod Status
pub mod Rollback
pub mod Merge
pub mod Edits
mod Examples
use reasonbridge.Prelude.{
  ℕ, ◌+◌, ◌*◌, ◌-◌, Bool, true, false, not, ◌&&◌, ◌||◌, Option, none, some, List, [], ◌∷◌, ltb, leb,
  ◌==◌, if◌then◌else◌, Text,
}
use reasonbridge.Exec.{
  Result, type_error, Exec, ok, err, Entity, Cause, not_found, bad_request, pure, gets, guard,
  require, ◌>>=◌, ◌>>◌,
}
use reasonbridge.Database.{Table}

pub data TopicStatus : Type 0 where
  seeding active archived locked : TopicStatus

pub data TopicVisibility : Type 0 where
  everyone restricted unlisted : TopicVisibility

-- The columns of a topic that the methods read or write.
pub record Topic : Type 0 where
  pub id : ℕ
  pub title : Text
  pub description : Text
  pub creator_id : ℕ
  pub status : TopicStatus
  pub visibility : TopicVisibility
  pub slug : Text
  pub participant_count : ℕ
  pub response_count : ℕ
  pub created_at : ℕ
  pub last_activity_at : ℕ
  pub activated_at : Option ℕ
  pub archived_at : Option ℕ
  pub locked_at : Option ℕ

pub record Response : Type 0 where
  pub id : ℕ
  pub topic_id : ℕ
  pub author_id : ℕ
  pub created_at : ℕ

-- An element of `sourceSnapshots`.
pub record Snapshot : Type 0 where
  pub id : ℕ
  pub title : Text
  pub description : Text
  pub status : TopicStatus
  pub visibility : TopicVisibility
  pub slug : Text
  pub creator_id : ℕ
  pub participant_count : ℕ
  pub response_count : ℕ
  pub created_at : ℕ

pub record TopicMerge : Type 0 where
  pub id : ℕ
  pub source_topic_ids : List ℕ
  pub target_topic_id : ℕ
  pub moderator_id : ℕ
  pub merge_reason : Text
  pub snapshots : List Snapshot
  pub responses_moved : ℕ
  pub participants_merged : ℕ
  pub merged_at : ℕ
  pub rolled_back_at : Option ℕ
  pub rollback_reason : Option Text

abbrev pub topic_key : Topic → ℕ
topic_key t = t.id

abbrev pub response_key : Response → ℕ
response_key r = r.id

abbrev pub merge_key : TopicMerge → ℕ
merge_key m = m.id

abbrev pub TopicTable : Type 0 → Type 0
TopicTable S = Table S Topic topic_key (λ _ _. false)

abbrev pub ResponseTable : Type 0 → Type 0
ResponseTable S = Table S Response response_key (λ _ _. false)

abbrev pub MergeTable : Type 0 → Type 0
MergeTable S = Table S TopicMerge merge_key (λ _ _. false)

pub record State (ST SR SM : Type 0) : Type 0 where
  pub topics : ST
  pub responses : SR
  pub merges : SM

abbrev pub same_status : TopicStatus → TopicStatus → Bool
same_status TopicStatus.seeding TopicStatus.seeding = true
same_status TopicStatus.active TopicStatus.active = true
same_status TopicStatus.archived TopicStatus.archived = true
same_status TopicStatus.locked TopicStatus.locked = true
same_status _ _ = false

abbrev pub is_unset {ℓ} : {A : Type ℓ} → Option A → Bool
is_unset none = true
is_unset (some a) = false

-- `updateData`, from the status and the timestamps of the topic.
abbrev pub with_status : ℕ → TopicStatus → Topic → Topic
with_status now status t =
    let to = same_status status in
    let from = same_status t.status in
    record t {
      status = status;
      last_activity_at = now;
      activated_at =
          if to TopicStatus.active && is_unset t.activated_at then some now else t.activated_at;
      archived_at =
          if to TopicStatus.archived && not (from TopicStatus.archived)
          then some now
          else if to TopicStatus.active && from TopicStatus.archived
          then none
          else t.archived_at;
      locked_at =
          if to TopicStatus.locked && not (from TopicStatus.locked)
          then some now
          else if not (to TopicStatus.locked) && from TopicStatus.locked
          then none
          else t.locked_at;
    }

abbrev pub restored : Text → Topic → Topic
restored description t = record t {
  status = TopicStatus.active;
  archived_at = none;
  description = description;
}

abbrev pub rolled_back : ℕ → Text → TopicMerge → TopicMerge
rolled_back now reason m = record m { rolled_back_at = some now; rollback_reason = some reason }

-- `topicId: targetTopicId, createdAt: { gte: mergedAt }`
abbrev pub is_since : TopicMerge → Response → Bool
is_since m r = r.topic_id == m.target_topic_id && leb m.merged_at r.created_at

-- Thirty days in milliseconds.
abbrev pub rollback_window : ℕ
rollback_window = 30 * 24 * 3600000

abbrev pub first {ℓ} : {A : Type ℓ} → List A → Option A
first [] = none
first (x ∷ xs) = some x

-- A column set to `undefined` stays as it is.
abbrev pub move_to : Option ℕ → Response → Response
move_to none r = r
move_to (some i) r = record r { topic_id = i }

-- The cache manager of the framework: the answers of its calls. `includes` is that of a key, or `none` where
-- a key has no such method.
pub record Cache (K : Type 0) : Type 0 where
  pub del_list : Result (Unit {0})
  pub keys : List K
  pub includes : K → ℕ → Option Bool
  pub del : K → Result (Unit {0})

module _ {K : Type 0} (cache : Cache K) where
  abbrev pub kept_key : K → Option Bool → Option (List K) → Option (List K)
  kept_key k none ks = none
  kept_key k (some b) none = none
  kept_key k (some true) (some ks) = some (k ∷ ks)
  kept_key k (some false) (some ks) = some ks

  -- `filter((key) => key.includes(topicId))`; `none` is the exception.
  abbrev pub topic_cache_keys : ℕ → List K → Option (List K)
  topic_cache_keys topic_id [] = some []
  topic_cache_keys topic_id (k ∷ ks) =
      kept_key k (cache.includes k topic_id) (topic_cache_keys topic_id ks)

  abbrev pub then_also : Result (Unit {0}) → Result (Unit {0}) → Result (Unit {0})
  then_also (ok u) r = r
  then_also (err e) r = err e

  abbrev pub del_all : List K → Result (Unit {0})
  del_all [] = ok tt
  del_all (k ∷ ks) = then_also (cache.del k) (del_all ks)

  abbrev pub del_found : Option (List K) → Result (Unit {0})
  del_found none = err type_error
  del_found (some ks) = del_all ks

  -- `updateTopicStatus`, step 6.
  abbrev pub invalidate_caches : ℕ → Result (Unit {0})
  invalidate_caches topic_id =
      then_also cache.del_list (del_found (topic_cache_keys topic_id cache.keys))

module _ {ST : Type 0} ⦃tp : TopicTable ST⦄ where
  -- The loop over the snapshots.
  abbrev pub restore_all : List Snapshot → ST → ST
  restore_all [] s = s
  restore_all (x ∷ xs) s = restore_all xs (tp.update s x.id (restored x.description))

module _ {ST SR SM : Type 0} ⦃tp : TopicTable ST⦄ ⦃tr : ResponseTable SR⦄ ⦃tm : MergeTable SM⦄ where
  -- The checks of a user who is no moderator.
  abbrev pub check_creator : (status old : TopicStatus) → Exec (State ST SR SM) (Unit {0})
  check_creator status old = do
    guard (not (same_status status TopicStatus.locked)) (bad_request Cause.cannot_lock)
    guard (not (same_status old TopicStatus.locked)) (bad_request Cause.cannot_unlock)
    guard
        (not (same_status status TopicStatus.seeding && not (same_status old TopicStatus.seeding)))
        (bad_request Cause.cannot_revert)

  abbrev pub check_transition : Bool → (status old : TopicStatus) → Exec (State ST SR SM) (Unit {0})
  check_transition true status old = pure tt
  check_transition false status old = check_creator status old

  abbrev pub update_topic : ℕ → (Topic → Topic) → Exec (State ST SR SM) (Unit {0})
  update_topic id f s = (ok tt, record s { topics = tp.update s.topics id f })

  -- Steps 1 to 5, without the caches.
  abbrev pub change_status : ℕ → ℕ → ℕ → TopicStatus → Bool → Exec (State ST SR SM) (Unit {0})
  change_status now topic_id user_id status is_moderator = do
    found ← gets (λ s. tp.find_unique s.topics topic_id)
    t ← require found (not_found Entity.topic)
    guard (t.creator_id == user_id || is_moderator) (bad_request Cause.not_permitted)
    check_transition is_moderator status t.status
    update_topic topic_id (with_status now status)

  unfoldable pub update_topic_status :
      {K : Type 0} → Cache K → ℕ → ℕ → ℕ → TopicStatus → Bool → Exec (State ST SR SM) (Unit {0})
  update_topic_status cache now topic_id user_id status is_moderator = do
    change_status now topic_id user_id status is_moderator
    (λ s. (invalidate_caches cache topic_id, s))

  abbrev pub write_rollback : ℕ → Text → TopicMerge → Exec (State ST SR SM) (Unit {0})
  write_rollback now reason m s = (
    ok tt,
    record {
      topics = restore_all m.snapshots s.topics;
      responses = tr.update_many s.responses (is_since m) (move_to (first m.source_topic_ids));
      merges = tm.update s.merges m.id (rolled_back now reason);
    },
  )

  -- An error is thrown before the first write, so the transaction adds nothing here.
  unfoldable pub rollback_topic_merge : ℕ → ℕ → Text → Exec (State ST SR SM) (Unit {0})
  rollback_topic_merge now merge_id reason = do
    found ← gets (λ s. tm.find_unique s.merges merge_id)
    m ← require found (not_found Entity.topic_merge)
    guard (is_unset m.rolled_back_at) (bad_request Cause.already_rolled_back)
    guard (leb now (m.merged_at + rollback_window)) (bad_request Cause.window_expired)
    write_rollback now reason m
