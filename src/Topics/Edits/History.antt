-- ===== src/Topics/Edits/History.antt =====
-- The edit records of a topic lead back to its first title and description.
use reasonbridge.Prelude.{
  ℕ, ◌≡◌, ◌≢◌, refl, sym, ap, ◌∙◌, Bool, true, false, not, ◌&&◌, ◌||◌, Option, none, some, List, [],
  ◌∷◌, arith, ◌==◌, if◌then◌else◌, or_else, is_some, Bool-cases, Option-cases, inl, inr, Text,
}
use reasonbridge.Exec.{ok, ◌>>◌}
use reasonbridge.Database.{modify_first, find_key-modify_first, find_key-modify_first_other, mapped}
use reasonbridge.Database.Evolution.{find_key}
use reasonbridge.Topics.{TopicStatus, Topic, TopicTable, topic_key, same_status}
use reasonbridge.Topics.Edits.{
  TopicEdit, EditTable, EditState, UpdateTopic, change_of, previous, is_given, requires_reason,
  has_changes, edited, new_edit, record_edit, update_topic,
}

abbrev pub Wording : Type 0
Wording = Text × Text

-- The wording from before an edit, given the one after it.
abbrev pub undo : ℕ → TopicEdit → Wording → Wording
undo i e (title, description) =
    if e.topic_id == i
    then (or_else e.previous_title title, or_else e.previous_description description)
    else (title, description)

-- All edits taken back, the newest first.
abbrev pub undo_all : ℕ → List TopicEdit → Wording → Wording
undo_all i [] w = w
undo_all i (e ∷ es) w = undo_all i es (undo i e w)

abbrev pub wording : Topic → Wording
wording t = (t.title, t.description)

abbrev pub original_in : ℕ → Option Topic → List TopicEdit → Option Wording
original_in i none es = none
original_in i (some t) es = some (undo_all i es (wording t))

taken_back : (o : Option Text) (old : Text) → or_else (previous o old) (or_else o old) ≡ old
taken_back none old = refl
taken_back (some t) old = refl

unchanged : (o : Option Text) (old : Text) → is_some o ≡ false → or_else o old ≡ old
unchanged none old h = refl
unchanged (some t) old h = absurd (ground arith)

module _ (slug_of : Text → Text) (now topic_id user_id : ℕ) (dto : UpdateTopic) (t : Topic) where
  -- The record takes back what the update changes.
  undo-edited :
      (k : ℕ)
      → undo topic_id (new_edit topic_id user_id dto t k) (wording (edited slug_of now dto t t))
        ≡ wording t
  undo-edited k =
      let self : (topic_id == topic_id) ≡ true = ground arith in
      rw
        (
          self,
          taken_back (change_of dto.title t.title) t.title,
          taken_back (change_of dto.description t.description) t.description,
        )
        refl

  wording-edited : has_changes dto t ≡ false → wording (edited slug_of now dto t t) ≡ wording t
  wording-edited h =
      let no_title : is_some (change_of dto.title t.title) ≡ false = ground arith in
      let no_description : is_some (change_of dto.description t.description) ≡ false =
        ground arith in
      rw
        (
          unchanged (change_of dto.title t.title) t.title no_title,
          unchanged (change_of dto.description t.description) t.description no_description,
        )
        refl

  -- An edit of another topic.
  passed :
      (i k : ℕ) (es : List TopicEdit) (o : Option Topic)
      → (topic_id == i) ≡ false
      → original_in i o (new_edit topic_id user_id dto t k ∷ es) ≡ original_in i o es
  passed i k es none e = refl
  passed i k es (some x) e = rw e refl

  module _ (topics : List Topic) (held : find_key topic_key topic_id topics ≡ some t) where
    abbrev after : List Topic
    after = modify_first (λ x. topic_key x == topic_id) (edited slug_of now dto t) topics

    find-edited : find_key topic_key topic_id after ≡ some (edited slug_of now dto t t)
    find-edited =
        find_key-modify_first topic_key (edited slug_of now dto t) (λ x. refl) topic_id topics
        ∙ ap (mapped (edited slug_of now dto t)) held

    original-recorded :
        (i k : ℕ) (es : List TopicEdit)
        → original_in i (find_key topic_key i after) (new_edit topic_id user_id dto t k ∷ es)
          ≡ original_in i (find_key topic_key i topics) es
    original-recorded i k es = elim (Bool-cases (topic_id == i)) [
      | inl e ↦
          let same : topic_id ≡ i = ground arith in
          rw (← same)
            (rw (find-edited, held) (ap (λ w. some (undo_all topic_id es w)) (undo-edited k)))
      | inr e ↦
          let other : topic_id ≢ i = ground arith in
          rw
            (find_key-modify_first_other topic_key (edited slug_of now dto t) (λ x. refl) topic_id i
              topics other)
            (passed i k es (find_key topic_key i topics) e)
    ]

    original-unrecorded :
        (i : ℕ) (es : List TopicEdit)
        → has_changes dto t ≡ false
        → original_in i (find_key topic_key i after) es
          ≡ original_in i (find_key topic_key i topics) es
    original-unrecorded i es h = elim (Bool-cases (topic_id == i)) [
      | inl e ↦
          let same : topic_id ≡ i = ground arith in
          rw (← same)
            (rw (find-edited, held) (ap (λ w. some (undo_all topic_id es w)) (wording-edited h)))
      | inr e ↦
          let other : topic_id ≢ i = ground arith in
          rw
            (find_key-modify_first_other topic_key (edited slug_of now dto t) (λ x. refl) topic_id i
              topics other)
            refl
    ]

-- A request of an update, with its time, its topic and its user.
pub record Request : Type 0 where
  pub now : ℕ
  pub topic_id : ℕ
  pub user_id : ℕ
  pub dto : UpdateTopic
  pub is_moderator : Bool

module _ {ST SE : Type 0} ⦃tp : TopicTable ST⦄ ⦃te : EditTable SE⦄ where
  -- The title and the description of a stored topic, with all its edits taken back.
  abbrev pub original : ℕ → EditState ST SE → Option Wording
  original i s = original_in i (find_key topic_key i (tp.rows s.topics)) (te.rows s.edits)

  module _ (slug_of : Text → Text) where
    abbrev pub perform : Request → EditState ST SE → EditState ST SE
    perform u s = (update_topic slug_of u.now u.topic_id u.user_id u.dto u.is_moderator s).1

    abbrev pub perform_all : List Request → EditState ST SE → EditState ST SE
    perform_all [] s = s
    perform_all (u ∷ us) s = perform_all us (perform u s)

    original-write :
        (now topic_id user_id i : ℕ) (dto : UpdateTopic) (s : EditState ST SE) (t : Topic)
        → find_key topic_key topic_id (tp.rows s.topics) ≡ some t
        → original i
            ((record_edit (has_changes dto t) topic_id user_id dto t >> (λ x. (
              ok tt,
              record x { topics = tp.update x.topics topic_id (edited slug_of now dto t) },
            )))
              s).1
          ≡ original i s
    original-write now topic_id user_id i dto s t held = elim (Bool-cases (has_changes dto t)) [
      | inr h ↦
          rw (h, tp.rows-update)
            (original-unrecorded slug_of now topic_id user_id dto t (tp.rows s.topics) held i
              (te.rows s.edits) h)
      | inl h ↦ elim (Option-cases (te.create s.edits (new_edit topic_id user_id dto t))) [
        | inl e ↦ rw (h, e) refl
        | inr ((x, xs), e) ↦
            let (k, made, _, _, rows) =
              te.create-some s.edits (new_edit topic_id user_id dto t) e in
            rw (h, e)
              (rw (tp.rows-update, rows, made)
                (original-recorded slug_of now topic_id user_id dto t (tp.rows s.topics) held i k
                  (te.rows s.edits)))
      ]
    ]

    original-update :
        (now topic_id user_id i : ℕ) (dto : UpdateTopic) (is_moderator : Bool) (s : EditState ST SE)
        → original i (update_topic slug_of now topic_id user_id dto is_moderator s).1 ≡ original i s
    unfolding update_topic
    original-update now topic_id user_id i dto is_moderator s =
        elim (Option-cases (tp.find_unique s.topics topic_id)) [
          | inl e ↦ rw e refl
          | inr (t, e) ↦ elim (Bool-cases (t.creator_id == user_id || is_moderator)) [
            | inr p ↦ rw (e, p) refl
            | inl p ↦
                elim (Bool-cases (same_status t.status TopicStatus.locked && not is_moderator)) [
                  | inl l ↦ rw (e, p, l) refl
                  | inr l ↦
                      elim (Bool-cases (requires_reason now t && not (is_given dto.edit_reason))) [
                        | inl r ↦ rw (e, p, l, r) refl
                        | inr r ↦
                            rw (e, p, l, r)
                              (original-write now topic_id user_id i dto s t
                                (sym (tp.find_unique-eq s.topics topic_id) ∙ e))
                      ]
                ]
          ]
        ]

    -- Take back all edit records of a topic, the newest first, from its title and description: the result
    -- is the same before and after any requests of updates, returning or throwing.
    pub original-perform_all :
        (us : List Request) (i : ℕ) (s : EditState ST SE)
        → original i (perform_all us s) ≡ original i s
    original-perform_all [] i s = refl
    original-perform_all (u ∷ us) i s =
        original-perform_all us i (perform u s)
        ∙ original-update u.now u.topic_id u.user_id i u.dto u.is_moderator s
