-- ===== src/TopicResponses/Counts.antt =====
-- A topic counts its responses, after any requests.
use reasonbridge.Prelude.{
  ℕ, ◌+◌, ◌≡◌, ◌≢◌, refl, ◌∙◌, Bool, true, false, if◌then◌else◌, Option, none, some, List, [], ◌∷◌,
  arith, count, length, ltb, ◌==◌, Bool-cases, Option-cases, inl, inr, ◌⊎◌, Text,
}
use reasonbridge.Exec.{
  Error, Result, foreign_key_violation, unique_violation, Entity, Cause, ok, err, not_found,
  bad_request,
}
use reasonbridge.Database.{modify_first, mapped, find_key-modify_first, find_key-modify_first_other}
use reasonbridge.Database.Evolution.{find_key}
use reasonbridge.Topics.{TopicStatus, same_status}
use reasonbridge.TopicResponses.{
  Topic, Response, State, TopicTable, ResponseTable, LinkTable, CreateResponse, UpdateResponse,
  topic_key, response_key, new_response, revised, one_more, is_visible, is_too_short, check_content,
  are_stored, relink, check_parent, stored, create_response, update_response,
}

abbrev pub is_of : ℕ → Response → Bool
is_of i r = r.topic_id == i

-- A topic, where it is stored, counts its responses but for some.
abbrev pub CountedBut : ℕ → ℕ → List Response → Option Topic → Type 0
CountedBut lost i rs none = Unit
CountedBut lost i rs (some t) = t.response_count + lost ≡ count (is_of i) rs

-- Every topic does, but for a number of its own.
abbrev pub AreCountedBut : (ℕ → ℕ) → List Topic → List Response → Type 0
AreCountedBut lost ts rs = (i : ℕ) → CountedBut (lost i) i rs (find_key topic_key i ts)

-- A response more in one topic, counted.
CountedBut-counted :
    (n i : ℕ) (r : Response) (rs : List Response) (o : Option Topic)
    → r.topic_id ≡ i
    → CountedBut n i rs o
    → CountedBut n i (r ∷ rs) (mapped one_more o)
CountedBut-counted n i r rs none e h = tt
CountedBut-counted n i r rs (some t) e h = ground (arith, e, h)

-- A response more, in another topic.
CountedBut-elsewhere :
    (n i : ℕ) (r : Response) (rs : List Response) (o : Option Topic)
    → r.topic_id ≢ i
    → CountedBut n i rs o
    → CountedBut n i (r ∷ rs) o
CountedBut-elsewhere n i r rs none e h = tt
CountedBut-elsewhere n i r rs (some t) e h = ground (arith, e, h)

-- A response more in the topic, not counted.
CountedBut-lost :
    (n i : ℕ) (r : Response) (rs : List Response) (o : Option Topic)
    → r.topic_id ≡ i
    → CountedBut n i rs o
    → CountedBut (n + 1) i (r ∷ rs) o
CountedBut-lost n i r rs none e h = tt
CountedBut-lost n i r rs (some t) e h = ground (arith, e, h)

CountedBut-eq :
    (n m i : ℕ) (rs after : List Response) (o : Option Topic)
    → n ≡ m
    → count (is_of i) after ≡ count (is_of i) rs
    → CountedBut n i rs o
    → CountedBut m i after o
CountedBut-eq n m i rs after none e c h = tt
CountedBut-eq n m i rs after (some t) e c h = omega (arith, e, c, h)

AreCountedBut-counted :
    (lost : ℕ → ℕ) (i : ℕ) (ts : List Topic) (r : Response) (rs : List Response)
    → r.topic_id ≡ i
    → AreCountedBut lost ts rs
    → AreCountedBut lost (modify_first (λ x. topic_key x == i) one_more ts) (r ∷ rs)
AreCountedBut-counted lost i ts r rs posted h j = elim (Bool-cases (i == j)) [
  | inl t ↦
      let same : i ≡ j = ground arith in
      let here : r.topic_id ≡ j = posted ∙ same in
      rw (same, find_key-modify_first topic_key one_more (λ x. refl) j ts)
        (CountedBut-counted (lost j) j r rs (find_key topic_key j ts) here (h j))
  | inr t ↦
      let other : i ≢ j = ground arith in
      let away : r.topic_id ≢ j = ground arith in
      rw (find_key-modify_first_other topic_key one_more (λ x. refl) i j ts other)
        (CountedBut-elsewhere (lost j) j r rs (find_key topic_key j ts) away (h j))
]

abbrev at_topic : ℕ → ℕ → ℕ
at_topic i j = if i == j then 1 else 0

AreCountedBut-lost :
    (lost : ℕ → ℕ) (i : ℕ) (ts : List Topic) (r : Response) (rs : List Response)
    → r.topic_id ≡ i
    → AreCountedBut lost ts rs
    → AreCountedBut (λ j. lost j + at_topic i j) ts (r ∷ rs)
AreCountedBut-lost lost i ts r rs posted h j = elim (Bool-cases (i == j)) [
  | inl t ↦
      let here : r.topic_id ≡ j = ground arith in
      rw t (CountedBut-lost (lost j) j r rs (find_key topic_key j ts) here (h j))
  | inr t ↦
      let away : r.topic_id ≢ j = ground arith in
      let same : lost j + 0 ≡ lost j = omega arith in
      rw (t, same) (CountedBut-elsewhere (lost j) j r rs (find_key topic_key j ts) away (h j))
]

count-revised :
    (i k : ℕ) (dto : UpdateResponse) (rs : List Response)
    → count (is_of i) (modify_first (λ x. response_key x == k) (revised dto) rs)
      ≡ count (is_of i) rs
count-revised i k dto [] = refl
count-revised i k dto (x ∷ xs) = ground (arith, count-revised i k dto xs)

-- A request to the service.
pub data Operation : Type 0 where
  create : (topic_id author_id : ℕ) → CreateResponse → Operation
  update : (response_id author_id : ℕ) → UpdateResponse → Operation

abbrev is_violation : Error → Bool
is_violation foreign_key_violation = true
is_violation _ = false

abbrev pub is_foreign_key : {A : Type 0} → Result A → Bool
is_foreign_key (ok a) = false
is_foreign_key (err e) = is_violation e

-- Topics and responses from which no count is lost.
AreCountedBut-plus :
    (lost more : ℕ → ℕ) (ts : List Topic) (rs : List Response)
    → ((j : ℕ) → more j ≡ 0)
    → AreCountedBut lost ts rs
    → AreCountedBut (λ j. lost j + more j) ts rs
AreCountedBut-plus lost more ts rs z h j =
    CountedBut-eq (lost j) (lost j + more j) j rs rs (find_key topic_key j ts) (omega (arith, z j))
      refl (h j)

module _ {ST SR SL : Type 0} ⦃tp : TopicTable ST⦄ ⦃tr : ResponseTable SR⦄ ⦃tl : LinkTable SL⦄
    (is_proposition : ℕ → Bool) where
  abbrev pub AreCounted : (ℕ → ℕ) → State ST SR SL → Type 0
  AreCounted lost s = AreCountedBut lost (tp.rows s.topics) (tr.rows s.responses)

  unfoldable pub perform : Operation → State ST SR SL → State ST SR SL
  perform (create topic_id author_id dto) s =
      (create_response is_proposition topic_id author_id dto s).1
  perform (update response_id author_id dto) s =
      (update_response is_proposition response_id author_id dto s).1

  unfoldable pub perform_all : List Operation → State ST SR SL → State ST SR SL
  perform_all [] s = s
  perform_all (o ∷ os) s = perform_all os (perform o s)

  -- The calls of the run that create a response in the topic and throw at its propositions.
  unfoldable pub lost_by : Operation → State ST SR SL → ℕ → ℕ
  lost_by (create topic_id author_id dto) s i =
      if is_foreign_key (create_response is_proposition topic_id author_id dto s).0
      then at_topic topic_id i
      else 0
  lost_by (update response_id author_id dto) s i = 0

  unfoldable pub lost_in : List Operation → State ST SR SL → ℕ → ℕ
  lost_in [] s i = 0
  lost_in (o ∷ os) s i = lost_by o s i + lost_in os (perform o s) i

  check_content-cases :
      (o : Option Text) (s : State ST SR SL)
      → ((e : Error) × (check_content o s ≡ (err e, s)) × (is_violation e ≡ false))
        ⊎ (check_content o s ≡ (ok tt, s))
  check_content-cases none s = inr refl
  check_content-cases (some t) s = elim (Bool-cases (is_too_short t)) [
    | inl a ↦ inl (bad_request Cause.content_too_short, rw a refl, refl)
    | inr a ↦ elim (Bool-cases (ltb 10000 (length t))) [
      | inl b ↦ inl (bad_request Cause.content_too_long, rw (a, b) refl, refl)
      | inr b ↦ inr (rw (a, b) refl)
    ]
  ]

  check_parent-cases :
      (i : ℕ) (o : Option ℕ) (s : State ST SR SL)
      → ((e : Error) × (check_parent i o s ≡ (err e, s)) × (is_violation e ≡ false))
        ⊎ (check_parent i o s ≡ (ok tt, s))
  check_parent-cases i none s = inr refl
  check_parent-cases i (some p) s = elim (Option-cases (tr.find_unique s.responses p)) [
    | inl e ↦ inl (not_found Entity.response, rw e refl, refl)
    | inr (q, e) ↦ elim (Bool-cases (q.topic_id == i)) [
      | inr b ↦ inl (bad_request Cause.parent_elsewhere, rw (e, b) refl, refl)
      | inl b ↦ inr (rw (e, b) refl)
    ]
  ]

  -- What a call that creates a response in the topic leaves.
  abbrev Loses : (ℕ → ℕ) → ℕ → Result Response × State ST SR SL → Type 0
  Loses lost i (r, t) = AreCounted (λ j. lost j + (if is_foreign_key r then at_topic i j else 0)) t

  refused :
      (lost : ℕ → ℕ) (i : ℕ) (e : Error) (s : State ST SR SL)
      → is_violation e ≡ false
      → AreCounted lost s
      → Loses lost i (err e, s)
  refused lost i e s f h =
      AreCountedBut-plus lost (λ j. if is_violation e then at_topic i j else 0) (tp.rows s.topics)
        (tr.rows s.responses) (λ j. rw f refl) h

  stored-Loses :
      (lost : ℕ → ℕ) (i u : ℕ) (dto : CreateResponse) (s : State ST SR SL)
      → AreCounted lost s
      → Loses lost i (
          stored is_proposition i dto.proposition_ids
            (tr.create s.responses (new_response i u dto))
            s)
  stored-Loses lost i u dto s h =
      elim (Option-cases (tr.create s.responses (new_response i u dto))) [
        | inl e ↦ rw e (refused lost i unique_violation s refl h)
        | inr ((r, t), e) ↦
            let (id, made, _, _, held) = tr.create-some s.responses (new_response i u dto) e in
            let named : r.topic_id ≡ i = rw made refl in
            elim (Bool-cases (are_stored is_proposition dto.proposition_ids)) [
              | inl a ↦
                  let counted =
                    AreCountedBut-counted lost i (tp.rows s.topics) r (tr.rows s.responses) named
                      h in
                  rw (e, a, tp.rows-update, held)
                    (AreCountedBut-plus lost (λ j. 0)
                      (modify_first (λ x. topic_key x == i) one_more (tp.rows s.topics))
                      (r ∷ tr.rows s.responses) (λ j. refl) counted)
              | inr a ↦
                  rw (e, a, held)
                    (AreCountedBut-lost lost i (tp.rows s.topics) r (tr.rows s.responses) named h)
            ]
      ]

  create_response-Loses :
      (lost : ℕ → ℕ) (i u : ℕ) (dto : CreateResponse) (s : State ST SR SL)
      → AreCounted lost s
      → Loses lost i (create_response is_proposition i u dto s)
  unfolding create_response
  create_response-Loses lost i u dto s h = elim (check_content-cases (some dto.content) s) [
    | inl (e, c, f) ↦ rw c (refused lost i e s f h)
    | inr c ↦ elim (Option-cases (tp.find_unique s.topics i)) [
      | inl f ↦ rw (c, f) (refused lost i (not_found Entity.topic) s refl h)
      | inr (t, f) ↦ elim (Bool-cases (same_status t.status TopicStatus.archived)) [
        | inl a ↦ rw (c, f, a) (refused lost i (bad_request Cause.topic_archived) s refl h)
        | inr a ↦ elim (check_parent-cases i dto.parent_id s) [
          | inl (e, p, g) ↦ rw (c, f, a, p) (refused lost i e s g h)
          | inr p ↦ rw (c, f, a, p) (stored-Loses lost i u dto s h)
        ]
      ]
    ]
  ]

  revised-AreCounted :
      (lost : ℕ → ℕ) (id : ℕ) (dto : UpdateResponse) (s : State ST SR SL)
      → AreCounted lost s
      → AreCountedBut lost (tp.rows s.topics) (tr.rows (tr.update s.responses id (revised dto)))
  revised-AreCounted lost id dto s h i =
      CountedBut-eq (lost i) (lost i) i (tr.rows s.responses)
        (tr.rows (tr.update s.responses id (revised dto))) (find_key topic_key i (tp.rows s.topics))
        refl (rw tr.rows-update (count-revised i id dto (tr.rows s.responses))) (h i)

  -- The links of a response are no concern of the counts.
  relink-kept :
      (id : ℕ) (o : Option (List ℕ)) (s : State ST SR SL)
      → ((relink is_proposition id o s).1.topics ≡ s.topics)
        × ((relink is_proposition id o s).1.responses ≡ s.responses)
  relink-kept id none s = (refl, refl)
  relink-kept id (some ps) s = elim (Bool-cases (are_stored is_proposition ps)) [
    | inl a ↦ rw a (refl, refl)
    | inr a ↦ rw a (refl, refl)
  ]

  update_response-AreCounted :
      (lost : ℕ → ℕ) (id u : ℕ) (dto : UpdateResponse) (s : State ST SR SL)
      → AreCounted lost s
      → AreCounted lost (update_response is_proposition id u dto s).1
  unfolding update_response
  update_response-AreCounted lost id u dto s h =
      elim (Option-cases (tr.find_unique s.responses id)) [
        | inl e ↦ rw e h
        | inr (r, e) ↦ elim (Bool-cases (r.author_id == u)) [
          | inr a ↦ rw (e, a) h
          | inl a ↦ elim (Bool-cases (is_visible r.status)) [
            | inr v ↦ rw (e, a, v) h
            | inl v ↦ elim (Option-cases (tp.find_unique s.topics r.topic_id)) [
              | inl f ↦ rw (e, a, v, f) h
              | inr (t, f) ↦ elim (Bool-cases (same_status t.status TopicStatus.archived)) [
                | inl b ↦ rw (e, a, v, f, b) h
                | inr b ↦ elim (check_content-cases dto.content s) [
                  | inl (x, c, _) ↦ rw (e, a, v, f, b, c) h
                  | inr c ↦
                      let after = record s { responses = tr.update s.responses id (revised dto) } in
                      let (topics, responses) = relink-kept id dto.proposition_ids after in
                      rw (e, a, v, f, b, c, topics, responses) (revised-AreCounted lost id dto s h)
                ]
              ]
            ]
          ]
        ]
      ]

  perform-AreCounted :
      (o : Operation) (lost : ℕ → ℕ) (s : State ST SR SL)
      → AreCounted lost s
      → AreCounted (λ i. lost i + lost_by o s i) (perform o s)
  unfolding perform lost_by
  perform-AreCounted (create i u dto) lost s h = create_response-Loses lost i u dto s h
  perform-AreCounted (update id u dto) lost s h =
      let t = (update_response is_proposition id u dto s).1 in
      AreCountedBut-plus lost (λ j. 0) (tp.rows t.topics) (tr.rows t.responses) (λ j. refl)
        (update_response-AreCounted lost id u dto s h)

  perform_all-counted :
      (os : List Operation) (lost : ℕ → ℕ) (s : State ST SR SL)
      → AreCounted lost s
      → AreCounted (λ i. lost i + lost_in os s i) (perform_all os s)
  unfolding perform_all lost_in
  perform_all-counted [] lost s h =
      AreCountedBut-plus lost (λ i. 0) (tp.rows s.topics) (tr.rows s.responses) (λ i. refl) h
  perform_all-counted (o ∷ os) lost s h =
      let t = perform_all os (perform o s) in
      let next =
        perform_all-counted os (λ j. lost j + lost_by o s j) (perform o s)
          (perform-AreCounted o lost s h) in
      λ i.
        CountedBut-eq (lost i + lost_by o s i + lost_in os (perform o s) i)
          (lost i + (lost_by o s i + lost_in os (perform o s) i)) i (tr.rows t.responses)
          (tr.rows t.responses) (find_key topic_key i (tp.rows t.topics)) (omega arith) refl
          (next i)

  -- From a state in which every topic counts its responses, any new and updated responses, returning or
  -- throwing, lead to one in which the count of each topic and the number of the calls for it that threw
  -- after the response was stored, at a proposition that is not stored, add up to its responses.
  pub perform_all-AreCounted :
      (os : List Operation) (s : State ST SR SL)
      → AreCounted (λ i. 0) s
      → AreCounted (lost_in os s) (perform_all os s)
  perform_all-AreCounted os s h i =
      let t = perform_all os s in
      CountedBut-eq (0 + lost_in os s i) (lost_in os s i) i (tr.rows t.responses)
        (tr.rows t.responses) (find_key topic_key i (tp.rows t.topics)) (omega arith) refl
        (perform_all-counted os (λ j. 0) s h i)
