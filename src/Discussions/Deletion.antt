-- ===== src/Discussions/Deletion.antt =====
-- `softDelete` keeps every thread whole.
use reasonbridge.Prelude.{
  ℕ, ◌≡◌, ◌≢◌, refl, sym, ap, ◌∙◌, true, false, Option, none, some, List, [], ◌∷◌, arith, count,
  ltb, ◌==◌, Bool-cases, Option-cases, inl, inr,
}
use reasonbridge.Database.{
  modify_first, remove_first, remove_first-none, find_key-modify_first, find_key-modify_first_other,
  mapped, count-and_true,
}
use reasonbridge.Responses.{Response, ResponseTable, response_key}
use reasonbridge.Responses.Depth.{find_response, IsStored, IsThreaded}
use reasonbridge.Discussions.{is_reply_to, names_parent, blanked, reply_count, soft_delete}

find-remove_other :
    (i p : ℕ) (rs : List Response)
    → i ≢ p
    → find_response p (remove_first (λ x. response_key x == i) rs) ≡ find_response p rs
find-remove_other i p [] h = refl
find-remove_other i p (x ∷ xs) h = ground (arith, find-remove_other i p xs h)

remove-IsStored :
    (i : ℕ) (o : Option ℕ) (rs : List Response)
    → names_parent i o ≡ false
    → IsStored o rs
    → IsStored o (remove_first (λ x. response_key x == i) rs)
remove-IsStored i none rs k h = tt
remove-IsStored i (some p) rs k (q, h) =
    let other : i ≢ p = ground arith in (q, find-remove_other i p rs other ∙ h)

-- Taking out a response without replies.
remove-IsThreaded :
    (i : ℕ) (rs : List Response)
    → count (is_reply_to i) rs ≡ 0
    → IsThreaded rs
    → IsThreaded (remove_first (λ x. response_key x == i) rs)
remove-IsThreaded i [] k h = tt
remove-IsThreaded i (x ∷ xs) k (fresh, parent, h) =
    let leaf : is_reply_to i x ≡ false = ground arith in
    let others : count (is_reply_to i) xs ≡ 0 = omega (arith, rw leaf at k) in
    elim (Bool-cases (x.id == i)) [
      | inl t ↦ rw t h
      | inr t ↦ rw t (
        remove_first-none response_key i x.id xs fresh,
        remove-IsStored i x.parent_id xs leaf parent,
        remove-IsThreaded i xs others h,
      )
    ]

blanked-IsStored :
    (now i : ℕ) (o : Option ℕ) (rs : List Response)
    → IsStored o rs
    → IsStored o (modify_first (λ x. response_key x == i) (blanked now) rs)
blanked-IsStored now i none rs h = tt
blanked-IsStored now i (some p) rs (q, h) = elim (Bool-cases (i == p)) [
  | inl t ↦
      let same : i ≡ p = ground arith in
      (
        blanked now q,
        rw same (
            find_key-modify_first response_key (blanked now) (λ y. refl) p rs
            ∙ ap (mapped (blanked now)) h),
      )
  | inr t ↦
      let other : i ≢ p = ground arith in
      (q, find_key-modify_first_other response_key (blanked now) (λ y. refl) i p rs other ∙ h)
]

missing-modify :
    (now i k : ℕ) (rs : List Response)
    → find_response k rs ≡ none
    → find_response k (modify_first (λ x. response_key x == i) (blanked now) rs) ≡ none
missing-modify now i k rs h = elim (Bool-cases (i == k)) [
  | inl t ↦
      let same : i ≡ k = ground arith in
      rw same (
        find_key-modify_first response_key (blanked now) (λ y. refl) k rs
        ∙ ap (mapped (blanked now)) h)
  | inr t ↦
      let other : i ≢ k = ground arith in
      find_key-modify_first_other response_key (blanked now) (λ y. refl) i k rs other ∙ h
]

blanked-IsThreaded :
    (now i : ℕ) (rs : List Response)
    → IsThreaded rs
    → IsThreaded (modify_first (λ x. response_key x == i) (blanked now) rs)
blanked-IsThreaded now i [] h = tt
blanked-IsThreaded now i (x ∷ xs) (fresh, parent, h) = elim (Bool-cases (x.id == i)) [
  | inl t ↦ rw t (fresh, parent, h)
  | inr t ↦ rw t (
    missing-modify now i x.id xs fresh,
    blanked-IsStored now i x.parent_id xs parent,
    blanked-IsThreaded now i xs h,
  )
]

zero_of : (n : ℕ) → ltb 0 n ≡ false → n ≡ 0
zero_of n h = ground arith

module _ {SR : Type 0} ⦃tr : ResponseTable SR⦄ where
  reply_count-eq : (id : ℕ) (s : SR) → reply_count id s ≡ count (is_reply_to id) (tr.rows s)
  reply_count-eq id s =
      tr.count-find_many s (is_reply_to id) (λ _. true)
      ∙ count-and_true (is_reply_to id) (tr.rows s)

  -- Whatever `softDelete` does, every response that is left has its parent stored before it: a response
  -- with replies keeps its row, and a row is taken out only when it has none.
  pub soft_delete-IsThreaded :
      (now id : ℕ) (s : SR) → IsThreaded (tr.rows s) → IsThreaded (tr.rows (soft_delete now id s).1)
  unfolding soft_delete
  soft_delete-IsThreaded now id s h = elim (Option-cases (tr.find_unique s id)) [
    | inl e ↦ rw e h
    | inr (r, e) ↦ elim (Bool-cases (ltb 0 (reply_count r.id s))) [
      | inl c ↦
          rw (e, c, tr.rows-update s r.id (blanked now)) (blanked-IsThreaded now r.id (tr.rows s) h)
      | inr c ↦
          let unanswered : reply_count r.id s ≡ 0 = zero_of (reply_count r.id s) c in
          let leaf : count (is_reply_to r.id) (tr.rows s) ≡ 0 =
            sym (reply_count-eq r.id s) ∙ unanswered in
          rw (e, c, tr.rows-delete s r.id) (remove-IsThreaded r.id (tr.rows s) leaf h)
    ]
  ]
