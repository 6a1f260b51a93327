-- ===== src/Responses/Depth.antt =====
-- The loop of `calculateThreadDepth` ends where every parent was stored before its replies.
use reasonbridge.Prelude.{
  ℕ, zero, suc, ◌+◌, ◌≤◌, ◌≡◌, refl, sym, ap, ◌∙◌, Option, none, some, List, [], ◌∷◌, arith, length,
  ◌==◌, Bool-cases, Option-cases, inl, inr,
}
use reasonbridge.Database.Evolution.{find_key}
use reasonbridge.Database.Keys.{mapped}
use reasonbridge.Responses.{Response, ResponseTable, response_key}
use reasonbridge.Responses.Service.{depth_from, calculate_thread_depth}

abbrev pub find_response : ℕ → List Response → Option Response
find_response i rs = find_key response_key i rs

-- A response, if one is named, is stored.
abbrev pub IsStored : Option ℕ → List Response → Type 0
IsStored none rs = Unit {0}
IsStored (some p) rs = (q : Response) × (find_response p rs ≡ some q)

-- Each response has a new key, and its parent, if it has one, is among the responses before it; the
-- newest response is the first of the list.
abbrev pub IsThreaded : List Response → Type 0
IsThreaded [] = Unit {0}
IsThreaded (r ∷ rs) = (find_response r.id rs ≡ none) × IsStored r.parent_id rs × IsThreaded rs

-- The loop on a list of responses.
unfoldable pub depth_in : (fuel depth : ℕ) → List Response → ℕ → Option ℕ
depth_in zero depth rs i = none
depth_in (suc fuel) depth rs i = elim (find_response i rs) [
  | none ↦ some depth
  | some r ↦ elim r.parent_id [ none ↦ some depth | some p ↦ depth_in fuel (suc depth) rs p ]
]

depth_in-found :
    (fuel depth : ℕ) (rs : List Response) (i p : ℕ) (r : Response)
    → find_response i rs ≡ some r
    → r.parent_id ≡ some p
    → depth_in (suc fuel) depth rs i ≡ depth_in fuel (suc depth) rs p
unfolding depth_in
depth_in-found fuel depth rs i p r h k = rw (h, k, depth_in) refl

depth_in-top :
    (fuel depth : ℕ) (rs : List Response) (i : ℕ) (r : Response)
    → find_response i rs ≡ some r
    → r.parent_id ≡ none
    → depth_in (suc fuel) depth rs i ≡ some depth
unfolding depth_in
depth_in-top fuel depth rs i r h k = rw (h, k, depth_in) refl

depth_in-missing :
    (fuel depth : ℕ) (rs : List Response) (i : ℕ)
    → find_response i rs ≡ none
    → depth_in (suc fuel) depth rs i ≡ some depth
unfolding depth_in
depth_in-missing fuel depth rs i h = rw (h, depth_in) refl

depth_in-suc :
    (fuel depth : ℕ) (rs : List Response) (i : ℕ)
    → depth_in fuel (suc depth) rs i ≡ mapped suc (depth_in fuel depth rs i)
unfolding depth_in
depth_in-suc zero depth rs i = refl
depth_in-suc (suc fuel) depth rs i = elim (Option-cases (find_response i rs)) [
  | inl h ↦ rw (h, depth_in) refl
  | inr (r, h) ↦ elim (Option-cases r.parent_id) [
    | inl k ↦ rw (h, k, depth_in) refl
    | inr (p, k) ↦ rw (h, k, depth_in) (depth_in-suc fuel (suc depth) rs p)
  ]
]

-- A response other than a new one is found as before.
find-older :
    (r : Response) (rs : List Response) (i : ℕ) (q : Response)
    → find_response r.id rs ≡ none
    → find_response i rs ≡ some q
    → find_response i (r ∷ rs) ≡ some q
find-older r rs i q fresh h = elim (Bool-cases (r.id == i)) [
  | inl t ↦
      let same : r.id ≡ i = ground arith in
      let clash : none ≡ some q = sym fresh ∙ rw same h in absurd (ground arith)
  | inr t ↦ rw t h
]

parent-IsStored :
    (rs : List Response) (i p : ℕ) (r : Response)
    → IsThreaded rs
    → find_response i rs ≡ some r
    → r.parent_id ≡ some p
    → (q : Response) × (find_response p rs ≡ some q)
parent-IsStored [] i p r h e k = absurd (ground arith)
parent-IsStored (x ∷ rs) i p r (fresh, parent, h) e k = elim (Bool-cases (x.id == i)) [
  | inl t ↦
      let same : x ≡ r = ground arith in
      let named : x.parent_id ≡ some p = rw same k in
      let (q, found) : (q : Response) × (find_response p rs ≡ some q) = rw named at parent in
      (q, find-older x rs p q fresh found)
  | inr t ↦
      let (q, found) = parent-IsStored rs i p r h (rw t at e) k in
      (q, find-older x rs p q fresh found)
]

-- A new response leaves the depth of the others as it was.
depth_in-older :
    (r : Response) (rs : List Response) (fuel depth i : ℕ) (q : Response)
    → IsThreaded (r ∷ rs)
    → find_response i rs ≡ some q
    → depth_in fuel depth (r ∷ rs) i ≡ depth_in fuel depth rs i
unfolding depth_in
depth_in-older r rs zero depth i q h e = refl
depth_in-older r rs (suc fuel) depth i q (fresh, parent, h) e =
    let later = find-older r rs i q fresh e in
    elim (Option-cases q.parent_id) [
      | inl k ↦
          depth_in-top fuel depth (r ∷ rs) i q later k ∙ sym (depth_in-top fuel depth rs i q e k)
      | inr (p, k) ↦
          let (o, found) = parent-IsStored rs i p q h e k in
          depth_in-found fuel depth (r ∷ rs) i p q later k
          ∙ depth_in-older r rs fuel (suc depth) p o (fresh, parent, h) found
          ∙ sym (depth_in-found fuel depth rs i p q e k)
    ]

-- As many rounds as there are responses, and one more, are enough.
depth_in-ends :
    (rs : List Response) (fuel depth i : ℕ)
    → IsThreaded rs
    → length rs ≤ fuel
    → (d : ℕ) × (depth_in (suc fuel) depth rs i ≡ some d) × d ≤ depth + length rs
depth_in-ends [] fuel depth i h k = (depth, depth_in-missing fuel depth [] i refl, omega arith)
depth_in-ends (r ∷ rs) zero depth i h k = absurd (omega arith)
depth_in-ends (r ∷ rs) (suc fuel) depth i (fresh, parent, h) k =
    elim (Option-cases (find_response i rs)) [
      | inr (q, e) ↦
          let (d, ends, bound) = depth_in-ends rs (suc fuel) depth i h (omega arith) in
          (
            d,
            depth_in-older r rs (suc (suc fuel)) depth i q (fresh, parent, h) e ∙ ends,
            omega arith,
          )
      | inl e ↦ elim (Bool-cases (r.id == i)) [
        | inr t ↦ (depth, depth_in-missing (suc fuel) depth (r ∷ rs) i (rw t e), omega arith)
        | inl t ↦
            let found : find_response i (r ∷ rs) ≡ some r = rw t refl in
            elim (Option-cases r.parent_id) [
              | inl n ↦ (depth, depth_in-top (suc fuel) depth (r ∷ rs) i r found n, omega arith)
              | inr (p, n) ↦
                  let (q, stored) : (q : Response) × (find_response p rs ≡ some q) =
                    rw n at parent in
                  let (d, ends, bound) = depth_in-ends rs fuel (suc depth) p h (omega arith) in
                  (
                    d,
                    depth_in-found (suc fuel) depth (r ∷ rs) i p r found n
                        ∙ depth_in-older r rs (suc fuel) (suc depth) p q (fresh, parent, h) stored
                        ∙ ends,
                    omega arith,
                  )
            ]
      ]
    ]

module _ {SR : Type 0} ⦃tr : ResponseTable SR⦄ where
  depth_from-in :
      (fuel depth : ℕ) (s : SR) (i : ℕ)
      → depth_from fuel depth s i ≡ depth_in fuel depth (tr.rows s) i
  unfolding depth_from depth_in
  depth_from-in zero depth s i = refl
  depth_from-in (suc fuel) depth s i = elim (Option-cases (find_response i (tr.rows s))) [
    | inl h ↦ rw (tr.find_unique-eq s i, h, depth_from, depth_in) refl
    | inr (r, h) ↦ elim (Option-cases r.parent_id) [
      | inl k ↦ rw (tr.find_unique-eq s i, h, k, depth_from, depth_in) refl
      | inr (p, k) ↦
          rw (tr.find_unique-eq s i, h, k, depth_from, depth_in)
            (depth_from-in fuel (suc depth) s p)
    ]
  ]

  pub calculate_thread_depth-in :
      (i : ℕ) (s : SR)
      → calculate_thread_depth i s ≡ depth_in (suc (length (tr.rows s))) 0 (tr.rows s) i
  unfolding calculate_thread_depth
  calculate_thread_depth-in i s = depth_from-in (suc (length (tr.rows s))) 0 s i

  -- Where every parent was stored before its replies, the loop ends for every response with a depth of at
  -- most the number of responses, within as many rounds as there are responses and one more.
  pub calculate_thread_depth-ends :
      (s : SR) (response_id : ℕ)
      → IsThreaded (tr.rows s)
      → (d : ℕ) × (calculate_thread_depth response_id s ≡ some d) × d ≤ length (tr.rows s)
  calculate_thread_depth-ends s response_id h =
      let (d, ends, bound) =
        depth_in-ends (tr.rows s) (length (tr.rows s)) 0 response_id h (omega arith) in
      (d, calculate_thread_depth-in response_id s ∙ ends, omega (arith, bound))

  -- A reply is one level below its parent.
  pub reply-depth :
      (s t : SR) (r : Response) (p d : ℕ)
      → tr.rows t ≡ r ∷ tr.rows s
      → IsThreaded (r ∷ tr.rows s)
      → r.parent_id ≡ some p
      → calculate_thread_depth p s ≡ some d
      → calculate_thread_depth r.id t ≡ some (suc d)
  reply-depth s t r p d grown (fresh, parent, h) named counted =
      let rs = tr.rows s in
      let (q, stored) : (q : Response) × (find_response p rs ≡ some q) = rw named at parent in
      let found : find_response r.id (r ∷ rs) ≡ some r = ground arith in
      let below : depth_in (suc (length rs)) 0 rs p ≡ some d =
        sym (calculate_thread_depth-in p s) ∙ counted in
      let deeper : depth_in (suc (length rs)) 1 rs p ≡ some (suc d) =
        depth_in-suc (suc (length rs)) 0 rs p ∙ ap (mapped suc) below in
      calculate_thread_depth-in r.id t
      ∙ ap (λ (xs : List Response). depth_in (suc (length xs)) 0 xs r.id) grown
      ∙ depth_in-found (suc (length rs)) 0 (r ∷ rs) r.id p r found named
      ∙ depth_in-older r rs (suc (length rs)) 1 p q (fresh, parent, h) stored
      ∙ deeper
