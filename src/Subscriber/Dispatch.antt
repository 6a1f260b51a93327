-- ===== src/Subscriber/Dispatch.antt =====
-- Which handlers of an event run, and what taking a handler off undoes.
use reasonbridge.Prelude.{
  ℕ, ◌≡◌, ◌≢◌, ◌⊎◌, refl, ap, Bool, true, false, not, Option, none, some, List, [], ◌∷◌, ◌++◌,
  arith, filter, any, ◌==◌, Bool-cases, inl, inr,
}
use reasonbridge.Subscriber.{
  Handlers, Reply, Processed, registered, unless_empty, on, off, run_handlers, process_envelope,
}

-- What a reply makes of an event; none where the next handler runs.
abbrev pub stopped : Reply → Option Processed
stopped Reply.done = none
stopped (Reply.refused retry) = some (Processed.failure retry)
stopped Reply.threw = some (Processed.failure true)

Reply-cases :
    (r : Reply)
    → (r ≡ Reply.done) ⊎ (((retry : Bool) × (r ≡ Reply.refused retry)) ⊎ (r ≡ Reply.threw))
Reply-cases Reply.done = inl refl
Reply-cases (Reply.refused retry) = inr (inl (retry, refl))
Reply-cases Reply.threw = inr (inr refl)

module _ {W : Type 0} (run : ℕ → W → Reply × W) where
  -- The handlers run in turn, all of them done, from one world to another.
  pub data Ran : List ℕ → W → W → Type 0 where
    nobody : (w : W) → Ran [] w w
    one :
        (h : ℕ) (hs : List ℕ) (w v : W)
        → (run h w).0 ≡ Reply.done
        → Ran hs (run h w).1 v
        → Ran (h ∷ hs) w v

  -- Either all handlers ran and were done, or those before one did, which refused or threw, and no
  -- later one ran.
  abbrev pub IsDispatched : List ℕ → W → Processed × W → Type 0
  IsDispatched hs w r =
      ((r.0 ≡ Processed.success) × Ran hs w r.1)
      ⊎ ((before : List ℕ) × (h : ℕ) × (later : List ℕ) × (v : W) × (hs ≡ before ++ h ∷ later)
          × Ran before w v
          × (stopped (run h v).0 ≡ some r.0)
          × (r.1 ≡ (run h v).1))

  run_handlers-IsDispatched : (hs : List ℕ) (w : W) → IsDispatched hs w (run_handlers run hs w)
  run_handlers-IsDispatched [] w = inl (refl, Ran.nobody w)
  run_handlers-IsDispatched (h ∷ hs) w = elim (Reply-cases (run h w).0) [
    | inl e ↦
        rw (e, run_handlers)
          (elim (run_handlers-IsDispatched hs (run h w).1) [
            | inl (ok, ran) ↦ inl (ok, Ran.one h hs w _ e ran)
            | inr (before, k, later, v, split, ran, why, world) ↦ inr (
              h ∷ before,
              k,
              later,
              v,
              ap (λ (xs : List ℕ). h ∷ xs) split,
              Ran.one h before w v e ran,
              why,
              world,
            )
          ])
    | inr (inl (retry, e)) ↦
        rw (e, run_handlers) (inr ([], h, hs, w, refl, Ran.nobody w, rw e refl, refl))
    | inr (inr e) ↦ rw (e, run_handlers) (inr ([], h, hs, w, refl, Ran.nobody w, rw e refl, refl))
  ]

  -- An event runs the handlers of its type in the order of registration: it succeeds where all of
  -- them are done, and else has the failure of the first that refuses or throws, after which no
  -- handler runs. A handler that throws asks for a retry.
  pub process_envelope-IsDispatched :
      (type : ℕ) (m : Handlers) (w : W)
      → IsDispatched (registered (m type)) w (process_envelope run type m w)
  unfolding process_envelope
  process_envelope-IsDispatched type m w = run_handlers-IsDispatched (registered (m type)) w

filter-append :
    (h : ℕ) (xs : List ℕ)
    → any (λ x. x == h) xs ≡ false
    → filter (λ x. not (x == h)) (xs ++ h ∷ []) ≡ xs
filter-append h [] e = let same : (h == h) ≡ true = ground arith in rw same refl
filter-append h (x ∷ xs) e = elim (Bool-cases (x == h)) [
  | inl t ↦ absurd (ground arith)
  | inr t ↦ rw t (ap (λ (ys : List ℕ). x ∷ ys) (filter-append h xs (rw t at e)))
]

unless_empty-registered : (o : Option (List ℕ)) → o ≢ some [] → unless_empty (registered o) ≡ o
unless_empty-registered none h = refl
unless_empty-registered (some []) h = absurd (h refl)
unless_empty-registered (some (x ∷ xs)) h = refl

-- Where no type has an empty list of handlers, taking off a handler that has just been registered,
-- and was not before, restores the handlers of every type.
pub off-on :
    (type h : ℕ) (m : Handlers)
    → ((t : ℕ) → m t ≢ some [])
    → any (λ x. x == h) (registered (m type)) ≡ false
    → (t : ℕ) → off type h (on type h m) t ≡ m t
unfolding off on
off-on type h m full new t =
    let at_type : (type == type) ≡ true = ground arith in
    elim (Bool-cases (t == type)) [
      | inr other ↦ rw other refl
      | inl same ↦
          let is_type : t ≡ type = ground arith in
          rw (is_type, at_type, filter-append h (registered (m type)) new)
            (unless_empty-registered (m type) (full type))
    ]
