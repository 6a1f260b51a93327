-- ===== src/Subscriber.antt =====
-- The registration and the dispatch of packages/common/src/events/EventSubscriber.ts. A handler is
-- a number, its identity; what it does is a parameter. Event types are numbers, since the code only
-- compares them. The polling of the brokers is left to the subclasses.
pub mod Dispatch
mod Examples
use reasonbridge.Prelude.{
  ℕ, Bool, true, false, not, Option, none, some, List, [], ◌∷◌, ◌++◌, filter, if◌then◌else◌, ◌==◌,
}

-- `handlers: Map<string, EventHandler[]>`
abbrev pub Handlers : Type 0
Handlers = ℕ → Option (List ℕ)

-- What a handler does: it returns nothing or a success, returns a failure, or throws.
pub data Reply : Type 0 where
  done : Reply
  refused : (should_retry : Bool) → Reply
  threw : Reply

-- `ProcessingResult`
pub data Processed : Type 0 where
  success : Processed
  failure : (should_retry : Bool) → Processed

abbrev pub registered : Option (List ℕ) → List ℕ
registered none = []
registered (some hs) = hs

abbrev pub set_handlers : ℕ → Option (List ℕ) → Handlers → Handlers
set_handlers type hs m t = if t == type then hs else m t

unfoldable pub on : ℕ → ℕ → Handlers → Handlers
on type h m = set_handlers type (some (registered (m type) ++ h ∷ [])) m

-- A list without handlers is taken out of the map.
abbrev pub unless_empty : List ℕ → Option (List ℕ)
unless_empty [] = none
unless_empty (h ∷ hs) = some (h ∷ hs)

unfoldable pub off : ℕ → ℕ → Handlers → Handlers
off type h m = set_handlers type (unless_empty (filter (λ x. not (x == h)) (registered (m type)))) m

module _ {W : Type 0} (run : ℕ → W → Reply × W) where
  -- The loop over the handlers, up to the first that refuses or throws.
  abbrev pub run_handlers : List ℕ → W → Processed × W
  run_handlers [] w = (Processed.success, w)
  run_handlers (h ∷ hs) w =
      let rest = run_handlers hs (run h w).1 in
      elim (run h w).0 [
        | Reply.done ↦ rest
        | Reply.refused retry ↦ (Processed.failure retry, (run h w).1)
        | Reply.threw ↦ (Processed.failure true, (run h w).1)
      ]

  unfoldable pub process_envelope : ℕ → Handlers → W → Processed × W
  process_envelope type m w = run_handlers (registered (m type)) w
