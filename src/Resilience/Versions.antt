-- ===== src/Resilience/Versions.antt =====
-- The version check of optimistic-lock-handler.ts on a store `S` whose row has a version; the two
-- functions that it is given read the version and write the row.
use reasonbridge.Prelude.{ℕ, ◌+◌, if◌then◌else◌, ◌==◌}
use reasonbridge.Resilience.{Attempt}

-- `OptimisticLockException`
pub record Conflict : Type 0 where
  pub current_version : ℕ
  pub provided_version : ℕ

unfoldable pub validate_version : (current provided : ℕ) → Attempt Conflict (Unit {0})
validate_version current provided =
    if current == provided
    then Attempt.returned tt
    else Attempt.threw (record { current_version = current; provided_version = provided })

-- `withVersionIncrement`: the version to write beside the data.
unfoldable pub with_version_increment : (current provided : ℕ) → Attempt Conflict ℕ
unfolding validate_version
with_version_increment current provided = elim (validate_version current provided) [
  | Attempt.returned _ ↦ Attempt.returned (current + 1)
  | Attempt.threw e ↦ Attempt.threw e
]

module _ {S T : Type 0} (get_current_version : S → ℕ) (update_fn : ℕ → S → T × S) where
  -- What runs from one `await` to the next: reading and checking the version, then writing.
  unfoldable pub check_version : ℕ → S → Attempt Conflict ℕ
  unfolding with_version_increment
  check_version provided s = with_version_increment (get_current_version s) provided

  abbrev pub apply_update : Attempt Conflict ℕ → S → Attempt Conflict T × S
  apply_update (Attempt.returned new_version) s =
      (Attempt.returned (update_fn new_version s).0, (update_fn new_version s).1)
  apply_update (Attempt.threw e) s = (Attempt.threw e, s)

  unfoldable pub perform_optimistic_update : ℕ → S → Attempt Conflict T × S
  unfolding check_version
  perform_optimistic_update provided s = apply_update (check_version provided s) s
