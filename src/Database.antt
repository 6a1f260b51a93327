-- ===== src/Database.antt =====
-- The database client (Prisma) as an interface: what the services rely on of a table, as documented
-- behaviour of its operations on the rows that the table holds. The client is not part of the
-- repository; the tables and their keys are those of packages/db-models/prisma/schema.prisma.
mod Rows
pub mod Evolution
pub mod Keys
pub mod Memory
pub use Rows.*
pub use Keys.*
use mathlib.Core.List.{Memᴰ}
use reasonbridge.Prelude.{
  ℕ, ◌≤◌, ◌≡◌, Bool, true, false, ◌&&◌, Option, none, some, List, ◌∷◌, count, find, filter, not,
  any, All, ◌==◌,
}

-- `S` is the state of a table with rows `Row`; `key` is the primary key and `clash` says that two
-- rows agree on the columns of a unique constraint.
pub record Table (S Row : Type 0) (key : Row → ℕ) (clash : Row → Row → Bool) : Type 0 where
  -- What the table holds.
  pub rows : S → List Row
  -- `findUnique` by the primary key, and by the columns of a unique constraint.
  pub find_unique : S → ℕ → Option Row
  pub find_unique_by : S → (Row → Bool) → Option Row
  -- `findMany` with a `where` clause, and `findFirst` with one and `orderBy: { x: 'desc' }`.
  pub find_many : S → (Row → Bool) → List Row
  pub find_latest : S → (Row → Bool) → (Row → ℕ) → Option Row
  -- `create`: the row is made from the generated primary key; `none` is a violated constraint.
  pub create : S → (ℕ → Row) → Option (Row × S)
  -- `update` and `delete` of the row with a primary key, `deleteMany` and `updateMany`.
  pub update : S → ℕ → (Row → Row) → S
  pub delete : S → ℕ → S
  pub delete_many : S → (Row → Bool) → S
  pub update_many : S → (Row → Bool) → (Row → Row) → S
  pub find_unique-eq : (s : S) (i : ℕ) → find_unique s i ≡ find (λ r. key r == i) (rows s)
  pub find_unique_by-eq : (s : S) (p : Row → Bool) → find_unique_by s p ≡ find p (rows s)
  -- Each matching row is returned as often as it is stored.
  pub count-find_many :
      (s : S) (p q : Row → Bool) → count q (find_many s p) ≡ count (λ r. p r && q r) (rows s)
  pub find_latest-none :
      (s : S) (p : Row → Bool) (at : Row → ℕ) → find_latest s p at ≡ none → count p (rows s) ≡ 0
  pub find_latest-some :
      (s : S) (p : Row → Bool) (at : Row → ℕ) {r : Row}
      → find_latest s p at ≡ some r
      → (p r ≡ true) × Memᴰ r (rows s) × All (λ x. p x ≡ true → at x ≤ at r) (rows s)
  -- A created row has a new key and clashes with no stored row.
  pub create-some :
      (s : S) (mk : ℕ → Row) {r : Row} {t : S}
      → create s mk ≡ some (r, t)
      → (i : ℕ) × (r ≡ mk i)
        × (find (λ x. key x == i) (rows s) ≡ none)
        × (any (clash r) (rows s) ≡ false)
        × (rows t ≡ r ∷ rows s)
  -- `create` fails only on a violated unique constraint: whether the rows that the new one refers to are
  -- stored is checked where a request can name others.
  pub create-none :
      (s : S) (mk : ℕ → Row) → create s mk ≡ none → (i : ℕ) × (any (clash (mk i)) (rows s) ≡ true)
  pub rows-update :
      (s : S) (i : ℕ) (f : Row → Row)
      → rows (update s i f) ≡ modify_first (λ r. key r == i) f (rows s)
  pub rows-delete : (s : S) (i : ℕ) → rows (delete s i) ≡ remove_first (λ r. key r == i) (rows s)
  pub rows-delete_many :
      (s : S) (p : Row → Bool) → rows (delete_many s p) ≡ filter (λ r. not (p r)) (rows s)
  pub rows-update_many :
      (s : S) (p : Row → Bool) (f : Row → Row) → rows (update_many s p f) ≡ modify_all p f (rows s)
