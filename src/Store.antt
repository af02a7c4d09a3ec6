-- ===== src/Store.antt =====
-- app/queue/store.py: the connection, write transactions, and actions on the store that may raise.
use local_image_generator_se.Common.{Option, none, some}
use local_image_generator_se.Schema.{Database, Error, not_connected, assertion}

pub data Result {ℓ} (A : Type ℓ) : Type ℓ where
  ok : A → Result A
  err : Error → Result A

pub record JobStore : Type 0 where
  pub conn : Option Database

abbrev pub connected : Database → JobStore
connected d = record { conn = some d }

-- What was committed before a raise stays, so the store comes back beside the error too.
abbrev pub Exec : Type 0 → Type 0
Exec A = JobStore → Result A × JobStore

-- One transaction's statements.
abbrev pub Transaction : Type 0 → Type 0
Transaction A = Database → Result (A × Database)

abbrev after : {A B : Type 0} → (A → Exec B) → Result A × JobStore → Result B × JobStore
after f (ok a, s) = f a s
after f (err e, s) = (err e, s)

infixl 5 ◌>>=◌ ◌>>◌
abbrev pub ◌>>=◌ : {A B : Type 0} → Exec A → (A → Exec B) → Exec B
◌>>=◌ m f s = after f (m s)

abbrev pub ◌>>◌ : {A B : Type 0} → Exec A → Exec B → Exec B
m >> k = m >>= λ _. k

abbrev pub pure : {A : Type 0} → A → Exec A
pure a s = (ok a, s)

abbrev pub raise : {A : Type 0} → Error → Exec A
raise e s = (err e, s)

-- Commit, or roll back and raise.
abbrev pub settle : {A : Type 0} → Database → Result (A × Database) → Result A × JobStore
settle d (ok (a, d')) = (ok a, connected d')
settle d (err e) = (err e, connected d)

abbrev write_on : {A : Type 0} → Option Database → Transaction A → Result A × JobStore
write_on none body = (err not_connected, record { conn = none })
write_on (some d) body = settle d (body d)

abbrev pub write : {A : Type 0} → Transaction A → Exec A
write body s = write_on s.conn body

abbrev read_on : {A : Type 0} → Option Database → (Database → A) → Result A × JobStore
read_on none query = (err not_connected, record { conn = none })
read_on (some d) query = (ok (query d), connected d)

-- `read()` followed by one SELECT.
abbrev pub read : {A : Type 0} → (Database → A) → Exec A
read query s = read_on s.conn query

-- `assert row is not None`
abbrev pub assert_some : {A : Type 0} → Option A → Exec A
assert_some none = raise assertion
assert_some (some a) = pure a

-- A statement that fails inside a transaction ends it.
abbrev pub then_do : {A B : Type 0} → Result A → (A → Result B) → Result B
then_do (ok a) f = f a
then_do (err e) f = err e
