-- ===== src/Runtime/Store.antt =====
-- internal/runtime/store.go and tx.go: one transaction at a time on the tables of
-- schema/store/v1/schema.sql. A table is a dictionary by its primary key (a child table is a list
-- in its parent's row), the journal a list with the newest entry first. A callback that fails, or a
-- commit that fails, leaves the database as it was: that is SQLite's rollback.
use codebridge.Base.{
  ℕ, String, Bool, true, false, ◌||◌, Option, none, some, List, str_eq, any, if◌then◌else◌,
}
use codebridge.Base.Map.{Dict, lookup}
use codebridge.Runtime.Entities.{
  Project, Session, Run, ProviderSession, ComputerSession, Event, Error, not_found, sql_constraint,
  begin_failed, commit_failed,
}
use codebridge.Runtime.Permits.{Artifact, PolicyRule, Grant, Approval}

pub record Db : Type 0 where
  pub projects : Dict (Project ℕ)
  pub sessions : Dict (Session ℕ)
  pub provider_sessions : Dict (ProviderSession ℕ)
  pub runs : Dict (Run ℕ)
  pub computer_sessions : Dict (ComputerSession ℕ)
  pub artifacts : Dict (Artifact ℕ)
  pub policy_rules : Dict (PolicyRule ℕ)
  pub approvals : Dict (Approval ℕ)
  pub grants : Dict (Grant ℕ)
  pub events : List (Event ℕ)
  pub last_pos : ℕ

pub data Result {ℓ} (A : Type ℓ) : Type ℓ where
  ok : A → Result A
  err : Error → Result A

-- A statement, or a callback of `Update`, on the state of the transaction.
abbrev pub Tx : Type 0 → Type 0
Tx A = Db → Result (A × Db)

infixl 5 ◌>>=◌ ◌>>◌
abbrev pub after_tx : {A B : Type 0} → Result (A × Db) → (A → Tx B) → Result (B × Db)
after_tx (ok (a, db)) f = f a db
after_tx (err e) f = err e

abbrev pub ◌>>=◌ : {A B : Type 0} → Tx A → (A → Tx B) → Tx B
◌>>=◌ m f db = after_tx (m db) f

abbrev pub ◌>>◌ : {B : Type 0} → Tx (Unit {0}) → Tx B → Tx B
m >> k = m >>= λ _. k

abbrev pub return : {A : Type 0} → A → Tx A
return a db = ok (a, db)

abbrev pub fail : {A : Type 0} → Error → Tx A
fail e db = err e

-- `if err := check; err != nil { return err }`
abbrev pub check : Option Error → Tx (Unit {0})
check none = return tt
check (some e) = fail e

-- A statement that writes, refused when it breaks a constraint of the schema.
abbrev pub write : (Db → Bool) → (Db → Db) → Tx (Unit {0})
write allowed change db = if allowed db then ok (tt, change db) else err sql_constraint

abbrev pub found : {A : Type 0} → Option A → Tx A
found none = fail not_found
found (some a) = return a

-- How the transaction itself fares.
pub data Fate : Type 0 where
  fine no_begin no_commit : Fate

abbrev pub finish : {A : Type 0} → Fate → Db → Result (A × Db) → Db × Result A
finish no_begin db r = (db, err begin_failed)
finish fate db (err e) = (db, err e)
finish no_commit db (ok (a, db')) = (db, err commit_failed)
finish fine db (ok (a, db')) = (db', ok a)

-- `Store.Update`.
unfoldable pub update : {A : Type 0} → Fate → Tx A → Db → Db × Result A
update fate fn db = finish fate db (fn db)

-- `if err := ...; err != nil { return err }` ahead of the transaction.
abbrev pub unless_error : {A : Type 0} → Option Error → Db → Db × Result A → Db × Result A
unless_error none db r = r
unless_error (some e) db r = (db, err e)

-- A reference is NULL or names a row.
abbrev pub is_there : {V : Type 0} → Option V → Bool
is_there none = false
is_there (some v) = true

abbrev pub has_row : {V : Type 0} → String → Dict V → Bool
has_row k m = is_there (lookup k m)

abbrev pub refers : {V : Type 0} → String → Dict V → Bool
refers k m = str_eq k "" || has_row k m

abbrev pub one_of : String → List String → Bool
one_of s names = any (λ n. str_eq s n) names
