-- ===== src/Runtime/Rollback.antt =====
-- internal/runtime/tx.go: what a callback of `Update` that failed, or one that succeeded, leaves.
use codebridge.Base.{◌≡◌, refl, arith}
use codebridge.Runtime.Entities.{Error}
use codebridge.Runtime.Store.{
  Db, Result, ok, err, Tx, after_tx, ◌>>=◌, Fate, fine, no_begin, no_commit, finish, update,
}

module _ {A : Type 0} where
  finish-err :
      (fate : Fate) (db : Db) (r : Result (A × Db)) (e : Error)
      → (finish fate db r).1 ≡ err e
      → (finish fate db r).0 ≡ db
  finish-err no_begin db r e h = refl
  finish-err no_commit db (ok (a, db')) e h = refl
  finish-err no_commit db (err f) e h = refl
  finish-err fine db (ok (a, db')) e h = ground arith
  finish-err fine db (err f) e h = refl

  finish-ok :
      (fate : Fate) (db : Db) (r : Result (A × Db)) (a : A)
      → (finish fate db r).1 ≡ ok a
      → r ≡ ok (a, (finish fate db r).0)
  finish-ok no_begin db r a h = ground arith
  finish-ok no_commit db (ok (b, db')) a h = ground arith
  finish-ok no_commit db (err f) a h = ground arith
  finish-ok fine db (ok (b, db')) a h = ground arith
  finish-ok fine db (err f) a h = ground arith

  pub update-err :
      (fate : Fate) (fn : Tx A) (db : Db) (e : Error)
      → (update fate fn db).1 ≡ err e
      → (update fate fn db).0 ≡ db
  unfolding update
  update-err fate fn db e h = finish-err fate db (fn db) e h

  pub update-ok :
      (fate : Fate) (fn : Tx A) (db : Db) (a : A)
      → (update fate fn db).1 ≡ ok a
      → fn db ≡ ok (a, (update fate fn db).0)
  unfolding update
  update-ok fate fn db a h = finish-ok fate db (fn db) a h

after-ok :
    {A B : Type 0} (r : Result (A × Db)) (f : A → Tx B) (b : B) (db2 : Db)
    → after_tx r f ≡ ok (b, db2)
    → (a : A) × (db1 : Db) × (r ≡ ok (a, db1)) × (f a db1 ≡ ok (b, db2))
after-ok (ok (a, db1)) f b db2 h = (a, db1, refl, h)
after-ok (err e) f b db2 h = ground arith

-- Statements that succeed in sequence succeed one after the other.
pub bind-ok :
    {A B : Type 0} (m : Tx A) (f : A → Tx B) (db : Db) (b : B) (db2 : Db)
    → (m >>= f) db ≡ ok (b, db2)
    → (a : A) × (db1 : Db) × (m db ≡ ok (a, db1)) × (f a db1 ≡ ok (b, db2))
bind-ok m f db b db2 h = after-ok (m db) f b db2 h
