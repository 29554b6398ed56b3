-- ===== src/Runtime/Policies/Channels.antt =====
-- What a stored grant never is, whichever way it was put.
use codebridge.Base.{
  ℕ, String, Bool, true, false, ◌&&◌, ◌||◌, not, ◌≡◌, ◌≢◌, ◌⊎◌, refl, Option, none, some, List, [],
  ◌∷◌, arith, str_eq, str_ne, eq_iff,
}
use codebridge.Base.Map.{lookup, insert, Each, Each-insert}
use codebridge.Runtime.Entities.{Time, ms, require_text}
use codebridge.Runtime.Permits.{Grant}
use codebridge.Runtime.Store.{Db, Result, ok, err, Fate, update, check, one_of}
use codebridge.Runtime.Rollback.{bind-ok, update-ok, update-err}
use codebridge.Runtime.Tables.Written.{check-ok, write-ok}
use codebridge.Runtime.Policies.{
  grant_times, upsert_grant, is_computer_verb, project_rule, session_rule, remote_rule, grant_words,
  grant_refs, grant_ok, put_grant,
}

-- The rules on scopes and channels of a grant.
pub record IsPermitted (g : Grant ℕ) : Type 0 where
  pub project_scope : g.scope ≡ "project" → is_computer_verb g.verb ≡ false
  pub session_scope : g.scope ≡ "session" → g.session_id ≢ ""
  pub remote_scope : g.channel ≡ "remote_human" → (g.scope ≡ "once") ⊎ (g.scope ≡ "session")
  pub remote_verb :
      g.channel ≡ "remote_human" → (g.verb ≢ "secret.read") × (g.verb ≢ "cloud.upload")

abbrev pub GrantAt : String → Grant ℕ → Type 0
GrantAt k g = IsPermitted g

last_three :
    (a b x y z : Bool) → (a && b && x && y && z) ≡ true → (x ≡ true) × (y ≡ true) × (z ≡ true)
last_three a b x y z h = (ground arith, ground arith, ground arith)

implied : (p q : Bool) → (not p || not q) ≡ true → p ≡ true → q ≡ false
implied p q h k = ground arith

implied_both : (p s v : Bool) → (not p || (s && not v)) ≡ true → p ≡ true → (s ≡ true) × (v ≡ false)
implied_both p s v h k = (ground arith, ground arith)

one_of_two : (s a b : String) → one_of s (a ∷ b ∷ []) ≡ true → (s ≡ a) ⊎ (s ≡ b)
one_of_two s a b h = ground (arith, eq_iff s a, eq_iff s b)

one_of_neither :
    (s a b : String) → one_of s (a ∷ b ∷ []) ≡ false → (str_eq s a ≡ false) × (str_eq s b ≡ false)
one_of_neither s a b h = (ground arith, ground arith)

grant_ok-IsPermitted : (g : Grant ℕ) (db : Db) → grant_ok g db ≡ true → IsPermitted g
unfolding grant_ok
grant_ok-IsPermitted g db h =
    let (project, session, remote) =
      last_three (grant_words g) (grant_refs g db) (project_rule g) (session_rule g) (remote_rule g)
        h in
    let by_remote : g.channel ≡ "remote_human"
        → (one_of g.scope ("once" ∷ "session" ∷ []) ≡ true)
          × (one_of g.verb ("secret.read" ∷ "cloud.upload" ∷ []) ≡ false) =
      λ e.
        implied_both (str_eq g.channel "remote_human") (one_of g.scope ("once" ∷ "session" ∷ []))
          (one_of g.verb ("secret.read" ∷ "cloud.upload" ∷ [])) remote
          ((eq_iff g.channel "remote_human").1 e) in
    record {
      project_scope = λ e.
          implied (str_eq g.scope "project") (is_computer_verb g.verb) project
            ((eq_iff g.scope "project").1 e);
      session_scope = λ e. str_ne (
          implied (str_eq g.scope "session") (str_eq g.session_id "") session
            ((eq_iff g.scope "session").1 e));
      remote_scope = λ e. one_of_two g.scope "once" "session" (by_remote e).0;
      remote_verb = λ e.
          let neither = one_of_neither g.verb "secret.read" "cloud.upload" (by_remote e).1 in
          (str_ne neither.0, str_ne neither.1);
    }

upsert_grant-IsPermitted :
    (o : Option (Grant ℕ)) (g : Grant ℕ) → IsPermitted g → IsPermitted (upsert_grant o g)
upsert_grant-IsPermitted none g v = v
upsert_grant-IsPermitted (some old) g v = record {
  project_scope = v.project_scope;
  session_scope = v.session_scope;
  remote_scope = v.remote_scope;
  remote_verb = v.remote_verb;
}

abbrev with_grant : Grant Time → Db → Db
with_grant g db = record db {
  grants = insert g.id (upsert_grant (lookup g.id db.grants) (grant_times ms g)) db.grants;
}

put_grant-ok :
    (g : Grant Time) (db db' : Db) (u : Unit {0})
    → put_grant g db ≡ ok (u, db')
    → (grant_ok (grant_times ms g) db ≡ true) × (db' ≡ with_grant g db)
unfolding put_grant
put_grant-ok g db db' u h =
    let (v, db1, checked, written) = bind-ok (check (require_text g.id)) _ db u db' h in
    let c = check-ok (require_text g.id) db db1 v checked in
    write-ok (grant_ok (grant_times ms g)) (with_grant g) db db' u (rw c.1 at written)

put_grant-IsPermitted :
    (g : Grant Time) (db db' : Db) (u : Unit {0})
    → Each GrantAt db.grants
    → put_grant g db ≡ ok (u, db')
    → Each GrantAt db'.grants
put_grant-IsPermitted g db db' u old h =
    let (allowed, written) = put_grant-ok g db db' u h in
    let row = grant_times ms g in
    rw written (
      Each-insert GrantAt g.id (upsert_grant (lookup g.id db.grants) row) db.grants
        (upsert_grant-IsPermitted (lookup g.id db.grants) row (grant_ok-IsPermitted row db allowed))
        old)

-- Grants that are put one after the other, each in its own transaction, whether or not it works.
unfoldable pub put_all : List (Fate × Grant Time) → Db → Db
put_all [] db = db
put_all ((fate, g) ∷ gs) db = put_all gs (update fate (put_grant g) db).0

one_put :
    (fate : Fate) (g : Grant Time) (db : Db) (r : Result (Unit {0}))
    → (update fate (put_grant g) db).1 ≡ r
    → Each GrantAt db.grants
    → Each GrantAt (update fate (put_grant g) db).0.grants
one_put fate g db (err e) h old = rw (update-err fate (put_grant g) db e h) old
one_put fate g db (ok u) h old =
    put_grant-IsPermitted g db _ u old (update-ok fate (put_grant g) db u h)

-- If the grants in the table keep the rules, then whatever grants a caller tries to store, those in
-- the table keep them: none that came by the remote_human channel lasts beyond a session or covers
-- secret.read or cloud.upload, a session-scoped one names its session, and no project-scoped one
-- covers a computer verb.
pub put_all-IsPermitted :
    (gs : List (Fate × Grant Time)) (db : Db)
    → Each GrantAt db.grants
    → Each GrantAt (put_all gs db).grants
unfolding put_all
put_all-IsPermitted [] db old = old
put_all-IsPermitted ((fate, g) ∷ gs) db old =
    put_all-IsPermitted gs (update fate (put_grant g) db).0 (one_put fate g db _ refl old)
