-- ===== src/Authserver/Subjects.antt =====
-- Every grant of the server is some configured user's.
use codebridge.Base.{
  ℕ, ◌≡◌, refl, sym, Bool, true, false, ◌||◌, not, Option, none, some, List, arith, ltb, if_lem,
  Bool-cases, some-inj, inl, inr,
}
use mathlib.Core.Path.{subst}
use codebridge.Base.Text.{Text, is_empty, text_eq}
use codebridge.Authserver.{
  Table, with_entry, kept, retained, Config, AuthCode, Session, RefreshGrant, Persisted, Server,
  is_live, prune, persist,
}
use codebridge.Authserver.Authorize.{
  Web, Form, Checked, passed, failed, AuthorizeRequest, issued, issue_code, Page, live_subject,
  session_subject, shown_or_issued, password_matches, with_session, validate_authorize_request,
}
use codebridge.Authserver.Tokens.{
  TokenAnswer, Draw, issue_tokens, CodeRequest, exchanged, refreshed,
}
use codebridge.Authserver.Exchanges.{with_entry-at}

-- Each entry of the table satisfies `P`.
abbrev pub EachEntry : {V : Type 0} → (V → Type 0) → Table V → Type 0
EachEntry P table = (k : Text) (v : _) → table k ≡ some v → P v

pub EachEntry-with_entry :
    {V : Type 0} (P : V → Type 0) (key : Text) (v : V) (table : Table V)
    → P v
    → EachEntry P table
    → EachEntry P (with_entry key (some v) table)
EachEntry-with_entry P key v table here there k w h = elim (Bool-cases (text_eq key k)) [
  | inl same ↦ subst P (some-inj (rw (with_entry-at, same) at h)) here
  | inr other ↦ there k w (rw (with_entry-at, other) at h)
]

pub EachEntry-erased :
    {V : Type 0} (P : V → Type 0) (key : Text) (table : Table V)
    → EachEntry P table
    → EachEntry P (with_entry key none table)
EachEntry-erased P key table there k w h = elim (Bool-cases (text_eq key k)) [
  | inl same ↦ absurd (ground (arith, with_entry-at key none table k, same, h))
  | inr other ↦ there k w (rw (with_entry-at, other) at h)
]

kept-some : {V : Type 0} (p : V → Bool) (o : Option V) (v : V) → kept p o ≡ some v → o ≡ some v
kept-some p none v h = absurd (ground arith)
kept-some p (some w) v h = ground (arith, h)

pub EachEntry-retained :
    {V : Type 0} (P : V → Type 0) (p : V → Bool) (table : Table V)
    → EachEntry P table
    → EachEntry P (retained p table)
EachEntry-retained P p table there k v h = there k v (kept-some p (table k) v h)

-- The subject is a configured user, and some password passed the comparison with its hash.
abbrev pub IsUser : (Text → Text → Bool) → Config → Text → Type 0
IsUser compare cfg subject =
    (password hash : Text) × (cfg.users subject ≡ some hash) × (compare password hash ≡ true)

abbrev pub FileIsAuthorized : (Text → Text → Bool) → Config → Option Persisted → Type 0
FileIsAuthorized compare cfg none = Unit {0}
FileIsAuthorized compare cfg (some p) =
    EachEntry (λ (g : RefreshGrant). IsUser compare cfg g.subject) p.refresh

pub record IsAuthorized (compare : Text → Text → Bool) (cfg : Config) (s : Server) : Type 0 where
  pub same : s.cfg ≡ cfg
  pub of_codes : EachEntry (λ (c : AuthCode). IsUser compare cfg c.subject) s.codes
  pub of_sessions : EachEntry (λ (x : Session). IsUser compare cfg x.subject) s.sessions
  pub of_refresh : EachEntry (λ (g : RefreshGrant). IsUser compare cfg g.subject) s.refresh
  pub of_file : FileIsAuthorized compare cfg s.file

module _ (compare : Text → Text → Bool) (cfg : Config) where
  pub prune-IsAuthorized :
      (now : ℕ) (s : Server) → IsAuthorized compare cfg s → IsAuthorized compare cfg (prune now s)
  unfolding prune
  prune-IsAuthorized now s v = record {
    same = v.same;
    of_codes = v.of_codes;
    of_sessions = EachEntry-retained _ _ s.sessions v.of_sessions;
    of_refresh = EachEntry-retained _ _ s.refresh v.of_refresh;
    of_file = v.of_file;
  }

  pub persist-IsAuthorized :
      (written : Bool) (s : Server)
      → IsAuthorized compare cfg s
      → IsAuthorized compare cfg (persist written s)
  unfolding persist
  persist-IsAuthorized true s v = record {
    same = v.same;
    of_codes = v.of_codes;
    of_sessions = v.of_sessions;
    of_refresh = v.of_refresh;
    of_file = v.of_refresh;
  }
  persist-IsAuthorized false s v = v

  pub with_codes :
      (s : Server) (table : Table AuthCode)
      → IsAuthorized compare cfg s
      → EachEntry (λ (c : AuthCode). IsUser compare cfg c.subject) table
      → IsAuthorized compare cfg (record s { codes = table })
  with_codes s table v each = record {
    same = v.same;
    of_codes = each;
    of_sessions = v.of_sessions;
    of_refresh = v.of_refresh;
    of_file = v.of_file;
  }

  with_refresh :
      (s : Server) (table : Table RefreshGrant)
      → IsAuthorized compare cfg s
      → EachEntry (λ (g : RefreshGrant). IsUser compare cfg g.subject) table
      → IsAuthorized compare cfg (record s { refresh = table })
  with_refresh s table v each = record {
    same = v.same;
    of_codes = v.of_codes;
    of_sessions = v.of_sessions;
    of_refresh = each;
    of_file = v.of_file;
  }

  issued-IsAuthorized :
      (now : ℕ) (code : Text) (s : Server) (form : Form) (subject : Text)
      (c : Checked AuthorizeRequest)
      → IsUser compare cfg subject
      → IsAuthorized compare cfg s
      → IsAuthorized compare cfg (issued now code s form subject c).0
  issued-IsAuthorized now code s form subject (failed e) user v = v
  issued-IsAuthorized now code s form subject (passed req) user v = with_codes s _ v (
      EachEntry-retained _ _ _ (
        EachEntry-with_entry (λ (c : AuthCode). IsUser compare cfg c.subject) code _ s.codes user
          v.of_codes))

  pub issue_code-IsAuthorized :
      (now : ℕ) (web : Web) (code : Text) (s : Server) (form : Form) (subject : Text)
      → IsUser compare cfg subject
      → IsAuthorized compare cfg s
      → IsAuthorized compare cfg (issue_code now web code s form subject).0
  unfolding issue_code
  issue_code-IsAuthorized now web code s form subject user v =
      issued-IsAuthorized now code s form subject (validate_authorize_request web s form) user v

  live_subject-IsUser :
      (now : ℕ) (s : Server) (o : Option Session)
      → ((x : Session) → o ≡ some x → IsUser compare cfg x.subject)
      → is_empty (live_subject now o) ≡ false
      → IsUser compare cfg (live_subject now o)
  live_subject-IsUser now s none user filled = absurd (ground arith)
  live_subject-IsUser now s (some x) user filled = elim (Bool-cases (is_live now x.expires_at)) [
    | inl live ↦ rw live (user x refl)
    | inr late ↦ absurd (ground (arith, rw late at filled))
  ]

  pub session_subject-IsUser :
      (now : ℕ) (s : Server) (cookie : Text)
      → IsAuthorized compare cfg s
      → is_empty (session_subject now s cookie) ≡ false
      → IsUser compare cfg (session_subject now s cookie)
  unfolding session_subject
  session_subject-IsUser now s cookie v =
      if_lem (λ x. is_empty x ≡ false → IsUser compare cfg x) (is_empty cookie) _ _
        (λ e filled. absurd (ground arith))
        (λ e. live_subject-IsUser now s (s.sessions cookie) (v.of_sessions cookie))

  pub shown-IsAuthorized :
      (now : ℕ) (web : Web) (code : Text) (s : Server) (form : Form) (subject : Text)
      (c : Checked AuthorizeRequest)
      → (is_empty subject ≡ false → IsUser compare cfg subject)
      → IsAuthorized compare cfg s
      → IsAuthorized compare cfg (shown_or_issued now web code s form subject c).0
  shown-IsAuthorized now web code s form subject (failed e) user v = v
  shown-IsAuthorized now web code s form subject (passed req) user v =
      if_lem (λ (x : Server × Page). IsAuthorized compare cfg x.0) (is_empty subject) _ _ (λ e. v)
        (λ e. issue_code-IsAuthorized now web code s form subject (user e) v)

  pub password_matches-IsUser :
      (password user : Text) (o : Option Text)
      → o ≡ cfg.users user
      → password_matches compare password o ≡ true
      → IsUser compare cfg user
  password_matches-IsUser password user none e h = absurd (ground arith)
  password_matches-IsUser password user (some hash) e h = (password, hash, sym e, h)

  pub with_session-IsAuthorized :
      (now : ℕ) (sid : Text) (s : Server) (user : Text)
      → IsUser compare cfg user
      → IsAuthorized compare cfg s
      → IsAuthorized compare cfg (with_session now sid s user)
  with_session-IsAuthorized now sid s user known v = record {
    same = v.same;
    of_codes = v.of_codes;
    of_sessions =
        EachEntry-with_entry (λ (x : Session). IsUser compare cfg x.subject) sid _ s.sessions known
          v.of_sessions;
    of_refresh = v.of_refresh;
    of_file = v.of_file;
  }

  issue_tokens-IsAuthorized :
      (d : Draw) (s : Server) (client_id subject resource : Text) (scopes : List Text)
      → IsUser compare cfg subject
      → IsAuthorized compare cfg s
      → IsAuthorized compare cfg (issue_tokens d s client_id subject resource scopes).0
  unfolding issue_tokens
  issue_tokens-IsAuthorized d s client_id subject resource scopes user v =
      if_lem (λ (x : Server × TokenAnswer). IsAuthorized compare cfg x.0) (not d.signs) _ _
        (λ unsigned. v)
        (λ signed. persist-IsAuthorized d.written _ (
          prune-IsAuthorized d.now _ (
            with_refresh s _ v (
              EachEntry-with_entry (λ (g : RefreshGrant). IsUser compare cfg g.subject) d.token _
                s.refresh user v.of_refresh))))

  pub exchanged-IsAuthorized :
      (pkce_s256 : Text → Text) (d : Draw) (s : Server) (req : CodeRequest) (o : Option AuthCode)
      → ((c : AuthCode) → o ≡ some c → IsUser compare cfg c.subject)
      → IsAuthorized compare cfg s
      → IsAuthorized compare cfg (exchanged pkce_s256 d s req o).0
  exchanged-IsAuthorized pkce_s256 d s req none user v = v
  exchanged-IsAuthorized pkce_s256 d s req (some gr) user v =
      let P = λ (x : Server × TokenAnswer). IsAuthorized compare cfg x.0 in
      let v' =
        with_codes s (with_entry req.code none s.codes) v
          (EachEntry-erased _ req.code s.codes v.of_codes) in
      if_lem P (ltb gr.expires_at d.now) _ _ (λ a. v')
        (λ a.
          if_lem P
            (not (text_eq req.client_id gr.client_id)
              || not (text_eq req.redirect_uri gr.redirect_uri))
            _ _ (λ b. v')
            (λ b.
              if_lem P (not (text_eq (pkce_s256 req.code_verifier) gr.code_challenge)) _ _ (λ c. v')
                (λ c.
                  issue_tokens-IsAuthorized d _ gr.client_id gr.subject gr.resource gr.scopes
                    (user gr refl) v')))

  pub refreshed-IsAuthorized :
      (d : Draw) (s : Server) (raw client_id : Text) (o : Option RefreshGrant)
      → ((g : RefreshGrant) → o ≡ some g → IsUser compare cfg g.subject)
      → IsAuthorized compare cfg s
      → IsAuthorized compare cfg (refreshed d s raw client_id o).0
  refreshed-IsAuthorized d s raw client_id none user v = v
  refreshed-IsAuthorized d s raw client_id (some gr) user v =
      let P = λ (x : Server × TokenAnswer). IsAuthorized compare cfg x.0 in
      let v' =
        with_refresh s (with_entry raw none s.refresh) v
          (EachEntry-erased _ raw s.refresh v.of_refresh) in
      if_lem P (ltb gr.expires_at d.now) _ _ (λ a. v')
        (λ a.
          if_lem P (not (text_eq gr.client_id client_id)) _ _ (λ b. v')
            (λ b.
              issue_tokens-IsAuthorized d _ gr.client_id gr.subject gr.resource gr.scopes
                (user gr refl) v'))
