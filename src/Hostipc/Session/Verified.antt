-- ===== src/Hostipc/Session/Verified.antt =====
-- Which handlers a connection reaches.
use codebridge.Base.{
  ℕ, ◌≡◌, refl, sym, ap, ◌∙◌, Bool, true, false, ◌||◌, not, String, Option, none, some, List, [],
  ◌∷◌, arith, nat_eq, nat_eq_iff, str_eq, if_lem, All, All-append, All-mono, eq_iff, Bool-cases,
  ◌⊎◌, inl, inr,
}
use mathlib.Core.Path.{subst}
use codebridge.Base.Text.{Text}
use codebridge.Hostipc.Methods.{
  Role, app, diagnostics, harness, other, known, role_eq, Error, MethodSpec, method_table,
  find_method, spec_error, authorize, lookup_method,
}
use codebridge.Hostipc.Hello.{Protocol, HelloParams, Negotiation, agreed, rejected}
use codebridge.Hostipc.Session.{
  PeerCred, ServerOptions, Conn, new_conn, set_handshaken, Message, MessageKind, unknown, request,
  notification, response, kind, Call, Step, Socket, handshake, app_error, verified_or_refused,
  negotiated_as, decoded, handle_hello, call_of, responded, called, permitted, handle_request,
  Frame, ended, attachment, bad, message, of_kind, serve_frame, serve_frames, serve_conn,
}

-- The signature of the process passed the configured check.
abbrev pub Verifies : ServerOptions → ℕ → Type 0
Verifies opt pid =
    (verify : (ℕ → Option String)) × (opt.verify_app_peer ≡ some verify) × (verify pid ≡ none)

-- The methods that the local command-line roles may call.
abbrev pub is_open : String → Bool
is_open method =
    str_eq "host.hello" method
    || str_eq "host.health" method
    || str_eq "host.native_host_smoke" method
    || str_eq "host.phase0_probe" method

abbrev pub Trusted : ServerOptions → ℕ → Role → Bool → Type 0
Trusted opt pid role verified =
    (known role ≡ true) × (role_eq role app ≡ true → (verified ≡ true) × Verifies opt pid)

-- The call is one that the table allows to the role, and if it is not open to the command line, the
-- peer is the application.
abbrev pub IsCall : ServerOptions → ℕ → Call → Type 0
IsCall opt pid call =
    (authorize call.method call.role ≡ none)
    × ((is_open call.method ≡ true)
        ⊎ ((call.role ≡ app) × (call.verified ≡ true) × Verifies opt pid))

abbrev OpensFor : Role → MethodSpec → Type 0
OpensFor role spec = spec_error (some spec) role ≡ none → is_open spec.name ≡ true

found-open :
    (method : String) (role : Role) (specs : List MethodSpec)
    → All (OpensFor role) specs
    → spec_error (find_method method specs) role ≡ none
    → is_open method ≡ true
found-open method role [] opens h = absurd (ground arith)
found-open method role (spec ∷ specs) (first, later) h =
    elim (Bool-cases (str_eq spec.name method)) [
      | inl same ↦
          subst (λ m. is_open m ≡ true) ((eq_iff spec.name method).0 same) (first (rw same at h))
      | inr differs ↦ found-open method role specs later (rw differs at h)
    ]

refused_row : {e : Error} {A : Type 0} → some e ≡ none → A
refused_row h = absurd (ground arith)

table-opens :
    (role : Role) → known role ≡ true → role_eq role app ≡ false → All (OpensFor role) method_table
table-opens app k e = absurd (ground arith)
table-opens (other name) k e = absurd (ground arith)
table-opens diagnostics k e = (
  λ h. refl,
  (
    λ h. refl,
    (
      λ h. refl,
      (
        λ h. refl,
        (
          refused_row,
          (
            refused_row,
            (
              refused_row,
              (
                refused_row,
                (
                  refused_row,
                  (
                    refused_row,
                    (
                      refused_row,
                      (
                        refused_row,
                        (
                          refused_row,
                          (
                            refused_row,
                            (
                              refused_row,
                              (refused_row, (refused_row, (refused_row, (refused_row, tt)))),
                            ),
                          ),
                        ),
                      ),
                    ),
                  ),
                ),
              ),
            ),
          ),
        ),
      ),
    ),
  ),
)
table-opens harness k e = (
  λ h. refl,
  (
    λ h. refl,
    (
      λ h. refl,
      (
        refused_row,
        (
          refused_row,
          (
            refused_row,
            (
              refused_row,
              (
                refused_row,
                (
                  refused_row,
                  (
                    refused_row,
                    (
                      refused_row,
                      (
                        refused_row,
                        (
                          refused_row,
                          (
                            refused_row,
                            (
                              refused_row,
                              (refused_row, (refused_row, (refused_row, (refused_row, tt)))),
                            ),
                          ),
                        ),
                      ),
                    ),
                  ),
                ),
              ),
            ),
          ),
        ),
      ),
    ),
  ),
)

open_methods :
    (method : String) (role : Role)
    → known role ≡ true
    → role_eq role app ≡ false
    → authorize method role ≡ none
    → is_open method ≡ true
unfolding authorize lookup_method
open_methods method role k e h = found-open method role method_table (table-opens role k e) h

is_app : (role : Role) → role_eq role app ≡ true → role ≡ app
is_app app h = refl
is_app diagnostics h = absurd (ground arith)
is_app harness h = absurd (ground arith)
is_app (other name) h = absurd (ground arith)

module _ (opt : ServerOptions) (cred : PeerCred) where
  -- A connection that is past its handshake is trusted with its role.
  pub record IsSound (c : Conn) : Type 0 where
    pub same : c.cred ≡ cred
    pub trusted : c.hello_seen ≡ true → Trusted opt cred.pid c.role c.signature_verified

  abbrev Served : Step → Type 0
  Served step = IsSound step.conn × All (IsCall opt cred.pid) step.calls

  app_error-Verifies :
      (c : Conn) (live : Option ℕ) (verify : Option (ℕ → Option String))
      → c.cred ≡ cred
      → opt.verify_app_peer ≡ verify
      → app_error c live verify ≡ none
      → Verifies opt cred.pid
  app_error-Verifies c none verify same e h = absurd (ground arith)
  app_error-Verifies c (some pid) none same e h = elim (Bool-cases (nat_eq pid c.cred.pid)) [
    | inl b ↦ absurd (ground (arith, rw b at h))
    | inr b ↦ absurd (ground (arith, rw b at h))
  ]
  app_error-Verifies c (some pid) (some verify) same e h =
      elim (Bool-cases (nat_eq pid c.cred.pid)) [
        | inl b ↦ (verify, e, ap verify (ap (λ (x : PeerCred). x.pid) (sym same)) ∙ rw b at h)
        | inr b ↦ absurd (ground (arith, rw b at h))
      ]

  handshake-Served :
      (socket : Socket) (c : Conn) (id : Text) (params : HelloParams) (p : Protocol)
      (verified : Bool)
      → c.cred ≡ cred
      → Trusted opt cred.pid params.role verified
      → Served (handshake opt socket c id params p verified)
  unfolding set_handshaken
  handshake-Served socket c id params p verified same t =
      (record { same = same; trusted = λ h. t }, tt)

  verified-Served :
      (socket : Socket) (c : Conn) (id : Text) (params : HelloParams) (p : Protocol)
      (o : Option String)
      → known params.role ≡ true
      → app_error c socket.live_pid opt.verify_app_peer ≡ o
      → IsSound c
      → Served (verified_or_refused opt socket c id params p o)
  verified-Served socket c id params p (some reason) k e v = (v, tt)
  verified-Served socket c id params p none k e v =
      handshake-Served socket c id params p true v.same
        (k, λ h. (refl, app_error-Verifies c socket.live_pid opt.verify_app_peer v.same refl e))

  negotiated-Served :
      (socket : Socket) (c : Conn) (id : Text) (params : HelloParams) (n : Negotiation)
      → known params.role ≡ true
      → IsSound c
      → Served (negotiated_as opt socket c id params n)
  negotiated-Served socket c id params (rejected e) k v = (v, tt)
  negotiated-Served socket c id params (agreed p) k v =
      if_lem Served (role_eq params.role app) _ _
        (λ e. verified-Served socket c id params p _ k refl v)
        (λ e.
          handshake-Served socket c id params p false v.same
            (k, λ h. absurd (ground (arith, e, h))))

  decoded-Served :
      (socket : Socket) (c : Conn) (id : Text) (o : Option HelloParams)
      → IsSound c
      → Served (decoded opt socket c id o)
  decoded-Served socket c id none v = (v, tt)
  decoded-Served socket c id (some params) v =
      if_lem Served (not (known params.role)) _ _ (λ e. (v, tt))
        (λ e. negotiated-Served socket c id params _ (ground (arith, e)) v)

  hello-Served :
      (socket : Socket) (c : Conn) (m : Message) → IsSound c → Served (handle_hello opt socket c m)
  unfolding handle_hello
  hello-Served socket c m v =
      if_lem Served c.hello_seen _ _ (λ e. (v, tt))
        (λ e. decoded-Served socket c m.id (opt.decode_hello m.params) v)

  allowed :
      (c : Conn) (method : String)
      → Trusted opt cred.pid c.role c.signature_verified
      → authorize method c.role ≡ none
      → IsCall opt cred.pid (call_of c method)
  allowed c method (k, t) a = elim (Bool-cases (role_eq c.role app)) [
    | inl e ↦ let (signed, checked) = t e in (a, inr (is_app c.role e, signed, checked))
    | inr e ↦ (a, inl (open_methods method c.role k e a))
  ]

  responded-Served :
      (socket : Socket) (c : Conn) (m : Message) (o : Option Text)
      → IsSound c
      → IsCall opt cred.pid (call_of c m.method)
      → Served (responded socket c m o)
  responded-Served socket c m none v call = (v, (call, tt))
  responded-Served socket c m (some result) v call = (v, (call, tt))

  called-Served :
      (socket : Socket) (c : Conn) (m : Message) (o : Option (Text → Option Text))
      → IsSound c
      → IsCall opt cred.pid (call_of c m.method)
      → Served (called socket c m o)
  called-Served socket c m none v call = (v, tt)
  called-Served socket c m (some handler) v call =
      responded-Served socket c m (handler m.params) v call

  permitted-Served :
      (socket : Socket) (c : Conn) (m : Message) (o : Option Error)
      → authorize m.method c.role ≡ o
      → Trusted opt cred.pid c.role c.signature_verified
      → IsSound c
      → Served (permitted opt socket c m o)
  permitted-Served socket c m (some e) a t v = (v, tt)
  permitted-Served socket c m none a t v =
      called-Served socket c m (opt.handlers m.method) v (allowed c m.method t a)

  request-Served :
      (socket : Socket) (c : Conn) (m : Message)
      → IsSound c
      → Served (handle_request opt socket c m)
  unfolding handle_request
  request-Served socket c m v =
      if_lem Served (str_eq m.method "host.hello") _ _ (λ e. hello-Served socket c m v)
        (λ e.
          if_lem Served (not c.hello_seen) _ _ (λ b. (v, tt))
            (λ b. permitted-Served socket c m _ refl (v.trusted (ground (arith, b))) v))

  kind-Served :
      (socket : Socket) (c : Conn) (m : Message) (k : MessageKind)
      → IsSound c
      → Served (of_kind opt socket c m k)
  kind-Served socket c m request v = request-Served socket c m v
  kind-Served socket c m notification v = (v, tt)
  kind-Served socket c m response v = (v, tt)
  kind-Served socket c m unknown v = (v, tt)

  frame-Served : (c : Conn) (f : Frame) → IsSound c → Served (serve_frame opt c f)
  unfolding serve_frame
  frame-Served c ended v = (v, tt)
  frame-Served c attachment v = (v, tt)
  frame-Served c (bad e) v = (v, tt)
  frame-Served c (message m socket) v = kind-Served socket c m (kind m) v

  frames-Served : (c : Conn) (frames : List Frame) → IsSound c → Served (serve_frames opt c frames)
  unfolding serve_frames
  frames-Served c [] v = (v, tt)
  frames-Served c (f ∷ frames) v =
      let step = serve_frame opt c f in
      let (sound, calls) = frame-Served c f v in
      let (later, more) = frames-Served step.conn frames sound in
      if_lem Served step.close_after _ _ (λ e. (sound, calls))
        (λ e. (
          later,
          All-append (IsCall opt cred.pid) step.calls (serve_frames opt step.conn frames).calls
              calls more,
        ))

-- Whatever frames a peer sends: every handler that is called is one that the method table lets the
-- connection's role call, and if it is not one of the four methods open to the command-line roles,
-- the connection is the application's and the configured check passed the signature of the process
-- that connected. A peer of another user reaches none.
pub serve_conn-IsCall :
    (opt : ServerOptions) (cred : PeerCred) (frames : List Frame)
    → All
        (λ call. IsCall opt cred.pid call × (cred.uid ≡ opt.uid))
        (serve_conn opt cred frames).calls
unfolding serve_conn
serve_conn-IsCall opt cred frames =
    if_lem (λ (x : Step). All (λ call. IsCall opt cred.pid call × (cred.uid ≡ opt.uid)) x.calls)
      (not (nat_eq cred.uid opt.uid)) _ _ (λ foreign. tt)
      (λ own.
        let same : cred.uid ≡ opt.uid = (nat_eq_iff cred.uid opt.uid).0 (ground (arith, own)) in
        All-mono (IsCall opt cred.pid) (λ call. IsCall opt cred.pid call × (cred.uid ≡ opt.uid))
          (serve_frames opt (new_conn cred) frames).calls (λ call h. (h, same))
          (frames-Served opt cred (new_conn cred) frames
            (record { same = refl; trusted = λ h. absurd (ground arith) })).1)
