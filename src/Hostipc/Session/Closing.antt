-- ===== src/Hostipc/Session/Closing.antt =====
-- The handshake happens once, and without it the connection is closed.
use codebridge.Base.{
  ◌≡◌, refl, ap, ◌∙◌, true, false, not, String, Option, none, some, List, [], ◌∷◌, arith, str_eq,
  if_lem,
}
use codebridge.Base.Text.{Text}
use codebridge.Hostipc.Methods.{app, known, role_eq, Error}
use codebridge.Hostipc.Hello.{Protocol, HelloParams, Negotiation, agreed, rejected, negotiate}
use codebridge.Hostipc.Session.{
  ServerOptions, Conn, set_handshaken, Message, MessageKind, unknown, request, notification,
  response, kind, Step, Socket, verified_or_refused, negotiated_as, decoded, handle_hello,
  responded, called, permitted, handle_request, Frame, ended, attachment, bad, message, of_kind,
  serve_frame, serve_frames,
}

-- The connection is closed, or the handshake is done and the peer was told so.
abbrev pub Settles : Step → Type 0
Settles step = elim step.conn.hello_seen [
  | true ↦ (step.calls ≡ [])
  | false ↦ (step.close_after ≡ true) × (step.calls ≡ [])
]

module _ (opt : ServerOptions) where
  verified-Settles :
      (socket : Socket) (c : Conn) (id : Text) (params : HelloParams) (p : Protocol)
      (o : Option String)
      → c.hello_seen ≡ false
      → Settles (verified_or_refused opt socket c id params p o)
  unfolding set_handshaken
  verified-Settles socket c id params p (some reason) e = rw e (refl, refl)
  verified-Settles socket c id params p none e = refl

  negotiated-Settles :
      (socket : Socket) (c : Conn) (id : Text) (params : HelloParams) (n : Negotiation)
      → c.hello_seen ≡ false
      → Settles (negotiated_as opt socket c id params n)
  unfolding set_handshaken
  negotiated-Settles socket c id params (rejected r) e = rw e (refl, refl)
  negotiated-Settles socket c id params (agreed p) e =
      if_lem Settles (role_eq params.role app) _ _ (λ a. verified-Settles socket c id params p _ e)
        (λ a. refl)

  decoded-Settles :
      (socket : Socket) (c : Conn) (id : Text) (o : Option HelloParams)
      → c.hello_seen ≡ false
      → Settles (decoded opt socket c id o)
  decoded-Settles socket c id none e = rw e (refl, refl)
  decoded-Settles socket c id (some params) e =
      if_lem Settles (not (known params.role)) _ _ (λ a. rw e (refl, refl))
        (λ a. negotiated-Settles socket c id params (negotiate opt.protocol params.protocol) e)

  hello-Settles :
      (socket : Socket) (c : Conn) (m : Message)
      → c.hello_seen ≡ false
      → Settles (handle_hello opt socket c m)
  unfolding handle_hello
  hello-Settles socket c m e =
      if_lem Settles c.hello_seen _ _ (λ a. absurd (ground (arith, a, e)))
        (λ a. decoded-Settles socket c m.id (opt.decode_hello m.params) e)

  responded-conn :
      (socket : Socket) (c : Conn) (m : Message) (o : Option Text)
      → (responded socket c m o).conn ≡ c
  responded-conn socket c m none = refl
  responded-conn socket c m (some result) = refl

  called-conn :
      (socket : Socket) (c : Conn) (m : Message) (o : Option (Text → Option Text))
      → (called socket c m o).conn ≡ c
  called-conn socket c m none = refl
  called-conn socket c m (some handler) = responded-conn socket c m (handler m.params)

  permitted-conn :
      (socket : Socket) (c : Conn) (m : Message) (o : Option Error)
      → (permitted opt socket c m o).conn ≡ c
  permitted-conn socket c m (some e) = refl
  permitted-conn socket c m none = called-conn socket c m (opt.handlers m.method)

  request-conn :
      (socket : Socket) (c : Conn) (m : Message)
      → c.hello_seen ≡ true
      → (handle_request opt socket c m).conn ≡ c
  unfolding handle_request handle_hello
  request-conn socket c m e =
      let Same = λ (x : Step). x.conn ≡ c in
      if_lem Same (str_eq m.method "host.hello") _ _
        (λ a. if_lem Same c.hello_seen _ _ (λ b. refl) (λ b. absurd (ground (arith, b, e))))
        (λ a. if_lem Same (not c.hello_seen) _ _ (λ b. refl) (λ b. permitted-conn socket c m _))

  kind-conn :
      (socket : Socket) (c : Conn) (m : Message) (k : MessageKind)
      → c.hello_seen ≡ true
      → (of_kind opt socket c m k).conn ≡ c
  kind-conn socket c m request e = request-conn socket c m e
  kind-conn socket c m notification e = refl
  kind-conn socket c m response e = refl
  kind-conn socket c m unknown e = refl

  frame-conn : (c : Conn) (f : Frame) → c.hello_seen ≡ true → (serve_frame opt c f).conn ≡ c
  unfolding serve_frame
  frame-conn c ended e = refl
  frame-conn c attachment e = refl
  frame-conn c (bad r) e = refl
  frame-conn c (message m socket) e = kind-conn socket c m (kind m) e

-- A request on a connection without handshake calls no handler, and either it completes the
-- handshake or the connection is closed after the reply.
pub handle_request-Settles :
    (opt : ServerOptions) (socket : Socket) (c : Conn) (m : Message)
    → c.hello_seen ≡ false
    → Settles (handle_request opt socket c m)
unfolding handle_request
handle_request-Settles opt socket c m e =
    if_lem Settles (str_eq m.method "host.hello") _ _ (λ a. hello-Settles opt socket c m e)
      (λ a.
        if_lem Settles (not c.hello_seen) _ _ (λ b. rw e (refl, refl))
          (λ b. absurd (ground (arith, b, e))))

-- After the handshake no frame changes the connection's role, version, capabilities or
-- verification.
pub serve_frames-conn :
    (opt : ServerOptions) (c : Conn) (frames : List Frame)
    → c.hello_seen ≡ true
    → (serve_frames opt c frames).conn ≡ c
unfolding serve_frames
serve_frames-conn opt c [] e = refl
serve_frames-conn opt c (f ∷ frames) e =
    let same = frame-conn opt c f e in
    if_lem (λ (x : Step). x.conn ≡ c) (serve_frame opt c f).close_after _ _ (λ closed. same)
      (λ stays.
        serve_frames-conn opt (serve_frame opt c f).conn frames
          (ap (λ (x : Conn). x.hello_seen) same ∙ e)
        ∙ same)
