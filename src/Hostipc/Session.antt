-- ===== src/Hostipc/Session.antt =====
-- internal/hostipc/server.go: one connection, from its acceptance to its close, frame by frame. The
-- handlers, the code signature check and what the socket answers are arguments, as is the decoding
-- of JSON. The answers to the daemon's own requests (deliverResponse) change nothing here.
pub mod Verified
pub mod Closing
use codebridge.Base.{
  ℕ, Bool, true, false, ◌&&◌, not, String, Option, none, some, List, [], ◌∷◌, ◌++◌, nat_eq, str_eq,
  if◌then◌else◌,
}
use codebridge.Base.Text.{Text, is_empty}
use codebridge.Hostipc.Methods.{
  Role, app, other, known, role_eq, Error, invalid_request, invalid_params, unknown_role,
  not_initialized, unsupported, handler_error, unauthorized, authorize,
}
use codebridge.Hostipc.Hello.{
  Protocol, Capability, HelloParams, Negotiation, agreed, rejected, negotiate,
  negotiate_capabilities,
}

pub record PeerCred : Type 0 where
  pub uid : ℕ
  pub pid : ℕ

-- `verify_app_peer` is `none` where no signing identity is configured; it gives the reason of a
-- refusal. `handlers` gives what the registered handler of a method answers for its parameters.
pub record ServerOptions : Type 0 where
  pub uid : ℕ
  pub protocol : Protocol
  pub version : String
  pub capabilities : List Capability
  pub verify_app_peer : Option (ℕ → Option String)
  pub handlers : String → Option (Text → Option Text)
  pub decode_hello : Text → Option HelloParams

pub record Conn : Type 0 where
  pub cred : PeerCred
  pub role : Role
  pub negotiated : Protocol
  pub capabilities : List Capability
  pub hello_seen : Bool
  pub signature_verified : Bool

abbrev pub new_conn : PeerCred → Conn
new_conn cred = record {
  cred = cred;
  role = other "";
  negotiated = record { major = 0; minor = 0 };
  capabilities = [];
  hello_seen = false;
  signature_verified = false;
}

unfoldable pub set_handshaken : Role → Protocol → List Capability → Bool → Conn → Conn
set_handshaken role p caps verified c = record c {
  role = role;
  negotiated = p;
  capabilities = caps;
  hello_seen = true;
  signature_verified = verified;
}

pub record Message : Type 0 where
  pub id : Text
  pub method : String
  pub params : Text
  pub has_result : Bool

pub data MessageKind : Type 0 where
  unknown request notification response : MessageKind

unfoldable pub kind : Message → MessageKind
kind m =
    if not (str_eq m.method "") && not (is_empty m.id)
    then request
    else if not (str_eq m.method "")
    then notification
    else if not (is_empty m.id) && m.has_result
    then response
    else unknown

pub record HelloResult : Type 0 where
  pub protocol : Protocol
  pub daemon_version : String
  pub capabilities : List Capability
  pub role : Role
  pub signature_verified : Bool
  pub peer_uid : ℕ

pub data Reply : Type 0 where
  accepted : Text → HelloResult → Reply
  answered : Text → Text → Reply
  failed : Text → Error → Reply

-- A handler that was called: its method, the connection's role, and whether its signature was
-- verified.
pub record Call : Type 0 where
  pub method : String
  pub role : Role
  pub verified : Bool

-- What one frame does to the connection.
pub record Step : Type 0 where
  pub conn : Conn
  pub replies : List Reply
  pub calls : List Call
  pub close_after : Bool

abbrev pub refuse : Conn → Text → Error → Bool → Step
refuse c id e close_after = record {
  conn = c;
  replies = failed id e ∷ [];
  calls = [];
  close_after = close_after;
}

-- What the socket answers while one message is served: the live pid of the peer, and whether the
-- reply can be written.
pub record Socket : Type 0 where
  pub live_pid : Option ℕ
  pub sent : Bool

abbrev pub hello_result : ServerOptions → Conn → HelloParams → Protocol → Bool → HelloResult
hello_result opt c params p verified = record {
  protocol = p;
  daemon_version = opt.version;
  capabilities = negotiate_capabilities opt.capabilities params.capabilities;
  role = params.role;
  signature_verified = verified;
  peer_uid = c.cred.uid;
}

abbrev pub handshake : ServerOptions → Socket → Conn → Text → HelloParams → Protocol → Bool → Step
handshake opt socket c id params p verified = record {
  conn =
      set_handshaken params.role p (negotiate_capabilities opt.capabilities params.capabilities)
        verified c;
  replies = accepted id (hello_result opt c params p verified) ∷ [];
  calls = [];
  close_after = not socket.sent;
}

-- The reason for which an application is refused, if there is one.
abbrev pub app_error : Conn → Option ℕ → Option (ℕ → Option String) → Option String
app_error c none verify = some "peer_pid_unavailable"
app_error c (some pid) none =
    if not (nat_eq pid c.cred.pid)
    then some "peer_pid_changed"
    else some "signing_identity_not_configured"
app_error c (some pid) (some verify) =
    if not (nat_eq pid c.cred.pid) then some "peer_pid_changed" else verify c.cred.pid

abbrev pub verified_or_refused :
    ServerOptions → Socket → Conn → Text → HelloParams → Protocol → Option String → Step
verified_or_refused opt socket c id params p (some reason) = refuse c id (unauthorized reason) true
verified_or_refused opt socket c id params p none = handshake opt socket c id params p true

abbrev pub negotiated_as : ServerOptions → Socket → Conn → Text → HelloParams → Negotiation → Step
negotiated_as opt socket c id params (rejected e) = refuse c id e true
negotiated_as opt socket c id params (agreed p) =
    if role_eq params.role app
    then verified_or_refused opt socket c id params p
        (app_error c socket.live_pid opt.verify_app_peer)
    else handshake opt socket c id params p false

abbrev pub decoded : ServerOptions → Socket → Conn → Text → Option HelloParams → Step
decoded opt socket c id none = refuse c id invalid_params true
decoded opt socket c id (some params) =
    if not (known params.role)
    then refuse c id unknown_role true
    else negotiated_as opt socket c id params (negotiate opt.protocol params.protocol)

unfoldable pub handle_hello : ServerOptions → Socket → Conn → Message → Step
unfolding negotiate negotiate_capabilities set_handshaken
handle_hello opt socket c m =
    if c.hello_seen
    then refuse c m.id invalid_request false
    else decoded opt socket c m.id (opt.decode_hello m.params)

abbrev pub call_of : Conn → String → Call
call_of c method = record { method = method; role = c.role; verified = c.signature_verified }

abbrev pub responded : Socket → Conn → Message → Option Text → Step
responded socket c m none = record {
  conn = c;
  replies = failed m.id handler_error ∷ [];
  calls = call_of c m.method ∷ [];
  close_after = false;
}
responded socket c m (some result) = record {
  conn = c;
  replies = answered m.id result ∷ [];
  calls = call_of c m.method ∷ [];
  close_after = not socket.sent;
}

abbrev pub called : Socket → Conn → Message → Option (Text → Option Text) → Step
called socket c m none = refuse c m.id unsupported false
called socket c m (some handler) = responded socket c m (handler m.params)

abbrev pub permitted : ServerOptions → Socket → Conn → Message → Option Error → Step
permitted opt socket c m (some e) = refuse c m.id e false
permitted opt socket c m none = called socket c m (opt.handlers m.method)

unfoldable pub handle_request : ServerOptions → Socket → Conn → Message → Step
unfolding handle_hello authorize
handle_request opt socket c m =
    if str_eq m.method "host.hello"
    then handle_hello opt socket c m
    else if not c.hello_seen
    then refuse c m.id not_initialized true
    else permitted opt socket c m (authorize m.method c.role)

-- What ReadFrame and DecodeMessage give.
pub data Frame : Type 0 where
  ended attachment : Frame
  bad : Error → Frame
  message : Message → Socket → Frame

abbrev pub quiet : Conn → Bool → Step
quiet c close_after = record { conn = c; replies = []; calls = []; close_after = close_after }

abbrev pub of_kind : ServerOptions → Socket → Conn → Message → MessageKind → Step
of_kind opt socket c m request = handle_request opt socket c m
of_kind opt socket c m notification = quiet c false
of_kind opt socket c m response = quiet c false
of_kind opt socket c m unknown = refuse c m.id invalid_request false

unfoldable pub serve_frame : ServerOptions → Conn → Frame → Step
unfolding handle_request kind
serve_frame opt c ended = quiet c true
serve_frame opt c attachment = refuse c [] invalid_request true
serve_frame opt c (bad e) = refuse c [] e true
serve_frame opt c (message m socket) = of_kind opt socket c m (kind m)

abbrev pub followed_by : Step → Step → Step
followed_by first rest = record rest {
  replies = first.replies ++ rest.replies;
  calls = first.calls ++ rest.calls;
}

-- The loop over the frames: what comes after a close is not read.
unfoldable pub serve_frames : ServerOptions → Conn → List Frame → Step
unfolding serve_frame
serve_frames opt c [] = quiet c false
serve_frames opt c (f ∷ frames) =
    let step = serve_frame opt c f in
    let rest = followed_by step (serve_frames opt step.conn frames) in
    if step.close_after then step else rest

-- A peer of another user is turned away.
unfoldable pub serve_conn : ServerOptions → PeerCred → List Frame → Step
unfolding serve_frames
serve_conn opt cred frames =
    let served = serve_frames opt (new_conn cred) frames in
    if not (nat_eq cred.uid opt.uid) then quiet (new_conn cred) true else served

-- The connections that a notification goes to.
unfoldable pub broadcast : List Conn → List Conn
broadcast [] = []
broadcast (c ∷ conns) = if c.hello_seen then c ∷ broadcast conns else broadcast conns
