-- ===== src/Hostipc/Tests.antt =====
-- The theorems on one connection: an application says hello and sends a decision.
use codebridge.Base.{
  ◌≡◌, refl, true, false, ◌&&◌, String, none, some, List, [], ◌∷◌, All, nat_eq, str_eq,
  if◌then◌else◌,
}
use codebridge.Base.Text.{codes}
use codebridge.Hostipc.Methods.{app}
use codebridge.Hostipc.Hello.{HelloParams, Capability, among, negotiate_capabilities}
use codebridge.Hostipc.Hello.Negotiated.{IsDistinct, negotiate_capabilities_lem}
use codebridge.Hostipc.Session.{
  ServerOptions, PeerCred, Conn, new_conn, Message, Socket, Frame, message, handle_request,
  serve_conn, serve_frames,
}
use codebridge.Hostipc.Session.Verified.{IsCall, serve_conn-IsCall}
use codebridge.Hostipc.Session.Closing.{Settles, handle_request-Settles, serve_frames-conn}

abbrev app_hello : HelloParams
app_hello = record {
  protocol = record { major = 1; minor = 0 };
  role = app;
  capabilities = "computer" ∷ "host" ∷ "computer" ∷ [];
}

-- Only the process 7 is signed.
abbrev options : ServerOptions
options = record {
  uid = 501;
  protocol = record { major = 1; minor = 0 };
  version = "1";
  capabilities = "host" ∷ "computer" ∷ [];
  verify_app_peer = some (λ pid. if nat_eq pid 7 then none else some "app_signature_invalid");
  handlers =
      λ method. if str_eq method "approval.decision" then some (λ params. some params) else none;
  decode_hello = λ params. some app_hello;
}

abbrev cred : PeerCred
cred = record { uid = 501; pid = 7 }

abbrev socket : Socket
socket = record { live_pid = some 7; sent = true }

abbrev sends : String → Message
sends method = record { id = codes "1"; method = method; params = []; has_result = false }

abbrev frames : List Frame
frames = message (sends "host.hello") socket ∷ message (sends "approval.decision") socket ∷ []

one_call :
    (serve_conn options cred frames).calls
    ≡ record { method = "approval.decision"; role = app; verified = true } ∷ []
unfolding serve_conn
one_call = refl

serve_conn-IsCall_example :
    All
      (λ call. IsCall options 7 call × (cred.uid ≡ options.uid))
      (serve_conn options cred frames).calls
serve_conn-IsCall_example = serve_conn-IsCall options cred frames

handle_request-Settles_example :
    Settles (handle_request options socket (new_conn cred) (sends "approval.decision"))
handle_request-Settles_example =
    handle_request-Settles options socket (new_conn cred) (sends "approval.decision") refl

abbrev ready : Conn
ready = (serve_conn options cred (message (sends "host.hello") socket ∷ [])).conn

is_ready : ready.hello_seen ≡ true
unfolding serve_conn
is_ready = refl

serve_frames-conn_example : (serve_frames options ready frames).conn ≡ ready
serve_frames-conn_example = serve_frames-conn options ready frames is_ready

negotiate_capabilities_lem_example :
    ((c : Capability)
      → among c (negotiate_capabilities options.capabilities app_hello.capabilities)
        ≡ (among c options.capabilities && among c app_hello.capabilities))
    × IsDistinct (negotiate_capabilities options.capabilities app_hello.capabilities)
negotiate_capabilities_lem_example =
    negotiate_capabilities_lem options.capabilities app_hello.capabilities
