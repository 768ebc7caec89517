-- ===== src/Panel/Client.antt =====
-- api/panel/panel.go, response.go, protobuf.go, server.go and user.go: the requests to the panel, from
-- the response that the HTTP client returns. The decoders of JSON and of Protocol Buffers and SHA-256
-- are the parameter `Codec`.
pub mod Laws
pub mod UserList
mod Examples
use ppanel_node.Base.{
  ℕ, ◌*◌, String, Option, none, some, List, [], ◌∷◌, Bool, true, false, ◌||◌, if◌then◌else◌, leb,
  nat_beq,
}
use ppanel_node.Base.Eq.{◌==◌, string_eq}
use ppanel_node.Base.Int.{ℤ, pos, int_eq}
use ppanel_node.Base.Text.{trim_space, to_lower}
use ppanel_node.Panel.Types.{UserInfo, UserTraffic}
use ppanel_node.Panel.Protocol.{Protocol, is_supported_protocol}

-- `is_protobuf` is what `isProtobufResponse` finds in the content type.
pub record Response : Type 0 where
  pub status : ℕ
  pub is_protobuf : Bool
  pub etag : String
  pub body : List ℕ

-- What a request returns: a response that may be nil, and whether there is an error.
pub record Exchange : Type 0 where
  pub response : Option Response
  pub failed : Bool

-- The part of `Data` that the modelled code reads; `protocols` may be nil.
pub record ConfigData : Type 0 where
  pub traffic_report_threshold : ℤ
  pub push_interval : ℤ
  pub pull_interval : ℤ
  pub target_version : String
  pub protocols : Option (List Protocol)

pub record ServerConfigResponse : Type 0 where
  pub code : ℤ
  pub msg : String
  pub config : Option ConfigData
  pub use_protobuf : Bool

-- A decoded message with its code and text; the elements of its lists may be nil.
pub record Message (A : Type 0) : Type 0 where
  pub code : ℤ
  pub msg : String
  pub content : Option A

pub record Codec : Type 0 where
  pub json_envelope : List ℕ → Option (ℤ × String)
  pub proto_result : List ℕ → Option (ℤ × String)
  pub json_config : List ℕ → Option ServerConfigResponse
  pub proto_config : List ℕ → Option (Message ConfigData)
  pub json_users : List ℕ → Option (List UserInfo)
  pub proto_users : List ℕ → Option (Message (List (Option UserInfo)))
  pub sha256 : List ℕ → String

pub data ApiError : Type 0 where
  no_response request_failed http_failed undecodable empty_config empty_protocols empty_users :
      ApiError
  refused : ℤ → String → ApiError

pub data Fetched {ℓ} (A : Type ℓ) : Type ℓ where
  fetched : A → Fetched A
  failed : ApiError → Fetched A

infixl 5 ◌>>=◌
abbrev pub ◌>>=◌ {ℓ κ} : {A : Type ℓ} {B : Type κ} → Fetched A → (A → Fetched B) → Fetched B
fetched a >>= f = f a
failed e >>= f = failed e

abbrev pub or_failed {ℓ} : {A : Type ℓ} → Option A → ApiError → Fetched A
or_failed none e = failed e
or_failed (some a) e = fetched a

unfoldable pub check_http_response : Option Response → Fetched (Unit {0})
check_http_response none = failed no_response
check_http_response (some r) = if leb 400 r.status then failed http_failed else fetched tt

unfoldable pub check_panel_envelope : ℤ → String → Fetched (Unit {0})
unfolding trim_space
check_panel_envelope code msg =
    if code == pos 0 || code == pos 200
    then fetched tt
    else failed (refused code (if trim_space msg == "" then "面板返回错误" else msg))

abbrev check_json : Codec → List ℕ → Fetched (Unit {0})
check_json c [] = fetched tt
check_json c (b ∷ body) =
    or_failed (c.json_envelope (b ∷ body)) undecodable >>= λ e. check_panel_envelope e.0 e.1

abbrev check_some : Codec → Response → Fetched (Unit {0})
check_some c r =
    if r.is_protobuf
    then (or_failed (c.proto_result r.body) undecodable >>= λ e.
        check_http_response (some r) >>= λ u. check_panel_envelope e.0 e.1)
    else (check_http_response (some r) >>= λ u. check_json c r.body)

unfoldable pub check_panel_response : Codec → Option Response → Fetched (Unit {0})
unfolding check_http_response check_panel_envelope
check_panel_response c none = failed no_response
check_panel_response c (some r) = check_some c r

-- The end of `ReportUserTraffic`, `ReportNodeOnlineUsers` and `ReportNodeStatus`.
unfoldable pub check_report : Codec → Exchange → Fetched (Unit {0})
unfolding check_panel_response
check_report c x = if x.failed then failed request_failed else check_panel_response c x.response

-- `ServerClient`
pub record ServerClient : Type 0 where
  pub server_config_etag : String
  pub response_body_hash : String
  pub use_protobuf : Bool

abbrev of_message : Message ConfigData → ServerConfigResponse
of_message m = record { code = m.code; msg = m.msg; config = m.content; use_protobuf = false }

abbrev decode_config : Codec → Response → Fetched ServerConfigResponse
decode_config c r =
    if r.is_protobuf
    then (or_failed (c.proto_config r.body) undecodable >>= λ m. fetched (of_message m))
    else or_failed (c.json_config r.body) undecodable

-- What is checked of a decoded configuration.
unfoldable pub check_config : ServerConfigResponse → Fetched (List Protocol)
unfolding check_panel_envelope
check_config resp = do
  u ← check_panel_envelope resp.code resp.msg
  config ← or_failed resp.config empty_config
  or_failed config.protocols empty_protocols

-- The end of `GetServerConfig`: the client, and nil where the body was seen before.
abbrev accept_config :
    Codec
    → ServerClient
    → Response
    → ServerConfigResponse
    → ServerClient × Fetched (Option ServerConfigResponse)
accept_config c client r resp =
    let hash = c.sha256 r.body in
    let tagged : ServerClient =
      if r.etag == "" then client else record client { server_config_etag = r.etag } in
    if client.response_body_hash == hash
    then (tagged, fetched none)
    else (record tagged { response_body_hash = hash }, fetched (some resp))

abbrev when_checked :
    Codec
    → ServerClient
    → Response
    → ServerConfigResponse
    → Fetched (List Protocol)
    → ServerClient × Fetched (Option ServerConfigResponse)
when_checked c client r resp (failed e) = (client, failed e)
when_checked c client r resp (fetched protocols) = accept_config c client r resp

abbrev when_decoded :
    Codec
    → ServerClient
    → Response
    → Fetched ServerConfigResponse
    → ServerClient × Fetched (Option ServerConfigResponse)
when_decoded c client r (failed e) = (client, failed e)
when_decoded c client r (fetched resp) =
    let client' : ServerClient = record client { use_protobuf = r.is_protobuf } in
    let resp' : ServerConfigResponse = record resp { use_protobuf = r.is_protobuf } in
    when_checked c client' r resp' (check_config resp')

-- On a response below status 400.
unfoldable pub read_config :
    Codec → ServerClient → Response → ServerClient × Fetched (Option ServerConfigResponse)
unfolding check_config
read_config c client r =
    if nat_beq r.status 304
    then (client, fetched none)
    else when_decoded c client r (decode_config c r)

abbrev when_http_checked :
    Codec → ServerClient → Option Response → ServerClient × Fetched (Option ServerConfigResponse)
when_http_checked c client none = (client, failed no_response)
when_http_checked c client (some r) =
    if leb 400 r.status then (client, failed http_failed) else read_config c client r

unfoldable pub get_server_config :
    Codec → ServerClient → Exchange → ServerClient × Fetched (Option ServerConfigResponse)
unfolding read_config
get_server_config c client x =
    if x.failed then (client, failed request_failed) else when_http_checked c client x.response

-- `NodeClient`: the ETag of the user list, and the header with the fingerprint of the certificate.
pub record NodeClient : Type 0 where
  pub node_type : String
  pub use_protobuf : Bool
  pub user_etag : String
  pub certificate_sha256 : Option String

abbrev Users : Type 0
Users = NodeClient × Fetched (Option (List UserInfo))

abbrev take_users : NodeClient → Response → Fetched (List UserInfo) → Users
take_users client r (failed e) = (client, failed e)
take_users client r (fetched users) = (record client { user_etag = r.etag }, fetched (some users))

abbrev json_user_list : Codec → NodeClient → Bool → Option Response → Users
json_user_list c client has_failed none = (client, failed no_response)
json_user_list c client has_failed (some r) =
    if nat_beq r.status 304
    then (client, fetched none)
    else if has_failed
    then (client, failed request_failed)
    else if leb 400 r.status
    then (client, failed http_failed)
    else take_users client r (or_failed (c.json_users r.body) undecodable)

-- The loop over the users of the message, which skips those that are nil.
unfoldable pub present : List (Option UserInfo) → List UserInfo
present [] = []
present (none ∷ us) = present us
present (some u ∷ us) = u ∷ present us

abbrev proto_user_list : Codec → List ℕ → Fetched (List UserInfo)
proto_user_list c body = do
  m ← or_failed (c.proto_users body) undecodable
  u ← check_panel_envelope m.code m.msg
  users ← or_failed m.content empty_users
  fetched (present users)

abbrev proto_users_of : Codec → NodeClient → Option Response → Users
proto_users_of c client none = (client, failed no_response)
proto_users_of c client (some r) =
    if leb 400 r.status
    then (client, failed http_failed)
    else if nat_beq r.status 304
    then (client, fetched none)
    else take_users client r (proto_user_list c r.body)

unfoldable pub get_user_list : Codec → NodeClient → Exchange → Users
unfolding present check_panel_envelope
get_user_list c client x =
    if client.use_protobuf
    then (if x.failed then (client, failed request_failed) else proto_users_of c client x.response)
    else json_user_list c client x.failed x.response

-- `NewNodeClient`, none for an unsupported type.
unfoldable pub new_node_client : String → Bool → Option NodeClient
unfolding to_lower is_supported_protocol
new_node_client node_type use_protobuf =
    let client : NodeClient = record {
      node_type = to_lower node_type;
      use_protobuf = use_protobuf;
      user_etag = "";
      certificate_sha256 = none;
    } in
    if is_supported_protocol (to_lower node_type) then some client else none

unfoldable pub set_certificate_sha256 : NodeClient → String → NodeClient
unfolding to_lower trim_space
set_certificate_sha256 client fingerprint =
    let f = to_lower (trim_space fingerprint) in
    record client { certificate_sha256 = if f == "" then none else some f }
