-- ===== src/Panel/Client/Laws.antt =====
-- What a client remembers of a response, and which responses are taken.
use ppanel_node.Base.{
  String, Option, none, some, List, Bool, true, false, if◌then◌else◌, leb, nat_beq, ◌≡◌, ◌≢◌, refl,
  sym, ◌∙◌, ◌⊎◌, ◌||◌, inl, inr, Bool-cases,
}
use ppanel_node.Base.Eq.{◌==◌, string_eq, beq_refl}
use ppanel_node.Base.Int.{ℤ, pos, int_eq}
use ppanel_node.Panel.Protocol.{Protocol}
use ppanel_node.Panel.Client.{
  Response, Exchange, ConfigData, ServerConfigResponse, ApiError, request_failed, empty_config,
  empty_protocols, or_failed, ◌>>=◌, check_panel_envelope, Codec, Fetched, fetched, failed,
  ServerClient, decode_config, check_config, accept_config, when_checked, when_decoded, read_config,
  when_http_checked, get_server_config,
}

-- The memory of what was received.
abbrev Remembers : ServerClient → ServerClient → Type 0
Remembers client client' =
    (client'.server_config_etag ≡ client.server_config_etag)
    × (client'.response_body_hash ≡ client.response_body_hash)

-- A response that came without an error, of a status below 400.
abbrev pub IsAnswered : Exchange → Response → Type 0
IsAnswered x r = (x.failed ≡ false) × (x.response ≡ some r) × (leb 400 r.status ≡ false)

-- A configuration as it was decoded: its code is one of success, and it and its protocols are there.
abbrev pub IsComplete : Codec → Response → ServerConfigResponse → Type 0
IsComplete c r resp =
    (decoded : ServerConfigResponse) × (config : ConfigData) × (protocols : List Protocol)
    × (decode_config c r ≡ fetched decoded)
    × (resp ≡ record decoded { use_protobuf = r.is_protobuf })
    × ((decoded.code == pos 0 || decoded.code == pos 200) ≡ true)
    × (decoded.config ≡ some config)
    × (config.protocols ≡ some protocols)

-- What an answer says of the exchange, and of the client before and after.
abbrev pub IsTaken :
    Codec → ServerClient → Exchange → ServerClient → Fetched (Option ServerConfigResponse) → Type 0
IsTaken c client x client' (failed e) = Remembers client client'
IsTaken c client x client' (fetched none) =
    (r : Response) × IsAnswered x r
    × ((nat_beq r.status 304 ≡ true) ⊎ (client.response_body_hash ≡ c.sha256 r.body))
    × (client'.response_body_hash ≡ client.response_body_hash)
IsTaken c client x client' (fetched (some resp)) =
    (r : Response) × IsAnswered x r
    × (nat_beq r.status 304 ≡ false)
    × IsComplete c r resp
    × ((client.response_body_hash == c.sha256 r.body) ≡ false)
    × (client'.response_body_hash ≡ c.sha256 r.body)

or_failed-eq {ℓ} :
    {A : Type ℓ} (o : Option A) (e : ApiError) {a : A} → or_failed o e ≡ fetched a → o ≡ some a
or_failed-eq none e h = cc h
or_failed-eq (some b) e h = cc h

chain_eq {ℓ κ} :
    {A : Type ℓ} {B : Type κ} {b : B} (first : Fetched A) (second : A → Fetched B)
    → (first >>= second) ≡ fetched b
    → (a : A) × (first ≡ fetched a) × (second a ≡ fetched b)
chain_eq (failed e) second h = cc h
chain_eq (fetched a) second h = (a, refl, h)

accepted_code :
    (code : ℤ) (msg : String) {u : Unit {0}}
    → check_panel_envelope code msg ≡ fetched u
    → (code == pos 0 || code == pos 200) ≡ true
unfolding check_panel_envelope
accepted_code code msg h = elim (Bool-cases (code == pos 0 || code == pos 200)) [
  | inl good ↦ good
  | inr bad ↦ cc (rw bad at h)
]

-- What is checked of a decoded configuration.
check_config-parts :
    (resp : ServerConfigResponse) (protocols : List Protocol)
    → check_config resp ≡ fetched protocols
    → (config : ConfigData) × ((resp.code == pos 0 || resp.code == pos 200) ≡ true)
      × (resp.config ≡ some config)
      × (config.protocols ≡ some protocols)
unfolding check_config
check_config-parts resp protocols h =
    let (u, code, h1) = chain_eq (check_panel_envelope resp.code resp.msg) _ h in
    let (config, there, h2) = chain_eq (or_failed resp.config empty_config) _ h1 in
    (
      config,
      accepted_code resp.code resp.msg code,
      or_failed-eq resp.config empty_config there,
      or_failed-eq config.protocols empty_protocols h2,
    )

module _ (c : Codec) (client : ServerClient) (x : Exchange) (r : Response)
    (answered : IsAnswered x r) (changed : nat_beq r.status 304 ≡ false) where
  accept_config-IsTaken :
      (client' : ServerClient) (resp : ServerConfigResponse)
      → client'.response_body_hash ≡ client.response_body_hash
      → IsComplete c r resp
      → IsTaken c client x (accept_config c client' r resp).0 (accept_config c client' r resp).1
  accept_config-IsTaken client' resp same complete =
      elim (Bool-cases (client'.response_body_hash == c.sha256 r.body)) [
        | inl seen ↦
            let known : client'.response_body_hash ≡ c.sha256 r.body =
              (string_eq.beq_iff client'.response_body_hash (c.sha256 r.body)).0 seen in
            rw seen (r, answered, inr (sym same ∙ known), tagged-hash client' r.etag ∙ same)
        | inr new ↦ rw new (r, answered, changed, complete, rw (← same) new, refl)
      ]
    where
      tagged-hash :
          (k : ServerClient) (etag : String)
          → (if etag == "" then k else record k { server_config_etag = etag }).response_body_hash
            ≡ k.response_body_hash
      tagged-hash k etag = elim (Bool-cases (etag == "")) [
        | inl empty ↦ rw empty refl
        | inr other ↦ rw other refl
      ]

  when_checked-IsTaken :
      (client' : ServerClient) (decoded : ServerConfigResponse) (checked : Fetched (List Protocol))
      → Remembers client client'
      → decode_config c r ≡ fetched decoded
      → check_config (record decoded { use_protobuf = r.is_protobuf }) ≡ checked
      → IsTaken c client x
          (when_checked c client' r (record decoded { use_protobuf = r.is_protobuf }) checked).0
          (when_checked c client' r (record decoded { use_protobuf = r.is_protobuf }) checked).1
  when_checked-IsTaken client' decoded (failed e) same read checked = same
  when_checked-IsTaken client' decoded (fetched protocols) same read checked =
      let resp : ServerConfigResponse = record decoded { use_protobuf = r.is_protobuf } in
      let (config, code, there, listed) = check_config-parts resp protocols checked in
      accept_config-IsTaken client' resp same.1
        (decoded, config, protocols, read, refl, code, there, listed)

  when_decoded-IsTaken :
      (decoded : Fetched ServerConfigResponse)
      → decode_config c r ≡ decoded
      → IsTaken c client x (when_decoded c client r decoded).0 (when_decoded c client r decoded).1
  when_decoded-IsTaken (failed e) read = (refl, refl)
  when_decoded-IsTaken (fetched resp) read =
      when_checked-IsTaken (record client { use_protobuf = r.is_protobuf }) resp
        (check_config (record resp { use_protobuf = r.is_protobuf })) (refl, refl) read refl

module _ (c : Codec) (client : ServerClient) (x : Exchange) where
  read_config-IsTaken :
      (r : Response)
      → IsAnswered x r
      → IsTaken c client x (read_config c client r).0 (read_config c client r).1
  unfolding read_config
  read_config-IsTaken r answered = elim (Bool-cases (nat_beq r.status 304)) [
    | inl same ↦ rw same (r, answered, inl same, refl)
    | inr other ↦
        rw other (when_decoded-IsTaken c client x r answered other (decode_config c r) refl)
  ]

  when_http_checked-IsTaken :
      (o : Option Response)
      → x.failed ≡ false
      → x.response ≡ o
      → IsTaken c client x (when_http_checked c client o).0 (when_http_checked c client o).1
  when_http_checked-IsTaken none came e = (refl, refl)
  when_http_checked-IsTaken (some r) came e = elim (Bool-cases (leb 400 r.status)) [
    | inl bad ↦ rw bad (refl, refl)
    | inr good ↦ rw good (read_config-IsTaken r (came, e, good))
  ]

  -- `GetServerConfig` returns a configuration only from a response that came without an error, of a
  -- status below 400 other than 304, that decodes to one with a code of success, with a configuration
  -- and with protocols, and whose body is not the one that was seen last; then it remembers the body. It
  -- returns nil only for status 304 or for the body that was seen last. On every error the ETag and the
  -- digest of the body that the client remembers stay as they are, so the next request asks again.
  pub get_server_config-IsTaken :
      IsTaken c client x (get_server_config c client x).0 (get_server_config c client x).1
  unfolding get_server_config
  get_server_config-IsTaken = came-IsTaken x.failed refl
    where
      came-IsTaken :
          (b : Bool)
          → x.failed ≡ b
          → IsTaken c client x
              (if b
                then (client, failed request_failed)
                else when_http_checked c client x.response).0
              (if b
                then (client, failed request_failed)
                else when_http_checked c client x.response).1
      came-IsTaken true e = (refl, refl)
      came-IsTaken false e = when_http_checked-IsTaken x.response e refl

taken_some :
    (c : Codec) (client : ServerClient) (x : Exchange) (r : Response) (client' : ServerClient)
    (f : Fetched (Option ServerConfigResponse)) (resp : ServerConfigResponse)
    → IsTaken c client x client' f
    → x.response ≡ some r
    → f ≡ fetched (some resp)
    → ((client.response_body_hash == c.sha256 r.body) ≡ false)
      × (client'.response_body_hash ≡ c.sha256 r.body)
taken_some c client x r client' f resp taken p q =
    let (r0, answered, changed, complete, new, stored) : IsTaken c client x client'
        (fetched (some resp)) =
      rw q at taken in
    let same : some r0 ≡ some r = sym answered.1 ∙ p in
    let e : r0 ≡ r = cc same in (rw (← e) new, rw (← e) stored)

-- The same configuration is never handed out twice in a row: after one was returned, a response with a
-- body of the same digest gives none.
pub get_server_config_once :
    (c : Codec) (client : ServerClient) (x y : Exchange) (r r' : Response)
    (resp resp' : ServerConfigResponse)
    → x.response ≡ some r
    → y.response ≡ some r'
    → c.sha256 r'.body ≡ c.sha256 r.body
    → (get_server_config c client x).1 ≡ fetched (some resp)
    → (get_server_config c (get_server_config c client x).0 y).1 ≢ fetched (some resp')
get_server_config_once c client x y r r' resp resp' first second same one two =
    let client' = (get_server_config c client x).0 in
    let client2 = (get_server_config c client' y).0 in
    let (unseen, kept) =
      taken_some c client x r client' (get_server_config c client x).1 resp
        (get_server_config-IsTaken c client x) first one in
    let (unseen', kept') =
      taken_some c client' y r' client2 (get_server_config c client' y).1 resp'
        (get_server_config-IsTaken c client' y) second two in
    let stored : client'.response_body_hash ≡ c.sha256 r'.body = kept ∙ sym same in
    let seen : (client'.response_body_hash == c.sha256 r'.body) ≡ true =
      rw stored (beq_refl (c.sha256 r'.body)) in
    let clash : true ≡ false = sym seen ∙ unseen' in cc clash
