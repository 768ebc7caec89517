-- ===== src/Lib.antt =====
-- ppanel-node: the node agent of a proxy panel, written in Go around xray-core. The node fetches its
-- users from the panel, lets their links in under speed and device limits, counts their traffic and
-- reports it; its TUIC transport relays UDP packets in fragments.
--
-- Parts, and the files that model them:
--
-- - Base: tests on numbers, lists, Go's maps as association lists (Base/Map, read through `lookup`),
--   Go's `int` (Base/Int) and the string functions that the code calls (Base/Text).
-- - Panel: the data types of api/panel (Panel/Types, Panel/Protocol) and the user key of
--   common/format/user.go (Panel/Format: `user_tag` is `UserTag`).
-- - Limiter: limiter/limiter.go and limiter/dynamic.go. `manager_add`, `manager_get` and
--   `manager_delete` are the methods of `Manager`; `update_user`, `check_limit` (Limiter/Check) and
--   `get_online_device` (Limiter/Online) those of `Limiter`. A `sync.Map` is a map, a call is one step,
--   and the clock is an argument. A token bucket is its two parameters.
-- - Traffic: common/counter (Traffic/Counter), `GetUserTrafficSlice` of core/user.go (Traffic/Slice)
--   and the queue of node/traffic.go (Traffic/Queue: `add` and `report`). The panel's answer to a
--   report is an `Outcome` for each destination; Traffic/Queue/Ledger runs any sequence of both
--   operations. Counts are 64-bit patterns and wrap.
-- - Core: core/user.go (Core/Users: `del_users` and `add_users`; Core/Accounts: the account builders),
--   core/app/dispatcher/linkmanager.go (in Core/Users) and core/validate.go (Core/Validate). The user
--   managers of xray-core are the parameter `UserManagers`.
-- - Node: node/task.go, node/controller.go, node/node.go and cmd/server.go. Node/UserList is
--   `compareUserList`; Node/Controller has `collectTraffic`, a round of `userListMonitor` and the choice
--   of the online users to report. Node/Lifecycle has Prepare, Start, Stop and Close of controllers and
--   nodes, and Node/Lifecycle/Reload the `reload` of the server with its rollback; what they call is the
--   parameter `Env`, whose calls may fail at any time.
-- - Tuic: core/transport/tuic. Tuic/Protocol is protocol.go; Tuic/Message, Tuic/Fragment and
--   Tuic/Defrag are the messages, `fragUDPMessage` and `udpDefragger` of packet.go. A reader is a
--   parser on bytes (Tuic/Reader). What the code uses of xray-core's net package is the parameter
--   `XNet` with the laws `XNetLaws`. Tuic/Connection is the receiving side of `udpPacketConn`,
--   Tuic/Sending its `WritePacket` (`send_packet`) and `writePacketOrFragments`, and Tuic/Session
--   the handlers of `serverSession` in service.go: a handler is one step from the point where
--   `waitAuth` lets it go on, with the choice of its `select` as an argument, the authenticator of
--   xray-core is an argument and is not nil, and Tuic/Session/Run runs any sequence of streams of both
--   kinds, datagrams, the timeout and closings.
-- - Dispatcher: core/app/dispatcher. Dispatcher/Sniffer has sniffer.go and fakednssniffer.go (`sniff`,
--   `sniff_metadata`, `new_sniffer`), Dispatcher/Content the cached reader and the loop of the function
--   `sniffer` of default.go, Dispatcher/Override `shouldOverride` and what follows from it,
--   Dispatcher/Route `routedDispatch`, Dispatcher/Link `getLink`, the admission of `DispatchLink` and
--   countreader.go, and Dispatcher/Dispatch puts them together as `Dispatch` and `DispatchLink` do. The
--   protocol sniffers, the router, the handlers and addresses of xray-core are parameters (`Probes`,
--   `Handlers`, `Routing`, `Addresses`). A pipe is a number, a writer or reader is the list of what a
--   byte passes on its way.
-- - Outbound: core/outbound/build.go. Outbound/Domains has `buildRouteDomains` and the domains of name
--   servers, Outbound/Settings `buildOutboundSettings`, Outbound/Stream `buildOutboundStreamConfig` and
--   Outbound/Build `Build`. Whether xray-core and the JSON encoder accept what is built is the parameter
--   `XrayConf`.
-- - Panel/Client: the checks of api/panel/response.go, `GetServerConfig` of server.go, `GetUserList` of
--   user.go in both encodings and the constructors of panel.go. A request is an `Exchange`: whether it
--   failed, and the response if there is one. The decoders are the parameter `Codec`.
-- - Task: common/task/task.go. The goroutine of each `Start`, its timer and any number of `Close` calls
--   are a step relation (`Step`, `Reach`) between the points where the code waits.
-- - SelfUpdate: internal/selfupdate and cmd/upgrade.go. SelfUpdate/Version has the versions, asset names
--   and digests, SelfUpdate/Release the download, SelfUpdate/Replace `ReplaceVerified` and `Replace` on a
--   file system (`Files`) whose calls may fail (`System`), SelfUpdate/Apply the back-off,
--   `ApplyTargetVersion` and the upgrade command. HTTP, SHA-256, the archive format and what a binary
--   prints are parameters (`Sources`, `System`).
-- - Cert: node/cert.go and node/lego.go. Cert/Store has `writeFileAtomically`, `writeCertificatePair` and
--   `securePrivateKeyFile` on files with a mode, where any call may fail; Cert/Usable is
--   `loadUsableCertificate`, Cert/Request `requestCert`, `RenewCert` and `renewCertTask`, and Cert/Dns
--   `SetProvider` with `applyDNSEnvironment`. Go's tls and x509 are the parameter `Pki`, the ACME client
--   and the generation of keys `Issuer` and `Client`.
-- - Inbound: core/inbound/build.go, of which the TLS settings and the transport are modelled.
--
-- How they interact: a round of `user_list_monitor` compares the lists, moves the traffic of the inbound
-- into the queue, deletes and adds users in the core and updates the limiter. The core's counters feed
-- the slice, the slice feeds the queue, and the panel empties it. All maps of users are keyed by
-- `user_tag`. The dispatcher asks the limiter before it lets a link in (`admit` calls `check_limit`),
-- enters the link in the link managers that `del_users` closes, and takes the counters that the slice
-- reads.
--
-- Fuel: `pieces` runs on the length of the data, of which every round takes a byte at least; `decimal`
-- runs on the number itself, which a division by ten makes smaller; `content_loop` runs on a list of
-- rounds, one for each pass of the loop, and two are enough. Everything else is structural. A
-- panic is a value: `none`, `panic` or `panicked`. A mutex or an atomic operation makes one step.
--
-- Not modelled: xray-core itself and its start, QUIC and the listener and read deadline of TUIC, what the
-- builders of the inbounds' protocols make, the ACME account file and the digest of a certificate, the
-- bodies of requests and the conversion of Protocol Buffers field by field, the configuration file,
-- logging, the command line and the dependency check. They are input and output, or calls of libraries.
mod Base
pub mod Panel
pub mod Limiter
pub mod Traffic
pub mod Core
pub mod Dispatcher
pub mod Node
pub mod Task
pub mod Outbound
pub mod Tuic
pub mod SelfUpdate
pub mod Cert
pub mod Inbound
