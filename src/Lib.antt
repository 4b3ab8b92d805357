-- ===== src/Lib.antt =====
-- openconnectd is a daemon that runs ocserv VPN servers: an HTTP API over a manager, which renders a
-- config file for each instance, issues certificates, sets passwords, keeps its records in one JSON
-- file, and supervises one ocserv process for each instance. This library models the daemon's own
-- logic and proves what makes it correct.
--
-- The parts, and the file of this library that models each:
--   internal/state/store.go       Store: Open, the getters and the four mutations; Store/View says what
--                                 a store is to its users, Store/Disk what is on disk, Store/Invariant
--                                 what stays true of it.
--   internal/ocserv/config.go     Render: InstanceConfig.Render line by line, with Render/Routes
--                                 (dedupSorted) and Render/Network (splitCIDR); Render/Outcome says when
--                                 it fails and Render/Lines what a reader sees of the file.
--   internal/ocserv/process.go    Process: Start, Reload, Stop, Running; Process/Reach has every run.
--   internal/ocserv/ocpasswd.go   Ocpasswd: SetPassword, DeleteUser, ListUsers.
--   internal/ocserv/pki.go        Pki: the paths and the parameters; Pki/Authority (EnsureCA, loadCA,
--                                 writeCRL), Pki/Certs (IssueClient, ClientBundle, EnsureServerCert),
--                                 Pki/Revoked (RevokeClient, IsRevoked), Pki/Serial (the serials in hex).
--   internal/ocserv/manager.go    Params (defaults, ports and names, the body of a patch), PerUser (the
--                                 pins of addresses), Manager/Config (instanceConfig), Manager/Files
--                                 (renderAndWrite, startInstance), Manager/Instances, Manager/Clients
--                                 (Clients/Filed has what they file); Manager/Reach has every run in
--                                 which operations do not overlap.
--                                 Manager/Live (Sessions, Bans, Unban, Disconnect).
--   internal/ocserv/occtl.go      Occtl: what is asked of a running ocserv, and its lists.
--   internal/ocserv/version.go    Version: Resolve.
--   internal/httpapi/server.go    Status (statusFor) and HttpApi: the requests, auth and decode;
--                                 HttpApi/Mux (the routes, and how http.ServeMux finds one),
--                                 HttpApi/Handlers, HttpApi/Serve (Handler); HttpApi/Url has the
--                                 escapes of net/url.
--   internal/metrics/exporter.go  Metrics: Render, over a Source that the manager fills in
--                                 Metrics/Scrape; Metrics/Labels (labels, escapeLabel).
--   internal/config/config.go     DaemonConfig: the settings, their defaults and Load.
--   cmd/openconnectd/main.go      Daemon: from the settings to the requests that are served.
--   pkg/api/client.go             ApiClient: NewClient, do, text, decodeErr; ApiClient/Calls has the
--                                 calls, ApiClient/Paths where they arrive, ApiClient/Through a client
--                                 on a daemon.
--   internal/tui/tui.go           Tui: the dashboard as a step on its state; Tui/View what it shows,
--                                 Tui/Bytes (bytesShort).
--   cmd/openconnectctl/main.go    Ctl.Settings: the settings; Ctl, Ctl.Rows: the commands.
--   pkg/api/types.go              Api: the records.
--
-- How the parts interact. The manager calls the store, the supervisor, the PKI and the password
-- file; all of them act on one Host (Host: files, and calls that may fail), which Manager.World
-- passes from one to the next. A method that changes a state and may fail is an Exec (Exec): the
-- state comes back beside the error, since what was done before a failure stays done. Errors has
-- one constructor for each place that makes an error, and Errors/Message its text. The store and
-- the supervisor have a mutex each, which makes a method of theirs one step. The manager has none,
-- and net/http serves requests at once; here its operations run one after the other, with processes
-- that end between them, and what happens when two overlap is not modelled. A handler is an Answer
-- (HttpApi): a call of the manager whose result becomes a status and a value. The client sends what
-- it asks for through a Transport, which is a parameter, or the daemon itself.
--
-- Go's standard library is modelled where the program depends on what it does: Strings, FilePath,
-- Net. Strings are lists of bytes, an `int` is ℤ of Base/Int, and a time is in seconds.
-- encoding/json, the YAML reader, crypto/x509, crypto/rsa, encoding/pem, `%q`, `%g` and the tools
-- of ocserv are parameters: the records Store.Codec, Pki.Crypto, Occtl.Reader and ApiClient.Wire,
-- `quote`, and the two types Tool of Ocpasswd and Occtl. What a call to the system does is the
-- parameter Host.Env, so a theorem for every Env covers every failure, and a write that stops
-- half-way. Map iteration has no order in Go; a map is an association list, and no theorem depends
-- on its order.
--
-- Bounds and fuel: printing a number recurses on the number itself, as fuel, and one round more
-- than the number is enough, since each round divides it; bytesShort divides a uint64 at most six
-- times; every other loop is structural. Atoi refuses what does not fit into 64 bits. The scanner
-- of the password file refuses a line of 65536 bytes.
--
-- Not modelled: the parsing of flags, the signals and sockets of cmd/openconnectd, the screen
-- library under internal/tui, timeouts and the request log. A JSON answer stands as the value that
-- is encoded. A request whose target url.Parse refuses does not reach the model, and the body of a
-- redirect is left out. What occtl answers depends on its arguments and on the number of the call,
-- and it changes no file of the daemon. Directories and file modes are not modelled: a directory
-- that is missing is a call that fails. A process is what the supervisor started and the
-- environment has not ended.
mod Base
pub mod Strings
pub mod Net
pub mod Api
pub mod Errors
pub mod Exec
pub mod Host
pub mod Store
pub mod FilePath
pub mod DaemonConfig
pub mod Render
pub mod PerUser
pub mod Params
pub mod Process
pub mod Ocpasswd
pub mod Pki
pub mod HttpApi
pub mod ApiClient
pub mod Occtl
pub mod Version
pub mod Metrics
pub mod Manager
pub mod Status
pub mod Daemon
pub mod Tui
pub mod Ctl
mod Examples
