-- ===== src/Lib.antt =====
-- Verification of runetale, a mesh VPN client: a signalling client negotiates WebRTC (ICE)
-- connections to the other nodes of a network, and WireGuard traffic runs over them.
--
-- The parts and how they interact. The control plane (rcn/controlplane) asks the server for the
-- remote nodes, keeps one session per node, and passes the messages of the signalling stream
-- (client/grpc/signal_client.go) to them. A session (rcn/webrtc) sets up an ICE agent, exchanges
-- credentials, and starts a connection (rcn/conn) whose proxy (rcn/proxy) configures WireGuard
-- and forwards packets. Requests to the servers are retried by backoff. The client's key
-- (types/key) is kept in a file (store, utils).
--
-- Common: names that all files share. Common/Go has Go's errors, panics and calls that change a
--   state: `Action S A` takes a state and gives an outcome (a value, an error or a panic) and the
--   state then. Common/Maps has Go maps as association lists, Common/Int int64 arithmetic.
-- Backoff (backoff/backoff.go): Policy is BackOff and WithMaxRetries, Exponential is
--   ExponentialBackOff over a parameter for float64, Retry is doRetryNotify, Timer the timers and
--   the functions around it. The loop takes fuel; under WithMaxRetries(b, n) fuel for n + 1 rounds
--   is enough, since each round uses up a try.
-- Key (types/key): Hex is toHex and parseHex, Mem the interface of go4.org/mem, Client the
--   client's private key. A byte is a number below 256.
-- Status (rcn/conn/status.go, client/grpc/signal_client.go): Defs is ConnectState and its
--   methods, Waiting the goroutines in WaitStartConnect as a relation of steps, each one critical
--   section, Stream the method Connect, whose loop takes fuel because a stream need not end.
-- ControlPlane (rcn/controlplane/control_plane.go): Peer has the arguments of NewIce and the
--   methods of *Ice as an interface, Defs the control plane and its short methods, Sync
--   syncRemotePeerConfig, Offer initialOfferToRemotePeer over the retry loop of Backoff, Loop
--   SyncRemoteNodes, whose fuel is enough when it exceeds the answers before the server fails, and
--   Serving ConnectSignalServer over the stream of Status and the retry loop; Clashed is about the
--   channel that its two halves close.
-- Proxy (rcn/proxy/wire_proxy.go, rcn/conn/conn.go): Address is shouldUseProxy and IsPublicIP
--   with the predicates of net.IP, Defs the start and stop of WireProxy, Monitor its two loops (on
--   fuel; fuel for one round more than there are reads is enough), Conn the type Conn.
-- Session (rcn/webrtc): Defs is the part of Ice that changes, Setup its setup and cleanup,
--   Signal its messages and the loop waitingRemotePeerConnections, and Methods gives the interface
--   that ControlPlane uses; Synced and Looped put the two together.
-- Stored (utils/file.go, paths/paths.go, store, conf/spec.go): Files is AtomicWriteFile,
--   FileStore and ClientStore are the types of these names, and Spec is conf/spec.go; Restarted is
--   about two calls of CreateSpec.
-- Daemon (daemon/daemon_linux_systemd.go, daemon/daemon_darwin.go): Systemd has the methods that
--   ask systemctl, Install has Install and Uninstall, Launchd the methods for launchd, and Linux
--   the choice among systemd, Upstart and SystemV; Copied, Commands and InPlace follow the files
--   of an installation.
-- Iface (iface, utils/cmd.go): Defs is iface.go and iface_unix.go, Linux and Darwin the files of
--   these systems, Opened and Closed count the clients of wgctrl, Table is the abstract table of
--   peers and Refined its refinement; Joined puts the proxy of Proxy over this interface.
-- Rcn (rcn/rcnsock): Sock is the daemon's socket, its server and its client, and Answered
--   follows one request over a connection that is a stream of messages.
-- Engine (engine, engine/wonderwall): Defs has Start and Stop as steps of one goroutine, and
--   Stuck the program of all of them.
-- Server (client/grpc/server_client.go): Defs has the requests and the login session, Session
--   what a login gives.
-- Boot (conf/conf.go, rcn/rcn.go, cmd/runetaled/cmd): Conf is NewConf, Store and Keys follow the
--   state file and the key through it, and Identity compares two starts. Rcn is the type Rcn,
--   Commands has execDown and execUp of the daemon (the latter up to the end of Setup in the
--   foreground), Stopped follows execDown, DaemonCommands has login, the daemon's subcommands and
--   status, Unmanaged what they do without systemd, and ClientUp is execUp of the client
--   (cmd/runetale/cmd/up.go) up to the start of its engine.
-- System (system): Text is what GetInfo uses of Go's strings, Info is GetInfo, whose loops take
--   fuel for more tries than there are broken outputs, Release and Reads follow what it reads.
-- Runelog (runelog/runelog.go): how the logger is made.
-- Flag (types/flagtype/flag.go): the port flag, and Accepted what it takes.
--
-- What is a parameter: pion/ice, gRPC and the generated clients, wgtypes, go4.org/mem, net, os,
-- encoding/json, timers, clocks and contexts. What a theorem relies on of them is a record of
-- laws among its hypotheses. Logging is left out, except where a log call itself can panic.
--
-- What is not modelled: flags, help texts, the client's other commands, what is logged, and the
-- data that only describes the system. The goroutines of one session are modelled one call at a
-- time; the interleaving of goroutines is modelled for the connection status and for the engine.
-- A send on the channel of WaitForRemoteConn blocks for ever where the model's `receives` says
-- that the peer is never taken, and is recorded where it is. A panic in a goroutine that a
-- method only starts is recorded in the field `doomed` of the control plane. What `up` does in
-- the foreground after Setup is not followed: Start in a goroutine, the wait for the channel,
-- and Stop; Start and Stop are modelled by themselves in Boot/Rcn.

pub mod Common
pub mod Backoff
pub mod Key
pub mod Status
pub mod ControlPlane
pub mod Proxy
pub mod Session
pub mod Stored
pub mod Daemon
pub mod Boot
pub mod Engine
pub mod Flag
pub mod Iface
pub mod Rcn
pub mod Runelog
pub mod Server
pub mod System
