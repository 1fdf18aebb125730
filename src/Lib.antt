-- ===== src/Lib.antt =====
-- A model of openvpnd, a daemon that manages OpenVPN instances. Each definition translates code of the
-- repository; the theorems about it stand in modules below it or beside it.
--
-- The parts, the files that model them, and the code:
--   Base       what the parts share: Go strings as lists of bytes, maps as association lists (Assoc), the
--              functions of strings (Strings), strconv (Decimal, ParseInt), filepath (Paths) and sort that the code
--              calls, and signed integers with the 64-bit wrap written out (Int)
--   Net        net.ParseIP, which the plan of a client's rules asks
--   Models     the rows of internal/db/models.go that other parts read: instances, clients, presets
--   Stats      internal/stats: the cache that the reconciler fills and the SNMP agent reads (Cache), and
--              the lifetime counters (Lifetime)
--   Snmp       internal/snmp, one module for a file: Oid (oid.go), Ber, Tag and Value (ber.go), Pdu
--              (pdu.go), Mib (mib.go), Agent (agent.go). A packet is decoded by Pdu with the readers of
--              Ber; Agent builds the Mib of the moment from the Cache, answers with Get and GetNext, and
--              encodes the response
--   Bandwidth  internal/bandwidth: Plan and Rates are bandwidth.go, State, Devices and Enforcer are
--              enforcer.go. The reconciler calls Sync and SyncDevice of the enforcer for each instance, and
--              ClearInstance when one goes; Moves is the relation of its state changes, and Trace a sequence
--              of such calls
--   Netutil    internal/netutil/ip.go: the IPv4 pools, the next free address of one (Hosts), and networks in
--              OpenVPN's notation (Convert)
--   Policy     internal/policy, with the counters of a client in internal/db/models.go: when a client is
--              suspended, by the quota test of Bandwidth.Rates
--   Features   internal/features/presets.go: the presets (Builtin) and their expansion
--   Confgen    internal/confgen: Render, Server, Remotes, Crypto, Shaper and Ccd are render.go, Profile is
--              profile.go. An instance becomes the text of its configuration, with the files of its clients
--   Confimport internal/confimport: Fields, Mask, Push, Keyword and Parse are parse.go, Inline and
--              Materialize inline.go, Request map.go. A configuration becomes the request for an instance
--   Backend    internal/ovpnbackend: what the management interface of a process says (Status is mgmt.go),
--              and the backend in memory (Mock is mock.go)
--   Reconcile  internal/reconcile/reconciler.go: a pass over all instances (Run), and over one (Pass), what
--              it asks of the backend (Desired) and sees (Observed), with its two loops over the clients
--              (Suspend, Sampling), the limits (Shape) and the events of connections (Edges). It calls Features, Confgen, Policy, Bandwidth and Stats
--   Versions   internal/update/version.go: the order by which an update is offered
--   Tests      concrete runs
--
-- Errors are `none`, without their texts. A function with a result and an error returns an Option, and the
-- enforcer's operations a Boolean and the new state. The enforcer's runner is a parameter: two functions
-- that may depend on the commands run before, so that commands may fail and binaries may come and go. The
-- state has, besides the four maps of the source, the list of the commands run. The answers of the store,
-- the backend and the host in a pass are a parameter of the reconciler (Answers), and its calls are listed
-- in the state; the file system of Materialize is a parameter too (Files).
--
-- Bounds and fuel: the decoder of a binding list runs one round for each byte of the list, and every
-- binding takes at least two; the binary search runs one round for each variable; decimal digits take one
-- round more than the number; the search for a free address runs 2^32 rounds at most, one for an address;
-- the loop over inline blocks runs one round for each byte of the text, and every block takes at least as
-- many as its tags. Encoded lengths are taken below 2^24, as the encoder has at most three bytes for a
-- length; a packet of the agent has at most 64000.
--
-- Letters change case on ASCII only, so that a text in lower case has the length of the text. A pass takes
-- place at one instant, and a question to the host, such as for a file, has one answer in it. The random
-- order of a Go map is that of the first insertions, and sorting leaves equal items in their order.
--
-- Not modelled: sockets, log output, mutexes (an operation runs alone), floating-point rates beyond their
-- integer part, the clock (an uptime or a time is an argument), starting of processes, the details of
-- events, the hash of a configuration (a function of the text), the descriptions of presets, and the parts
-- around these: internal/api, internal/tui and cmd (requests and screens), internal/db beyond its rows
-- (SQL), internal/pki (the crypto library), internal/adopt, internal/daemon, internal/config,
-- internal/metrics, internal/webhook, internal/instance, internal/backup, the host backend of
-- internal/ovpnbackend and the rest of internal/update, which are for the most part plumbing over files,
-- processes and third-party code.
pub mod Base
pub mod Backend
pub mod Stats
pub mod Snmp
pub mod Net
pub mod Bandwidth
pub mod Netutil
pub mod Models
pub mod Policy
pub mod Features
pub mod Confgen
pub mod Versions
pub mod Confimport
pub mod Reconcile
mod Tests
