-- ===== src/Lib.antt =====
-- A model of pxgo, a local HTTP proxy that authenticates to corporate upstream proxies.
--
-- The program is two processes. A parent (internal/guardian/parent.go) starts a worker, hears its
-- control messages, watches its heartbeat and starts it again after a delay. The worker
-- (internal/guardian/worker.go) runs the proxy server (internal/proxy) and reports READY, BEAT and
-- the end. In the worker, a supervisor (internal/supervisor) learns the outcome of each request: it
-- moves proxies that fail behind those that do not, sees when the network has changed, and runs
-- recovery actions, among them the clearing of the DNS cache (internal/dnscache); when the runtime
-- itself fails it asks for the end of the worker, which its heartbeat then sees. Which proxies a
-- request may take is told by internal/wproxy, from the configuration, the environment or the system
-- (internal/systemproxy).
--
-- Files, and the code that they model:
--   Guardian/Failure.antt     the errors of the package and `errors.Is`, `errors.Join`
--   Guardian/Backoff.antt     internal/guardian/backoff.go
--   Guardian/Watchdog.antt    internal/guardian/watchdog.go
--   Guardian/Message.antt     internal/guardian/protocol.go: messages, lines, HELLO
--   Guardian/Monitor.antt     internal/guardian/parent.go: monitorReadyWorker and its helpers
--   Guardian/Parent.antt      internal/guardian/parent.go: RunParent and parentRestartDelay
--   Guardian/Worker.antt      internal/guardian/worker.go: RunWorker and stopWorker
--   Guardian/Agreement.antt   the worker and the parent at the two ends of one connection
--   Supervisor/Outcome.antt   internal/supervisor/outcome.go
--   Supervisor/State.antt     the fields of `Supervisor` in internal/supervisor/supervisor.go
--   Supervisor/Health.antt    internal/supervisor/upstream.go: failures, cooling, eviction
--   Supervisor/Order.antt     internal/supervisor/upstream.go: Order
--   Supervisor/Record.antt    internal/supervisor/supervisor.go: record, Tick and the windows
--   Supervisor/Recovery.antt  internal/supervisor/recovery.go, Recover and Close
--   Supervisor/Status.antt    internal/supervisor/status.go
--   Supervisor/Run.antt       every locked section of the supervisor as a step
--   Proxy/Der.antt            internal/proxy/auth_client.go: readDERTLV, derTLV, derLength
--   Proxy/Spnego.antt         internal/proxy/auth_client.go and auth_mechanism.go: SPNEGO tokens
--   Proxy/Tunnel.antt         internal/proxy/tunnel.go
--   Proxy/TransportCache.antt internal/proxy/transport_cache.go
--   Proxy/Digest.antt         internal/proxy/auth_client.go: digest nonces, checkDigestClientAuth
--   Proxy/Ntlm.antt           internal/proxy/auth_client.go: the NTLM AUTHENTICATE message
--   Proxy/ClientAuth.antt     internal/proxy/auth_client.go: clientState, authenticateClient
--   Proxy/ClientAuth/Offers.antt  internal/proxy/auth_client.go: clientAuthMethods, the challenges
--   Wproxy.antt               internal/wproxy/wproxy.go: ParseProxy and the parsers that it uses
--   Wproxy/IpSet.antt         internal/wproxy/wproxy.go: IPSet, addGlob
--   Wproxy/NoProxy.antt       internal/wproxy/wproxy.go: parseNoProxy, hostMatchesNoProxy
--   Wproxy/Route.antt         internal/wproxy/wproxy.go: GetNetloc, FindProxyForURL
--   Wproxy/Setup.antt         internal/wproxy/wproxy.go: NewWithDNS, Close
--   SystemProxy.antt          internal/systemproxy/systemproxy.go
--   DnsCache.antt             internal/dnscache/dnscache.go
--   Shared/                   lists, tests, text, maps, clocks and integers
-- The other child modules (Laws, Runs, Drain, Replay, Challenge, Bypass and so on) hold lemmas and
-- theorems, the modules Examples and AuthExamples concrete inputs.
--
-- Conventions. A state is a record with the fields of the source's struct, an operation takes it and
-- returns the new one with the results in front. A `select` loop is a step on an event with what the
-- world answers meanwhile (`Env`), and a run is a list of such pairs. What a mutex guards is one
-- step; threads are runs of steps in any order. A time is in nanoseconds since the zero time, the
-- difference of two times is the part above zero, at most the largest Duration. The counters of
-- type uint64 wrap, those of type int are unbounded. A text is its list of code points, bytes are
-- numbers below 256, and a map is an association list in any order. Pointers (tunnels, channels,
-- calls) are numbers that are not used again.
--
-- What packages of Go or of others compute (hashes, base64, addresses, URLs, the folding of case) are
-- the fields of records (`Platform`, `Hashes`, `Setting`, `Resolvers`, `World`), of which nothing is
-- assumed. A panic on an index is a result of its own where bytes from outside are read
-- (`out_of_range` in Proxy/Ntlm.antt).
--
-- Loops that are not on a list take fuel. Twenty digits hold each uint64 (`format_digits`), four
-- bytes each length of a token (`length_bytes`), the length of a sequence is fuel enough for the
-- loop over its fields, each of which takes two bytes at least, and the size of the map for the
-- eviction, which deletes an entry in each round.
--
-- Not modelled: connections, processes, timers and files themselves, which are what the events and
-- the environments stand for; HTTP, cryptography, SSPI and Kerberos, which are other libraries; the
-- packages config, pac, dnsresolver, update and diagnostic; the system's side of systemproxy; the
-- texts of errors outside the guardian; and of the proxy server, what is not named above.
pub mod DnsCache
pub mod Guardian
pub mod Proxy
pub mod Shared
pub mod Supervisor
pub mod SystemProxy
pub mod Wproxy
