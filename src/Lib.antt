-- ===== src/Lib.antt =====
-- Multi-Threaded Web Server: the request parser, the web application firewall, the core of the server,
-- and the experiments of its lab.
--
-- A connection (core/connection.go) reads requests with the parser (http/parser.go), which shows
-- every value to the scanner of the firewall (security/waf/automaton.go); a request goes through
-- the router (core/router.go) to a handler, which writes one response (core/response.go). Metrics
-- (core/metrics.go) and the log store (core/logsink.go) record what happens. The server's command
-- (cmd/server/main.go) reads its settings (config/config.go), asks the limiter
-- (security/ratelimiter/limiter.go) for each connection that it accepts, and sends it as a job to a
-- pool of workers (pool/pool.go); its handlers answer with texts, JSON and static files. The
-- lab (cmd/lab/main.go) sends payloads to two servers, and measures one.
--
-- Files:
--   Base       Boolean tests, lists over the native numbers, byte strings, maps, results.
--   Go         the functions of Go's standard library that the program calls: strings, strconv and
--              textproto (Strings, Replacing), net/url (Url), path/filepath with the slash for its separator
--              (FilePath), bufio.Reader (Reader). A reader is the list of the pieces that reads deliver
--              and the fault behind them.
--   Waf        Normalize: normalize.go. Automaton: the types and NewRules; a node's address is its
--              path, reversed, in a store. Scanner: Feed and Finish. Policy: policy.go. Walk, Pending
--              and Stream hold the proofs about the scanner's states; Initial, Trie, Links, Occurs,
--              Tracks and Reports those about what the automaton of NewRules finds.
--   Http       Action: the errors, and the parser's actions. Chars: the limits and the tests on
--              bytes. Read: lines, headers, trailers. Body: readBody and readChunkedBody. Parser:
--              parseRequest. Lines, Sizes, Inspection, Chunks, Fields, Framing, Accepted, Errors,
--              Ends, Harmless and Complete hold the proofs.
--   Core       Metrics, LogSink, Response, Router and Connection, each with a child for its proofs.
--   Pool       pool.go: the workers and their channel as a step relation.
--   Server     Limiter, Settings (config.go), Admission (serve, handleConnection, enqueueJob), Static
--              (secureStaticHandler, serveIndexPage and the tests on paths), Routes (the table of
--              handlers, logLimit), Start (run, listen) and Monitor (buildMonitorPayload).
--   Lab        cmd/lab/main.go. Fixtures: the payloads. Requests: a payload sent to two servers.
--              Latency: the figures of durations. Benchmark: the counts of a run. Summaries: several
--              reports by their URLs.
--   Tests      runs of the definitions, and the theorems at concrete inputs.
--
-- A method of the source is a function on the state that it changes. Maps are association
-- lists. An error is a constructor of ParseError that keeps what its text shows. The WAF is
-- `none` for a nil automaton. The network of a response, its deadlines and the date are the
-- parameter Net, and a handler is any function on the writer. The arithmetic of float64 is the
-- parameter Floats of the limiter, Milliseconds of the metrics' text, and Parsing of the
-- settings, which also has ParseFloat and ParseDuration; a theorem that needs a law of it
-- takes the law as a hypothesis. The environment is a function from names to values. The file
-- system is the parameter FileSystem, and does not change while one request is answered. What
-- json.Marshal makes of a payload is the parameter Views. The listeners and key files are the
-- parameter System of the start; the lab has Exchange for the network, PayloadFiles for its
-- files, and Ranks and Throughputs for float64. The case that the select of enqueueJob takes
-- is an argument, as is the moment that a call of the limiter reads.
--
-- Bounds and fuel: the header and trailer loops recurse on the rounds that their limits leave,
-- a line on the bytes that its limit leaves. The chunk loop has fuel for one round more than
-- maxBodyBytes, since each round but the last adds a byte; the loop of a connection has fuel
-- for the requests that its options allow. Counters wrap at 2 ^ 64. Other integers of Go stand
-- in ranges that 64 bits hold.
--
-- Not modelled: what main does, the workers of the lab's benchmark and its flags and texts,
-- the commands cmd/certgen and cmd/backend, which are calls of libraries; log lines; a Read
-- that gives the last bytes of a body together with an error other than the end of the input.
-- Locks make each operation on the log store and on the limiter one step; so is each operation
-- on an atomic counter.
pub mod Base
pub mod Go
pub mod Waf
pub mod Http
pub mod Core
pub mod Pool
pub mod Server
pub mod Lab
pub mod Tests
