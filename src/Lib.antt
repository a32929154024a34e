-- ===== src/Lib.antt =====
-- A model of the backend of tikman, a Go program that polls OLTs and routers, collects traffic flows,
-- and serves both to a web interface. Paths are from the repository's root. The modules follow the Go
-- packages: each definition is named after the function, type or loop that it is a translation of.
--
-- Prelude passes on what the modules share. Prelude.Outcome has the results of code on byte slices, where
-- a panic and a loop that does not end are outcomes of their own; Prelude.Assoc has Go's maps,
-- Prelude.Sort `sort.Slice` and Prelude.Search `sort.Search`; Prelude.Spans has ranges that lie apart;
-- Prelude.Int has Go's signed integers, and Prelude.Text strings as lists of runes with what is used of
-- the packages strings, unicode and fmt.
--
-- Mikrotik.Wire is backend/internal/mikrotik/apiwire.go, the words and sentences of the RouterOS API:
-- `encodeLength`, `readLength`, `writeSentence`, `readSentence` and `parseSentence`. The reader is the
-- bytes that are still to come.
--
-- Netflow is backend/internal/netflow. A datagram of a router goes through these parts in this order:
-- - Netflow.Ipfix (ipfix.go) walks the sets of a message. Template sets go into the exporter's table
--   (Netflow.Template, ipfix_template.go); data sets are read by it into flows (Netflow.Record).
-- - Netflow.Classify (classify.go) scales a flow by the sampling, drops what does not make sense, and
--   says which side is the upstream and which the own prefix.
-- - Netflow.Aggregate (aggregate.go) counts it in the open minute and the open window. Both maps are
--   bounded; closing either gives its summaries and clears it.
-- - Netflow.Prefixes (prefixes.go), Netflow.IpSet (ipset.go) and Netflow.Asn (asn.go) are the tables by
--   which an address is resolved: to the interface of its longest block, to a list that it is on, and
--   to its autonomous system. Netflow.Addr is what they use of net/netip.
--
-- Middleware.RateLimit is backend/internal/middleware/rate_limit.go, the requests of each address in
-- the last minute. The lock is held over a whole call, so that calls come one after the other.
--
-- Services.PollJob is backend/internal/services/poll_job_service.go, by which the workers share the
-- polling of the OLTs. The table of the database is a list of rows; a transaction is one step, and the
-- calls of all workers are the list of their transactions. Services.JobState is job_state_machine.go beside
-- it, and Services.Jobs is job_service.go, the provisioning jobs that move through its states. Of these,
-- `RunNow`, `CreateProvisioningJob` and `UpdateStatusProvisioning` read and write in separate statements
-- without a transaction; each is one step here, so that what other calls do in between is left out.
-- Services.OnuId is the choice of an ONU's number in zte_gpon_onu_id.go.
--
-- Services.ZteRegister is the registration of an ONU on a ZTE OLT: Validate is
-- zte_provision_validator.go, the checks of a request; Command is zte_command_builder.go, the CLI lines
-- that are made of it after checks of its own. The tables of package unicode beyond Latin-1 are a
-- parameter of both.
--
-- Services.Events is event_status_batch.go, the log of the ONTs' changes of status, and with
-- Services.Events.Availability the figures of event_service.go that are made from it.
--
-- Services.CsWait is cs_wait.go, the waits of the customers of a thread, with the constraints that
-- backend/migrations/52_cs_waits.sql puts on their table.
--
-- Services.WireGuard is wireguard_validate.go and wireguard_alloc.go, the networks that a site may claim
-- and its address in the tunnel; the networks are those of Netflow.Addr.
--
-- Auth.Sessions is backend/internal/auth/memory_store.go, the sessions in memory. A call of `get` is two
-- steps there, since it gives its lock up in between, and a run is the list of all calls' steps.
--
-- Connectivity.Telnet is backend/internal/connectivity/telnet_negotiation.go, the answer to one IAC
-- sequence of a device; the reader is again the bytes that are still to come.
--
-- Numbers: the integers of 8, 16, 32 and 64 bits are natural numbers with their wrap-around written out
-- where the code's sums can reach it. A time is its nanoseconds since the epoch, and a duration its
-- nanoseconds; both are taken to be below 2 ^ 62. Addresses, identifiers (UUIDs) and worker names are
-- numbers.
--
-- Fuel: the loops over a datagram and over a reader run on the length of the input, and the loop of
-- `sort.Search` on the size of its list; each of their rounds takes at least one byte or place away.
-- The loop over a tunnel's subnet runs on its number of addresses, and the digits of a number on the
-- number, which has no more digits than that and one.
--
-- Not modelled: what the code reads from and writes to the network, the database and the disk; the
-- parsing of text by net, net/netip and strconv, so that Netflow.IpSet and Services.WireGuard start at
-- parsed networks, the latter without the IPv4-mapped ones of IPv6, and Netflow.Asn at parsed columns; floating point, so that the percentage and the
-- means of Services.Events.Availability are left out; regular expressions that redact logged texts; locks, except as said above; and the rest of the backend, which is the HTTP
-- handlers, the drivers of the OLTs, the WhatsApp client, the other services and the commands.
pub mod Auth
pub mod Connectivity
pub mod Middleware
pub mod Mikrotik
pub mod Netflow
pub mod Prelude
pub mod Services
