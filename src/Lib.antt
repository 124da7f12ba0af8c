-- ===== src/Lib.antt =====
-- Verification of the Python programs of a DNS test server.
--
-- fault_proxy/dns_fault_proxy.py accepts DNS queries over UDP and TCP, forwards them and can break
-- the answer on purpose: the first label of a name under transport.example.test selects a
-- scenario. Names under fresh.example.test are answered by fault_proxy/fresh_fixtures.py, and over
-- TCP fault_proxy/fresh_transport.py breaks those answers. scripts/tcp-probe.py is the client that
-- checks an exchange over TCP. bind/scripts/generate-large-fixtures.py writes a zone of large
-- fixtures for BIND, and their manifest.
--
-- Files and what they model:
--   Prelude, Prelude/*        lists, texts, 16-bit fields, masks (`&`) and joins (`|`)
--   Outcome                   DNSFormatError and the other exceptions, as values
--   Proxy/Query               build_query
--   Proxy/Name                _decode_name: a round of its loop, the loop; Name/Wire is the format
--                             of RFC 1035 as a relation, Sound and Complete compare the two
--   Proxy/Question            _question_end, parse_question_name, _query_scenario,
--                             make_truncated_response
--   Proxy/Scenario            Scenario, SCENARIO_BY_LABEL, scenario_for
--   Proxy/Socket, Proxy/Frame recv_exact, recv_frame, _write_parts, send_frame, over an explicit
--                             socket: what arrives in which chunks, what was written, where
--                             writing breaks
--   Proxy/Config              Config.from_env, _bounded_int, _bounded_float
--   Proxy/Log, Access         log_event, _allowed_clients, verify_request
--   Proxy/Sessions            process_request and process_request_thread with the semaphore that
--                             the TCP and the UDP server share
--   Proxy/Forward             forward_tcp, forward_udp, _validate_upstream_response, the health check
--   Proxy/Fresh/Dns           the interface to dnspython: names, record sets, messages, its calls,
--                             and what is documented of them as laws
--   Proxy/Fresh/Name          SUFFIX, _name_key and fresh_key of fault_proxy/fresh_fixtures.py,
--                             is_fresh
--   Proxy/Fresh/Sets,         the sets of keys, _rr, _soa and _records; Node/Own, Aliases
--     Records, Node           and Owners say which records exist where
--   Proxy/Fresh/Security      fault_proxy/security_records.py
--   Proxy/Fresh/Additional    _additional
--   Proxy/Fresh/Answer        _answer: a round of its loop, and the loop; Answer/Chains is the loop
--                             without its limit, Answer/Rounds compares the two;
--                             Answer/Inside, Starts, Kept, Branches and Isolation follow the owners of
--                             the records through a round
--   Proxy/Fresh/Reply         _error_response, _encode_response and answer_fresh
--   Proxy/Fresh/Plain         a concrete library in the place of dnspython, which keeps the laws
--   Proxy/Fresh/Transport     fault_proxy/fresh_transport.py
--   Proxy/Calls               statements on a socket in sequence
--   Proxy/Tcp, Proxy/Udp      _TCPHandler.handle and _UDPHandler.handle, which work with a record of
--                             what their peers do, and answer fresh names with answer_fresh
--   Proxy/Process             _make_server, run and main, as the calls that they make of the system;
--                             Process/Lifecycle is the order that each server is due
--   Probe/Query, Frames       build_query, parse_frames, request_parts of the probe
--   Probe/Observe             observe: the request in parts, the reading loop, the report
--   Probe/Verdict             evaluate
--   Zones, Zones/Order        bind/scripts/generate-large-fixtures.py: build_fixtures, render_zone,
--                             build_manifest, and the order of their items
--
-- Bytes and characters are native numbers; texts are lists of code points, and `lower` is exact
-- on ASCII. Times are whole micro- or milliseconds.
-- Loops: _decode_name recurs on its 128 rounds; recv_exact recurs on `size` rounds, enough because
-- a read takes a byte at least; parse_frames recurs on the length of its input, enough because a
-- frame takes three bytes at least; observe recurs on the number of bytes that arrive, enough
-- because each read but the last takes one.
-- forward_udp and the health check recur on the addresses; a TCP connection recurs on its 64 rounds.
-- _answer recurs on its four rounds, of which three are used. The data of a record is a text in
-- presentation format; a name in it is its last word, parsed where the source reads it.
-- dnspython and the parser ipaddress.ip_network are parameters. The machine's floating-point numbers
-- are a parameter of the configuration. The delivery of signals, real sockets, the parser of the
-- command line and JSON output are not modelled.
pub mod Prelude
pub mod Outcome
pub mod Proxy
pub mod Probe
pub mod Zones
