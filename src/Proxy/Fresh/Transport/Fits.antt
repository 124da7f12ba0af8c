-- ===== src/Proxy/Fresh/Transport/Fits.antt =====
-- fault_proxy/fresh_transport.py over `answer_fresh` of fault_proxy/fresh_fixtures.py.
use dns_server_lan_fixtures.Prelude.{ℕ, ◌≤◌, ◌≡◌, true, false, none, Bytes, mem_bytes, length}
use dns_server_lan_fixtures.Outcome.{returned}
use dns_server_lan_fixtures.Proxy.Socket.{Socket}
use dns_server_lan_fixtures.Proxy.Frame.Send.{framed}
use dns_server_lan_fixtures.Proxy.Fresh.Dns.{Dnspython, SizeLaws}
use dns_server_lan_fixtures.Proxy.Fresh.Reply.{answer_fresh}
use dns_server_lan_fixtures.Proxy.Fresh.Reply.Size.{answer_fresh-tcp_fits}
use dns_server_lan_fixtures.Proxy.Fresh.Transport.{serve_fresh_tcp, scenario}
use dns_server_lan_fixtures.Proxy.Fresh.Transport.Stream.{Sends}
use dns_server_lan_fixtures.Proxy.Fresh.Transport.Whole.{fault_keys, serve_fresh_tcp_whole}

-- For every library that keeps the law of `to_wire`: on a connection that does not break, the reply
-- of `answer_fresh` to a query whose key is not that of a fault or a batch, if it is not empty, is
-- written whole in one frame, in whatever parts, and the connection is used again.
pub serve_fresh_tcp_fits :
    (dns : Dnspython) (laws : SizeLaws dns) (query reply : Bytes) (delay timeout : ℕ) (s : Socket)
    → mem_bytes (scenario dns query) fault_keys ≡ false
    → answer_fresh dns query true ≡ returned reply
    → 1 ≤ length reply
    → s.breaks ≡ none
    → Sends
        (framed reply)
        true
        s
        (serve_fresh_tcp dns (λ q. answer_fresh dns q true) query delay timeout s)
serve_fresh_tcp_fits dns laws query reply delay timeout s ordinary answered some_bytes free =
    serve_fresh_tcp_whole dns (λ q. answer_fresh dns q true) query reply delay timeout s ordinary
      answered some_bytes (answer_fresh-tcp_fits dns laws query reply answered) free
