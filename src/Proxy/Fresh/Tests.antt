-- ===== src/Proxy/Fresh/Tests.antt =====
-- The fresh transport at concrete inputs.
use dns_server_lan_fixtures.Prelude.{
  ◌≤◌, ◌≡◌, refl, true, false, none, [], ◌∷◌, ◌++◌, arith, Bytes, Text, codes, mem_bytes, length,
  take, drop,
}
use dns_server_lan_fixtures.Outcome.{Outcome, returned, raised}
use dns_server_lan_fixtures.Proxy.Fresh.Reply.{answer_fresh, encode_response}
use dns_server_lan_fixtures.Proxy.Fresh.Answer.{answer, answer_rounds}
use dns_server_lan_fixtures.Proxy.Fresh.Plain.{labels_onto, eq_names, plain_dns, plain_labels}
use dns_server_lan_fixtures.Proxy.Fresh.Plain.Laws.{plain-SizeLaws}
use dns_server_lan_fixtures.Proxy.Fresh.Transport.Fits.{serve_fresh_tcp_fits}
use dns_server_lan_fixtures.Proxy.Socket.{Socket, chunk, written}
use dns_server_lan_fixtures.Proxy.Frame.Send.{framed}
use dns_server_lan_fixtures.Proxy.Fresh.Name.{is_fresh}
use dns_server_lan_fixtures.Proxy.Fresh.Transport.{serve_fresh_tcp, scenario}
use dns_server_lan_fixtures.Proxy.Fresh.Transport.Stream.{Sends}
use dns_server_lan_fixtures.Proxy.Fresh.Transport.Faults.{serve_fresh_tcp_fault}
use dns_server_lan_fixtures.Proxy.Fresh.Transport.Promises.{mismatch_id, fault_key, Promises}
use dns_server_lan_fixtures.Proxy.Fresh.Transport.Whole.{fault_keys}
use dns_server_lan_fixtures.Proxy.Fresh.Transport.Batch.{
  batch_key, batch_stream, serve_fresh_tcp_batch,
}

abbrev pub wire_label : Text → Bytes
wire_label l = length l ∷ l

abbrev pub nonce : Text
nonce = codes "0123456789abcdef0123456789abcdef"

-- A query for <key>.<nonce>.fresh.example.test.
abbrev pub fresh_query : Text → Bytes
fresh_query key =
    0
    ∷ 7
    ∷ 1
    ∷ 0
    ∷ 0
    ∷ 1
    ∷ 0
    ∷ 0
    ∷ 0
    ∷ 0
    ∷ 0
    ∷ 0
    ∷ (wire_label key
        ++ (wire_label nonce
            ++ (wire_label (codes "fresh")
                ++ (wire_label (codes "example")
                    ++ (wire_label (codes "test") ++ (0 ∷ 0 ∷ 1 ∷ 0 ∷ 1 ∷ []))))))

-- The reply is the query, with the bit QR.
abbrev echo : Bytes → Outcome Bytes
echo query = returned (take 2 query ++ (0x81 ∷ drop 3 query))

abbrev pub client : Socket
client = record { arrivals = []; trace = []; breaks = none }

is_fresh_query : is_fresh plain_dns (fresh_query (codes "Duplicate")) ≡ true
unfolding is_fresh plain_labels
is_fresh_query = refl

abbrev fault_query : Bytes
fault_query = fresh_query (codes "Mismatch-ID")

key_mismatch_id : scenario plain_dns fault_query ≡ fault_key mismatch_id
unfolding scenario plain_labels
key_mismatch_id = refl

abbrev fault_reply : Bytes
fault_reply = take 2 fault_query ++ (0x81 ∷ drop 3 fault_query)

serve_fresh_tcp_fault_example :
    (stream : Bytes) × Promises mismatch_id fault_reply stream
    × Sends stream false client (serve_fresh_tcp plain_dns echo fault_query 10000 5000000 client)
serve_fresh_tcp_fault_example =
    serve_fresh_tcp_fault plain_dns echo mismatch_id fault_query fault_reply 10000 5000000 client
      key_mismatch_id refl (omega arith) (omega arith) refl

key_bytewise : mem_bytes (scenario plain_dns (fresh_query (codes "bytewise"))) fault_keys ≡ false
unfolding scenario plain_labels mem_bytes
key_bytewise = refl

abbrev echoed : Bytes
echoed = take 2 (fresh_query (codes "bytewise")) ++ (0x81 ∷ drop 3 (fresh_query (codes "bytewise")))

key_reordered : scenario plain_dns (fresh_query (codes "reordered")) ≡ batch_key true
unfolding scenario plain_labels
key_reordered = refl

abbrev second : Bytes
second = 0 ∷ 8 ∷ 1 ∷ 0 ∷ 0 ∷ 0 ∷ 0 ∷ 0 ∷ 0 ∷ 0 ∷ 0 ∷ 0 ∷ []

abbrev third : Bytes
third = 0 ∷ 9 ∷ 1 ∷ 0 ∷ 0 ∷ 0 ∷ 0 ∷ 0 ∷ 0 ∷ 0 ∷ 0 ∷ 0 ∷ []

abbrev first_reply : Bytes
first_reply =
    take 2 (fresh_query (codes "reordered")) ++ (0x81 ∷ drop 3 (fresh_query (codes "reordered")))

-- Two more queries, in two chunks.
abbrev batching : Socket
batching = record {
  arrivals = chunk 0 (12 ∷ second ++ 0 ∷ []) ∷ chunk 12 third ∷ [];
  trace = [];
  breaks = none;
}

abbrev batch_written : Bytes
batch_written =
    batch_stream true first_reply (take 2 second ++ (0x81 ∷ drop 3 second))
      (take 2 third ++ (0x81 ∷ drop 3 third))

serve_fresh_tcp_batch_example :
    ((serve_fresh_tcp plain_dns echo (fresh_query (codes "reordered")) 10000 5000000 batching).0
      ≡ returned false)
    × (written
          (serve_fresh_tcp plain_dns echo
            (fresh_query (codes "reordered"))
            10000
            5000000
            batching).1.trace
        ≡ batch_written)
serve_fresh_tcp_batch_example =
    serve_fresh_tcp_batch plain_dns echo true (fresh_query (codes "reordered")) second third
      first_reply (take 2 second ++ (0x81 ∷ drop 3 second)) (take 2 third ++ (0x81 ∷ drop 3 third))
      [] 10000 5000000 batching key_reordered
      (record { answered = refl; some_bytes = omega arith; fits = omega arith })
      (record { answered = refl; some_bytes = omega arith; fits = omega arith })
      (record { answered = refl; some_bytes = omega arith; fits = omega arith }) (omega arith)
      (omega arith) refl refl

abbrev bytes_of : Outcome Bytes → Bytes
bytes_of (raised e) = []
bytes_of (returned bytes) = bytes

-- The reply to a query whose frame is written byte by byte.
abbrev bytewise_reply : Bytes
bytewise_reply = bytes_of (answer_fresh plain_dns (fresh_query (codes "bytewise")) true)

bytewise_answered :
    answer_fresh plain_dns (fresh_query (codes "bytewise")) true ≡ returned bytewise_reply
unfolding answer_fresh answer answer_rounds plain_labels labels_onto eq_names encode_response
bytewise_answered = refl

bytewise_some : 1 ≤ length bytewise_reply
unfolding answer_fresh answer answer_rounds plain_labels labels_onto eq_names encode_response
bytewise_some = omega arith

serve_fresh_tcp_fits_example : Sends (framed bytewise_reply) true client (
    serve_fresh_tcp plain_dns
      (λ q. answer_fresh plain_dns q true)
      (fresh_query (codes "bytewise"))
      10000
      5000000
      client)
serve_fresh_tcp_fits_example =
    serve_fresh_tcp_fits plain_dns plain-SizeLaws (fresh_query (codes "bytewise")) bytewise_reply
      10000 5000000 client key_bytewise bytewise_answered bytewise_some refl
