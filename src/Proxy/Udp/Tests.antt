-- ===== src/Proxy/Udp/Tests.antt =====
-- UDP requests at concrete inputs.
use dns_server_lan_fixtures.Prelude.{
  ◌≡◌, refl, true, false, none, some, List, [], ◌∷◌, ◌++◌, arith, Bytes, Text, codes, eq_bytes,
  rstrip_dots, split_dots, u16_at, length,
}
use dns_server_lan_fixtures.Outcome.{returned, raised, network, uncaught}
use dns_server_lan_fixtures.Proxy.Fresh.Dns.{Question, Message}
use dns_server_lan_fixtures.Proxy.Fresh.Name.{
  name_key, is_nonce, all_hex, is_hex, zone_of, is_fresh, has_suffix,
}
use dns_server_lan_fixtures.Proxy.Fresh.Name.Keys.{fresh_name}
use dns_server_lan_fixtures.Proxy.Fresh.Records.{target}
use dns_server_lan_fixtures.Proxy.Fresh.Reply.Respond.{served}
use dns_server_lan_fixtures.Proxy.Fresh.Plain.{labels_onto, plain_dns, plain_labels}
use dns_server_lan_fixtures.Proxy.Fresh.Plain.Laws.{plain-SizeLaws}
use dns_server_lan_fixtures.Proxy.Udp.Fresh.{AllTaken, udp_handle_fits, udp_handle_raised}
use dns_server_lan_fixtures.Proxy.Fresh.Tests.{fresh_query, nonce}
use dns_server_lan_fixtures.Prelude.Int.{pos}
use dns_server_lan_fixtures.Proxy.Query.{
  build_query, query_labels, encode_labels, encode_label, is_ascii,
}
use dns_server_lan_fixtures.Proxy.Scenario.{force_tcp, value}
use dns_server_lan_fixtures.Proxy.Question.{question_end}
use dns_server_lan_fixtures.Proxy.Question.RoundTrip.{asked_name, fault_name}
use dns_server_lan_fixtures.Proxy.Forward.{Attempt}
use dns_server_lan_fixtures.Proxy.Udp.{Env, udp_handle, started}
use dns_server_lan_fixtures.Proxy.Question.Truncated.{OnlyQuestionOf}
use dns_server_lan_fixtures.Proxy.Udp.Replies.{Justified, udp_handle-Justified}
use dns_server_lan_fixtures.Proxy.Udp.Scenarios.{replied, udp_handle-force_tcp}

-- A query for <label>.transport.example.test.
abbrev query_for : Text → Bytes
query_for label =
    0 ∷ 7 ∷ 1 ∷ 0 ∷ 0 ∷ 1 ∷ 0 ∷ 0 ∷ 0 ∷ 0 ∷ 0 ∷ 0 ∷ (length label ∷ label)
    ++ (9 ∷ codes "transport"
        ++ (7 ∷ codes "example" ++ (4 ∷ codes "test" ++ (0 ∷ 0 ∷ 1 ∷ 0 ∷ 1 ∷ []))))

abbrev response : Bytes
response = 0 ∷ 7 ∷ 0x81 ∷ 0x80 ∷ 0 ∷ 0 ∷ 0 ∷ 0 ∷ 0 ∷ 0 ∷ 0 ∷ 0 ∷ []

abbrev attempts : List Attempt
attempts = raised network ∷ returned response ∷ []

abbrev env : Env
env = record {
  dns = plain_dns;
  truncated = λ _. raised uncaught;
  addresses = λ _. returned attempts;
  sendto = λ _. returned tt;
  chunk_delay = 50000;
}

udp_handle-Justified_example :
    Justified env (query_for (codes "normal")) (udp_handle env (query_for (codes "normal"))).1.sent
udp_handle-Justified_example = udp_handle-Justified env (query_for (codes "normal"))

force_tcp_built :
    build_query (fault_name force_tcp) (pos 1) (pos 7) ≡ returned (query_for (codes "force-tcp"))
unfolding build_query encode_labels encode_label query_labels is_ascii rstrip_dots split_dots value
force_tcp_built = refl

not_fresh :
    (is_fresh env.dns (query_for (codes "force-tcp")) ≡ false)
    × (is_fresh env.dns (query_for (codes "delayed")) ≡ false)
    × (is_fresh env.dns (query_for (codes "stall")) ≡ false)
unfolding is_fresh has_suffix plain_labels eq_bytes
not_fresh = (refl, refl, refl)

udp_handle-force_tcp_example :
    (r : Bytes) × (udp_handle env (query_for (codes "force-tcp")) ≡ replied force_tcp r 0)
    × (question_end r ≡ returned (asked_name (fault_name force_tcp), length r))
    × (pos (u16_at r 0) ≡ pos 7)
    × (u16_at r 2 ≡ 0x8700)
    × OnlyQuestionOf (query_for (codes "force-tcp")) r
udp_handle-force_tcp_example =
    udp_handle-force_tcp env (pos 1) (pos 7) force_tcp_built (not_fresh.0) (λ _. refl)

-- A query for the type A of the name that begins with "a..b" as one label.
abbrev dotted_query : Bytes
dotted_query = fresh_query (codes "a..b")

abbrev key_question : Text → Question
key_question key = record { labels = fresh_name key nonce; rdtype = 1; rdclass = 1 }

abbrev query_message : Text → Message
query_message key = record {
  id = 7;
  flags = record {
    qr = false;
    opcode = 0;
    aa = false;
    tc = false;
    rd = true;
    ra = false;
    ad = false;
    cd = false;
  };
  rcode = 0;
  questions = key_question key ∷ [];
  answer = [];
  authority = [];
  additional = [];
  edns = none;
}

dotted_is_fresh : is_fresh plain_dns dotted_query ≡ true
unfolding is_fresh plain_labels
dotted_is_fresh = refl

dotted_parsed : plain_dns.message_from_wire dotted_query ≡ some (query_message (codes "a..b"))
unfolding plain_labels eq_bytes
dotted_parsed = refl

dotted_served : served (query_message (codes "a..b")) ≡ true
unfolding name_key has_suffix is_nonce all_hex is_hex is_ascii eq_bytes
dotted_served = refl

dotted_key : name_key (key_question (codes "a..b")).labels ≡ some (codes "a..b", nonce)
unfolding name_key has_suffix is_nonce all_hex is_hex is_ascii eq_bytes
dotted_key = refl

dotted_no_name : plain_dns.name_from_text (target (zone_of nonce) (codes "a..b")) ≡ none
unfolding labels_onto
dotted_no_name = refl

udp_handle_raised_example : udp_handle env dotted_query ≡ (raised uncaught, started)
udp_handle_raised_example =
    udp_handle_raised env dotted_query (query_message (codes "a..b")) (key_question (codes "a..b"))
      (codes "a..b") nonce dotted_is_fresh (omega arith) refl refl dotted_parsed dotted_served refl
      dotted_key dotted_no_name

plain_is_fresh : is_fresh plain_dns (fresh_query (codes "a")) ≡ true
unfolding is_fresh plain_labels
plain_is_fresh = refl

plain_parsed :
    plain_dns.message_from_wire (fresh_query (codes "a")) ≡ some (query_message (codes "a"))
unfolding plain_labels eq_bytes
plain_parsed = refl

udp_handle_fits_example : AllTaken none (udp_handle env (fresh_query (codes "a"))).1.sent
udp_handle_fits_example =
    udp_handle_fits env plain-SizeLaws (fresh_query (codes "a")) (query_message (codes "a"))
      plain_is_fresh plain_parsed refl
