-- ===== src/Proxy/Udp/Fresh.antt =====
-- The UDP handler of fault_proxy/dns_fault_proxy.py over `answer_fresh` of
-- fault_proxy/fresh_fixtures.py.
use dns_server_lan_fixtures.Prelude.{
  ◌≤◌, ◌≡◌, refl, true, false, Option, none, some, List, [], ◌∷◌, ◌++◌, Bytes, Text, length, All,
}
use dns_server_lan_fixtures.Outcome.{Outcome, returned, raised, uncaught}
use dns_server_lan_fixtures.Proxy.Udp.{Env, udp_handle, udp_query, udp_fresh, started, after_value}
use dns_server_lan_fixtures.Proxy.Udp.Replies.{udp_caught-sent}
use dns_server_lan_fixtures.Proxy.Fresh.Dns.{Question, Edns, Message, SizeLaws}
use dns_server_lan_fixtures.Proxy.Fresh.Name.{name_key, zone_of, is_fresh}
use dns_server_lan_fixtures.Proxy.Fresh.Records.{target}
use dns_server_lan_fixtures.Proxy.Fresh.Reply.{answer_fresh, opcode_of, flag}
use dns_server_lan_fixtures.Proxy.Fresh.Reply.Respond.{served}
use dns_server_lan_fixtures.Proxy.Fresh.Reply.Size.{Takes, answer_fresh_fits}
use dns_server_lan_fixtures.Proxy.Fresh.Reply.Uncaught.{answer_fresh_raised}

-- Each datagram is as long as the client takes.
abbrev pub AllTaken : Option Edns → List Bytes → Type 0
AllTaken edns sent = All (Takes false edns) sent

sendto-AllTaken :
    (edns : Option Edns) (reply : Bytes) (out : Outcome (Unit {0}))
    → Takes false edns reply
    → AllTaken edns
        (after_value
          (λ _ c. (returned tt, record c { sent = c.sent ++ reply ∷ [] }))
          out
          started).1.sent
sendto-AllTaken edns reply (raised e) short = tt
sendto-AllTaken edns reply (returned _) short = (short, tt)

udp_fresh-AllTaken :
    (env : Env) (edns : Option Edns) (reply : Bytes)
    → Takes false edns reply
    → AllTaken edns (udp_fresh env reply started).1.sent
udp_fresh-AllTaken env edns [] short = tt
udp_fresh-AllTaken env edns (b ∷ bs) short =
    sendto-AllTaken edns (b ∷ bs) (env.sendto (b ∷ bs)) short

answered-AllTaken :
    (env : Env) (edns : Option Edns) (answer : Outcome Bytes)
    → ((reply : Bytes) → answer ≡ returned reply → Takes false edns reply)
    → AllTaken edns (after_value (udp_fresh env) answer started).1.sent
answered-AllTaken env edns (raised e) fits = tt
answered-AllTaken env edns (returned reply) fits =
    udp_fresh-AllTaken env edns reply (fits reply refl)

-- For every library that keeps the law of `to_wire`, each datagram that the UDP handler sends for a
-- message under fresh.example.test that dnspython parses, with the opcode QUERY, has at most 512
-- bytes without EDNS, and with EDNS at most 4096 and at most its payload size or 512, whichever is
-- more.
pub udp_handle_fits :
    (env : Env) (laws : SizeLaws env.dns) (wire : Bytes) (query : Message)
    → is_fresh env.dns wire ≡ true
    → env.dns.message_from_wire wire ≡ some query
    → opcode_of wire ≡ 0
    → AllTaken query.edns (udp_handle env wire).1.sent
unfolding udp_handle udp_query
udp_handle_fits env laws wire query fresh parsed is_query =
    rw (udp_caught-sent (udp_query env wire started)) (
      rw fresh (
        answered-AllTaken env query.edns (answer_fresh env.dns wire false)
          (answer_fresh_fits env.dns laws wire false query parsed is_query)))

-- A UDP query under fresh.example.test for data, whose key stands in a text that dnspython does not
-- take for a name, such as a key with an empty label before a dot: the handler ends with an exception
-- and sends and prints nothing.
pub udp_handle_raised :
    (env : Env) (wire : Bytes) (query : Message) (q : Question) (key nonce : Text)
    → is_fresh env.dns wire ≡ true
    → 12 ≤ length wire
    → flag wire 0x8000 ≡ false
    → opcode_of wire ≡ 0
    → env.dns.message_from_wire wire ≡ some query
    → served query ≡ true
    → query.questions ≡ q ∷ []
    → name_key q.labels ≡ some (key, nonce)
    → env.dns.name_from_text (target (zone_of nonce) key) ≡ none
    → udp_handle env wire ≡ (raised uncaught, started)
unfolding udp_handle udp_query
udp_handle_raised env wire query q key nonce fresh long not_response is_query parsed asks only named
      fails =
    let raises =
      answer_fresh_raised env.dns wire false query q key nonce long not_response is_query parsed
        asks only named fails in
    rw (fresh, raises) refl
