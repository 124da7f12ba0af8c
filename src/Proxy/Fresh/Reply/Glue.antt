-- ===== src/Proxy/Fresh/Reply/Glue.antt =====
-- The rule of `_encode_response` of fault_proxy/fresh_fixtures.py on the addresses of name servers
-- in the domain that a referral names.
use dns_server_lan_fixtures.Prelude.{◌≡◌, ◌⊎◌, true, List, Bytes, take, drop}
use dns_server_lan_fixtures.Proxy.Fresh.Dns.{Name, Rrset, Message, Dnspython}
use dns_server_lan_fixtures.Proxy.Fresh.Reply.{flag}
use dns_server_lan_fixtures.Proxy.Fresh.Reply.Servers.{AllSent}

-- What is written over the truncated message.
pub record Marked (wire reply : Bytes) : Type 0 where
  pub tc : flag reply 0x200 ≡ true
  pub front : take 2 reply ≡ take 2 wire
  pub back : drop 4 reply ≡ drop 4 wire

-- What is sent: the truncated message if it holds all the addresses, and else one with TC.
abbrev pub GlueOrTc : Dnspython → List Name → List Rrset → Message → Bytes → Bytes → Type 0
GlueOrTc dns targets additional sent wire reply =
    (AllSent dns targets additional sent.additional × (reply ≡ wire))
    ⊎ ((¬ AllSent dns targets additional sent.additional) × Marked wire reply)
