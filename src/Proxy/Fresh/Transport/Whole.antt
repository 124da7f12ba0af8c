-- ===== src/Proxy/Fresh/Transport/Whole.antt =====
-- The replies that `serve_fresh_tcp` writes whole.
use dns_server_lan_fixtures.Prelude.{
  ℕ, ◌≤◌, ◌≡◌, refl, ap, inl, inr, true, false, none, List, [], ◌∷◌, ◌++◌, append-nil, flatten,
  arith, Bytes, Text, codes, eq_bytes, mem_bytes, u16, length, All, Bool-cases,
}
use dns_server_lan_fixtures.Outcome.{Outcome, returned}
use dns_server_lan_fixtures.Proxy.Frame.Send.{flatten-chunks, framed}
use dns_server_lan_fixtures.Proxy.Fresh.Transport.{
  singles, reply_parts, reply_frame, send_parts, after_reply, serve_reply, serve_key,
  serve_fresh_tcp, scenario,
}
use dns_server_lan_fixtures.Proxy.Socket.{Socket}
use dns_server_lan_fixtures.Proxy.Fresh.Dns.{Dnspython}
use dns_server_lan_fixtures.Proxy.Fresh.Transport.Stream.{Sends, send_parts-Sends}
use dns_server_lan_fixtures.Proxy.Fresh.Transport.Faults.{frame-framed, then_give, serve_answer-key}

-- The keys that do not get a whole reply on a connection that goes on.
abbrev pub fault_keys : List Text
fault_keys =
    codes "close-before"
    ∷ codes "stall"
    ∷ codes "reordered"
    ∷ codes "coalesced"
    ∷ codes "mismatch-id"
    ∷ codes "mismatch-question"
    ∷ codes "close-prefix"
    ∷ codes "close-body"
    ∷ codes "length-mismatch"
    ∷ codes "duplicate"
    ∷ codes "trailing"
    ∷ []

not_member :
    (key : Text) (names : List Text)
    → mem_bytes key names ≡ false
    → All (λ name. eq_bytes key name ≡ false) names
unfolding mem_bytes
not_member key [] h = tt
not_member key (name ∷ names) h = elim (Bool-cases (eq_bytes key name)) [
  | inl same ↦ absurd (cc (rw same at h))
  | inr other ↦ (other, not_member key names (rw other at h))
]

flatten-singles : (bytes : Bytes) → flatten (singles bytes) ≡ bytes
unfolding singles flatten
flatten-singles [] = refl
flatten-singles (b ∷ bs) = ap (◌∷◌ b) (flatten-singles bs)

flatten-reply_parts :
    (key : Text) (reply : Bytes) → flatten (reply_parts key (framed reply)) ≡ framed reply
unfolding reply_parts flatten
flatten-reply_parts key reply = elim (Bool-cases (eq_bytes key (codes "split-prefix"))) [
  | inl is ↦ rw is (ap (λ r. u16 (length reply) ++ r) (append-nil reply))
  | inr not_prefix ↦ elim (Bool-cases (eq_bytes key (codes "split-body"))) [
    | inl is ↦
        rw (not_prefix, is)
          (ap (λ r. u16 (length reply) ++ r) (flatten-chunks 16 reply (omega arith)))
    | inr not_body ↦ elim (Bool-cases (eq_bytes key (codes "bytewise"))) [
      | inl is ↦ rw (not_prefix, not_body, is) (flatten-singles (framed reply))
      | inr other ↦ rw (not_prefix, not_body, other) (append-nil (framed reply))
    ]
  ]
]

-- On a connection that does not break, a reply of 1 to 65535 bytes to a query whose key is not
-- that of a fault or a batch is written whole, in whatever parts, and the connection is used
-- again.
pub serve_fresh_tcp_whole :
    (dns : Dnspython) (answer : Bytes → Outcome Bytes) (query reply : Bytes) (delay timeout : ℕ)
    (s : Socket)
    → mem_bytes (scenario dns query) fault_keys ≡ false
    → answer query ≡ returned reply
    → 1 ≤ length reply
    → length reply ≤ 65535
    → s.breaks ≡ none
    → Sends (framed reply) true s (serve_fresh_tcp dns answer query delay timeout s)
unfolding serve_fresh_tcp serve_key serve_reply reply_frame after_reply
serve_fresh_tcp_whole dns answer query reply delay timeout s key answered h k free =
    let name = scenario dns query in
    let (a, (b, (c, (d, (e, (f, (g, (i, (j, (l, (m, _))))))))))) = not_member name fault_keys key in
    rw (answered, serve_answer-key answer name query delay timeout reply h k)
      (rw (a, b, c, d, e, f, g, i, j, l, m, frame-framed reply k)
        (then_give true (framed reply) s (send_parts (reply_parts name (framed reply)) delay s) (
          rw (flatten-reply_parts name reply) at
            (send_parts-Sends (reply_parts name (framed reply)) delay s free))))
