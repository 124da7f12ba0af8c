-- ===== src/Probe/Tests.antt =====
-- The theorems about scripts/tcp-probe.py at concrete inputs.
use dns_server_lan_fixtures.Prelude.{
  ◌≡◌, refl, sym, ap, inr, true, false, none, [], ◌∷◌, ◌++◌, arith, codes, eq_bytes,
}
use dns_server_lan_fixtures.Prelude.Int.{pos}
use dns_server_lan_fixtures.Proxy.Query
use dns_server_lan_fixtures.Proxy.Scenario.{bytewise}
use dns_server_lan_fixtures.Probe.Query.{build_query, type_number}
use dns_server_lan_fixtures.Probe.Query.Agree.{value_of, outcome_value, build_query-agree}
use dns_server_lan_fixtures.Probe.Frames.{Parsed, parse_frames}
use dns_server_lan_fixtures.Probe.Frames.Split.{framed_all, remainder_size, parse_frames-framed_all}
use dns_server_lan_fixtures.Probe.Verdict.{Observation, accepted, evaluate}
use dns_server_lan_fixtures.Probe.Verdict.Scenarios.{
  expectation, Observes, parse_frames-stream_of, evaluate-stream_of,
}

txt_is_16 : type_number (codes "txt") ≡ inr 16
unfolding type_number eq_bytes
txt_is_16 = refl

build_query-agree_example :
    value_of (build_query (codes "large-512.example.test") (codes "txt") (pos 0x6313))
    ≡ outcome_value (Query.build_query (codes "large-512.example.test") (pos 16) (pos 0x6313))
build_query-agree_example =
    build_query-agree (codes "large-512.example.test") (codes "txt") (pos 0x6313) 16 txt_is_16

parse_frames-framed_all_example :
    parse_frames (framed_all (codes "one" ∷ codes "two" ∷ []) ++ 0 ∷ 6 ∷ b'a' ∷ []) ≡ record {
      frames = codes "one" ∷ codes "two" ∷ [];
      trailing = 0 ∷ 6 ∷ b'a' ∷ [];
      incomplete = remainder_size (0 ∷ 6 ∷ b'a' ∷ []);
    }
parse_frames-framed_all_example =
    parse_frames-framed_all (codes "one" ∷ codes "two" ∷ []) (0 ∷ 6 ∷ b'a' ∷ []) (omega arith)
      (omega arith)

-- What the probe sees of the response "one" byte by byte.
abbrev byte_by_byte : Observation
byte_by_byte = record {
  frames = codes "one" ∷ [];
  read_sizes = 1 ∷ 1 ∷ 1 ∷ 1 ∷ 1 ∷ [];
  eof = true;
  timed_out = false;
  trailing = [];
  incomplete_expected = none;
  elapsed_ms = 250;
}

byte_by_byte-Observes : Observes bytewise (codes "one") byte_by_byte
byte_by_byte-Observes =
    let view = parse_frames-stream_of bytewise (codes "one") (omega arith) in
    record {
      ended = (refl, refl);
      frames_eq = ap (λ (x : Parsed). x.frames) (sym view);
      trailing_eq = ap (λ (x : Parsed). x.trailing) (sym view);
      incomplete_eq = ap (λ (x : Parsed). x.incomplete) (sym view);
    }

evaluate-stream_of_example : evaluate byte_by_byte (expectation bytewise) 2000 ≡ accepted
evaluate-stream_of_example =
    evaluate-stream_of bytewise (codes "one") 2000 byte_by_byte (omega arith) (omega arith)
      byte_by_byte-Observes (omega arith) tt
