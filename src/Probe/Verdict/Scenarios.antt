-- ===== src/Probe/Verdict/Scenarios.antt =====
-- The probe accepts what the proxy writes, for each line of the table in scripts/smoke-test.sh.
use dns_server_lan_fixtures.Prelude.{
  append-nil, append_assoc, length-take, ◌∙◌, ap, ◌*◌, ◌≤◌, true, false, All, length, ℕ, ◌+◌, ◌/◌,
  min, ◌≡◌, refl, List, [], ◌∷◌, ◌++◌, arith, Bytes, Text, codes, u16,
}
use dns_server_lan_fixtures.Proxy.Scenario.{
  Scenario, normal, force_tcp, split_prefix, split_body, bytewise, delayed, close_before_response,
  close_after_prefix, close_mid_body, length_mismatch, stall, duplicate_response, trailing_bytes,
}
use dns_server_lan_fixtures.Proxy.Frame.{max_dns_payload, half_of, trailing}
use dns_server_lan_fixtures.Proxy.Frame.Send.{stream_of}
use dns_server_lan_fixtures.Probe.Frames.{Parsed, parse_frames}
use dns_server_lan_fixtures.Probe.Frames.Split.{
  framed_all, IsPayload, IsRemainder, remainder_size, parse_frames-framed_all,
}
use dns_server_lan_fixtures.Probe.Verdict.{Observation, accepted, evaluate}

-- `label|expectation` of scripts/smoke-test.sh; "force-tcp" is no line of the table, and answers
-- over TCP as "normal" does.
abbrev pub expectation : Scenario → Text
expectation normal = codes "normal"
expectation force_tcp = codes "normal"
expectation split_prefix = codes "split-prefix"
expectation split_body = codes "split-body"
expectation bytewise = codes "bytewise"
expectation delayed = codes "delayed"
expectation close_before_response = codes "eof-before-response"
expectation close_after_prefix = codes "eof-after-prefix"
expectation close_mid_body = codes "eof-mid-body"
expectation length_mismatch = codes "length-mismatch"
expectation stall = codes "stall"
expectation duplicate_response = codes "duplicate-response"
expectation trailing_bytes = codes "trailing-bytes"

-- The frames and the remainder of a scenario's stream.
abbrev pub frames_of : Scenario → Bytes → List Bytes
frames_of close_before_response p = []
frames_of stall p = []
frames_of close_after_prefix p = []
frames_of close_mid_body p = []
frames_of length_mismatch p = []
frames_of duplicate_response p = p ∷ p ∷ []
frames_of _ p = p ∷ []

abbrev pub remainder_of : Scenario → Bytes → Bytes
remainder_of close_after_prefix p = u16 (length p)
remainder_of close_mid_body p = u16 (length p) ++ half_of p
remainder_of length_mismatch p = u16 (min max_dns_payload (length p + 16)) ++ half_of p
remainder_of trailing_bytes p = trailing
remainder_of _ p = []

stream_of-split :
    (s : Scenario) (p : Bytes) → stream_of s p ≡ framed_all (frames_of s p) ++ remainder_of s p
stream_of-split close_before_response p = refl
stream_of-split stall p = refl
stream_of-split close_after_prefix p = refl
stream_of-split close_mid_body p = refl
stream_of-split length_mismatch p = refl
stream_of-split duplicate_response p = simp (append_assoc, append-nil)
stream_of-split _ p = simp append-nil

remainder_of-IsRemainder : (s : Scenario) (p : Bytes) → IsPayload p → IsRemainder (remainder_of s p)
remainder_of-IsRemainder close_after_prefix p h = omega arith
remainder_of-IsRemainder close_mid_body p h = omega (arith, length-take (length p / 2) p)
remainder_of-IsRemainder length_mismatch p h = omega (arith, length-take (length p / 2) p)
remainder_of-IsRemainder trailing_bytes p h = omega arith
remainder_of-IsRemainder _ p h = omega arith

IsPayload-frames_of : (s : Scenario) (p : Bytes) → IsPayload p → All IsPayload (frames_of s p)
IsPayload-frames_of close_before_response p h = tt
IsPayload-frames_of _ p h = omega arith

-- The probe's view of each scenario: which frames, what is left, and the size it announced.
pub parse_frames-stream_of :
    (s : Scenario) (p : Bytes)
    → IsPayload p
    → parse_frames (stream_of s p) ≡ record {
      frames = frames_of s p;
      trailing = remainder_of s p;
      incomplete = remainder_size (remainder_of s p);
    }
parse_frames-stream_of s p h = rw (stream_of-split s p) (
    parse_frames-framed_all (frames_of s p) (remainder_of s p) (IsPayload-frames_of s p h)
      (remainder_of-IsRemainder s p h))

-- The reads that a split scenario has to show.
abbrev pub reads_needed : Scenario → ℕ
reads_needed split_prefix = 2
reads_needed split_body = 2
reads_needed bytewise = 3
reads_needed delayed = 2
reads_needed _ = 0

-- The time that a stall has to take.
abbrev pub InTime : Scenario → ℕ → ℕ → Type 0
InTime stall stall_ms elapsed = (stall_ms * 9 ≤ elapsed * 10) × (elapsed * 2 ≤ stall_ms * 3 + 1000)
InTime _ stall_ms elapsed = Unit

-- An observation of the whole stream of a scenario, up to the server's close.
pub record Observes (s : Scenario) (p : Bytes) (o : Observation) : Type 0 where
  pub ended : (o.eof ≡ true) × (o.timed_out ≡ false)
  pub frames_eq : o.frames ≡ (parse_frames (stream_of s p)).frames
  pub trailing_eq : o.trailing ≡ (parse_frames (stream_of s p)).trailing
  pub incomplete_eq : o.incomplete_expected ≡ (parse_frames (stream_of s p)).incomplete

accepted_shape :
    (s : Scenario) (p : Bytes) (stall_ms : ℕ) (o : Observation)
    → 2 ≤ length p
    → (o.eof ≡ true) × (o.timed_out ≡ false)
    → o.frames ≡ frames_of s p
    → o.trailing ≡ remainder_of s p
    → o.incomplete_expected ≡ remainder_size (remainder_of s p)
    → reads_needed s ≤ length o.read_sizes
    → InTime s stall_ms o.elapsed_ms
    → evaluate o (expectation s) stall_ms ≡ accepted
unfolding evaluate
accepted_shape normal p stall_ms o h e f t i r w = ground arith
accepted_shape close_mid_body p stall_ms o h e f t i r w =
    ground (arith, length-take (length p / 2) p)
accepted_shape length_mismatch p stall_ms o h e f t i r w =
    ground (arith, length-take (length p / 2) p)
accepted_shape _ p stall_ms o h e f t i r w = ground arith

-- For every scenario and every response of 2 to 65535 bytes, the probe accepts an observation of the
-- stream that the proxy writes, up to the server's close, under the expectation that the smoke test
-- names, if it took the reads that the expectation counts (two for "split-prefix", "split-body" and
-- "delayed", three for "bytewise") and, for "stall", a time of at least 9/10 of the stall and at most
-- 3/2 of it and half a second.
pub evaluate-stream_of :
    (s : Scenario) (p : Bytes) (stall_ms : ℕ) (o : Observation)
    → 2 ≤ length p
    → length p ≤ 65535
    → Observes s p o
    → reads_needed s ≤ length o.read_sizes
    → InTime s stall_ms o.elapsed_ms
    → evaluate o (expectation s) stall_ms ≡ accepted
evaluate-stream_of s p stall_ms o h k v reads in_time =
    let view = parse_frames-stream_of s p (omega arith) in
    accepted_shape s p stall_ms o h v.ended (v.frames_eq ∙ ap (λ (x : Parsed). x.frames) view)
      (v.trailing_eq ∙ ap (λ (x : Parsed). x.trailing) view)
      (v.incomplete_eq ∙ ap (λ (x : Parsed). x.incomplete) view) reads in_time
