-- ===== src/Probe/Observe/Report.antt =====
-- What `observe` sends and reports, and what `evaluate` makes of the report.
use dns_server_lan_fixtures.Probe.Observe.Stream.{Ends, read_loop-ReadAll}
use dns_server_lan_fixtures.Probe.Observe.{watch, pause, send_request, observe}
use dns_server_lan_fixtures.Prelude.{
  ℕ, suc, ◌≤◌, ◌≡◌, refl, sym, ap, ◌∙◌, inl, inr, Bool, true, false, not, none, List, [], ◌∷◌, ◌++◌,
  map, append-nil, flatten, arith, Bytes, Text, length, ◌==◌, le→leb, Bool-cases,
}
use dns_server_lan_fixtures.Outcome.{Outcome, raised, returned}
use dns_server_lan_fixtures.Proxy.Scenario.{Scenario}
use dns_server_lan_fixtures.Proxy.Socket.{
  Socket, Io, sendall, sleep, slept, available, written, written-append,
}
use dns_server_lan_fixtures.Proxy.Frame.Send.{framed, stream_of}
use dns_server_lan_fixtures.Proxy.Calls.{after_call}
use dns_server_lan_fixtures.Proxy.Fresh.Transport.Stream.{Sends, sendall-Sends, after_call-Sends}
use dns_server_lan_fixtures.Probe.Frames.{request_parts, parse_frames}
use dns_server_lan_fixtures.Probe.Verdict.{Observation, accepted, complaint, no_eof, evaluate}
use dns_server_lan_fixtures.Probe.Verdict.Scenarios.{
  expectation, reads_needed, InTime, evaluate-stream_of,
}

pause-Sends :
    {A : Type 0} {b : Bytes} {x : A} (rest : Io A) (delay : ℕ) (parts : List Bytes) (s : Socket)
    → s.breaks ≡ none
    → ((s' : Socket) → s'.breaks ≡ none → Sends b x s' (rest s'))
    → Sends b x s (rest (pause delay parts s))
unfolding pause
pause-Sends rest delay [] s free k = k s free
pause-Sends {b = b} rest delay (_ ∷ _) s free k = elim (Bool-cases (delay == 0)) [
  | inl z ↦ rw z (k s free)
  | inr nz ↦
      let h = k (sleep delay s) free in
      rw nz (record {
        result = h.result;
        sent =
            h.sent
            ∙ ap (λ t. t ++ b)
                (written-append s.trace (slept delay ∷ []) ∙ append-nil (written s.trace));
        unread = h.unread;
        unbroken = h.unbroken;
      })
]

send_request-Sends :
    (parts : List Bytes) (delay : ℕ) (s : Socket)
    → s.breaks ≡ none
    → Sends (flatten parts) tt s (send_request parts delay s)
unfolding send_request flatten
send_request-Sends [] delay s free = record {
  result = refl;
  sent = sym (append-nil (written s.trace));
  unread = refl;
  unbroken = free;
}
send_request-Sends (part ∷ rest) delay s free =
    after_call-Sends (λ _ s'. send_request rest delay (pause delay rest s')) part tt s
      (sendall part s) (sendall-Sends part s free)
      (λ s' free'.
        pause-Sends (send_request rest delay) delay rest s' free'
          (λ s'' free''. send_request-Sends rest delay s'' free''))

-- A report of a stream of bytes.
pub record Reports (bytes : Bytes) (closing : Bool) (clock : ℕ) (o : Observation) : Type 0 where
  pub frames_eq : o.frames ≡ (parse_frames bytes).frames
  pub trailing_eq : o.trailing ≡ (parse_frames bytes).trailing
  pub incomplete_eq : o.incomplete_expected ≡ (parse_frames bytes).incomplete
  pub eof_eq : o.eof ≡ closing
  pub late_eq : o.timed_out ≡ not closing
  pub clock_eq : o.elapsed_ms ≡ clock

returned_then :
    {A B : Type 0} {x : A} (rest : Io B) (out : Outcome A × Socket)
    → out.0 ≡ returned x
    → after_call (λ _. rest) out ≡ rest out.1
returned_then rest (raised e, s) h = absurd (cc h)
returned_then rest (returned x, s) h = refl

observe-watch :
    (query : Bytes) (pattern : Text) (delay clock : ℕ) (s : Socket) (parts : List Bytes)
    → length query ≤ 65535
    → request_parts (framed query) pattern ≡ inr parts
    → s.breaks ≡ none
    → observe query pattern delay clock s ≡ watch clock (send_request parts delay s).1
unfolding observe
observe-watch query pattern delay clock s parts h cut free =
    rw (le→leb (length query) 65535 h, cut)
      (returned_then (watch clock) (send_request parts delay s)
        (send_request-Sends parts delay s free).result)

watch-Reports :
    (closing : Bool) (clock : ℕ) (s : Socket)
    → Ends closing s.arrivals
    → (o : Observation) × ((watch clock s).0 ≡ returned o)
      × Reports (available s.arrivals) closing clock o
unfolding watch
watch-Reports closing clock s k =
    let r =
      read_loop-ReadAll closing (suc (length (available s.arrivals))) [] s.arrivals (omega arith)
        k in
    (
      record {
        frames = (parse_frames (flatten r.more)).frames;
        read_sizes = map length r.more;
        eof = closing;
        timed_out = not closing;
        trailing = (parse_frames (flatten r.more)).trailing;
        incomplete_expected = (parse_frames (flatten r.more)).incomplete;
        elapsed_ms = clock;
      },
      rw r.result refl,
      record {
        frames_eq = ap (λ t. (parse_frames t).frames) r.whole;
        trailing_eq = ap (λ t. (parse_frames t).trailing) r.whole;
        incomplete_eq = ap (λ t. (parse_frames t).incomplete) r.whole;
        eof_eq = refl;
        late_eq = refl;
        clock_eq = refl;
      },
    )

observe-Reports :
    (closing : Bool) (query : Bytes) (pattern : Text) (delay clock : ℕ) (s : Socket)
    (parts : List Bytes)
    → length query ≤ 65535
    → request_parts (framed query) pattern ≡ inr parts
    → s.breaks ≡ none
    → Ends closing s.arrivals
    → (o : Observation) × ((observe query pattern delay clock s).0 ≡ returned o)
      × Reports (available s.arrivals) closing clock o
observe-Reports closing query pattern delay clock s parts h cut free k =
    let unread = (send_request-Sends parts delay s free).unread in
    let (o, runs, report) =
      watch-Reports closing clock (send_request parts delay s).1 (rw unread k) in
    (
      o,
      ap (λ r. r.0) (observe-watch query pattern delay clock s parts h cut free) ∙ runs,
      rw unread at report,
    )

-- For a query of at most 65535 bytes, a known request pattern and a connection that does not
-- break, the stream of a scenario whose expectation does not count reads, for a reply of 2 to
-- 65535 bytes, is accepted by the probe in whatever chunks it comes, when the server closes it,
-- within the time bounds of a stall.
pub observe_closed_accepted :
    (scenario : Scenario) (query reply : Bytes) (pattern : Text) (delay clock stall_ms : ℕ)
    (s : Socket) (parts : List Bytes)
    → length query ≤ 65535
    → request_parts (framed query) pattern ≡ inr parts
    → s.breaks ≡ none
    → Ends true s.arrivals
    → available s.arrivals ≡ stream_of scenario reply
    → 2 ≤ length reply
    → length reply ≤ 65535
    → reads_needed scenario ≡ 0
    → InTime scenario stall_ms clock
    → (o : Observation) × ((observe query pattern delay clock s).0 ≡ returned o)
      × (evaluate o (expectation scenario) stall_ms ≡ accepted)
observe_closed_accepted scenario query reply pattern delay clock stall_ms s parts h cut free k e low
      high reads time =
    let (o, runs, report) = observe-Reports true query pattern delay clock s parts h cut free k in
    (
      o,
      runs,
      evaluate-stream_of scenario reply stall_ms o low high
          (record {
            ended = (report.eof_eq, report.late_eq);
            frames_eq = report.frames_eq ∙ ap (λ t. (parse_frames t).frames) e;
            trailing_eq = report.trailing_eq ∙ ap (λ t. (parse_frames t).trailing) e;
            incomplete_eq = report.incomplete_eq ∙ ap (λ t. (parse_frames t).incomplete) e;
          })
          (omega arith) (rw report.clock_eq time),
    )

-- For a query of at most 65535 bytes, a known request pattern and a connection that does not
-- break, a stream that the server keeps open beyond the client's timeout is rejected by the
-- probe, whatever it holds and whatever is expected, "normal" included.
pub observe_open_rejected :
    (query : Bytes) (pattern expected : Text) (delay clock stall_ms : ℕ) (s : Socket)
    (parts : List Bytes)
    → length query ≤ 65535
    → request_parts (framed query) pattern ≡ inr parts
    → s.breaks ≡ none
    → Ends false s.arrivals
    → (o : Observation) × ((observe query pattern delay clock s).0 ≡ returned o)
      × (evaluate o expected stall_ms ≡ complaint no_eof)
unfolding evaluate
observe_open_rejected query pattern expected delay clock stall_ms s parts h cut free k =
    let (o, runs, report) = observe-Reports false query pattern delay clock s parts h cut free k in
    (o, runs, rw report.eof_eq refl)
