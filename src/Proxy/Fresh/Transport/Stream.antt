-- ===== src/Proxy/Fresh/Transport/Stream.antt =====
-- What `serve_fresh_tcp` writes, on a connection that does not break.
use dns_server_lan_fixtures.Prelude.{
  ℕ, min, ◌≡◌, refl, sym, ap, ◌∙◌, none, List, [], ◌∷◌, ◌++◌, append-nil, append_assoc, flatten,
  Bytes,
}
use dns_server_lan_fixtures.Outcome.{Outcome, returned, raised, returned_injective}
use dns_server_lan_fixtures.Proxy.Calls.{after_call}
use dns_server_lan_fixtures.Proxy.Fresh.Transport.{send_parts, pause}
use dns_server_lan_fixtures.Proxy.Socket.{
  Io, slept, Socket, wrote, written, written-append, sendall,
}

-- A call that writes the bytes, returns the value and reads nothing.
pub record Sends {A : Type 0} (bytes : Bytes) (x : A) (s : Socket) (out : Outcome A × Socket)
    : Type 0 where
  pub result : out.0 ≡ returned x
  pub sent : written (out.1).trace ≡ written s.trace ++ bytes
  pub unread : (out.1).arrivals ≡ s.arrivals
  pub unbroken : (out.1).breaks ≡ none

pub sendall-Sends : (part : Bytes) (s : Socket) → s.breaks ≡ none → Sends part tt s (sendall part s)
unfolding sendall
sendall-Sends part s free = rw free (record {
  result = refl;
  sent =
      written-append s.trace (wrote part ∷ []) ∙ ap (λ t. written s.trace ++ t) (append-nil part);
  unread = refl;
  unbroken = refl;
})

pub after_call-Sends :
    {A B : Type 0} {b : Bytes} {x : B} (rest : A → Io B) (a : Bytes) (y : A) (s : Socket)
    (out : Outcome A × Socket)
    → Sends a y s out
    → ((s' : Socket) → s'.breaks ≡ none → Sends b x s' (rest y s'))
    → Sends (a ++ b) x s (after_call rest out)
after_call-Sends rest a y s (raised e, s') first next = absurd (cc (first.result))
after_call-Sends {b = b} {x = x} rest a y s (returned y', s') first next =
    let same = returned_injective first.result in
    let after = next s' first.unbroken in
    rw same (record {
      result = after.result;
      sent = after.sent ∙ ap (λ t. t ++ b) first.sent ∙ append_assoc (written s.trace) a b;
      unread = after.unread ∙ first.unread;
      unbroken = after.unbroken;
    })

pause-Sends :
    {A : Type 0} {b : Bytes} {x : A} (rest : Io A) (delay : ℕ) (parts : List Bytes) (s : Socket)
    → Sends b x (pause delay parts s) (rest (pause delay parts s))
    → Sends b x s (rest (pause delay parts s))
pause-Sends rest delay [] s h = h
pause-Sends {b = b} rest delay (_ ∷ _) s h = record {
  result = h.result;
  sent =
      h.sent
      ∙ ap (λ t. t ++ b)
          (written-append s.trace (slept (min delay 10000) ∷ []) ∙ append-nil (written s.trace));
  unread = h.unread;
  unbroken = h.unbroken;
}

pause-breaks :
    (delay : ℕ) (parts : List Bytes) (s : Socket) → (pause delay parts s).breaks ≡ s.breaks
pause-breaks delay [] s = refl
pause-breaks delay (_ ∷ _) s = refl

pub send_parts-Sends :
    (parts : List Bytes) (delay : ℕ) (s : Socket)
    → s.breaks ≡ none
    → Sends (flatten parts) tt s (send_parts parts delay s)
unfolding send_parts flatten
send_parts-Sends [] delay s free = record {
  result = refl;
  sent = sym (append-nil (written s.trace));
  unread = refl;
  unbroken = free;
}
send_parts-Sends (part ∷ rest) delay s free =
    after_call-Sends (λ _ s'. send_parts rest delay (pause delay rest s')) part tt s
      (sendall part s) (sendall-Sends part s free)
      (λ s' free'.
        pause-Sends (send_parts rest delay) delay rest s'
          (send_parts-Sends rest delay (pause delay rest s') (pause-breaks delay rest s' ∙ free')))
