-- ===== src/Proxy/Fresh/Transport/Promises.antt =====
-- What the stream faults of `serve_fresh_tcp` promise.
use dns_server_lan_fixtures.Prelude.{
  ℕ, ◌+◌, ◌/◌, ◌%◌, ◌^◌, ◌≤◌, ◌<◌, ◌≡◌, refl, sym, ap, ◌∙◌, ◌≢◌, ◌⊎◌, inl, inr, [], ◌∷◌, ◌++◌,
  arith, Bytes, Text, codes, u16, u16_at, u16_parts, length, get_or, take, drop, length-append,
  length-take, length-drop, take-append_of_length, drop-append_of_length, drop-drop,
  get_or-append_head, ltb, ltb→lt, Bool-cases,
}
use dns_server_lan_fixtures.Proxy.Frame.Send.{framed}
use dns_server_lan_fixtures.Proxy.Fresh.Transport.{change_id, change_question}
use dns_server_lan_fixtures.Proxy.Frame.{half_of}

pub data Fault : Type 0 where
  close_before stall mismatch_id mismatch_question close_prefix close_body : Fault
  length_mismatch duplicate trailing : Fault

abbrev pub fault_key : Fault → Text
fault_key close_before = codes "close-before"
fault_key stall = codes "stall"
fault_key mismatch_id = codes "mismatch-id"
fault_key mismatch_question = codes "mismatch-question"
fault_key close_prefix = codes "close-prefix"
fault_key close_body = codes "close-body"
fault_key length_mismatch = codes "length-mismatch"
fault_key duplicate = codes "duplicate"
fault_key trailing = codes "trailing"

-- The stream that is written for each fault.
abbrev pub fault_stream : Fault → Bytes → Bytes
fault_stream close_before reply = []
fault_stream stall reply = []
fault_stream mismatch_id reply = framed (change_id reply)
fault_stream mismatch_question reply = framed (change_question reply)
fault_stream close_prefix reply = u16 (length reply)
fault_stream close_body reply = u16 (length reply) ++ half_of reply
fault_stream length_mismatch reply = u16 (length reply + 16) ++ reply
fault_stream duplicate reply = framed reply ++ framed reply
fault_stream trailing reply = framed reply ++ 0 ∷ 0x10 ∷ codes "garbage"

-- The reply with the next identifier.
pub record ChangedId (reply changed : Bytes) : Type 0 where
  pub next_id : u16_at changed 0 ≡ (u16_at reply 0 + 1) % 65536
  pub other_id : u16_at changed 0 ≢ u16_at reply 0
  pub rest : drop 2 changed ≡ drop 2 reply
  pub size : length changed ≡ length reply

-- The reply with a "z" for its byte 13, the first character of the question's name.
pub record ChangedQuestion (reply changed : Bytes) : Type 0 where
  pub front : take 13 changed ≡ take 13 reply
  pub byte : (length reply ≤ 13) ⊎ (get_or changed 13 0 ≡ b'z')
  pub back : drop 14 changed ≡ drop 14 reply
  pub size : length changed ≡ length reply

-- The stream that each fault promises: where the reply is changed, in a frame of its own.
abbrev pub Promises : Fault → Bytes → Bytes → Type 0
Promises close_before reply stream = stream ≡ []
Promises stall reply stream = stream ≡ []
Promises mismatch_id reply stream =
    (changed : Bytes) × ChangedId reply changed × (stream ≡ framed changed)
Promises mismatch_question reply stream =
    (changed : Bytes) × ChangedQuestion reply changed × (stream ≡ framed changed)
Promises close_prefix reply stream = stream ≡ u16 (length reply)
Promises close_body reply stream = stream ≡ u16 (length reply) ++ take (length reply / 2) reply
Promises length_mismatch reply stream = stream ≡ u16 (length reply + 16) ++ reply
Promises duplicate reply stream = stream ≡ framed reply ++ framed reply
Promises trailing reply stream = stream ≡ framed reply ++ 0 ∷ 0x10 ∷ codes "garbage"

pub length-change_id : (reply : Bytes) → 2 ≤ length reply → length (change_id reply) ≡ length reply
unfolding change_id
length-change_id reply h = omega (arith, length-drop 2 reply)

pub length-change_question : (reply : Bytes) → length (change_question reply) ≡ length reply
unfolding change_question
length-change_question reply = elim (Bool-cases (ltb 13 (length reply))) [
  | inl long ↦ rw long (
      let h : 13 < length reply = ground arith in
      omega (
        arith,
        length-append (take 13 reply) (b'z' ∷ drop 14 reply),
        length-take 13 reply,
        length-drop 14 reply,
      ))
  | inr short ↦ rw short refl
]

change_id-ChangedId : (reply : Bytes) → 2 ≤ length reply → ChangedId reply (change_id reply)
unfolding change_id
change_id-ChangedId reply h =
    let next = u16_parts ((u16_at reply 0 + 1) % 2 ^ 16) in
    record {
      next_id = next;
      other_id = λ same. different (u16_at reply 0) (sym next ∙ same);
      rest = refl;
      size = length-change_id reply h;
    }
  where
    different : (x : ℕ) → (x + 1) % 65536 ≡ x → ⊥
    different x h = omega arith

change_question-ChangedQuestion : (reply : Bytes) → ChangedQuestion reply (change_question reply)
unfolding change_question
change_question-ChangedQuestion reply = elim (Bool-cases (ltb 13 (length reply))) [
  | inl long ↦
      let whole : length (take 13 reply) ≡ 13 =
        omega (arith, length-take 13 reply, ltb→lt 13 (length reply) long) in
      let at_byte = get_or-append_head (take 13 reply) (drop 14 reply) b'z' 0 in
      let size = length-change_question reply in
      rw long (record {
        front = take-append_of_length 13 (take 13 reply) (b'z' ∷ drop 14 reply) whole;
        byte = inr (rw whole at at_byte);
        back =
            sym (drop-drop 13 1 (take 13 reply ++ b'z' ∷ drop 14 reply))
            ∙ ap (drop 1) (drop-append_of_length 13 (take 13 reply) (b'z' ∷ drop 14 reply) whole);
        size = rw long at size;
      })
  | inr short ↦
      rw short
        (record { front = refl; byte = inl (ground (arith, short)); back = refl; size = refl })
]

pub fault_stream-Promises :
    (f : Fault) (reply : Bytes) → 2 ≤ length reply → Promises f reply (fault_stream f reply)
fault_stream-Promises mismatch_id reply h = (change_id reply, change_id-ChangedId reply h, refl)
fault_stream-Promises mismatch_question reply h =
    (change_question reply, change_question-ChangedQuestion reply, refl)
fault_stream-Promises close_before reply h = refl
fault_stream-Promises _ reply h = refl
