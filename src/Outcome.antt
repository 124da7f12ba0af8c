-- ===== src/Outcome.antt =====
-- The exceptions of fault_proxy/dns_fault_proxy.py and a result that may be one.
use dns_server_lan_fixtures.Prelude.{Bool, true, false, ◌≡◌, refl}

-- A `DNSFormatError`, one constructor for each message.
pub data FormatError : Type 0 where
  transaction_id_range query_type_range query_label_ascii query_label_length query_name_length :
      FormatError
  truncated_name truncated_pointer pointer_out_of_bounds pointer_loop label_length_bits :
      FormatError
  truncated_label label_ascii excessive_depth : FormatError
  header_truncated question_count truncated_question : FormatError
  zero_length_frame payload_length : FormatError
  health_header health_id health_not_response health_not_authoritative : FormatError
  upstream_header upstream_id : FormatError

-- `network` is any other `OSError`; `socket.timeout` is an `OSError` too.
pub data Error : Type 0 where
  format : FormatError → Error
  timed_out : Error
  eof : Error
  network : Error
  -- An exception that no handler catches, such as dnspython's `DNSException`.
  uncaught : Error

-- What a call does: it raises, or it returns a value.
pub data Outcome {ℓ} (A : Type ℓ) : Type ℓ where
  raised : Error → Outcome A
  returned : A → Outcome A

-- `if bad: raise DNSFormatError(e)`
abbrev pub reject_if : (bad : Bool) (e : FormatError) → Outcome (Unit {0})
reject_if false _ = returned tt
reject_if true e = raised (format e)

-- The statement after a call: an exception leaves the function at once.
infixl 5 ◌>>=◌ ◌>>◌
abbrev pub ◌>>=◌ {ℓ κ} :
    {A : Type ℓ} {B : Type κ} (call : Outcome A) (rest : A → Outcome B) → Outcome B
raised e >>= _ = raised e
returned x >>= rest = rest x

abbrev pub ◌>>◌ {ℓ} : {B : Type ℓ} → Outcome (Unit {0}) → Outcome B → Outcome B
raised e >> _ = raised e
returned _ >> rest = rest

pub returned_injective {ℓ} : {A : Type ℓ} {a b : A} → returned a ≡ returned b → a ≡ b
returned_injective same = cc same

pub bind-eq-returned {ℓ κ} :
    {A : Type ℓ} {B : Type κ} (call : Outcome A) (rest : A → Outcome B) {y : B}
    → (call >>= rest) ≡ returned y
    → (x : A) × (call ≡ returned x) × (rest x ≡ returned y)
bind-eq-returned (raised e) _ absurd = cc
bind-eq-returned (returned x) _ same = (x, refl, same)

-- A call that raises does not return.
pub not_returned {ℓ} : {A : Type ℓ} {e : Error} {x : A} → raised e ≡ returned x → ⊥
not_returned same = cc
