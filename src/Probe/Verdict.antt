-- ===== src/Probe/Verdict.antt =====
-- `Observation` and `evaluate` of scripts/tcp-probe.py. Times are in milliseconds.
pub mod Scenarios
use dns_server_lan_fixtures.Prelude.{
  ℕ, ◌+◌, ◌*◌, Bool, true, false, not, ◌&&◌, ◌||◌, Option, none, some, List, [], ◌∷◌, Bytes, Text,
  codes, eq_bytes, mem_bytes, length, ltb, leb, ◌==◌, if◌then◌else◌,
}

pub record Observation : Type 0 where
  pub frames : List Bytes
  pub read_sizes : List ℕ
  pub eof : Bool
  pub timed_out : Bool
  pub trailing : Bytes
  pub incomplete_expected : Option ℕ
  pub elapsed_ms : ℕ

-- An `AssertionError`, one constructor for each message.
pub data Complaint : Type 0 where
  no_eof normal_shape split_shape split_reads early_bytes prefix_shape incomplete_shape : Complaint
  stall_bytes stall_short stall_long duplicate_shape trailing_shape unknown_expectation : Complaint

pub data Verdict : Type 0 where
  accepted : Verdict
  complaint : Complaint → Verdict

abbrev require : Bool → Complaint → Verdict → Verdict
require true c v = v
require false c v = complaint c

nonempty {ℓ} : {A : Type ℓ} → List A → Bool
nonempty [] = false
nonempty (_ ∷ _) = true

is_some : Option ℕ → Bool
is_some none = false
is_some (some _) = true

-- len(frames) == n and not trailing
shape : ℕ → Observation → Bool
shape n o = length o.frames == n && not (nonempty o.trailing)

-- The chain of `if expectation == …`, behind the test for the end of the stream.
evaluate_shape : Observation → Text → ℕ → Verdict
evaluate_shape o expectation stall_ms =
    if eq_bytes expectation (codes "normal")
    then require (shape 1 o) normal_shape accepted
    else if mem_bytes expectation
        (codes "split-prefix" ∷ codes "split-body" ∷ codes "bytewise" ∷ codes "delayed" ∷ [])
    then require (shape 1 o) split_shape (
        require
          (leb (if eq_bytes expectation (codes "bytewise") then 3 else 2) (length o.read_sizes))
          split_reads accepted)
    else if eq_bytes expectation (codes "eof-before-response")
    then require (not (nonempty o.frames || nonempty o.trailing || not o.eof)) early_bytes accepted
    else if eq_bytes expectation (codes "eof-after-prefix")
    then require (not (nonempty o.frames || not (length o.trailing == 2) || not o.eof)) prefix_shape
        accepted
    else if mem_bytes expectation (codes "eof-mid-body" ∷ codes "length-mismatch" ∷ [])
    then require
        (not (
          nonempty o.frames
          || leb (length o.trailing) 2
          || not (is_some o.incomplete_expected)
          || not o.eof))
        incomplete_shape accepted
    else if eq_bytes expectation (codes "stall")
    then require (not (nonempty o.frames || nonempty o.trailing)) stall_bytes (
        require (not (ltb (o.elapsed_ms * 10) (stall_ms * 9))) stall_short
          (require (not (ltb (stall_ms * 3 + 1000) (o.elapsed_ms * 2))) stall_long accepted))
    else if eq_bytes expectation (codes "duplicate-response")
    then require (shape 2 o) duplicate_shape accepted
    else if eq_bytes expectation (codes "trailing-bytes")
    then require (length o.frames == 1 && nonempty o.trailing) trailing_shape accepted
    else complaint unknown_expectation

unfoldable pub evaluate : Observation → Text → ℕ → Verdict
unfolding evaluate_shape shape nonempty is_some mem_bytes eq_bytes
evaluate o expectation stall_ms =
    require (o.eof && not o.timed_out) no_eof (evaluate_shape o expectation stall_ms)
