-- ===== src/Proxy/Question.antt =====
-- `_question_end`, `parse_question_name`, `_query_scenario` and `make_truncated_response` of
-- fault_proxy/dns_fault_proxy.py.
pub mod Encoded
pub mod RoundTrip
pub mod Truncated
use dns_server_lan_fixtures.Prelude.{
  ℕ, ◌+◌, bit_and, bit_or, Bool, not, ◌&&◌, ◌||◌, ◌++◌, Bytes, Text, u16, u16_at, length, slice,
  ltb, leb, ◌==◌, if◌then◌else◌,
}
use dns_server_lan_fixtures.Outcome.{
  Outcome, returned, ◌>>=◌, ◌>>◌, reject_if, header_truncated, question_count, truncated_question,
}
use dns_server_lan_fixtures.Proxy.Name.{decode_name}
use dns_server_lan_fixtures.Proxy.Scenario.{Scenario, normal, scenario_for}

abbrev check_end : Bytes → Text × ℕ → Outcome (Text × ℕ)
check_end message (qname, name_end) = do
  reject_if (ltb (length message) (name_end + 4)) truncated_question
  returned (qname, name_end + 4)

unfoldable pub question_end : Bytes → Outcome (Text × ℕ)
question_end message = do
  reject_if (ltb (length message) 12) header_truncated
  reject_if (not (u16_at message 4 == 1)) question_count
  decoded ← decode_name message 12
  check_end message decoded

unfoldable pub parse_question_name : Bytes → Outcome Text
parse_question_name message = do parsed ← question_end message; returned parsed.0

-- `flags & 0x7800 or questions == 0`, where the header is whole.
has_no_name : Bytes → Bool
has_no_name query =
    leb 12 (length query) && (not (bit_and (u16_at query 2) 0x7800 == 0) || u16_at query 4 == 0)

unfoldable pub query_scenario : Bytes → Outcome Scenario
unfolding has_no_name
query_scenario query =
    if has_no_name query
    then returned normal
    else do qname ← parse_question_name query; returned (scenario_for qname)

-- struct.pack("!HHHHHH", identifier, response_flags, 1, 0, 0, 0)
abbrev pub response_header : ℕ → ℕ → Bytes
response_header id flags = u16 id ++ (u16 flags ++ (u16 1 ++ (u16 0 ++ (u16 0 ++ u16 0))))

-- QR, AA, TC, optional RD
unfoldable pub response_flags : ℕ → ℕ
response_flags query_flags = bit_or 0x8600 (bit_and query_flags 0x0100)

abbrev truncate_at : Bytes → Text × ℕ → Outcome Bytes
truncate_at query (_, end) =
    returned
      (response_header (u16_at query 0) (response_flags (u16_at query 2)) ++ slice query 12 end)

-- `dnspython` is the response that the library builds for a query with additional records, with
-- the bits TC and AA set, or the exception that it raises.
unfoldable pub make_truncated_response : (dnspython : Bytes → Outcome Bytes) → Bytes → Outcome Bytes
make_truncated_response dnspython query =
    if leb 12 (length query) && not (u16_at query 10 == 0)
    then dnspython query
    else do parsed ← question_end query; truncate_at query parsed
