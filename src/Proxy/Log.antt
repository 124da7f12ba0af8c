-- ===== src/Proxy/Log.antt =====
-- `log_event` of fault_proxy/dns_fault_proxy.py: the fields of the line that it prints.
use dns_server_lan_fixtures.Prelude.{List, [], ◌∷◌, Text, codes, mem_bytes, if◌then◌else◌}
use dns_server_lan_fixtures.Proxy.Scenario.{Scenario, value}

pub record LogEntry : Type 0 where
  pub event : Text
  pub transport : Text
  pub scenario : Text
  pub reason : Text

abbrev pub allowed_reasons : List Text
allowed_reasons =
    codes ""
    ∷ codes "complete"
    ∷ codes "overload"
    ∷ codes "format"
    ∷ codes "timeout"
    ∷ codes "eof"
    ∷ codes "network"
    ∷ codes "shutdown"
    ∷ codes "access"
    ∷ []

unfoldable pub log_event : Text → Text → Scenario → Text → LogEntry
unfolding mem_bytes value
log_event event transport scenario reason = record {
  event = event;
  transport = transport;
  scenario = value scenario;
  reason = if mem_bytes reason allowed_reasons then reason else codes "network";
}
