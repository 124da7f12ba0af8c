-- ===== src/Proxy/Scenario.antt =====
-- The `Scenario` enumeration and `scenario_for` of fault_proxy/dns_fault_proxy.py.
pub mod Dispatch
use dns_server_lan_fixtures.Prelude.{
  Bool, ◌&&◌, List, [], ◌∷◌, Text, codes, lower, eq_bytes, rstrip_dots, split_dots, if◌then◌else◌,
}

pub data Scenario : Type 0 where
  normal force_tcp split_prefix split_body bytewise delayed : Scenario
  close_before_response close_after_prefix close_mid_body length_mismatch stall : Scenario
  duplicate_response trailing_bytes : Scenario

-- scenario.value
unfoldable pub value : Scenario → Text
value normal = codes "normal"
value force_tcp = codes "force-tcp"
value split_prefix = codes "split-prefix"
value split_body = codes "split-body"
value bytewise = codes "bytewise"
value delayed = codes "delayed"
value close_before_response = codes "close-before-response"
value close_after_prefix = codes "close-after-prefix"
value close_mid_body = codes "close-mid-body"
value length_mismatch = codes "length-mismatch"
value stall = codes "stall"
value duplicate_response = codes "duplicate-response"
value trailing_bytes = codes "trailing-bytes"

-- The members in the order of the class.
abbrev pub scenarios : List Scenario
scenarios =
    normal ∷ force_tcp ∷ split_prefix ∷ split_body ∷ bytewise ∷ delayed ∷ close_before_response
    ∷ close_after_prefix ∷ close_mid_body ∷ length_mismatch ∷ stall ∷ duplicate_response
    ∷ trailing_bytes ∷ []

find_value : List Scenario → Text → Scenario → Scenario
find_value [] label default = default
find_value (s ∷ rest) label default =
    if eq_bytes (value s) label then s else find_value rest label default

-- SCENARIO_BY_LABEL.get(label, default)
unfoldable pub scenario_by_label : Text → Scenario → Scenario
unfolding find_value value
scenario_by_label = find_value scenarios

-- labels[1:] == ["transport", "example", "test"]
is_transport_zone : Text → Text → Text → Bool
is_transport_zone a b c =
    eq_bytes a (codes "transport") && eq_bytes b (codes "example") && eq_bytes c (codes "test")

unfoldable pub scenario_of_labels : List Text → Scenario
unfolding is_transport_zone scenario_by_label
scenario_of_labels (first ∷ a ∷ b ∷ c ∷ []) =
    if is_transport_zone a b c then scenario_by_label first normal else normal
scenario_of_labels _ = normal

-- qname.lower().rstrip(".").split(".")
unfoldable pub scenario_labels : Text → List Text
scenario_labels qname = split_dots (rstrip_dots (lower qname))

unfoldable pub scenario_for : Text → Scenario
unfolding scenario_of_labels scenario_labels
scenario_for qname = scenario_of_labels (scenario_labels qname)
