-- ===== src/Zones/Tests.antt =====
-- The generator of large fixtures at concrete inputs.
use dns_server_lan_fixtures.Prelude.{◌≡◌, refl, ap, [], ◌∷◌, map, arith, Text, codes, get_or}
use mathlib.Core.List.Permᴰ.{swap}
use dns_server_lan_fixtures.Zones.{Item, build_fixtures, sorted, render_zone, build_manifest}
use dns_server_lan_fixtures.Zones.Order.{AreDistinct, render_zone-Permᴰ}

sorted_names :
    map (λ x. x.name) (sorted build_fixtures)
    ≡ codes "large-1232"
      ∷ codes "large-512"
      ∷ codes "large-multi-a"
      ∷ codes "large-multi-aaaa"
      ∷ codes "large-srv"
      ∷ codes "near-max-tcp"
      ∷ []
unfolding sorted build_fixtures
sorted_names = refl

answer_counts :
    map (λ e. e.answer_count) (build_manifest build_fixtures) ≡ 1 ∷ 1 ∷ 128 ∷ 128 ∷ 64 ∷ 1 ∷ []
unfolding build_manifest build_fixtures
answer_counts = refl

abbrev item_of : Text → Text → Item
item_of name record_text = record {
  name = name;
  fixture = record {
    qtype = codes "A";
    records = record_text ∷ [];
    minimum_tcp_bytes = 40;
    maximum_tcp_bytes = 80;
  };
}

abbrev first : Item
first = item_of (codes "b") (codes "b 60 IN A 192.0.2.2")

abbrev second : Item
second = item_of (codes "a") (codes "a 60 IN A 192.0.2.1")

two_distinct : AreDistinct (first ∷ second ∷ [])
two_distinct =
    (((λ same. let e : b'b' ≡ b'a' = ap (λ s. get_or s 0 0) same in omega arith), tt), (tt, tt))

-- The zone of both orders.
abbrev zone_text : Text
zone_text =
    codes
      "; Generated by generate-large-fixtures.py. Do not edit.\n$ORIGIN example.test.\na 60 IN A 192.0.2.1\nb 60 IN A 192.0.2.2\n"

zone_of_two : render_zone (first ∷ second ∷ []) ≡ zone_text
unfolding render_zone
zone_of_two = refl

render_zone-Permᴰ_example :
    (render_zone (first ∷ second ∷ []) ≡ render_zone (second ∷ first ∷ []))
    × (build_manifest (first ∷ second ∷ []) ≡ build_manifest (second ∷ first ∷ []))
render_zone-Permᴰ_example =
    render_zone-Permᴰ (first ∷ second ∷ []) (second ∷ first ∷ []) (swap refl refl) two_distinct
