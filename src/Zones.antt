-- ===== src/Zones.antt =====
-- bind/scripts/generate-large-fixtures.py: the zone and the manifest of the large fixtures.
pub mod Order
mod Tests
use dns_server_lan_fixtures.Prelude.{
  ℕ, ◌+◌, Bool, true, false, ◌&&◌, ◌||◌, Option, none, some, List, [], ◌∷◌, ◌++◌, map, Text, codes,
  length, ltb, ◌==◌, if◌then◌else◌,
}
use dns_server_lan_fixtures.Proxy.Config.{decimal}
use dns_server_lan_fixtures.Proxy.Fresh.Sets.{repeat_text, hexadecimal, each}

pub record Fixture : Type 0 where
  pub qtype : Text
  pub records : List Text
  pub minimum_tcp_bytes : ℕ
  pub maximum_tcp_bytes : ℕ

-- An item of the dictionary. Its names are distinct.
pub record Item : Type 0 where
  pub name : Text
  pub fixture : Fixture

-- "\n".join(lines)
unfoldable pub join_lines : List Text → Text
join_lines [] = []
join_lines (l ∷ []) = l
join_lines (l ∷ next ∷ ls) = l ++ (b'\n' ∷ join_lines (next ∷ ls))

-- _txt_record(owner, chunks, chunk_size)
unfoldable pub txt_record : Text → ℕ → ℕ → Text
unfolding join_lines repeat_text each
txt_record owner chunks chunk_size =
    let line = codes "    \"" ++ (repeat_text chunk_size (codes "x") ++ codes "\"") in
    owner ++ (codes " 60 IN TXT (\n" ++ (join_lines (each chunks 0 (λ _. line)) ++ codes "\n)"))

abbrev item : Text → Text → List Text → ℕ → ℕ → Item
item name qtype records minimum maximum = record {
  name = name;
  fixture = record {
    qtype = qtype;
    records = records;
    minimum_tcp_bytes = minimum;
    maximum_tcp_bytes = maximum;
  };
}

-- build_fixtures()
unfoldable pub build_fixtures : List Item
unfolding txt_record each decimal hexadecimal
build_fixtures =
    item (codes "large-512") (codes "TXT") (txt_record (codes "large-512") 4 200 ∷ []) 700 1200
    ∷ item (codes "large-1232") (codes "TXT") (txt_record (codes "large-1232") 8 200 ∷ []) 1500 2200
    ∷ item (codes "large-multi-a") (codes "A")
        (each 128 1 (λ suffix. codes "large-multi-a 60 IN A 192.0.2." ++ decimal suffix)) 2000 4000
    ∷ item (codes "large-multi-aaaa") (codes "AAAA")
        (each 128 1
          (λ suffix. codes "large-multi-aaaa 60 IN AAAA 2001:db8:1::" ++ hexadecimal suffix))
        3000 6000
    ∷ item (codes "large-srv") (codes "SRV")
        (each 64 0 (λ priority.
          codes "large-srv 60 IN SRV "
          ++ (decimal priority
              ++ (codes " 100 389 srv-" ++ (decimal (priority + 1) ++ codes ".example.test.")))))
        2000 8000
    ∷ item (codes "near-max-tcp") (codes "TXT") (txt_record (codes "near-max-tcp") 240 250 ∷ [])
        58001 65535
    ∷ []

-- a < b, of texts
unfoldable pub less : Text → Text → Bool
less [] [] = false
less [] (y ∷ ys) = true
less (x ∷ xs) [] = false
less (x ∷ xs) (y ∷ ys) = ltb x y || (x == y && less xs ys)

unfoldable pub insert : Item → List Item → List Item
unfolding less
insert x [] = x ∷ []
insert x (y ∷ ys) = if less y.name x.name then y ∷ insert x ys else x ∷ y ∷ ys

-- sorted(fixtures.items())
unfoldable pub sorted : List Item → List Item
unfolding insert
sorted [] = []
sorted (x ∷ xs) = insert x (sorted xs)

abbrev all_records : List Item → List Text
all_records [] = []
all_records (x ∷ xs) = x.fixture.records ++ all_records xs

-- render_zone(fixtures)
unfoldable pub render_zone : List Item → Text
unfolding join_lines sorted
render_zone fixtures =
    let start =
      codes "; Generated by generate-large-fixtures.py. Do not edit."
      ∷ codes "$ORIGIN example.test."
      ∷ [] in
    join_lines (start ++ all_records (sorted fixtures)) ++ b'\n' ∷ []

-- An entry of the manifest.
pub record Entry : Type 0 where
  pub name : Text
  pub answer_count : ℕ
  pub maximum_tcp_bytes : ℕ
  pub minimum_tcp_bytes : ℕ
  pub qname : Text
  pub qtype : Text

abbrev entry_of : Item → Entry
entry_of x = record {
  name = x.name;
  answer_count = length x.fixture.records;
  maximum_tcp_bytes = x.fixture.maximum_tcp_bytes;
  minimum_tcp_bytes = x.fixture.minimum_tcp_bytes;
  qname = x.name ++ codes ".example.test";
  qtype = x.fixture.qtype;
}

-- build_manifest(fixtures), its entries under "fixtures"
unfoldable pub build_manifest : List Item → List Entry
unfolding sorted
build_manifest fixtures = map entry_of (sorted fixtures)

-- What `main` leaves behind: `none` is the `SystemExit` for two outputs with one path, before a
-- directory or a file is made. The manifest is written as JSON, with sorted keys.
abbrev pub main : Bool → Option (Text × List Entry)
unfolding render_zone build_manifest build_fixtures
main same_path =
    if same_path then none else some (render_zone build_fixtures, build_manifest build_fixtures)
