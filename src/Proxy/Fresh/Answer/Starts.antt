-- ===== src/Proxy/Fresh/Answer/Starts.antt =====
-- The start of authority that a round of `_answer` of fault_proxy/fresh_fixtures.py makes.
use dns_server_lan_fixtures.Prelude.{
  not_true, ℕ, ◌≡◌, refl, sym, ap, ◌∙◌, ◌⊎◌, inl, inr, Bool, true, false, not, ◌&&◌, ◌||◌, List, [],
  ◌∷◌, arith, Bytes, Text, codes, lower, eq_bytes, eq_bytes_iff, mem_bytes, All, ◌==◌,
  if◌then◌else◌, Bool-cases,
}
use dns_server_lan_fixtures.Outcome.{Outcome, returned, ◌>>=◌, returned_injective}
use mathlib.Core.Path.{subst}
use dns_server_lan_fixtures.Proxy.Fresh.Dns.{Name, Rrset, Dnspython, NameLaws, IsPlainLabel}
use dns_server_lan_fixtures.Proxy.Fresh.Rdtype
use dns_server_lan_fixtures.Proxy.Fresh.Name.{zone_of, is_nonce}
use dns_server_lan_fixtures.Proxy.Fresh.Name.Keys.{fresh_name, target_parsed}
use dns_server_lan_fixtures.Proxy.Fresh.Name.Zone.{
  InZone, zone_labels, zone_of-parsed, zone_labels-InZone, to_text-parsed, fresh_name-InZone,
}
use dns_server_lan_fixtures.Proxy.Fresh.Records.{
  rr_at, Owner, or_raise, owner_name, target, is, soa,
}
use dns_server_lan_fixtures.Proxy.Fresh.Answer.{authority_owner, authority_soa, owner_text}
use dns_server_lan_fixtures.Proxy.Fresh.Answer.Inside.{IsInside}

-- A key that is a plain label in lower case.
abbrev pub IsPlainKey : Text → Type 0
IsPlainKey key = IsPlainLabel key × (lower key ≡ key)

pub member-IsPlainKey :
    (key : Text) (keys : List Text)
    → mem_bytes key keys ≡ true
    → All IsPlainKey keys
    → IsPlainKey key
unfolding mem_bytes
member-IsPlainKey key [] member all = absurd (not_true member)
member-IsPlainKey key (k ∷ ks) member (plain, all) = elim (Bool-cases (eq_bytes key k)) [
  | inl same ↦ rw ((eq_bytes_iff key k).0 same) plain
  | inr other ↦ member-IsPlainKey key ks (rw other at member) all
]

-- An owner that stands for a name in the zone.
abbrev pub StandsInZone : Dnspython → Bytes → Owner → Type 0
StandsInZone dns nonce owner =
    (name : Name) × (owner_name dns owner ≡ returned name) × InZone nonce name

-- A start of authority in the zone, if there is one.
pub record Starts (nonce : Bytes) (o : Outcome Rrset) : Type 0 where
  pub inside : (r : Rrset) → o ≡ returned r → IsInside nonce r

soa-IsInside :
    {nonce : Bytes} {name : Name} {items : List Text} {r : Rrset}
    → returned (rr_at name Rdtype.soa 0 items) ≡ returned r
    → InZone nonce name
    → IsInside nonce r
soa-IsInside {nonce = nonce} made inside =
    subst (λ x. InZone nonce x.owner) (returned_injective made) inside

pub soa-Starts :
    (dns : Dnspython) (nonce : Bytes) (zone : Text) (owner : Owner) (primary : Text)
    → StandsInZone dns nonce owner
    → Starts nonce (soa dns zone owner primary)
soa-Starts dns nonce zone owner primary (name, same, inside) = record {
  inside = λ r made. soa-IsInside (rw same at made) inside;
}

-- The two owners of a start of authority.
abbrev pub IsHolder : Bytes → Text → Owner → Type 0
IsHolder nonce key owner =
    (owner ≡ inl (zone_of nonce)) ⊎ (IsPlainKey key × (owner ≡ inr (fresh_name key nonce)))

abbrev start_keys : List Text
start_keys = codes "ns" ∷ codes "soa" ∷ codes "additional-ns" ∷ []

start_plain : All IsPlainKey start_keys
start_plain = (
  ((refl, omega arith, omega arith), refl),
  (((refl, omega arith, omega arith), refl), (((refl, omega arith, omega arith), refl), tt)),
)

-- What `authority_owner` returns, if it returns.
pub record Holds (nonce : Bytes) (key : Text) (o : Outcome Owner) : Type 0 where
  pub holder : (owner : Owner) → o ≡ returned owner → IsHolder nonce key owner

IsHolder-of :
    (nonce : Bytes) (key : Text) (b : Bool) (child : Name) (owner : Owner)
    → IsPlainKey key
    → child ≡ fresh_name key nonce
    → returned (if b then inr child else inl (zone_of nonce)) ≡ returned owner
    → IsHolder nonce key owner
IsHolder-of nonce key true child owner plain same made =
    inr (plain, sym (returned_injective made) ∙ ap inr same)
IsHolder-of nonce key false child owner plain same made = inl (sym (returned_injective made))

if-Starts :
    {nonce : Bytes} (b : Bool) (x y : Outcome Rrset)
    → Starts nonce x
    → Starts nonce y
    → Starts nonce (if b then x else y)
if-Starts true x y hx hy = hx
if-Starts false x y hx hy = hy

module _ (dns : Dnspython) (laws : NameLaws dns) (kind : ℕ) (nonce : Bytes)
    (valid : is_nonce nonce ≡ true) where
  child-Holds :
      (owner : Name) (key : Text)
      → IsPlainKey key
      → (b : Name → Bool)
      → Holds nonce key (
          or_raise (dns.name_from_text (target (zone_of nonce) key)) >>= λ child.
          returned (if b child then inr child else inl (zone_of nonce)))
  child-Holds owner key plain b =
      let parsed = target_parsed dns laws key nonce plain.0 valid in
      record {
        holder = λ found made.
            IsHolder-of nonce key (b (fresh_name key nonce)) (fresh_name key nonce) found plain refl
              (rw parsed at made);
      }

  pub authority_owner-Holds :
      (owner : Name) (key : Text)
      → Holds nonce key (authority_owner dns kind (zone_of nonce) owner key)
  unfolding mem_bytes
  authority_owner-Holds owner key = elim (Bool-cases (mem_bytes key start_keys)) [
    | inl member ↦ rw member (
        child-Holds owner key (member-IsPlainKey key start_keys member start_plain)
          (λ child. not (dns.name_eq owner child) || not (kind == Rdtype.ds)))
    | inr other ↦ rw other (record { holder = λ found made. inl (sym (returned_injective made)) })
  ]

  holder_stands :
      (key : Text) (owner : Owner)
      → IsHolder nonce key owner
      → StandsInZone dns nonce owner
        × StandsInZone dns nonce (inl (owner_text dns kind (zone_of nonce) owner))
  holder_stands key owner (inl same) =
      let text : StandsInZone dns nonce (inl (zone_of nonce)) = (
        zone_labels nonce,
        rw (zone_of-parsed dns laws nonce valid) refl,
        zone_labels-InZone nonce valid,
      ) in
      rw same (text, text)
  holder_stands key owner (inr ((plain, lowered), same)) =
      let child = fresh_name key nonce in
      let inside = fresh_name-InZone [] key nonce valid in
      let parsed = to_text-parsed dns laws child key nonce plain lowered valid refl in
      rw same ((child, refl, inside), (child, rw parsed refl, inside))

  pub authority_soa-Starts :
      (key : Text) (owner : Owner)
      → IsHolder nonce key owner
      → Starts nonce (authority_soa dns kind (zone_of nonce) key owner)
  authority_soa-Starts key owner held =
      let zone = zone_of nonce in
      let text = owner_text dns kind zone owner in
      let (own, by_text) = holder_stands key owner held in
      if-Starts (is key (codes "additional-ns") && not (eq_bytes text zone)) _ _
        (soa-Starts dns nonce text (inl text) (target zone (codes "additional-ns-host")) by_text)
        (soa-Starts dns nonce zone owner (target zone (codes "ns")) own)
