-- ===== src/Proxy/Fresh/Answer/Kept.antt =====
-- What keeps a response of fault_proxy/fresh_fixtures.py in the zone of the query's nonce.
use dns_server_lan_fixtures.Prelude.{
  ℕ, ◌≡◌, refl, inl, inr, Bool, true, false, List, [], ◌∷◌, Bytes, take, All, All-append, ◌==◌,
  if◌then◌else◌, Bool-cases,
}
use dns_server_lan_fixtures.Outcome.{Outcome, returned, raised, ◌>>=◌}
use dns_server_lan_fixtures.Proxy.Fresh.Dns.{Name, Rrset, Message}
use dns_server_lan_fixtures.Proxy.Fresh.Rdtype
use dns_server_lan_fixtures.Proxy.Fresh.Name.Zone.{InZone}
use dns_server_lan_fixtures.Proxy.Fresh.Node.Owners.{IsOwned}
use dns_server_lan_fixtures.Proxy.Fresh.Answer.Inside.{IsInside, Inside}
use dns_server_lan_fixtures.Proxy.Fresh.Answer.{
  Round, finished, follow, of_type, select, with_answer, with_authority, with_rcode,
  not_authoritative,
}

abbrev pub KeptIn : Bytes → Outcome Round → Type 0
KeptIn nonce (raised e) = Unit
KeptIn nonce (returned (finished m)) = Inside nonce m
KeptIn nonce (returned (follow m owner)) = Inside nonce m × InZone nonce owner

-- What a round leads to stays in the zone.
pub record Keeps (nonce : Bytes) (o : Outcome Round) : Type 0 where
  pub kept : KeptIn nonce o

pub bind-Keeps :
    {nonce : Bytes} {A : Type 0} (o : Outcome A) (rest : A → Outcome Round)
    → ((x : A) → o ≡ returned x → Keeps nonce (rest x))
    → Keeps nonce (o >>= rest)
bind-Keeps (raised e) rest all = record { kept = tt }
bind-Keeps (returned x) rest all = all x refl

pub if-Keeps :
    {nonce : Bytes} (b : Bool) (x y : Outcome Round)
    → (b ≡ true → Keeps nonce x)
    → (b ≡ false → Keeps nonce y)
    → Keeps nonce (if b then x else y)
if-Keeps true x y hx hy = hx refl
if-Keeps false x y hx hy = hy refl

-- What is selected is in the zone, as all records are.
of_type-All : (P : Rrset → Type 0) (kind : ℕ) (rs : List Rrset) → All P rs → All P (of_type kind rs)
unfolding of_type
of_type-All P kind [] all = tt
of_type-All P kind (r ∷ rs) (h, all) = elim (Bool-cases (r.rdtype == kind)) [
  | inl is_kind ↦ rw is_kind (h, of_type-All P kind rs all)
  | inr other ↦ rw other (of_type-All P kind rs all)
]

take_1-All : (P : Rrset → Type 0) (rs : List Rrset) → All P rs → All P (take 1 rs)
take_1-All P [] all = tt
take_1-All P (r ∷ rs) (h, all) = (h, tt)

pub select-All :
    (P : Rrset → Type 0) (kind : ℕ) (rs : List Rrset) → All P rs → All P (select kind rs)
unfolding select
select-All P kind rs all = elim (Bool-cases (kind == Rdtype.any)) [
  | inl any ↦ rw any (take_1-All P rs all)
  | inr other ↦ rw other (of_type-All P kind rs all)
]

pub owned-IsInside :
    (nonce : Bytes) (owner : Name) (rs : List Rrset)
    → InZone nonce owner
    → All (IsOwned nonce owner) rs
    → All (IsInside nonce) rs
owned-IsInside nonce owner [] inside all = tt
owned-IsInside nonce owner (r ∷ rs) inside (inl same, all) =
    (rw same inside, owned-IsInside nonce owner rs inside all)
owned-IsInside nonce owner (r ∷ rs) inside (inr (_, own), all) =
    (own, owned-IsInside nonce owner rs inside all)

pub answered-Inside :
    (nonce : Bytes) (m : Message) (rs : List Rrset)
    → Inside nonce m
    → All (IsInside nonce) rs
    → Inside nonce (with_answer m rs)
answered-Inside nonce m rs inside all = record {
  answers = All-append (IsInside nonce) m.answer rs inside.answers all;
  starts = inside.starts;
  addresses = inside.addresses;
}

pub started-Inside :
    (nonce : Bytes) (m : Message) (start : Rrset)
    → Inside nonce m
    → IsInside nonce start
    → Inside nonce (with_authority m start)
started-Inside nonce m start inside own = record {
  answers = inside.answers;
  starts = All-append (IsInside nonce) m.authority (start ∷ []) inside.starts (own, tt);
  addresses = inside.addresses;
}

-- Codes and flags do not matter.
pub coded-Inside :
    (nonce : Bytes) (m : Message) (rcode : ℕ) → Inside nonce m → Inside nonce (with_rcode m rcode)
coded-Inside nonce m rcode inside = record {
  answers = inside.answers;
  starts = inside.starts;
  addresses = inside.addresses;
}

pub not_aa-Inside :
    (nonce : Bytes) (m : Message) → Inside nonce m → Inside nonce (not_authoritative m)
not_aa-Inside nonce m inside = record {
  answers = inside.answers;
  starts = inside.starts;
  addresses = inside.addresses;
}
