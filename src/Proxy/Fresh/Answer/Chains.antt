-- ===== src/Proxy/Fresh/Answer/Chains.antt =====
-- The loop of `_answer` of fault_proxy/fresh_fixtures.py and the one without its limit of rounds.
use dns_server_lan_fixtures.Prelude.{
  ℕ, zero, suc, ◌≤◌, ◌≡◌, refl, Bool, true, false, arith, Text, if◌then◌else◌,
}
use dns_server_lan_fixtures.Outcome.{Error, Outcome, returned, raised, ◌>>=◌}
use dns_server_lan_fixtures.Proxy.Fresh.Dns.{Name, Message, Dnspython}
use dns_server_lan_fixtures.Proxy.Fresh.Answer.{
  Round, finished, follow, answer_round, answer_rounds, after_round,
}

-- The loop without its limit: a round ends it, by `return` or by an exception, or leads on.
pub data Answered (dns : Dnspython) (kind : ℕ) (zone : Text)
    : Message → Name → Outcome Message → Type 0 where
  ended :
      {m m' : Message} {owner : Name}
      → answer_round dns kind zone m owner ≡ returned (finished m')
      → Answered dns kind zone m owner (returned m')
  broken :
      {m : Message} {owner : Name} {e : Error}
      → answer_round dns kind zone m owner ≡ raised e
      → Answered dns kind zone m owner (raised e)
  led :
      {m m' : Message} {owner owner' : Name} {out : Outcome Message}
      → answer_round dns kind zone m owner ≡ returned (follow m' owner')
      → Answered dns kind zone m' owner' out
      → Answered dns kind zone m owner out

abbrev pub LeadsTo : (Name → Type 0) → Outcome Round → Type 0
LeadsTo P (raised e) = Unit
LeadsTo P (returned (finished m)) = Unit
LeadsTo P (returned (follow m owner)) = P owner

-- A name that the outcome of a round leads to meets a condition.
pub record Follows (P : Name → Type 0) (o : Outcome Round) : Type 0 where
  pub leads_to : LeadsTo P o

abbrev pub ends : {P : Name → Type 0} (m : Message) → Follows P (returned (finished m))
ends m = record { leads_to = tt }

pub bind-Follows :
    {P : Name → Type 0} {A : Type 0} (o : Outcome A) (rest : A → Outcome Round)
    → ((x : A) → Follows P (rest x))
    → Follows P (o >>= rest)
bind-Follows (raised e) rest all = record { leads_to = tt }
bind-Follows (returned x) rest all = all x

pub if-Follows :
    {P : Name → Type 0} (b : Bool) (x y : Outcome Round)
    → (b ≡ true → Follows P x)
    → (b ≡ false → Follows P y)
    → Follows P (if b then x else y)
if-Follows true x y hx hy = hx refl
if-Follows false x y hx hy = hy refl

-- Where the loop comes to an end in so many rounds.
abbrev pub Within : Dnspython → ℕ → Text → ℕ → Name → Type 0
Within dns kind zone k owner =
    (m : Message) (n : ℕ)
    → k ≤ n
    → Answered dns kind zone m owner (answer_rounds dns kind zone n m owner)

after-Answered :
    (dns : Dnspython) (kind : ℕ) (zone : Text) (k n : ℕ) (m : Message) (owner : Name)
    → k ≤ n
    → (o : Outcome Round) → answer_round dns kind zone m owner ≡ o
    → LeadsTo (Within dns kind zone k) o
    → Answered dns kind zone m owner (o >>= after_round (answer_rounds dns kind zone n))
after-Answered dns kind zone k n m owner le (raised e) same leads = broken same
after-Answered dns kind zone k n m owner le (returned (finished m')) same leads = ended same
after-Answered dns kind zone k n m owner le (returned (follow m' owner')) same leads =
    led same (leads m' n le)

-- One round more.
pub Follows-Within :
    (dns : Dnspython) (kind : ℕ) (zone : Text) (k : ℕ) (owner : Name)
    → ((m : Message) → Follows (Within dns kind zone k) (answer_round dns kind zone m owner))
    → Within dns kind zone (suc k) owner
unfolding answer_rounds
Follows-Within dns kind zone k owner all m zero le = ground arith
Follows-Within dns kind zone k owner all m (suc n) le =
    after-Answered dns kind zone k n m owner (omega arith) (answer_round dns kind zone m owner) refl
      ((all m).leads_to)
