-- ===== src/Proxy/Fresh/Rdtype.antt =====
-- The members of dns.rdatatype, dns.rdataclass, dns.rcode and dns.opcode that
-- fault_proxy/fresh_fixtures.py names, by their numbers.
use Prim.Native.Nat.{ℕ}

abbrev pub a : ℕ
a = 1

abbrev pub ns : ℕ
ns = 2

abbrev pub cname : ℕ
cname = 5

abbrev pub soa : ℕ
soa = 6

abbrev pub ptr : ℕ
ptr = 12

abbrev pub hinfo : ℕ
hinfo = 13

abbrev pub mx : ℕ
mx = 15

abbrev pub txt : ℕ
txt = 16

abbrev pub rp : ℕ
rp = 17

abbrev pub afsdb : ℕ
afsdb = 18

abbrev pub aaaa : ℕ
aaaa = 28

abbrev pub loc : ℕ
loc = 29

abbrev pub srv : ℕ
srv = 33

abbrev pub naptr : ℕ
naptr = 35

abbrev pub cert : ℕ
cert = 37

abbrev pub dname : ℕ
dname = 39

abbrev pub opt : ℕ
opt = 41

abbrev pub ds : ℕ
ds = 43

abbrev pub sshfp : ℕ
sshfp = 44

abbrev pub tlsa : ℕ
tlsa = 52

abbrev pub smimea : ℕ
smimea = 53

abbrev pub openpgpkey : ℕ
openpgpkey = 61

abbrev pub svcb : ℕ
svcb = 64

abbrev pub https : ℕ
https = 65

abbrev pub ixfr : ℕ
ixfr = 251

abbrev pub axfr : ℕ
axfr = 252

abbrev pub any : ℕ
any = 255

abbrev pub uri : ℕ
uri = 256

abbrev pub caa : ℕ
caa = 257

abbrev pub type65280 : ℕ
type65280 = 65280

-- rdataclass
abbrev pub class_in : ℕ
class_in = 1

abbrev pub class_any : ℕ
class_any = 255

-- rcode
abbrev pub noerror : ℕ
noerror = 0

abbrev pub formerr : ℕ
formerr = 1

abbrev pub servfail : ℕ
servfail = 2

abbrev pub nxdomain : ℕ
nxdomain = 3

abbrev pub notimp : ℕ
notimp = 4

abbrev pub refused : ℕ
refused = 5

abbrev pub yxdomain : ℕ
yxdomain = 6

abbrev pub badvers : ℕ
badvers = 16
