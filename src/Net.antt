-- ===== src/Net.antt =====
-- internal/winnet/winnet.go: which address the machine beside a reader needs. `net.ParseIP` with `To4` is a parameter, and the
-- adapters are an argument; what sets an address calls the system.
pub mod HostIp
use rfid_middleware_idro900e.Prelude.{
  ℕ, Bool, true, false, not, ◌&&◌, ◌||◌, List, [], ◌∷◌, ◌++◌, Option, none, some, ◌==◌,
  if◌then◌else◌, Bytes, bytes_eq, codes, String,
}
use rfid_middleware_idro900e.Prelude.Int.{pos}
use rfid_middleware_idro900e.Protocol.Commands.{show_int}
use rfid_middleware_idro900e.Config.Addr.{split_host_port}

-- The four bytes of an address.
pub record Ip : Type 0 where
  pub a : ℕ
  pub b : ℕ
  pub c : ℕ
  pub d : ℕ

abbrev pub decimal_of : ℕ → Bytes
decimal_of n = show_int (pos n)

abbrev pub dot : Bytes → Bytes
dot rest = 46 ∷ rest

abbrev pub prefix_of : Ip → Bytes
prefix_of ip = decimal_of ip.a ++ dot (decimal_of ip.b ++ dot (decimal_of ip.c ++ dot []))

-- `IP.String`
abbrev pub text_of : Ip → Bytes
text_of ip =
    decimal_of ip.a ++ dot (decimal_of ip.b ++ dot (decimal_of ip.c ++ dot (decimal_of ip.d)))

abbrev host_or : Bytes → Option (Bytes × Bytes) → Bytes
host_or addr none = addr
host_or addr (some (host, port)) = host

abbrev pub host_of : Bytes → Bytes
host_of addr = host_or addr (split_host_port addr)

abbrev prefix_or : Option Ip → Bytes
prefix_or none = []
prefix_or (some ip) = prefix_of ip

-- `Subnet24`
unfoldable pub subnet_24 : (Bytes → Option Ip) → Bytes → Bytes
subnet_24 parse addr = prefix_or (parse (host_of addr))

abbrev last_or : Option Ip → Bytes
last_or none = []
last_or (some ip) = decimal_of ip.d

abbrev pub is_empty_text : Bytes → Bool
is_empty_text [] = true
is_empty_text (c ∷ rest) = false

abbrev pub hundred : Bytes
hundred = b'1' ∷ b'0' ∷ b'0' ∷ []

abbrev pub hundred_one : Bytes
hundred_one = b'1' ∷ b'0' ∷ b'1' ∷ []

-- `HostIPFor`
unfoldable pub host_ip_for : (Bytes → Option Ip) → Bytes → Bytes
unfolding subnet_24 bytes_eq
host_ip_for parse addr =
    let prefix = subnet_24 parse addr in
    if is_empty_text prefix
    then []
    else if bytes_eq (last_or (parse (host_of addr))) hundred
    then prefix ++ hundred_one
    else prefix ++ hundred

-- An adapter; an address that is no IPv4 one is `none`.
pub record Iface : Type 0 where
  pub name : String
  pub loopback : Bool
  pub up : Bool
  pub running : Bool
  pub has_mac : Bool
  pub addrs : List (Option Ip)

-- `strings.HasPrefix`
unfoldable pub has_prefix : Bytes → Bytes → Bool
has_prefix s [] = true
has_prefix [] (d ∷ p) = false
has_prefix (c ∷ s) (d ∷ p) = let more = has_prefix s p in if c == d then more else false

unfoldable pub first_with : Bytes → List (Option Ip) → Option Bytes
unfolding has_prefix
first_with prefix [] = none
first_with prefix (none ∷ rest) = first_with prefix rest
first_with prefix (some ip ∷ rest) =
    let more = first_with prefix rest in
    if has_prefix (text_of ip) prefix then some (text_of ip) else more

abbrev usable : Iface → Bool
usable i = not i.loopback && (i.up && i.running)

unfoldable pub first_iface : Bytes → List Iface → Option Bytes
unfolding first_with
first_iface prefix [] = none
first_iface prefix (i ∷ rest) =
    let more = first_iface prefix rest in
    if usable i then (elim (first_with prefix i.addrs) [ none ↦ more | some t ↦ some t ]) else more

-- `hostIPInSubnet`, with `none` for the empty text.
unfoldable pub host_ip_in : Bytes → List Iface → Option Bytes
unfolding first_iface
host_ip_in prefix ifs = if is_empty_text prefix then none else first_iface prefix ifs

-- `isAPIPA`
abbrev is_apipa : Ip → Bool
is_apipa ip = has_prefix (text_of ip) (codes "169.254.")

unfoldable pub is_routable : List (Option Ip) → Bool
unfolding has_prefix
is_routable [] = false
is_routable (none ∷ rest) = is_routable rest
is_routable (some ip ∷ rest) = not (is_apipa ip) || is_routable rest

-- `Candidates`
unfoldable pub candidates : List Iface → List String
unfolding is_routable
candidates [] = []
candidates (i ∷ rest) =
    let more = candidates rest in
    if i.loopback || not i.up
    then more
    else if not i.has_mac
    then more
    else if is_routable i.addrs
    then more
    else i.name ∷ more
