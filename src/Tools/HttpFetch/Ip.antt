-- ===== src/Tools/HttpFetch/Ip.antt =====
-- The address ranges that src/tools/http_fetch.rs refuses, over the address types of Rust's
-- standard library and its parser `str::parse::<IpAddr>`.
pub mod Ranges
use Prim.Native.Nat.{bit_and}
use pg_ask.Prelude.{
  ℕ, zero, suc, ◌+◌, ◌-◌, ◌*◌, ◌/◌, ◌%◌, Bool, true, false, not, ◌&&◌, ◌||◌, Option, none, some,
  List, [], ◌∷◌, ◌++◌, ◌==◌, leb, ltb, within, if◌then◌else◌, length, take, drop, Text, codes, eq,
  decimal, hex, ◌≡◌, refl,
}

pub data IpAddr : Type 0 where
  -- `Ipv4Addr`, its octets
  v4 : ℕ → ℕ → ℕ → ℕ → IpAddr
  -- `Ipv6Addr`, its eight segments
  v6 : List ℕ → IpAddr

-- The predicates of `Ipv4Addr`.
is_loopback : ℕ → Bool
is_loopback a = a == 127

is_private : ℕ → ℕ → Bool
is_private a b = a == 10 || (a == 172 && within 16 31 b) || (a == 192 && b == 168)

is_link_local : ℕ → ℕ → Bool
is_link_local a b = a == 169 && b == 254

is_broadcast : ℕ → ℕ → ℕ → ℕ → Bool
is_broadcast a b c d = a == 255 && b == 255 && c == 255 && d == 255

is_multicast : ℕ → Bool
is_multicast a = within 224 239 a

is_documentation : ℕ → ℕ → ℕ → Bool
is_documentation a b c =
    (a == 192 && b == 0 && c == 2)
    || (a == 198 && b == 51 && c == 100)
    || (a == 203 && b == 0 && c == 113)

is_unspecified : ℕ → ℕ → ℕ → ℕ → Bool
is_unspecified a b c d = a == 0 && b == 0 && c == 0 && d == 0

pub v4_is_disallowed : ℕ → ℕ → ℕ → ℕ → Bool
v4_is_disallowed a b c d =
    if is_loopback a
      || is_private a b
      || is_link_local a b
      || is_broadcast a b c d
      || is_multicast a
      || is_documentation a b c
      || is_unspecified a b c d
    then true
    else if a == 100 && within 64 127 b
    then true
    else false

-- `Ipv6Addr::to_ipv4`: the IPv4-compatible and the IPv4-mapped addresses.
pub to_ipv4 : List ℕ → Option (ℕ × ℕ × ℕ × ℕ)
to_ipv4 (a ∷ b ∷ c ∷ d ∷ e ∷ f ∷ ab ∷ cd ∷ []) =
    if eq (a ∷ b ∷ c ∷ d ∷ e ∷ []) (0 ∷ 0 ∷ 0 ∷ 0 ∷ 0 ∷ []) && (f == 0 || f == 0xffff)
    then some (ab / 256, ab % 256, cd / 256, cd % 256)
    else none
to_ipv4 _ = none

abbrev segment0 : List ℕ → ℕ
segment0 [] = 0
segment0 (s ∷ ss) = s

abbrev v4_inside : Option (ℕ × ℕ × ℕ × ℕ) → Bool
v4_inside none = false
v4_inside (some (a, b, c, d)) = v4_is_disallowed a b c d

pub v6_is_disallowed : List ℕ → Bool
v6_is_disallowed ss =
    if eq ss (0 ∷ 0 ∷ 0 ∷ 0 ∷ 0 ∷ 0 ∷ 0 ∷ 1 ∷ [])
      || segment0 ss / 256 == 0xff
      || eq ss (0 ∷ 0 ∷ 0 ∷ 0 ∷ 0 ∷ 0 ∷ 0 ∷ 0 ∷ [])
    then true
    else if bit_and (segment0 ss) 0xfe00 == 0xfc00
    then true
    else if bit_and (segment0 ss) 0xffc0 == 0xfe80
    then true
    else v4_inside (to_ipv4 ss)

unfoldable pub is_disallowed_ip : IpAddr → Bool
unfolding v4_is_disallowed v6_is_disallowed is_loopback is_private is_link_local is_broadcast
    is_multicast is_documentation is_unspecified to_ipv4 eq
is_disallowed_ip (v4 a b c d) = v4_is_disallowed a b c d
is_disallowed_ip (v6 ss) = v6_is_disallowed ss

-- `Display` of the addresses.
dotted : ℕ → ℕ → ℕ → ℕ → Text
dotted a b c d = decimal a ++ (b'.' ∷ (decimal b ++ (b'.' ∷ (decimal c ++ (b'.' ∷ decimal d)))))

colons : List ℕ → Text
colons [] = []
colons (s ∷ []) = hex s
colons (s ∷ t ∷ ss) = hex s ++ (b':' ∷ colons (t ∷ ss))

-- The first of the longest runs of zeros, as its start and its length.
zero_run : ℕ → ℕ × ℕ → ℕ × ℕ → List ℕ → ℕ × ℕ
zero_run i longest (start, len) [] = longest
zero_run i longest (start, len) (s ∷ ss) =
    let current = if s == 0 then ((if len == 0 then i else start), len + 1) else (0, 0) in
    zero_run (i + 1) (if ltb longest.1 current.1 then current else longest) current ss

v6_text : List ℕ → Text
v6_text ss =
    let run = zero_run 0 (0, 0) (0, 0) ss in
    if ltb 1 run.1
    then colons (take run.0 ss) ++ (b':' ∷ b':' ∷ colons (drop (run.0 + run.1) ss))
    else colons ss

-- `Ipv6Addr::to_ipv4_mapped`
mapped : List ℕ → Option (ℕ × ℕ × ℕ × ℕ)
mapped (a ∷ b ∷ c ∷ d ∷ e ∷ f ∷ ab ∷ cd ∷ []) =
    if eq (a ∷ b ∷ c ∷ d ∷ e ∷ f ∷ []) (0 ∷ 0 ∷ 0 ∷ 0 ∷ 0 ∷ 0xffff ∷ [])
    then some (ab / 256, ab % 256, cd / 256, cd % 256)
    else none
mapped _ = none

unfoldable pub display_ip : IpAddr → Text
unfolding dotted colons zero_run v6_text mapped decimal hex
display_ip (v4 a b c d) = dotted a b c d
display_ip (v6 ss) = elim (mapped ss) [
  | some (a, b, c, d) ↦ codes "::ffff:" ++ dotted a b c d
  | none ↦ v6_text ss
]

display_tests :
    (display_ip (v4 10 0 0 255) ≡ codes "10.0.0.255")
    × (display_ip (v6 (0xfe80 ∷ 0 ∷ 0 ∷ 0 ∷ 1 ∷ 0 ∷ 0 ∷ 2 ∷ [])) ≡ codes "fe80::1:0:0:2")
unfolding display_ip eq
display_tests = (refl, refl)
