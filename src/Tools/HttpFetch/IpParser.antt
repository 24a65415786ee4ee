-- ===== src/Tools/HttpFetch/IpParser.antt =====
-- `str::parse::<IpAddr>` of Rust's standard library, which src/tools/http_fetch.rs calls on the
-- host: a parser reads from the front of a text and may give back what is left.
use pg_ask.Prelude.{
  ℕ, zero, suc, ◌+◌, ◌-◌, ◌*◌, Bool, true, false, not, ◌&&◌, ◌||◌, Option, none, some, List, [],
  ◌∷◌, ◌++◌, ◌==◌, leb, ltb, within, if◌then◌else◌, length, Text, ◌≡◌, refl, codes,
}
use pg_ask.Tools.HttpFetch.Ip.{IpAddr, v4, v6}

abbrev pub Reader : Type 0 → Type 0
Reader A = Text → Option (A × Text)

infixl 5 ◌>>=◌
abbrev ◌>>=◌ : {A B : Type 0} → Option (A × Text) → (A × Text → Option B) → Option B
none >>= f = none
some r >>= f = f r

-- `char::to_digit(radix)` for the radices 10 and 16
to_digit : ℕ → ℕ → Option ℕ
to_digit radix c =
    let digit =
      if within b'0' b'9' c
      then some (c - b'0')
      else if within b'a' b'f' c
      then some (c - b'a' + 10)
      else if within b'A' b'F' c
      then some (c - b'A' + 10)
      else none in
    elim digit [ none ↦ none | some d ↦ if ltb d radix then some d else none ]

-- The digits at the front: their value after `acc`, how many they are, and the rest.
read_digits : ℕ → ℕ → ℕ → Text → ℕ × ℕ × Text
read_digits radix acc count [] = (acc, count, [])
read_digits radix acc count (c ∷ s) = elim (to_digit radix c) [
  | none ↦ (acc, count, c ∷ s)
  | some d ↦ read_digits radix (acc * radix + d) (count + 1) s
]

leading_zero : Text → Bool
leading_zero [] = false
leading_zero (c ∷ s) = c == b'0'

-- `read_number(radix, Some(max_digits), allow_zero_prefix)` into a type with values below `bound`
read_number : ℕ → ℕ → Bool → ℕ → Reader ℕ
read_number radix max_digits allow_zero_prefix bound s =
    let (value, count, rest) = read_digits radix 0 0 s in
    if ltb max_digits count || count == 0
    then none
    else if not allow_zero_prefix && leading_zero s && ltb 1 count
    then none
    else if ltb value bound
    then some (value, rest)
    else none

-- `read_given_char`
read_char : ℕ → Reader (Unit {0})
read_char c [] = none
read_char c (d ∷ s) = if d == c then some (tt, s) else none

-- `read_separator(sep, index, inner)`; the flag is `index > 0`.
read_separator : {A : Type 0} → ℕ → Bool → Reader A → Reader A
read_separator sep false inner s = inner s
read_separator sep true inner s = read_char sep s >>= λ (_, r). inner r

octet : Bool → Reader ℕ
octet later = read_separator b'.' later (read_number 10 3 false 256)

read_ipv4 : Reader (ℕ × ℕ × ℕ × ℕ)
read_ipv4 s = octet false s >>= λ (a, r). octet true r >>= λ (b, r).
    octet true r >>= λ (c, r). octet true r >>= λ (d, r). some ((a, b, c, d), r)

abbrev Groups : Type 0
Groups = List ℕ × Bool × Text

-- What one more group adds: the groups, whether an IPv4 address ends them, and the rest.
next_group : Text → (Text → Groups) → Option (ℕ × Text) → Groups
next_group s more none = ([], false, s)
next_group s more (some (g, r)) = let (gs, dotted, rest) = more r in (g ∷ gs, dotted, rest)

dotted_group : Groups → Option ((ℕ × ℕ × ℕ × ℕ) × Text) → Groups
dotted_group group none = group
dotted_group group (some ((a, b, c, d), r)) = ((a * 256 + b) ∷ (c * 256 + d) ∷ [], true, r)

-- `read_groups`. The first argument counts the slots left, and the flag is `i > 0`.
read_groups : ℕ → Bool → Text → Groups
read_groups zero later s = ([], false, s)
read_groups (suc room) later s =
    let more : Text → Groups = λ r. read_groups room true r in
    let group = next_group s more (read_separator b':' later (read_number 16 4 true 65536) s) in
    if leb 1 room then dotted_group group (read_separator b':' later read_ipv4 s) else group

zeros : ℕ → List ℕ
zeros zero = []
zeros (suc n) = 0 ∷ zeros n

-- `read_ipv6_addr`
read_ipv6 : Reader (List ℕ)
read_ipv6 s =
    let (head, head_ipv4, r) = read_groups 8 false s in
    if length head == 8
    then some (head, r)
    else if head_ipv4
    then none
    else read_char b':' r >>= λ (_, r1). read_char b':' r1 >>= λ (_, r2).
        let (tail, _, rest) = read_groups (8 - (length head + 1)) false r2 in
        some (head ++ (zeros (8 - (length head + length tail)) ++ tail), rest)

read_ip : Reader IpAddr
read_ip s = elim (read_ipv4 s) [
  | some ((a, b, c, d), r) ↦ some (v4 a b c d, r)
  | none ↦ elim (read_ipv6 s) [ some (ss, r) ↦ some (v6 ss, r) | none ↦ none ]
]

whole : Option (IpAddr × Text) → Option IpAddr
whole (some (ip, [])) = some ip
whole _ = none

-- The whole text must be read.
unfoldable pub parse_ip : Text → Option IpAddr
unfolding to_digit read_digits leading_zero read_number read_char read_separator octet read_ipv4
    next_group dotted_group read_groups zeros read_ipv6 read_ip whole
parse_ip s = whole (read_ip s)

-- A host in brackets, as URLs write IPv6 addresses, is no address to this parser.
pub parse_ip_bracket : (s : Text) → parse_ip (b'[' ∷ s) ≡ none
unfolding parse_ip
parse_ip_bracket s = refl

parse_ip_tests :
    (parse_ip (codes "10.0.0.5") ≡ some (v4 10 0 0 5))
    × (parse_ip (codes "010.0.0.5") ≡ none)
    × (parse_ip (codes "256.0.0.5") ≡ none)
    × (parse_ip (codes "::1") ≡ some (v6 (0 ∷ 0 ∷ 0 ∷ 0 ∷ 0 ∷ 0 ∷ 0 ∷ 1 ∷ [])))
    × (parse_ip (codes "fe80::1:2") ≡ some (v6 (0xfe80 ∷ 0 ∷ 0 ∷ 0 ∷ 0 ∷ 0 ∷ 1 ∷ 2 ∷ [])))
    × (parse_ip (codes "::ffff:10.0.0.5") ≡ some (v6 (0 ∷ 0 ∷ 0 ∷ 0 ∷ 0 ∷ 0xffff ∷ 0xa00 ∷ 5 ∷ [])))
    × (parse_ip (codes "example.com") ≡ none)
unfolding parse_ip
parse_ip_tests = (refl, refl, refl, refl, refl, refl, refl)
