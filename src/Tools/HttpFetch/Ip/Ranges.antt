-- ===== src/Tools/HttpFetch/Ip/Ranges.antt =====
-- `v4_is_disallowed` of src/tools/http_fetch.rs against the ranges as numbers.
use pg_ask.Prelude.{
  ℕ, ◌+◌, ◌*◌, ◌≤◌, ◌<◌, true, ◌≡◌, ◌⊎◌, inl, inr, ◌↔◌, arith, ◌==◌, ◌||◌, Bool-cases,
}
use pg_ask.Tools.HttpFetch.Ip.{
  v4_is_disallowed, is_loopback, is_private, is_link_local, is_broadcast, is_multicast,
  is_documentation, is_unspecified,
}

-- The address as a 32-bit number.
abbrev pub address : ℕ → ℕ → ℕ → ℕ → ℕ
address a b c d = a * 16777216 + b * 65536 + c * 256 + d

-- A block `base/bits`, as the number of its addresses.
abbrev pub In : ℕ → ℕ → ℕ → Type 0
In base size n = (base ≤ n) × (n < base + size)

-- The blocks, by their CIDR notation.
pub data IsReserved (n : ℕ) : Type 0 where
  -- 127.0.0.0/8
  loopback : In 2130706432 16777216 n → IsReserved n
  -- 10.0.0.0/8, 172.16.0.0/12, 192.168.0.0/16
  private8 : In 167772160 16777216 n → IsReserved n
  private12 : In 2886729728 1048576 n → IsReserved n
  private16 : In 3232235520 65536 n → IsReserved n
  -- 169.254.0.0/16
  link_local : In 2851995648 65536 n → IsReserved n
  -- 255.255.255.255
  broadcast : n ≡ 4294967295 → IsReserved n
  -- 224.0.0.0/4
  multicast : In 3758096384 268435456 n → IsReserved n
  -- 192.0.2.0/24, 198.51.100.0/24, 203.0.113.0/24
  documentation1 : In 3221225984 256 n → IsReserved n
  documentation2 : In 3325256704 256 n → IsReserved n
  documentation3 : In 3405803776 256 n → IsReserved n
  -- 0.0.0.0
  unspecified : n ≡ 0 → IsReserved n
  -- 100.64.0.0/10
  shared : In 1681915904 4194304 n → IsReserved n

module _ (a b c d : ℕ) (ha : a < 256) (hb : b < 256) (hc : c < 256) (hd : d < 256) where
  loopback_range : is_loopback a ≡ true → IsReserved (address a b c d)
  unfolding is_loopback
  loopback_range h = loopback (ground arith)

  private_range : is_private a b ≡ true → IsReserved (address a b c d)
  unfolding is_private
  private_range h = elim (Bool-cases (a == 10)) [
    | inl e ↦ private8 (ground arith)
    | inr e ↦ elim (Bool-cases (a == 172)) [
      | inl f ↦ private12 (ground arith)
      | inr f ↦ private16 (ground arith)
    ]
  ]

  link_local_range : is_link_local a b ≡ true → IsReserved (address a b c d)
  unfolding is_link_local
  link_local_range h = link_local (ground arith)

  broadcast_range : is_broadcast a b c d ≡ true → IsReserved (address a b c d)
  unfolding is_broadcast
  broadcast_range h = broadcast (ground arith)

  multicast_range : is_multicast a ≡ true → IsReserved (address a b c d)
  unfolding is_multicast
  multicast_range h = multicast (ground arith)

  documentation_range : is_documentation a b c ≡ true → IsReserved (address a b c d)
  unfolding is_documentation
  documentation_range h = elim (Bool-cases (a == 192)) [
    | inl e ↦ documentation1 (ground arith)
    | inr e ↦ elim (Bool-cases (a == 198)) [
      | inl f ↦ documentation2 (ground arith)
      | inr f ↦ documentation3 (ground arith)
    ]
  ]

  unspecified_range : is_unspecified a b c d ≡ true → IsReserved (address a b c d)
  unfolding is_unspecified
  unspecified_range h = unspecified (ground arith)

  disallowed→IsReserved : v4_is_disallowed a b c d ≡ true → IsReserved (address a b c d)
  unfolding v4_is_disallowed
  disallowed→IsReserved h = elim (Bool-cases (is_loopback a)) [
    | inl e ↦ loopback_range e
    | inr e1 ↦ elim (Bool-cases (is_private a b)) [
      | inl e ↦ private_range e
      | inr e2 ↦ elim (Bool-cases (is_link_local a b)) [
        | inl e ↦ link_local_range e
        | inr e3 ↦ elim (Bool-cases (is_broadcast a b c d)) [
          | inl e ↦ broadcast_range e
          | inr e4 ↦ elim (Bool-cases (is_multicast a)) [
            | inl e ↦ multicast_range e
            | inr e5 ↦ elim (Bool-cases (is_documentation a b c)) [
              | inl e ↦ documentation_range e
              | inr e6 ↦ elim (Bool-cases (is_unspecified a b c d)) [
                | inl e ↦ unspecified_range e
                | inr e7 ↦ shared (ground arith)
              ]
            ]
          ]
        ]
      ]
    ]
  ]

  -- One test that holds refuses the address.
  refused :
      (is_loopback a
          || is_private a b
          || is_link_local a b
          || is_broadcast a b c d
          || is_multicast a
          || is_documentation a b c
          || is_unspecified a b c d
        ≡ true)
      → v4_is_disallowed a b c d ≡ true
  unfolding v4_is_disallowed
  refused h = rw h

  private_test :
      In 167772160 16777216 (address a b c d)
        ⊎ In 2886729728 1048576 (address a b c d)
        ⊎ In 3232235520 65536 (address a b c d)
      → is_private a b ≡ true
  unfolding is_private
  private_test r = ground arith

  documentation_test :
      In 3221225984 256 (address a b c d)
        ⊎ In 3325256704 256 (address a b c d)
        ⊎ In 3405803776 256 (address a b c d)
      → is_documentation a b c ≡ true
  unfolding is_documentation
  documentation_test r = ground arith

  IsReserved→disallowed : IsReserved (address a b c d) → v4_is_disallowed a b c d ≡ true
  unfolding v4_is_disallowed
  IsReserved→disallowed (loopback r) =
      let t : is_loopback a ≡ true = unfold is_loopback in ground arith in refused (rw t)
  IsReserved→disallowed (private8 r) = refused (ground (arith, private_test (inl r)))
  IsReserved→disallowed (private12 r) = refused (ground (arith, private_test (inr (inl r))))
  IsReserved→disallowed (private16 r) = refused (ground (arith, private_test (inr (inr r))))
  IsReserved→disallowed (link_local r) =
      let t : is_link_local a b ≡ true = unfold is_link_local in ground arith in
      refused (ground (arith, t))
  IsReserved→disallowed (broadcast r) =
      let t : is_broadcast a b c d ≡ true = unfold is_broadcast in ground arith in
      refused (ground (arith, t))
  IsReserved→disallowed (multicast r) =
      let t : is_multicast a ≡ true = unfold is_multicast in ground arith in
      refused (ground (arith, t))
  IsReserved→disallowed (documentation1 r) = refused (ground (arith, documentation_test (inl r)))
  IsReserved→disallowed (documentation2 r) =
      refused (ground (arith, documentation_test (inr (inl r))))
  IsReserved→disallowed (documentation3 r) =
      refused (ground (arith, documentation_test (inr (inr r))))
  IsReserved→disallowed (unspecified r) =
      let t : is_unspecified a b c d ≡ true = unfold is_unspecified in ground arith in
      refused (ground (arith, t))
  IsReserved→disallowed (shared r) = ground arith

  -- For octets below 256, `v4_is_disallowed` refuses exactly the addresses of the listed blocks,
  -- read as 32-bit numbers.
  pub v4_is_disallowed_iff : (v4_is_disallowed a b c d ≡ true) ↔ IsReserved (address a b c d)
  v4_is_disallowed_iff = (disallowed→IsReserved, IsReserved→disallowed)
