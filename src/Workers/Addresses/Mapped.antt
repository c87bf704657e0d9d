-- ===== src/Workers/Addresses/Mapped.antt =====
-- An IPv4 address inside an IPv6 one, in classify of backend/src/workers/web-scrape/url-guard.ts.
use background_job_runner.Prelude.{
  ℕ, ◌+◌, ◌*◌, ◌/◌, ◌%◌, ◌≤◌, ◌≡◌, refl, ap, ◌⊎◌, inl, inr, subst, suc, true, false, List, [], ◌∷◌,
  ◌++◌, Option, none, some, arith, ◌==◌, length, All, Bool-cases, Text, codes, some_injective,
}
use background_job_runner.Prelude.Texts.{
  split, split_double, includes, split-whole, split_double-whole,
}
use background_job_runner.Engine.Numbers.{Numbers}
use background_job_runner.Workers.Addresses.{
  classify_ipv4, classify_ipv6, ipv4_bytes, ipv6_bytes, hex_groups, classify, read_bytes,
  is_zero_prefix, quad_groups, kind_by, groups_of, checked_byte, byte_before, fill_gap, join_groups,
}

abbrev prefix : Text
prefix = codes "::ffff:"

module _ (num : Numbers) where
  checked-bound : (o : Option ℕ) (b : ℕ) → checked_byte num o ≡ some b → b ≤ 255
  checked-bound none b h = absurd (ground arith)
  checked-bound (some n) b h = ground arith

  read_bytes-bound :
      (ps : List Text) (bs : List ℕ)
      → read_bytes num ps ≡ some bs
      → All (λ b. b ≤ 255) bs × (length bs ≡ length ps)
  read_bytes-bound [] bs h =
      let e = some_injective h in
      (subst (All (λ b. b ≤ 255)) e tt, subst (λ l. length l ≡ 0) e refl)
  read_bytes-bound (p ∷ ps) bs h =
      by_byte (checked_byte num (num.integer p)) (read_bytes num ps) (checked-bound (num.integer p))
        (read_bytes-bound ps) h
    where
      by_byte :
          (o : Option ℕ) (r : Option (List ℕ))
          → ((b : ℕ) → o ≡ some b → b ≤ 255)
          → ((cs : List ℕ) → r ≡ some cs → All (λ b. b ≤ 255) cs × (length cs ≡ length ps))
          → byte_before num o r ≡ some bs
          → All (λ b. b ≤ 255) bs × (length bs ≡ suc (length ps))
      by_byte none r f g e = absurd (ground arith)
      by_byte (some b) none f g e = absurd (ground arith)
      by_byte (some b) (some cs) f g e =
          let (bound, size) = g cs refl in
          let q = some_injective e in
          (
            subst (All (λ b. b ≤ 255)) q (f b refl, bound),
            subst (λ l. length l ≡ suc (length ps)) q (ap suc size),
          )

  wrapped_kind :
      (a b c d : ℕ)
      → a ≤ 255
      → b ≤ 255
      → c ≤ 255
      → d ≤ 255
      → classify_ipv6 (
          0
          ∷ 0
          ∷ 0
          ∷ 0
          ∷ 0
          ∷ 0
          ∷ 0
          ∷ 0
          ∷ 0
          ∷ 0
          ∷ 255
          ∷ 255
          ∷ (a * 256 + b) / 256
          ∷ (a * 256 + b) % 256
          ∷ (c * 256 + d) / 256
          ∷ (c * 256 + d) % 256
          ∷ [])
        ≡ classify_ipv4 (a ∷ b ∷ c ∷ d ∷ [])
  unfolding classify_ipv6 is_zero_prefix classify_ipv4
  wrapped_kind a b c d ha hb hc hd = ground arith

  split-prefix :
      (q : Text)
      → includes 58 q ≡ false
      → split_double 58 (prefix ++ q) ≡ [] ∷ (codes "ffff:" ++ q) ∷ []
  unfolding split_double
  split-prefix q h = simp (split_double-whole 58 58 q h)

  hex_groups-quad :
      (q : Text)
      → includes 58 q ≡ false
      → includes 46 q ≡ true
      → hex_groups num (codes "ffff:" ++ q) ≡ groups_of num (codes "ffff" ∷ q ∷ [])
  unfolding hex_groups split
  hex_groups-quad q h i = simp (split-whole 58 q h)

  ipv4_bytes-quad :
      (q : Text) (bs : List ℕ)
      → ipv4_bytes num q ≡ some bs
      → All (λ b. b ≤ 255) bs × (length bs ≡ 4)
  unfolding ipv4_bytes
  ipv4_bytes-quad q bs h = by_size (Bool-cases (length (split 46 q) == 4))
    where
      by_size :
          ((length (split 46 q) == 4) ≡ true) ⊎ ((length (split 46 q) == 4) ≡ false)
          → All (λ b. b ≤ 255) bs × (length bs ≡ 4)
      by_size (inl e) =
          let (bound, size) = read_bytes-bound (split 46 q) bs (ground arith) in
          (bound, ground (arith, size))
      by_size (inr e) = absurd (ground arith)

  ipv4_bytes-dotted : (q : Text) (bs : List ℕ) → ipv4_bytes num q ≡ some bs → includes 46 q ≡ true
  unfolding ipv4_bytes
  ipv4_bytes-dotted q bs h = elim (Bool-cases (includes 46 q)) [
    | inl e ↦ e
    | inr e ↦ absurd (ground (arith, split-whole 46 q e))
  ]

  wrapped_quad :
      (bs : List ℕ)
      → All (λ b. b ≤ 255) bs
      → length bs ≡ 4
      → kind_by num classify_ipv6 (
          fill_gap num (some []) (
            join_groups num
              (some (65535 ∷ []))
              (join_groups num (quad_groups num (some bs)) (some []))))
        ≡ classify_ipv4 bs
  wrapped_quad (a ∷ b ∷ c ∷ d ∷ []) h e = wrapped_kind a b c d h.0 h.1.0 h.1.1.0 h.1.1.1.0
  wrapped_quad [] h e = absurd (ground arith)
  wrapped_quad (a ∷ []) h e = absurd (ground arith)
  wrapped_quad (a ∷ b ∷ []) h e = absurd (ground arith)
  wrapped_quad (a ∷ b ∷ c ∷ []) h e = absurd (ground arith)
  wrapped_quad (a ∷ b ∷ c ∷ d ∷ x ∷ xs) h e = absurd (ground arith)

  ipv6_bytes-mapped :
      (q : Text) (bs : List ℕ)
      → includes 58 q ≡ false
      → ipv4_bytes num q ≡ some bs
      → ipv6_bytes num (prefix ++ q)
        ≡ fill_gap num (some []) (
            join_groups num
              (some (65535 ∷ []))
              (join_groups num (quad_groups num (some bs)) (some [])))
  unfolding ipv6_bytes hex_groups
  ipv6_bytes-mapped q bs h e =
      simp
        (
          split-prefix q h,
          hex_groups-quad q h (ipv4_bytes-dotted q bs e),
          ipv4_bytes-dotted q bs e,
          e,
        )
        refl

  -- An IPv4 address that `isIP` reports as such, written `::ffff:` and the address, is of the same kind as
  -- the address itself.
  pub classify-mapped :
      (is_ip : Text → ℕ) (q : Text) (bs : List ℕ)
      → is_ip q ≡ 4
      → is_ip (prefix ++ q) ≡ 6
      → includes 58 q ≡ false
      → ipv4_bytes num q ≡ some bs
      → classify num is_ip (prefix ++ q) ≡ classify num is_ip q
  unfolding classify
  classify-mapped is_ip q bs f4 f6 h e =
      let (bound, size) = ipv4_bytes-quad q bs e in
      simp (f4, f6, e, ipv6_bytes-mapped q bs h e) (wrapped_quad bs bound size)
