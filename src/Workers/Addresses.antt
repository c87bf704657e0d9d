-- ===== src/Workers/Addresses.antt =====
-- Which network an address belongs to: classify and its readers of addresses, of
-- backend/src/workers/web-scrape/url-guard.ts.
-- `isIP` and `Number` belong to the platform and are parameters. The bytes of an address are a list; a read
-- past its end gives `none`, of which every comparison is false.
pub mod Mapped
use background_job_runner.Prelude.{
  ℕ, zero, suc, ◌+◌, ◌-◌, ◌*◌, ◌/◌, ◌%◌, Bool, true, false, ◌&&◌, ◌||◌, not, List, [], ◌∷◌, ◌++◌,
  Option, none, some, ◌==◌, leb, ltb, if◌then◌else◌, length, all, Text,
}
use background_job_runner.Prelude.Texts.{split, split_double, includes}
use background_job_runner.Engine.Numbers.{Numbers}

pub data AddressKind : Type 0 where
  public loopback private unique_local link_local unspecified : AddressKind

abbrev pub get : List ℕ → ℕ → Option ℕ
get [] i = none
get (b ∷ bs) zero = some b
get (b ∷ bs) (suc i) = get bs i

abbrev pub drop_bytes : ℕ → List ℕ → List ℕ
drop_bytes zero bs = bs
drop_bytes (suc n) [] = []
drop_bytes (suc n) (b ∷ bs) = drop_bytes n bs

-- `bytes[i] === n` and a range of it.
abbrev pub is : Option ℕ → ℕ → Bool
is none n = false
is (some b) n = b == n

abbrev pub within : Option ℕ → ℕ → ℕ → Bool
within none lo hi = false
within (some b) lo hi = leb lo b && leb b hi

-- `(b & mask) === n` for a mask of the high bits, whose lowest one has the value `unit`.
abbrev pub masked : Option ℕ → ℕ → ℕ → Bool
masked none unit n = false
masked (some b) unit n = b - b % unit == n

unfoldable pub classify_ipv4 : List ℕ → AddressKind
classify_ipv4 bytes =
    if is (get bytes 0) 0
    then AddressKind.unspecified
    else if is (get bytes 0) 127
    then AddressKind.loopback
    else if is (get bytes 0) 169 && is (get bytes 1) 254
    then AddressKind.link_local
    else if is (get bytes 0) 10
        || (is (get bytes 0) 172 && within (get bytes 1) 16 31)
        || (is (get bytes 0) 192 && is (get bytes 1) 168)
    then AddressKind.private
    else AddressKind.public

unfoldable pub is_zero_prefix : List ℕ → ℕ → Bool
is_zero_prefix bytes zero = true
is_zero_prefix [] (suc n) = false
is_zero_prefix (b ∷ bytes) (suc n) = b == 0 && is_zero_prefix bytes n

unfoldable pub classify_ipv6 : List ℕ → AddressKind
classify_ipv6 bytes =
    let mapped = is (get bytes 10) 255 && is (get bytes 11) 255 in
    let compatible = is (get bytes 10) 0 && is (get bytes 11) 0 in
    if is_zero_prefix bytes 15
    then (if is (get bytes 15) 1 then AddressKind.loopback else AddressKind.unspecified)
    else if is_zero_prefix bytes 10 && (mapped || compatible)
    then classify_ipv4 (drop_bytes 12 bytes)
    else if masked (get bytes 0) 2 252
    then AddressKind.unique_local
    else if is (get bytes 0) 254 && masked (get bytes 1) 64 128
    then AddressKind.link_local
    else AddressKind.public

-- `/^[0-9a-f]{1,4}$/` and `Number.parseInt(chunk, 16)`
abbrev pub is_hex_digit : ℕ → Bool
is_hex_digit c = (leb 48 c && leb c 57) || (leb 97 c && leb c 102)

abbrev pub is_hex_chunk : Text → Bool
is_hex_chunk s = leb 1 (length s) && leb (length s) 4 && all is_hex_digit s

abbrev pub hex_digit : ℕ → ℕ
hex_digit c = if leb c 57 then c - 48 else c - 87

abbrev pub parse_hex : ℕ → Text → ℕ
parse_hex acc [] = acc
parse_hex acc (c ∷ s) = parse_hex (acc * 16 + hex_digit c) s

abbrev pub zeros : ℕ → List ℕ
zeros zero = []
zeros (suc n) = 0 ∷ zeros n

-- Each group as its two bytes.
abbrev pub bytes_of : List ℕ → List ℕ
bytes_of [] = []
bytes_of (g ∷ gs) = (g / 256) ∷ (g % 256) ∷ bytes_of gs

module _ (num : Numbers) where
  abbrev pub checked_byte : Option ℕ → Option ℕ
  checked_byte none = none
  checked_byte (some n) = if leb n 255 then some n else none

  -- The loop of `ipv4Bytes` over the parts.
  abbrev pub byte_before : Option ℕ → Option (List ℕ) → Option (List ℕ)
  byte_before none bs = none
  byte_before (some b) none = none
  byte_before (some b) (some bs) = some (b ∷ bs)

  abbrev pub read_bytes : List Text → Option (List ℕ)
  read_bytes [] = some []
  read_bytes (p ∷ ps) = byte_before (checked_byte (num.integer p)) (read_bytes ps)

  unfoldable pub ipv4_bytes : Text → Option (List ℕ)
  ipv4_bytes address =
      let parts = split 46 address in if length parts == 4 then read_bytes parts else none

  -- The two groups of a dotted quad.
  abbrev pub quad_groups : Option (List ℕ) → Option (List ℕ)
  quad_groups (some (a ∷ b ∷ c ∷ d ∷ [])) = some ((a * 256 + b) ∷ (c * 256 + d) ∷ [])
  quad_groups _ = none

  abbrev pub chunk_groups : Bool → Text → Option (List ℕ)
  chunk_groups last chunk =
      if includes 46 chunk
      then (if last then quad_groups (ipv4_bytes chunk) else none)
      else if is_hex_chunk chunk
      then some (parse_hex 0 chunk ∷ [])
      else none

  abbrev pub join_groups : Option (List ℕ) → Option (List ℕ) → Option (List ℕ)
  join_groups none _ = none
  join_groups (some gs) none = none
  join_groups (some gs) (some hs) = some (gs ++ hs)

  abbrev pub is_last : List Text → Bool
  is_last [] = true
  is_last (_ ∷ _) = false

  -- The loop of `hexGroups` over the chunks.
  abbrev pub groups_of : List Text → Option (List ℕ)
  groups_of [] = some []
  groups_of (chunk ∷ chunks) = join_groups (chunk_groups (is_last chunks) chunk) (groups_of chunks)

  unfoldable pub hex_groups : Text → Option (List ℕ)
  hex_groups [] = some []
  hex_groups (c ∷ part) = groups_of (split 58 (c ∷ part))

  -- The groups around `::`, and those without it.
  abbrev pub fill_gap : Option (List ℕ) → Option (List ℕ) → Option (List ℕ)
  fill_gap (some head) (some tail) =
      if leb (length head + length tail) 8
      then some (bytes_of (head ++ zeros (8 - (length head + length tail)) ++ tail))
      else none
  fill_gap _ _ = none

  abbrev pub full_groups : Option (List ℕ) → Option (List ℕ)
  full_groups none = none
  full_groups (some head) = if length head == 8 then some (bytes_of head) else none

  abbrev pub halves_bytes : List Text → Option (List ℕ)
  halves_bytes (head ∷ []) = full_groups (hex_groups head)
  halves_bytes (head ∷ tail ∷ []) = fill_gap (hex_groups head) (hex_groups tail)
  halves_bytes _ = none

  unfoldable pub ipv6_bytes : Text → Option (List ℕ)
  ipv6_bytes address = halves_bytes (split_double 58 address)

  abbrev pub kind_by : (List ℕ → AddressKind) → Option (List ℕ) → AddressKind
  kind_by kind_of none = AddressKind.loopback
  kind_by kind_of (some bytes) = kind_of bytes

  -- By the family that `isIP` reports: 4, 6, or 0 for what is not an address.
  unfoldable pub classify : (Text → ℕ) → Text → AddressKind
  classify is_ip address =
      if is_ip address == 4
      then kind_by classify_ipv4 (ipv4_bytes address)
      else if is_ip address == 6
      then kind_by classify_ipv6 (ipv6_bytes address)
      else AddressKind.loopback
