-- ===== src/Network/Attributes.antt =====
-- The attributes of rtnetlink(7), apart from how network.rs writes them: an attribute is its length,
-- its type and its payload, and is padded to four bytes. A reader takes them off one by one.
use mathlib.Core.List.{append_assoc}
use clonebox.Prelude.{
  ℕ, ◌+◌, ◌-◌, ◌%◌, ◌^◌, ◌<◌, ◌≡◌, refl, Option, none, some, List, ◌++◌, arith, length,
  length-append, take, drop, ltb, if◌then◌else◌, ◌||◌,
}
use clonebox.Network.Words.{
  Endian, to_ne_bytes, from_ne_bytes, length-to_ne_bytes, from_ne_bytes-to_ne_bytes,
}
use clonebox.Network.Writer.{padding}
use clonebox.Network.Slices.{take_of, drop_of}

module _ (endian : Endian) where
  unfoldable pub attribute : ℕ → List ℕ → List ℕ
  attribute type payload =
      to_ne_bytes endian 2 ((4 + length payload) % 2 ^ 16)
      ++ (to_ne_bytes endian 2 type ++ (payload ++ padding (length payload)))

  -- RTA_OK, RTA_DATA and RTA_NEXT: the type, the payload and what follows the padding.
  unfoldable pub read_attribute : List ℕ → Option (ℕ × List ℕ × List ℕ)
  read_attribute bytes =
      let len = from_ne_bytes endian (take 2 bytes) in
      let type = from_ne_bytes endian (take 2 (drop 2 bytes)) in
      if ltb len 4 || ltb (length bytes) len
      then none
      else some (type, take (len - 4) (drop 4 bytes), drop (len + length (padding len)) bytes)

padding_mod : (n : ℕ) → length (padding (4 + n)) ≡ length (padding n)
padding_mod n = ground arith

module _ (endian : Endian) where
  -- A reader takes off exactly what was put on: from an attribute that fits its length field, with
  -- anything behind it, it gets the type, the payload and what is behind.
  pub read_attribute-attribute :
      (type : ℕ) (payload rest : List ℕ)
      → type < 2 ^ 16
      → 4 + length payload < 2 ^ 16
      → read_attribute endian (attribute endian type payload ++ rest) ≡ some (type, payload, rest)
  unfolding read_attribute attribute
  read_attribute-attribute type payload rest ht hp =
      let a = to_ne_bytes endian 2 ((4 + length payload) % 2 ^ 16) in
      let b = to_ne_bytes endian 2 type in
      let z = padding (length payload) in
      let bytes = (a ++ (b ++ (payload ++ z))) ++ rest in
      let la = length-to_ne_bytes endian 2 ((4 + length payload) % 2 ^ 16) in
      let lb = length-to_ne_bytes endian 2 type in
      let whole : length (a ++ (b ++ (payload ++ z))) ≡ 4 + length payload + length z = omega (
        arith,
        la,
        lb,
        length-append a (b ++ (payload ++ z)),
        length-append b (payload ++ z),
        length-append payload z,
      ) in
      let e1 : take 2 bytes ≡ a = rw append_assoc (take_of 2 a _ la) in
      let e2 : take 2 (drop 2 bytes) ≡ b =
        rw (append_assoc, drop_of 2 a _ la, append_assoc) (take_of 2 b _ lb) in
      let regroup : bytes ≡ (a ++ b) ++ (payload ++ (z ++ rest)) = simp append_assoc in
      let four : length (a ++ b) ≡ 4 = omega (arith, length-append a b, la, lb) in
      let e3 : take (length payload) (drop 4 bytes) ≡ payload =
        rw (regroup, drop_of 4 (a ++ b) (payload ++ (z ++ rest)) four)
          (take_of (length payload) payload (z ++ rest) refl) in
      let e4 : drop (4 + length payload + length z) bytes ≡ rest = drop_of _ _ rest whole in
      ground (
        arith,
        e1,
        e2,
        e3,
        e4,
        whole,
        length-append (a ++ (b ++ (payload ++ z))) rest,
        from_ne_bytes-to_ne_bytes endian 2 (4 + length payload),
        from_ne_bytes-to_ne_bytes endian 2 type,
        padding_mod (length payload),
      )
