-- ===== src/Network/Parsing.antt =====
-- What a reader of rtnetlink(7) finds in a message.
use mathlib.Core.List.{append-nil}
use clonebox.Prelude.{
  ℕ, zero, suc, ◌+◌, ◌^◌, ◌<◌, ◌≤◌, ◌≡◌, sym, ap, ◌∙◌, ◌==◌, Option, none, some, List, [], false,
  ◌%◌, ◌++◌, arith, length, length-append, take, if◌then◌else◌,
}
use clonebox.Network.Words.{
  Endian, to_ne_bytes, from_ne_bytes, length-to_ne_bytes, from_ne_bytes-to_ne_bytes,
}
use clonebox.Network.Writer.{padding}
use clonebox.Network.Attributes.{attribute, read_attribute, read_attribute-attribute}
use clonebox.Network.Slices.{take_of}
use clonebox.Network.Encoding.{netlink_message}

module _ (endian : Endian) where
  -- The payload of the first attribute of a type, among the first so many.
  unfoldable pub find_attribute : ℕ → ℕ → List ℕ → Option (List ℕ)
  find_attribute zero type bytes = none
  find_attribute (suc fuel) type bytes = elim (read_attribute endian bytes) [
    | none ↦ none
    | some (t, payload, rest) ↦
        let later = find_attribute fuel type rest in if t == type then some payload else later
  ]

  pub find_attribute_first :
      (fuel type : ℕ) (payload rest : List ℕ)
      → type < 2 ^ 16
      → 4 + length payload < 2 ^ 16
      → find_attribute (suc fuel) type (attribute endian type payload ++ rest) ≡ some payload
  unfolding find_attribute
  find_attribute_first fuel type payload rest ht hp =
      ground (arith, read_attribute-attribute endian type payload rest ht hp)

  pub find_attribute_only :
      (fuel type : ℕ) (payload : List ℕ)
      → type < 2 ^ 16
      → 4 + length payload < 2 ^ 16
      → find_attribute (suc fuel) type (attribute endian type payload) ≡ some payload
  find_attribute_only fuel type payload ht hp =
      ap (find_attribute (suc fuel) type) (sym (append-nil (attribute endian type payload)))
      ∙ find_attribute_first fuel type payload [] ht hp

  pub find_attribute_later :
      (fuel type other : ℕ) (payload rest : List ℕ)
      → other < 2 ^ 16
      → 4 + length payload < 2 ^ 16
      → (other == type) ≡ false
      → find_attribute (suc fuel) type (attribute endian other payload ++ rest)
        ≡ find_attribute fuel type rest
  unfolding find_attribute
  find_attribute_later fuel type other payload rest ho hp ne =
      ground (arith, read_attribute-attribute endian other payload rest ho hp)

  pub length-attribute_le :
      (type : ℕ) (payload : List ℕ) → length (attribute endian type payload) ≤ 8 + length payload
  unfolding attribute
  length-attribute_le type payload =
      let lens = to_ne_bytes endian 2 ((4 + length payload) % 2 ^ 16) in
      let types = to_ne_bytes endian 2 type in
      ground (
        arith,
        length-append lens (types ++ (payload ++ padding (length payload))),
        length-append types (payload ++ padding (length payload)),
        length-append payload (padding (length payload)),
        length-to_ne_bytes endian 2 ((4 + length payload) % 2 ^ 16),
        length-to_ne_bytes endian 2 type,
      )

  pub take-netlink_message :
      (type flags : ℕ) (body : List ℕ)
      → 16 + length body < 2 ^ 32
      → from_ne_bytes endian (take 4 (netlink_message endian type flags body))
        ≡ length (netlink_message endian type flags body)
  unfolding netlink_message
  take-netlink_message type flags body h =
      let size = to_ne_bytes endian 4 ((16 + length body) % 2 ^ 32) in
      let none4 = to_ne_bytes endian 4 0 in
      let tail3 = none4 ++ (none4 ++ body) in
      let tail2 = to_ne_bytes endian 2 flags ++ tail3 in
      let tail1 = to_ne_bytes endian 2 type ++ tail2 in
      ground (
        arith,
        take_of 4 size tail1 (length-to_ne_bytes endian 4 _),
        length-append size tail1,
        length-append (to_ne_bytes endian 2 type) tail2,
        length-append (to_ne_bytes endian 2 flags) tail3,
        length-append none4 (none4 ++ body),
        length-append none4 body,
        length-to_ne_bytes endian 4 ((16 + length body) % 2 ^ 32),
        length-to_ne_bytes endian 2 type,
        length-to_ne_bytes endian 2 flags,
        length-to_ne_bytes endian 4 0,
        from_ne_bytes-to_ne_bytes endian 4 (16 + length body),
      )
