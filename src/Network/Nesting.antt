-- ===== src/Network/Nesting.antt =====
-- Back-patching: what nest_start and nest_end put round the bytes written between them.
use mathlib.Core.List.{append_assoc}
use mathlib.Core.Path.{subst}
use clonebox.Network.Structs.{rtattr_builder, rtattr_bytes}
use clonebox.Prelude.{
  ℕ, ◌+◌, ◌-◌, ◌%◌, ◌^◌, ◌≡◌, sym, ap, ◌∙◌, List, ◌++◌, arith, length, length-append,
}
use clonebox.Network.Words.{Endian, to_ne_bytes, length-to_ne_bytes}
use clonebox.Network.Writer.{
  Writer, write_bytes, write_u16, pos, patch, nest_start, nest_end, padding, pad_to_align,
  buf-pad_to_align,
}
use clonebox.Network.Attributes.{attribute}
use clonebox.Network.Slices.{take_front, drop_front, drop_front_more}

-- A patch over bytes of the same length replaces them and moves nothing.
pub buf-patch :
    (front old new rest : List ℕ)
    → length old ≡ length new
    → (patch (length front) new (record { buf = front ++ (old ++ rest) })).buf
      ≡ front ++ (new ++ rest)
unfolding patch
buf-patch front old new rest h = cc (
  take_front front (old ++ rest),
  drop_front_more front (old ++ rest) (length new),
  drop_front old rest,
)

padding_aligned : (front n : ℕ) → front % 4 ≡ 0 → padding (front + (4 + n)) ≡ padding n
padding_aligned front n h = ground arith

module _ (endian : Endian) where
  abbrev len_bytes : ℕ → List ℕ
  len_bytes n = to_ne_bytes endian 2 ((4 + n) % 2 ^ 16)

  buf-nest_end :
      (front len type payload : List ℕ)
      → length front % 4 ≡ 0
      → length len ≡ 2
      → length type ≡ 2
      → (nest_end endian (length front) (record { buf = front ++ (len ++ (type ++ payload)) })).buf
        ≡ front ++ (len_bytes (length payload) ++ (type ++ (payload ++ padding (length payload))))
  unfolding nest_end pos
  buf-nest_end front len type payload h hl ht =
      let new = len_bytes (length payload) in
      let size : length (front ++ (len ++ (type ++ payload))) - length front ≡ 4 + length payload =
        omega (
          arith,
          length-append front (len ++ (type ++ payload)),
          length-append len (type ++ payload),
          length-append type payload,
        ) in
      let total : length (front ++ (new ++ (type ++ payload)))
          ≡ length front + (4 + length payload) =
        omega (
          arith,
          length-append front (new ++ (type ++ payload)),
          length-append new (type ++ payload),
          length-append type payload,
          length-to_ne_bytes endian 2 ((4 + length payload) % 2 ^ 16),
        ) in
      rw (buf-pad_to_align, size)
        (rw (buf-patch front len new (type ++ payload) (hl ∙ sym (length-to_ne_bytes endian 2 _)))
          (rw (total, padding_aligned (length front) (length payload) h) (simp append_assoc)))

  pub length-nest_start :
      (type : ℕ) (w : Writer) → length (nest_start endian type w).1.buf ≡ length w.buf + 4
  unfolding nest_start write_bytes write_u16
  length-nest_start type w = ground (
    arith,
    length-append (w.buf ++ to_ne_bytes endian 2 0) (to_ne_bytes endian 2 type),
    length-append w.buf (to_ne_bytes endian 2 0),
    length-to_ne_bytes endian 2 0,
    length-to_ne_bytes endian 2 type,
  )

  -- From an aligned buffer, what is written between nest_start and nest_end becomes the payload of one
  -- attribute at the end of the buffer.
  pub buf-nest :
      (type : ℕ) (payload : List ℕ) (w w' : Writer)
      → length w.buf % 4 ≡ 0
      → w'.buf ≡ (nest_start endian type w).1.buf ++ payload
      → (nest_end endian (nest_start endian type w).0 w').buf
        ≡ w.buf ++ attribute endian type payload
  unfolding nest_start write_bytes write_u16 pos attribute
  buf-nest type payload w w' h e =
      subst
        (λ (b : List ℕ).
          (nest_end endian (length w.buf) (record { buf = b })).buf
          ≡ w.buf ++ attribute endian type payload)
        (sym (e ∙ regroup))
        (buf-nest_end w.buf (to_ne_bytes endian 2 0) (to_ne_bytes endian 2 type) payload h
          (length-to_ne_bytes endian 2 0) (length-to_ne_bytes endian 2 type))
    where
      regroup :
          ((w.buf ++ to_ne_bytes endian 2 0) ++ to_ne_bytes endian 2 type) ++ payload
          ≡ w.buf ++ (to_ne_bytes endian 2 0 ++ (to_ne_bytes endian 2 type ++ payload))
      regroup = simp append_assoc

  pub length-attribute :
      (type : ℕ) (payload : List ℕ) → length (attribute endian type payload) % 4 ≡ 0
  unfolding attribute
  length-attribute type payload = ground (
    arith,
    length-append (len_bytes (length payload))
        (to_ne_bytes endian 2 type ++ (payload ++ padding (length payload))),
    length-append (to_ne_bytes endian 2 type) (payload ++ padding (length payload)),
    length-append payload (padding (length payload)),
    length-to_ne_bytes endian 2 ((4 + length payload) % 2 ^ 16),
    length-to_ne_bytes endian 2 type,
  )

  -- An attribute that is written at once, with its own header, and then padded.
  pub buf-leaf :
      (type n : ℕ) (payload front : List ℕ) (w : Writer)
      → length front % 4 ≡ 0
      → n ≡ (4 + length payload) % 2 ^ 16
      → w.buf ≡ (front ++ rtattr_bytes endian (rtattr_builder n type)) ++ payload
      → (pad_to_align w).buf ≡ front ++ attribute endian type payload
  unfolding attribute rtattr_bytes
  buf-leaf type n payload front w h en e =
      let lens = len_bytes (length payload) in
      let types = to_ne_bytes endian 2 type in
      let regroup : w.buf ≡ front ++ (lens ++ (types ++ payload)) = e ∙ rw en (simp append_assoc) in
      let total : length w.buf ≡ length front + (4 + length payload) =
        ap length regroup
        ∙ omega (
          arith,
          length-append front (lens ++ (types ++ payload)),
          length-append lens (types ++ payload),
          length-append types payload,
          length-to_ne_bytes endian 2 ((4 + length payload) % 2 ^ 16),
          length-to_ne_bytes endian 2 type,
        ) in
      buf-pad_to_align w
      ∙ rw (total, padding_aligned (length front) (length payload) h, regroup) (simp append_assoc)
