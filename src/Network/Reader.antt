-- ===== src/Network/Reader.antt =====
-- The `Reader` of network.rs. A slice is taken only after check_bound, so it is in range.
use clonebox.Prelude.{
  ℕ, ◌+◌, ◌*◌, ◌/◌, ◌^◌, ◌≤◌, ◌<◌, ◌≡◌, ◌≢◌, refl, Bool, List, [], ◌++◌, arith, length,
  length-append, take, drop, ltb, if◌then◌else◌,
}
use Prim.Native.Nat.{min}
use clonebox.Errors.{CoreError, read_out_of_range, from_network}
use clonebox.Os.{Reply, success, failure}
use clonebox.Network.Words.{
  Endian, to_ne_bytes, from_ne_bytes, length-to_ne_bytes, from_ne_bytes-to_ne_bytes,
}
use clonebox.Network.Slices.{take_of, drop_of, take-append_le}

pub record Reader : Type 0 where
  pub buf : List ℕ
  pub cursor : ℕ

unfoldable pub check_bound : ℕ → Reader → Bool
check_bound n r = ltb (n + r.cursor) (length r.buf)

-- (cursor + 3) & !3, and no further than the end
unfoldable pub skip_to_align : Reader → Reader
skip_to_align r = record r { cursor = min ((r.cursor + 3) / 4 * 4) (length r.buf) }

abbrev out_of_range : {A : Type 0} → Reply CoreError A
out_of_range = failure (from_network read_out_of_range)

-- The loop `for i in 0..n` pushes buf[i].
unfoldable pub read_bytes : ℕ → Reader → Reply CoreError (List ℕ × Reader)
unfolding check_bound
read_bytes n r =
    if check_bound n r
    then success (take n r.buf, record r { cursor = r.cursor + n })
    else out_of_range

module _ (endian : Endian) where
  -- The body that the readers of words share, with BYTE_SIZE as an argument.
  read_word : ℕ → Reader → Reply CoreError (ℕ × Reader)
  unfolding check_bound
  read_word size r =
      if check_bound size r
      then success (
        from_ne_bytes endian (take size (drop r.cursor r.buf)),
        record r { cursor = r.cursor + size },
      )
      else out_of_range

  unfoldable pub read_u8 : Reader → Reply CoreError (ℕ × Reader)
  unfolding read_word
  read_u8 = read_word 1

  unfoldable pub read_u16 : Reader → Reply CoreError (ℕ × Reader)
  unfolding read_word
  read_u16 = read_word 2

  unfoldable pub read_u32 : Reader → Reply CoreError (ℕ × Reader)
  unfolding read_word
  read_u32 = read_word 4

  unfoldable pub read_u64 : Reader → Reply CoreError (ℕ × Reader)
  unfolding read_word
  read_u64 = read_word 8

  read_word-to_ne_bytes :
      (size n : ℕ) (front rest : List ℕ)
      → n < 256 ^ size
      → rest ≢ []
      → read_word size
          (record { buf = front ++ (to_ne_bytes endian size n ++ rest); cursor = length front })
        ≡ success (
          n,
          record {
            buf = front ++ (to_ne_bytes endian size n ++ rest);
            cursor = length front + size;
          },
        )
  unfolding read_word
  read_word-to_ne_bytes size n front rest h more = ground (
    arith,
    drop_of (length front) front (to_ne_bytes endian size n ++ rest) refl,
    take_of size (to_ne_bytes endian size n) rest (length-to_ne_bytes endian size n),
    from_ne_bytes-to_ne_bytes endian size n h,
    length-append front (to_ne_bytes endian size n ++ rest),
    length-append (to_ne_bytes endian size n) rest,
    length-to_ne_bytes endian size n,
  )

  -- A word that is not the last thing in the buffer is read back, and the cursor moves behind it.
  pub read_u32-to_ne_bytes :
      (n : ℕ) (front rest : List ℕ)
      → n < 2 ^ 32
      → rest ≢ []
      → read_u32 (record { buf = front ++ (to_ne_bytes endian 4 n ++ rest); cursor = length front })
        ≡ success (
          n,
          record { buf = front ++ (to_ne_bytes endian 4 n ++ rest); cursor = length front + 4 },
        )
  unfolding read_u32
  read_u32-to_ne_bytes n front rest h more = read_word-to_ne_bytes 4 n front rest h more

  -- A word that ends where the buffer ends cannot be read, though all its bytes are there.
  pub read_u32_last :
      (n : ℕ) (front : List ℕ)
      → read_u32 (record { buf = front ++ to_ne_bytes endian 4 n; cursor = length front })
        ≡ failure (from_network read_out_of_range)
  unfolding read_u32
  read_u32_last n front =
      ground (arith, length-append front (to_ne_bytes endian 4 n), length-to_ne_bytes endian 4 n)

-- Bytes are taken from the start of the buffer, wherever the cursor is: with `front` already read, the
-- first bytes of `front` come again in place of the next bytes.
read_bytes_from_start :
    (front next rest : List ℕ)
    → length next ≤ length front
    → rest ≢ []
    → read_bytes (length next) (record { buf = front ++ (next ++ rest); cursor = length front })
      ≡ success (
        take (length next) front,
        record { buf = front ++ (next ++ rest); cursor = length front + length next },
      )
unfolding read_bytes
read_bytes_from_start front next rest h more = ground (
  arith,
  take-append_le (length next) front (next ++ rest) h,
  length-append front (next ++ rest),
  length-append next rest,
)
