-- ===== src/Network/Writer.antt =====
-- The `Writer` of network.rs: a buffer that grows at its end, with back-patching.
use mathlib.Core.List.{append_assoc, append-nil}
use clonebox.Prelude.{
  ℕ, zero, suc, ◌+◌, ◌-◌, ◌%◌, ◌^◌, ◌<◌, ◌≡◌, ◌≢◌, refl, ap, ◌∙◌, List, [], ◌∷◌, ◌++◌, arith,
  length, length-append, take, drop, ◌==◌, if◌then◌else◌,
}
use clonebox.Network.Words.{Endian, to_ne_bytes}

pub record Writer : Type 0 where
  pub buf : List ℕ

unfoldable pub flush : Writer → Writer
flush w = record w { buf = [] }

-- The `while` loop of pad_to_align. Three rounds reach a multiple of four from any length.
pad_loop : ℕ → List ℕ → List ℕ
pad_loop zero buf = buf
pad_loop (suc fuel) buf =
    let rest = pad_loop fuel (buf ++ (0 ∷ [])) in if length buf % 4 == 0 then buf else rest

unfoldable pub pad_to_align : Writer → Writer
unfolding pad_loop
pad_to_align w = record w { buf = pad_loop 3 w.buf }

unfoldable pub pos : Writer → ℕ
pos w = length w.buf

unfoldable pub write_bytes : List ℕ → Writer → Writer
write_bytes bytes w = record w { buf = w.buf ++ bytes }

-- w.buf[at..at + n].copy_from_slice(&bytes), where n is the length of `bytes`
unfoldable pub patch : ℕ → List ℕ → Writer → Writer
patch at bytes w = record w { buf = take at w.buf ++ (bytes ++ drop (at + length bytes) w.buf) }

module _ (endian : Endian) where
  unfoldable pub write_u8 : ℕ → Writer → Writer
  write_u8 n = write_bytes (to_ne_bytes endian 1 n)

  unfoldable pub write_u16 : ℕ → Writer → Writer
  write_u16 n = write_bytes (to_ne_bytes endian 2 n)

  unfoldable pub write_u32 : ℕ → Writer → Writer
  write_u32 n = write_bytes (to_ne_bytes endian 4 n)

  unfoldable pub write_i32 : ℕ → Writer → Writer
  write_i32 n = write_bytes (to_ne_bytes endian 4 n)

  -- The position of the length that nest_end fills in.
  unfoldable pub nest_start : ℕ → Writer → ℕ × Writer
  nest_start rta_type w = (pos w, write_u16 rta_type (write_u16 0 w))

  unfoldable pub nest_end : ℕ → Writer → Writer
  nest_end at w = pad_to_align (patch at (to_ne_bytes endian 2 ((pos w - at) % 2 ^ 16)) w)

-- How many zeros bring a length to a multiple of four.
abbrev pub padding : ℕ → List ℕ
padding n =
    if n % 4 == 0
    then []
    else if n % 4 == 1
    then 0 ∷ 0 ∷ 0 ∷ []
    else if n % 4 == 2
    then 0 ∷ 0 ∷ []
    else 0 ∷ []

pad_loop_round :
    (fuel : ℕ) (buf zeros : List ℕ)
    → (length (buf ++ zeros) % 4 ≡ 0 → pad_loop (suc fuel) (buf ++ zeros) ≡ buf ++ zeros)
      × (length (buf ++ zeros) % 4 ≢ 0
          → pad_loop (suc fuel) (buf ++ zeros) ≡ pad_loop fuel (buf ++ (zeros ++ (0 ∷ []))))
unfolding pad_loop
pad_loop_round fuel buf zeros =
    (λ h. ground arith, λ h. ground (arith, append_assoc buf zeros (0 ∷ [])))

pub buf-pad_to_align : (w : Writer) → (pad_to_align w).buf ≡ w.buf ++ padding (length w.buf)
unfolding pad_to_align
buf-pad_to_align w = ground (
  arith,
  append-nil w.buf,
  pad_loop_round 2 w.buf [],
  pad_loop_round 1 w.buf (0 ∷ []),
  pad_loop_round 0 w.buf (0 ∷ 0 ∷ []),
  length-append w.buf [],
  length-append w.buf (0 ∷ []),
  length-append w.buf (0 ∷ 0 ∷ []),
)

abbrev pub zeros : ℕ → List ℕ
zeros zero = []
zeros (suc n) = 0 ∷ zeros n

abbrev missing : ℕ → ℕ
missing n = (4 - n % 4) % 4

padding-zeros : (n : ℕ) → padding n ≡ zeros (missing n)
padding-zeros n = ground arith

length-zeros : (n : ℕ) → length (zeros n) ≡ n
length-zeros zero = refl
length-zeros (suc n) = ground (arith, length-zeros n)

-- `pad_to_align` leaves the contents of the buffer in front, puts at most three zeros behind them and
-- nothing else, and the length is a multiple of four then.
pub pad_to_align_lem :
    (w : Writer)
    → (n : ℕ) × (n < 4)
      × ((pad_to_align w).buf ≡ w.buf ++ zeros n)
      × (length (pad_to_align w).buf % 4 ≡ 0)
pad_to_align_lem w =
    let n = missing (length w.buf) in
    let added : (pad_to_align w).buf ≡ w.buf ++ zeros n =
      buf-pad_to_align w ∙ ap (λ l. w.buf ++ l) (padding-zeros (length w.buf)) in
    (n, ground arith, added, ground (arith, added, length-append w.buf (zeros n), length-zeros n))
