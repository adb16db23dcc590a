-- ===== src/Base/Utf8.antt =====
-- UTF-8: `str::as_bytes` and `String::from_utf8`, on texts as lists of Unicode scalar values.
use Prim.Native.Nat.{ℕ, zero, suc, ◌+◌, ◌-◌, ◌*◌, ◌/◌, ◌%◌}
use mathlib.Core.Path.{◌≡◌, refl, ◌∙◌}
use mathlib.Core.Logic.{inl, inr}
use mathlib.Core.Bool.{Bool, true, false, ◌||◌, ◌&&◌}
use mathlib.Core.Option.{Option, none, some}
use mathlib.Core.List.{List, [], ◌∷◌}
use native.Mathlib.Omega.{arith}
use rsmsg.Base.Equality.{ltb, leb, if◌then◌else◌, Bool-cases}
use rsmsg.Base.Text.{Text}
use rsmsg.Base.Lists.{All}

-- The bytes of one scalar value, before what follows.
unfoldable pub encode_char : ℕ → List ℕ → List ℕ
encode_char c rest =
    if ltb c 0x80
    then c ∷ rest
    else if ltb c 0x800
    then (0xc0 + c / 64) ∷ (0x80 + c % 64) ∷ rest
    else if ltb c 0x10000
    then (0xe0 + c / 4096) ∷ (0x80 + c / 64 % 64) ∷ (0x80 + c % 64) ∷ rest
    else (0xf0 + c / 262144)
      ∷ (0x80 + c / 4096 % 64)
      ∷ (0x80 + c / 64 % 64)
      ∷ (0x80 + c % 64)
      ∷ rest

unfoldable pub as_bytes : Text → List ℕ
unfolding encode_char
as_bytes [] = []
as_bytes (c ∷ s) = encode_char c (as_bytes s)

-- A scalar value: a code point that is no surrogate.
abbrev pub is_scalar : ℕ → Bool
is_scalar c = ltb c 0xd800 || leb 0xe000 c && ltb c 0x110000

-- What is read of a scalar value of several bytes: the bytes that are missing, the bits that are
-- read, and the least value that is not written with fewer bytes.
pub record Pending : Type 0 where
  pub missing : ℕ
  pub bits : ℕ
  pub least : ℕ

abbrev pub pending : ℕ → ℕ → ℕ → Pending
pending missing bits least = record { missing = missing; bits = bits; least = least }

abbrev pub start : Pending
start = pending 0 0 0

-- A reading step: the new state, and the scalar value that is complete.
pub data Reading : Type 0 where
  invalid : Reading
  partly : Pending → Reading
  char : ℕ → Reading

unfoldable pub first_byte : ℕ → Reading
first_byte b =
    if ltb b 0x80
    then char b
    else if leb 0xc2 b && ltb b 0xe0
    then partly (pending 1 (b - 0xc0) 0x80)
    else if leb 0xe0 b && ltb b 0xf0
    then partly (pending 2 (b - 0xe0) 0x800)
    else if leb 0xf0 b && ltb b 0xf5
    then partly (pending 3 (b - 0xf0) 0x10000)
    else invalid

unfoldable pub next_byte : ℕ → ℕ → ℕ → ℕ → Reading
next_byte missing bits least b =
    let bits' = bits * 64 + (b - 0x80) in
    if leb 0x80 b && ltb b 0xc0
    then if leb 1 missing
      then partly (pending missing bits' least)
      else if leb least bits' && is_scalar bits'
      then char bits'
      else invalid
    else invalid

unfoldable pub read_byte : Pending → ℕ → Reading
unfolding first_byte next_byte
read_byte p b = elim p.missing [ zero ↦ first_byte b | suc n ↦ next_byte n p.bits p.least b ]

-- `from_utf8`, from the state of a scalar value that is read in part.
unfoldable pub read_from : Pending → List ℕ → Option Text
read_from p [] = elim p.missing [ zero ↦ some [] | suc n ↦ none ]
read_from p (b ∷ bs) = elim (read_byte p b) [
  | invalid ↦ none
  | partly p' ↦ read_from p' bs
  | char c ↦ elim (read_from start bs) [ none ↦ none | some s ↦ some (c ∷ s) ]
]

unfoldable pub from_utf8 : List ℕ → Option Text
unfolding read_from
from_utf8 bs = read_from start bs

-- A text, as Rust has them.
abbrev pub IsText : Text → Type 0
IsText = All (λ c. is_scalar c ≡ true)

read_from-partly :
    (p : Pending) (b : ℕ) (bs : List ℕ) (p' : Pending)
    → read_byte p b ≡ partly p'
    → read_from p (b ∷ bs) ≡ read_from p' bs
unfolding read_from
read_from-partly p b bs p' e = ground (arith, e)

read_from-char :
    (p : Pending) (b : ℕ) (bs : List ℕ) (c : ℕ) (s : Text)
    → read_byte p b ≡ char c
    → read_from start bs ≡ some s
    → read_from p (b ∷ bs) ≡ some (c ∷ s)
unfolding read_from
read_from-char p b bs c s e f = ground (arith, e, f)

-- The bytes of a scalar value, one after the other.
module _ (c : ℕ) (rest : List ℕ) (s : Text) (scalar : is_scalar c ≡ true)
    (e : read_from start rest ≡ some s) where
  read_one : ltb c 0x80 ≡ true → read_from start (c ∷ rest) ≡ some (c ∷ s)
  read_one h = read_from-char start c rest c s (unfold read_byte first_byte in ground arith) e

  -- The last byte, which brings the last six bits.
  read_last :
      (least : ℕ)
      → leb least c ≡ true
      → read_from (pending 1 (c / 64) least) ((0x80 + c % 64) ∷ rest) ≡ some (c ∷ s)
  read_last least h =
      read_from-char (pending 1 (c / 64) least) (0x80 + c % 64) rest c s
        (unfold read_byte next_byte in ground arith) e

  read_two :
      ltb c 0x80 ≡ false
      → ltb c 0x800 ≡ true
      → read_from start ((0xc0 + c / 64) ∷ (0x80 + c % 64) ∷ rest) ≡ some (c ∷ s)
  read_two h k =
      read_from-partly start (0xc0 + c / 64) _ (pending 1 (c / 64) 0x80)
        (unfold read_byte first_byte in ground arith)
      ∙ read_last 0x80 (ground arith)

  -- The last two bytes.
  read_last_two :
      (least : ℕ)
      → leb least c ≡ true
      → read_from (pending 2 (c / 4096) least) ((0x80 + c / 64 % 64) ∷ (0x80 + c % 64) ∷ rest)
        ≡ some (c ∷ s)
  read_last_two least h =
      read_from-partly (pending 2 (c / 4096) least) (0x80 + c / 64 % 64) _
        (pending 1 (c / 64) least) (unfold read_byte next_byte in ground arith)
      ∙ read_last least h

  read_three :
      ltb c 0x800 ≡ false
      → ltb c 0x10000 ≡ true
      → read_from start ((0xe0 + c / 4096) ∷ (0x80 + c / 64 % 64) ∷ (0x80 + c % 64) ∷ rest)
        ≡ some (c ∷ s)
  read_three h k =
      read_from-partly start (0xe0 + c / 4096) _ (pending 2 (c / 4096) 0x800)
        (unfold read_byte first_byte in ground arith)
      ∙ read_last_two 0x800 (ground arith)

  read_four :
      ltb c 0x10000 ≡ false
      → read_from start (
          (0xf0 + c / 262144)
          ∷ (0x80 + c / 4096 % 64)
          ∷ (0x80 + c / 64 % 64)
          ∷ (0x80 + c % 64)
          ∷ rest)
        ≡ some (c ∷ s)
  read_four h =
      read_from-partly start (0xf0 + c / 262144) _ (pending 3 (c / 262144) 0x10000)
        (unfold read_byte first_byte in ground arith)
      ∙ read_from-partly (pending 3 (c / 262144) 0x10000) (0x80 + c / 4096 % 64) _
          (pending 2 (c / 4096) 0x10000) (unfold read_byte next_byte in ground arith)
      ∙ read_last_two 0x10000 (ground arith)

  -- One scalar value is read back from its bytes.
  read-encode_char : read_from start (encode_char c rest) ≡ some (c ∷ s)
  unfolding encode_char
  read-encode_char = elim (Bool-cases (ltb c 0x80)) [
    | inl one ↦ rw one (read_one one)
    | inr more ↦ elim (Bool-cases (ltb c 0x800)) [
      | inl two ↦ rw more (rw two (read_two more two))
      | inr more' ↦ elim (Bool-cases (ltb c 0x10000)) [
        | inl three ↦ rw more (rw more' (rw three (read_three more' three)))
        | inr four ↦ rw more (rw more' (rw four (read_four four)))
      ]
    ]
  ]

-- Every text is read back from its bytes.
pub from_utf8-as_bytes : (s : Text) → IsText s → from_utf8 (as_bytes s) ≡ some s
unfolding from_utf8 as_bytes read_from
from_utf8-as_bytes [] h = refl
from_utf8-as_bytes (c ∷ s) h = read-encode_char c (as_bytes s) s h.0 (from_utf8-as_bytes s h.1)
