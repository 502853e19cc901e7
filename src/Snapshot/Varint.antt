-- ===== src/Snapshot/Varint.antt =====
-- The variable-length integers of encoding/binary, and `putVarint` of pkg/snapshot/util/util.go.
use e2d.Prelude.Decimal.{ℤ, pos, negsuc, max_int64}
use e2d.Prelude.{
  ℕ, zero, suc, ◌+◌, ◌*◌, ◌/◌, ◌%◌, ◌≤◌, ◌<◌, ◌≡◌, refl, inl, inr, ◌&&◌, ◌||◌, [], ◌∷◌, ◌++◌, arith,
  ltb, ◌==◌, if◌then◌else◌, Bool-cases, Text, codes, Error, other, Result, ok, err, panic,
}

-- uint64(x) << 1, inverted for a negative `x`
unfoldable pub zigzag : ℤ → ℕ
zigzag (pos n) = n * 2
zigzag (negsuc n) = n * 2 + 1

unfoldable pub unzigzag : ℕ → ℤ
unzigzag u = if u % 2 == 0 then pos (u / 2) else negsuc (u / 2)

-- binary.PutUvarint to a buffer of so many bytes; no uint64 needs more than `max_varint_len64`.
unfoldable pub put_uvarint : ℕ → ℕ → Text
put_uvarint zero u = []
put_uvarint (suc f) u =
    let rest = put_uvarint f (u / 128) in if ltb u 128 then u ∷ [] else (u % 128 + 128) ∷ rest

abbrev pub max_varint_len64 : ℕ
max_varint_len64 = 10

-- `putVarint`
unfoldable pub put_varint : ℤ → Text
put_varint n = put_uvarint max_varint_len64 (zigzag n)

abbrev pub overflow : Error
overflow = other (codes "binary: varint overflows a 64-bit integer")

-- Seven bits below what was read after them.
abbrev pub shifted : ℕ → Result (ℕ × Text) → Result (ℕ × Text)
shifted c (ok (u, rest)) = ok (c % 128 + u * 128, rest)
shifted c (err e) = err e
shifted c panic = panic

-- binary.ReadUvarint at byte `i` of the number, with the rest of the stream; `fail` is the error
-- at the end of the stream.
unfoldable pub read_uvarint : Error → ℕ → Text → Result (ℕ × Text)
read_uvarint fail i [] = err fail
read_uvarint fail i (c ∷ s) =
    let more = read_uvarint fail (suc i) s in
    if ltb c 128
    then (if ltb 9 i || (i == 9 && ltb 1 c) then err overflow else ok (c, s))
    else shifted c more

abbrev pub signed : Result (ℕ × Text) → Result (ℤ × Text)
signed (ok (u, rest)) = ok (unzigzag u, rest)
signed (err e) = err e
signed panic = panic

-- binary.ReadVarint
unfoldable pub read_varint : Error → Text → Result (ℤ × Text)
read_varint fail s = signed (read_uvarint fail 0 s)

-- The numbers below which `f` more bytes, and the last one, hold.
abbrev room : ℕ → ℕ
room zero = 2
room (suc f) = room f * 128

read_uvarint-put_uvarint :
    (fail : Error) (f i u : ℕ) (rest : Text)
    → i + f ≡ 9
    → u < room f
    → read_uvarint fail i (put_uvarint (suc f) u ++ rest) ≡ ok (u, rest)
unfolding read_uvarint put_uvarint
read_uvarint-put_uvarint fail zero i u rest h lt = ground arith
read_uvarint-put_uvarint fail (suc f) i u rest h lt = elim (Bool-cases (ltb u 128)) [
  | inl small ↦ ground arith
  | inr big ↦
      let later =
        read_uvarint-put_uvarint fail f (suc i) (u / 128) rest (omega arith) (omega arith) in
      let joined : u % 128 + u / 128 * 128 ≡ u = omega arith in ground arith
]

unzigzag-zigzag : (n : ℤ) → unzigzag (zigzag n) ≡ n
unfolding unzigzag zigzag
unzigzag-zigzag (pos n) = ground arith
unzigzag-zigzag (negsuc n) = ground arith

-- The numbers of an int64.
abbrev pub IsInt64 : ℤ → Type 0
IsInt64 (pos n) = n ≤ max_int64
IsInt64 (negsuc n) = n ≤ max_int64

zigzag-room : (n : ℤ) → IsInt64 n → zigzag n < room 9
unfolding zigzag
zigzag-room (pos n) h = omega arith
zigzag-room (negsuc n) h = omega arith

-- Every int64 that was written to the ten bytes of a buffer is read back, whatever comes after it.
pub read_varint-put_varint :
    (fail : Error) (n : ℤ) (rest : Text)
    → IsInt64 n
    → read_varint fail (put_varint n ++ rest) ≡ ok (n, rest)
unfolding read_varint put_varint
read_varint-put_varint fail n rest h =
    rw (read_uvarint-put_uvarint fail 9 0 (zigzag n) rest refl (zigzag-room n h), unzigzag-zigzag n)
      refl
