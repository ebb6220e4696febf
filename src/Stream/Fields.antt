-- ===== src/Stream/Fields.antt =====
-- Any sequence of fields that a `BitWriter` puts comes back from a `BitReader`.
use byte_select.Prelude.{ℕ, ◌%◌, ◌^◌, ◌≡◌, List, [], ◌∷◌, map}
use byte_select.Prelude.{ok, ◌>>=◌}
use byte_select.Stream.{BitWriter, new_writer, put, get}
use byte_select.Stream.Emits.{
  Emits, Emits-put, Emits-bind, Emits-return, Emits-run, Emits-map, Decoder,
}

-- A value and the number of its bits.
abbrev pub Field : Type 0
Field = ℕ × ℕ

unfoldable pub put_all : BitWriter → List Field → BitWriter
put_all w [] = w
put_all w ((value, count) ∷ fields) = put_all (put w value count) fields

unfoldable pub get_all : List ℕ → Decoder (List ℕ)
get_all [] bytes p = ok ([], p)
get_all (count ∷ counts) bytes p = get bytes p count >>= λ (value, q).
    get_all counts bytes q >>= λ (values, r). ok (value ∷ values, r)

-- The low `count` bits of a field.
abbrev pub low_bits : Field → ℕ
low_bits (value, count) = value % 2 ^ count

put_all-Emits :
    (w : BitWriter) (fields : List Field)
    → Emits w (put_all w fields) (get_all (map (λ (f : Field). f.1) fields)) (map low_bits fields)
unfolding put_all get_all
put_all-Emits w [] = Emits-return w []
put_all-Emits w ((value, count) ∷ fields) =
    Emits-bind (value % 2 ^ count)
      (λ v bytes q.
        get_all (map (λ (f : Field). f.1) fields) bytes q >>= λ (values, r). ok (v ∷ values, r))
      (Emits-put w value count)
      (Emits-map (λ values. value % 2 ^ count ∷ values) _
        (put_all-Emits (put w value count) fields))

-- The fields that a fresh writer puts are read back from its bytes, each cut to its number of bits,
-- and the reader stands behind the last bit written.
pub get_all-put_all :
    (fields : List Field)
    → let w = put_all new_writer fields in
      get_all (map (λ (f : Field). f.1) fields) w.bytes 0 ≡ ok (map low_bits fields, w.bits)
get_all-put_all fields =
    Emits-run (put_all new_writer fields) (get_all (map (λ (f : Field). f.1) fields))
      (map low_bits fields) (put_all-Emits new_writer fields)
