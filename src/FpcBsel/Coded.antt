-- ===== src/FpcBsel/Coded.antt =====
-- Codes in the bit streams of fpc-bsel: what was put, of how many bits, and what is read there.
use byte_select.Prelude.{ℕ, ◌+◌, ◌/◌, ◌%◌, ◌^◌, ◌≡◌, refl, ◌∙◌, ap, arith, List, [], ◌++◌, length}
use byte_select.Prelude.{Result, ok, ◌>>=◌, length-append, append_assoc, append-nil}
use native.Mathlib.Nat.{add-zero, add_assoc}
use byte_select.Stream
use byte_select.Stream.{BitWriter, new_writer}
use byte_select.Stream.Writer.{
  IsWritten, bits_from, put-IsWritten, new_writer-IsWritten, length-bits_from,
}
use byte_select.Stream.Emits.{Carries, Carries-append, IsWritten-Carries}
use byte_select.FpcBsel.Bits.{BitReader, get}
use byte_select.FpcBsel.Bits.Views.{reader_at, get-Carries}

abbrev pub Reading {ℓ} : Type ℓ → Type ℓ
Reading A = BitReader → Result (A × BitReader)

-- Between the writers a code of `bits` bits was put that `decode` reads as `a`.
pub record Coded {ℓ} {A : Type ℓ} (w w' : BitWriter) (bits : ℕ) (decode : Reading A) (a : A)
    : Type ℓ where
  pub code : List ℕ
  pub size : length code ≡ bits
  pub writes : (xs : List ℕ) → IsWritten w xs → IsWritten w' (xs ++ code)
  pub decodes :
      (bytes : List ℕ) (p : ℕ)
      → Carries bytes p code
      → decode (reader_at bytes p) ≡ ok (a, reader_at bytes (p + bits))

pub Coded-put :
    (w : BitWriter) (value bits : ℕ)
    → Coded w (Stream.put w value bits) bits (λ r. get r bits) (value % 2 ^ bits)
Coded-put w value bits = record {
  code = bits_from value 0 bits;
  size = length-bits_from value 0 bits;
  writes = λ xs v. put-IsWritten w xs value bits v;
  decodes = λ bytes p h. get-Carries bytes p value bits h;
}

pub Coded-return {ℓ} : {A : Type ℓ} (w : BitWriter) (a : A) → Coded w w 0 (λ r. ok (a, r)) a
Coded-return w a = record {
  code = [];
  size = refl;
  writes = λ xs v. rw append-nil v;
  decodes = λ bytes p h. rw add-zero refl;
}

pub Coded-bind {ℓ κ} :
    {A : Type ℓ} {B : Type κ} {w w' w'' : BitWriter} {m n : ℕ} {first : Reading A} (a : A)
    (next : A → Reading B) {b : B}
    → Coded w w' m first a
    → Coded w' w'' n (next a) b
    → Coded w w'' (m + n) (λ r. first r >>= λ (x, s). next x s) b
Coded-bind {m} {n} a next {b} e f = record {
  code = e.code ++ f.code;
  size = omega (arith, length-append e.code f.code, e.size, f.size);
  writes = λ xs v. rw (← append_assoc xs e.code f.code) (f.writes (xs ++ e.code) (e.writes xs v));
  decodes = λ bytes p h.
      let (left, right) = Carries-append bytes p e.code f.code h in
      rw (e.decodes bytes p left) (
        f.decodes bytes (p + m) (rw e.size at right)
        ∙ ap (λ (q : ℕ). ok (b, reader_at bytes q)) (add_assoc p m n));
}

pub Coded-along {ℓ} :
    {A : Type ℓ} {w w' : BitWriter} {bits : ℕ} {decode : Reading A} {a b : A}
    → a ≡ b
    → Coded w w' bits decode a
    → Coded w w' bits decode b
Coded-along e h = rw e at h

pub Coded-map {ℓ κ} :
    {A : Type ℓ} {B : Type κ} {w w' : BitWriter} {bits : ℕ} {decode : Reading A} (f : A → B) (a : A)
    → Coded w w' bits decode a
    → Coded w w' bits (λ r. decode r >>= λ (x, s). ok (f x, s)) (f a)
Coded-map {w' = w'} {bits = bits} f a e =
    rw add-zero at (Coded-bind a (λ x s. ok (f x, s)) e (Coded-return w' (f a)))

-- The stream that a fresh writer made: its size, and what is read from its start.
pub Coded-run {ℓ} :
    {A : Type ℓ} (w : BitWriter) (bits : ℕ) (decode : Reading A) (a : A)
    → Coded new_writer w bits decode a
    → (length w.bytes ≡ (bits + 7) / 8)
      × (decode (reader_at w.bytes 0) ≡ ok (a, reader_at w.bytes bits))
Coded-run w bits decode a e =
    let v = e.writes [] new_writer-IsWritten in
    let start : 0 + bits ≡ bits = omega arith in
    (
      omega (arith, v.size, v.count, e.size),
      e.decodes w.bytes 0 (IsWritten-Carries w e.code v)
          ∙ ap (λ (q : ℕ). ok (a, reader_at w.bytes q)) start,
    )
