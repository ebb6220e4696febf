-- ===== src/Stream/Emits.antt =====
-- A coder of bit streams: what an encoder puts is what a decoder, standing there, gets.
use byte_select.Prelude.{ℕ, ◌+◌, ◌*◌, ◌%◌, ◌^◌, ◌≤◌, ◌≡◌, refl, ◌∙◌, ap, arith}
use byte_select.Prelude.{List, [], ◌++◌, length, length-append, append_assoc, append-nil}
use byte_select.Prelude.{Result, ok, ◌>>=◌}
use byte_select.Stream.{BitWriter, new_writer, put, get}
use byte_select.Stream.Writer.{bits_from, Reads, IsWritten, put-IsWritten, new_writer-IsWritten}
use byte_select.Stream.Writer.{Reads-append, length-bits_from}
use byte_select.Stream.Reader.{get-Reads}
use native.Mathlib.Nat.{add-zero}

-- The bytes hold the bits of the list from bit `p` on, and are long enough.
pub record Carries (bytes : List ℕ) (p : ℕ) (bits : List ℕ) : Type 0 where
  pub reads : Reads bytes p bits
  pub room : p + length bits ≤ length bytes * 8

pub Carries-append :
    (bytes : List ℕ) (p : ℕ) (xs ys : List ℕ)
    → Carries bytes p (xs ++ ys)
    → Carries bytes p xs × Carries bytes (p + length xs) ys
Carries-append bytes p xs ys h =
    let (left, right) = Reads-append bytes p xs ys h.reads in
    let l = length-append xs ys in
    let room = h.room in
    (record { reads = left; room = omega arith }, record { reads = right; room = omega arith })

pub IsWritten-Carries : (w : BitWriter) (bits : List ℕ) → IsWritten w bits → Carries w.bytes 0 bits
IsWritten-Carries w bits v = record { reads = v.reads; room = omega (arith, v.size, v.count) }

-- A decoder takes the bytes and a position, and returns a value and the position behind it.
abbrev pub Decoder {ℓ} : Type ℓ → Type ℓ
Decoder A = List ℕ → ℕ → Result (A × ℕ)

-- Between `w` and `w'` a code was put that `decode` reads as `a`, whatever stands behind it.
pub record Emits {ℓ} {A : Type ℓ} (w w' : BitWriter) (decode : Decoder A) (a : A) : Type ℓ where
  pub code : List ℕ
  pub writes : (bits : List ℕ) → IsWritten w bits → IsWritten w' (bits ++ code)
  pub decodes :
      (bytes : List ℕ) (p : ℕ) → Carries bytes p code → decode bytes p ≡ ok (a, p + length code)

pub Emits-put :
    (w : BitWriter) (value count : ℕ)
    → Emits w (put w value count) (λ bytes p. get bytes p count) (value % 2 ^ count)
Emits-put w value count = record {
  code = bits_from value 0 count;
  writes = λ bits v. put-IsWritten w bits value count v;
  decodes = λ bytes p h.
      let l = length-bits_from value 0 count in
      let room = h.room in rw l (get-Reads bytes p value count h.reads (omega arith));
}

pub Emits-return {ℓ} : {A : Type ℓ} (w : BitWriter) (a : A) → Emits w w (λ bytes p. ok (a, p)) a
Emits-return w a = record {
  code = [];
  writes = λ bits v. rw append-nil v;
  decodes = λ bytes p h. rw add-zero refl;
}

-- One code behind another.
pub Emits-bind {ℓ κ} :
    {A : Type ℓ} {B : Type κ} {w w' w'' : BitWriter} {first : Decoder A} (a : A)
    (next : A → Decoder B) {b : B}
    → Emits w w' first a
    → Emits w' w'' (next a) b
    → Emits w w'' (λ bytes p. first bytes p >>= λ (x, q). next x bytes q) b
Emits-bind a next {b} e f = record {
  code = e.code ++ f.code;
  writes = λ bits v.
      rw (← append_assoc bits e.code f.code) (f.writes (bits ++ e.code) (e.writes bits v));
  decodes = λ bytes p h.
      let (left, right) = Carries-append bytes p e.code f.code h in
      let place : p + length e.code + length f.code ≡ p + length (e.code ++ f.code) =
        omega (arith, length-append e.code f.code) in
      rw (e.decodes bytes p left)
        (f.decodes bytes (p + length e.code) right ∙ ap (λ (q : ℕ). ok (b, q)) place);
}

-- The stream that a fresh writer made is decoded from bit 0.
pub Emits-run {ℓ} :
    {A : Type ℓ} (w : BitWriter) (decode : Decoder A) (a : A)
    → (e : Emits new_writer w decode a) → decode w.bytes 0 ≡ ok (a, w.bits)
Emits-run w decode a e =
    let v = e.writes [] new_writer-IsWritten in
    e.decodes w.bytes 0 (IsWritten-Carries w e.code v)
    ∙ ap (λ (q : ℕ). ok (a, q)) (omega (arith, v.count))

pub Emits-map {ℓ κ} :
    {A : Type ℓ} {B : Type κ} {w w' : BitWriter} {decode : Decoder A} (f : A → B) (a : A)
    → Emits w w' decode a
    → Emits w w' (λ bytes p. decode bytes p >>= λ (x, q). ok (f x, q)) (f a)
Emits-map {w' = w'} f a e = Emits-bind a (λ x bytes q. ok (f x, q)) e (Emits-return w' (f a))

pub Emits-along {ℓ} :
    {A : Type ℓ} {w w' : BitWriter} {decode : Decoder A} {a b : A}
    → a ≡ b
    → Emits w w' decode a
    → Emits w w' decode b
Emits-along e h = rw e at h
