-- ===== src/FpcBsel/Parts/Tags.antt =====
-- `unpack_tags` undoes `pack_tags`, and 16 tags take six bytes.
use byte_select.Prelude.{ℕ, ◌+◌, ◌*◌, ◌%◌, ◌^◌, ◌<◌, ◌≡◌, refl, ap, arith}
use byte_select.Prelude.{List, [], ◌∷◌, length, All, ok, ◌>>=◌}
use byte_select.Stream
use byte_select.FpcBsel.Bits.Views.{view, put-view}
use byte_select.FpcBsel.Coded.{
  Coded, Coded-put, Coded-bind, Coded-along, Coded-map, Coded-return, Coded-run,
}
use byte_select.FpcBsel.Fpc.{put_tags, read_tags, pack_tags, unpack_tags}

put_tags-Coded :
    (w : Stream.BitWriter) (tags : List ℕ)
    → All (λ t. t < 8) tags
    → (w' : Stream.BitWriter) × (put_tags (view w) tags ≡ view w')
      × Coded w w' (length tags * 3) (λ r. read_tags r (length tags)) tags
unfolding put_tags read_tags
put_tags-Coded w [] h = (w, refl, Coded-return w [])
put_tags-Coded w (tag ∷ tags) (small, h) =
    let (w', written, code) = put_tags-Coded (Stream.put w tag 3) tags h in
    let bits : 3 + length tags * 3 ≡ length (tag ∷ tags) * 3 = omega arith in
    let same : tag % 2 ^ 8 ≡ tag = omega arith in
    (
      w',
      rw (put-view w tag 3) written,
      rw bits at (
          Coded-bind tag (λ t s. read_tags s (length tags) >>= λ (ts, r). ok ((t % 2 ^ 8) ∷ ts, r))
            (Coded-along (omega arith) (Coded-put w tag 3))
            (Coded-along (ap (λ (t : ℕ). t ∷ tags) same)
              (Coded-map (λ ts. (tag % 2 ^ 8) ∷ ts) tags code))),
    )

packed_tags :
    (tags : List ℕ)
    → length tags ≡ 16
    → All (λ t. t < 8) tags
    → (bytes : List ℕ) × (pack_tags tags ≡ bytes)
      × (length bytes ≡ 6)
      × (unpack_tags bytes ≡ ok tags)
unfolding unpack_tags pack_tags
packed_tags tags sixteen small =
    let (w, written, code) = put_tags-Coded Stream.new_writer tags small in
    let (size, run) = Coded-run w (length tags * 3) (λ r. read_tags r (length tags)) tags code in
    let six : length w.bytes ≡ 6 = omega arith in
    (w.bytes, ap (λ t. t.output) written, six, rw (six, rw sixteen at run) refl)

-- For 16 tags below 8, `pack_tags` makes six bytes, from which `unpack_tags` returns the tags.
pub unpack_tags-pack_tags :
    (tags : List ℕ)
    → length tags ≡ 16
    → All (λ t. t < 8) tags
    → (length (pack_tags tags) ≡ 6) × (unpack_tags (pack_tags tags) ≡ ok tags)
unpack_tags-pack_tags tags sixteen small =
    let (bytes, packed, six, back) = packed_tags tags sixteen small in rw packed (six, back)
