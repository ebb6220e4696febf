-- ===== src/Stream/Examples.antt =====
-- Runs of the bit streams.
use byte_select.Prelude.{◌≡◌, refl, [], ◌∷◌, List, map, ok}
use byte_select.Stream.{new_writer, put}
use byte_select.Stream.Fields.{Field, put_all, get_all, low_bits, get_all-put_all}

abbrev fields : List Field
fields = (5, 3) ∷ (300, 9) ∷ (6, 2) ∷ []

written : (put_all new_writer fields).bytes ≡ 101 ∷ 41 ∷ []
unfolding put_all put
written = refl

get_all-put_all_example :
    get_all (map (λ (f : Field). f.1) fields) (put_all new_writer fields).bytes 0
    ≡ ok (map low_bits fields, (put_all new_writer fields).bits)
get_all-put_all_example = get_all-put_all fields
