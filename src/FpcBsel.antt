-- ===== src/FpcBsel.antt =====
-- The program FPC+BSEL (fpc-bsel): frequent pattern compression of 64-byte blocks, whose tags and
-- whose residual words are coded by Byte Select patterns.
pub mod Bits
pub mod Coded
pub mod Fpc
pub mod Parts
pub mod Bsel
pub mod Codec
pub mod Model
mod Examples
use byte_select.Prelude.{ℕ}

abbrev pub k_block_size : ℕ
k_block_size = 64

abbrev pub k_word_count : ℕ
k_word_count = 16
