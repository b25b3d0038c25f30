-- ===== src/Bits.antt =====
-- Laws of `&`, `|` and `^` at variables: masks and fields as arithmetic, `^` as a group.
mod Step
mod Mask
mod Xor
pub use Step.{bit_or_step, bit_and_step, bit_xor_step}
pub use Mask.{bit_and-zero, bit_or-zero, bit_and_mask, bit_or_field, bit_or_field_low}
pub use Mask.{IsPow2, bit_and_neg-IsPow2, bit_and_neg_pow, bit_and_pow}
pub use Xor.*
