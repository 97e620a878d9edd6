-- ===== src/Base/Bits.antt =====
-- Laws of `bit_xor`, `bit_and` and `bit_or` at variables, from one equation for the lowest digit.
mod Digits
mod Xor
mod Mask
pub use Digits.{xor_step, and_step, or_step}
pub use Xor.*
pub use Mask.*
