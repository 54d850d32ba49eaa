-- ===== src/Encoding/Writer.antt =====
-- `SigningWriter` of crates/aion-trust-core/src/encoding.rs. A `&mut self` method takes the
-- writer last and returns the new one; `w ▸ m` is the call `w.m()`.
pub mod Injective
use aion_trust.Prelude.{ℕ, ◌%◌, ◌^◌, [], ◌++◌, length, Bytes}
use aion_trust.Prelude.Int.{ℤ}
use aion_trust.Encoding.Words.{be_bytes, i64_bits}

infixl 20 ◌▸◌
abbrev pub ◌▸◌ {ℓ κ} : {A : Type ℓ} {B : Type κ} → A → (A → B) → B
x ▸ f = f x

pub record SigningWriter : Type 0 where
  pub buf : Bytes

-- `bytes.len() as u32` keeps the low 32 bits of the length.
unfoldable pub field : Bytes → SigningWriter → SigningWriter
field bytes w = record { buf = w.buf ++ (be_bytes 4 (length bytes % 2 ^ 32) ++ bytes) }

unfoldable pub new : Bytes → SigningWriter
unfolding field
new domain = record { buf = [] } ▸ field domain

unfoldable pub int : ℤ → SigningWriter → SigningWriter
unfolding field
int v w = w ▸ field (be_bytes 8 (i64_bits v))

unfoldable pub u32 : ℕ → SigningWriter → SigningWriter
unfolding field
u32 v w = w ▸ field (be_bytes 4 v)

unfoldable pub into_bytes : SigningWriter → Bytes
into_bytes w = w.buf
