-- ===== src/Protocol/Result.antt =====
-- The exceptions of `BinaryReader` and `Message::Decode`, as values.

pub data Error : Type 0 where
  buffer_overflow out_of_range empty_message : Error

pub data Result {ℓ} (A : Type ℓ) : Type ℓ where
  ok : A → Result A
  err : Error → Result A
