-- ===== src/Encoder/Names.antt =====
-- include/grlx/rpc/encoder.hpp: the archives that name what they hold, and those that do not.
use grlx_rpc.Prelude.{ℕ, ◌≡◌, refl, Bool, true, false, List, if◌then◌else◌}

-- The archive types that `needs_nvp_v` tells apart; the others are the text archives.
pub data ArchiveType : Type 0 where
  portable_binary_input portable_binary_output binary_input binary_output : ArchiveType
  bounded_binary_input text_archive : ArchiveType

unfoldable pub needs_nvp : ArchiveType → Bool
needs_nvp text_archive = true
needs_nvp archive = false

-- What an archive is given: an object, or a name-value pair of it.
pub data Given (T : Type 0) : Type 0 where
  plain : T → Given T
  named : List ℕ → T → Given T

unfoldable pub serialize_with_optimal_method : {T : Type 0} → ArchiveType → T → List ℕ → Given T
serialize_with_optimal_method archive obj name =
    if needs_nvp archive then named name obj else plain obj

-- `binary_encoder`: the archives of `decode` and of `encode`.
abbrev pub binary_encoder : ArchiveType × ArchiveType
binary_encoder = (bounded_binary_input, portable_binary_output)

-- Neither archive of `binary_encoder` sees a name, so what one writes and the other reads is the object alone.
pub binary_encoder-plain :
    {T : Type 0} (obj : T) (name : List ℕ)
    → (serialize_with_optimal_method binary_encoder.0 obj name ≡ plain obj)
      × (serialize_with_optimal_method binary_encoder.1 obj name ≡ plain obj)
unfolding serialize_with_optimal_method needs_nvp
binary_encoder-plain obj name = (refl, refl)
