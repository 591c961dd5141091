-- ===== src/Filelog/Codec/Opening.antt =====
-- The size of the journal's own header.
use gigaquizz.Common.{ℕ, ◌≡◌, ◌∷◌, ◌++◌, if◌then◌else◌, length, length-append, arith}
use gigaquizz.Common.Bytes.{Bytes, be, length-be, zeros}
use gigaquizz.Crc.{checksum}
use gigaquizz.GoTime.{unix_nano}
use gigaquizz.Filelog.Types.{Config}
use gigaquizz.Filelog.Codec.{file_magic, header_fields, file_header}

fields-length :
    (id starts ends mask : Bytes) (flag : ℕ)
    → length id ≡ 16
    → length starts ≡ 8
    → length ends ≡ 8
    → length mask ≡ 4
    → length (file_magic ++ (id ++ (starts ++ (ends ++ (mask ++ (flag ∷ zeros 31)))))) ≡ 76
fields-length id starts ends mask flag h h2 h3 h4 = omega (
  arith,
  length-append id (starts ++ (ends ++ (mask ++ (flag ∷ zeros 31)))),
  length-append starts (ends ++ (mask ++ (flag ∷ zeros 31))),
  length-append ends (mask ++ (flag ∷ zeros 31)),
  length-append mask (flag ∷ zeros 31),
)

pub length-file_header : (c : Config) → length c.poll_id ≡ 16 → length (file_header c) ≡ 80
unfolding file_header header_fields
length-file_header c id =
    let sum = be 4 (checksum (header_fields c)) in
    omega (
      arith,
      length-append (header_fields c) sum,
      length-be 4 (checksum (header_fields c)),
      fields-length c.poll_id (be 8 (unix_nano c.starts_at)) (be 8 (unix_nano c.ends_at))
          (be 4 c.allowed_mask) (if c.multiple then 1 else 0) id (length-be 8 _) (length-be 8 _)
          (length-be 4 _),
    )
