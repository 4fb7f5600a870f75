-- ===== src/Zip/Tests.antt =====
-- The theorems on zip_verify at a small signed archive, with a toy hash that keeps its input.
use mathlib.Core.List.{append-nil, append_assoc}
use openvela_frameworks_syst.Prelude.{
  replicate, ℕ, ◌+◌, ◌*◌, ◌≤◌, ◌<◌, ◌^◌, ◌≡◌, ◌⊎◌, refl, true, Option, none, some, List, [], ◌∷◌,
  ◌++◌, arith, length,
}
use openvela_frameworks_syst.Prelude.Int.{pos}
use openvela_frameworks_syst.Prelude.Bytes.{le32, le64, read32, read64}
use openvela_frameworks_syst.Zip.{
  contents, SignatureBlock, parse_block, parse_kv_block, get_signature_info,
}
use openvela_frameworks_syst.Zip.Layout.{
  Signer, block, signed_bytes, signer_bytes, get_signature_info_lem,
}
use openvela_frameworks_syst.Zip.Archive.{
  AppBlock, same_bytes, seek_end, sub32, parse_file, parse_app_block,
}
use openvela_frameworks_syst.Zip.Archive.Parts.{
  Parts, signature_len, directory_offset, archive, parse_app_block-archive,
}
use openvela_frameworks_syst.Zip.Digest.{
  Sha256, File, chunk_max, read_at, calc_chunk_count, md_file_block,
}
use openvela_frameworks_syst.Zip.Digest.Chunk.{Sha256Laws, slice}
use openvela_frameworks_syst.Zip.Digest.Blocks.{
  join, hash_pieces, AllShort, md_file_block_lem, calc_chunk_count_range,
}
use openvela_frameworks_syst.Zip.Verify.{
  System, verify_signature, compare_eocd, verify_digest, read_signature, parse_signature,
  check_cert, check_info, check_block, verify_app,
}
use openvela_frameworks_syst.Zip.Verify.Sound.{
  SignaturePasses, DigestPasses, verify_app_sound, verify_app_no_key, verify_digest_no_read,
}

abbrev signer : Signer
signer = record {
  digest_algorithm = 259;
  digest = 1 ∷ 2 ∷ 3 ∷ [];
  certificate = 7 ∷ [];
  attributes = 0 ∷ 0 ∷ [];
  signature_algorithm = 259;
  signature = 9 ∷ 9 ∷ [];
  public_key = 5 ∷ [];
}

signer_size : length (signer_bytes signer) ≡ 61
unfolding signer_bytes signed_bytes block le32
signer_size = refl

get_signature_info_lem_example :
    (info : SignatureBlock) × (get_signature_info (signer_bytes signer ++ 4 ∷ [])
      ≡ some (info, 4 ∷ []))
    × (contents info.signed_data ≡ signed_bytes signer)
    × (contents info.one_digest ≡ 1 ∷ 2 ∷ 3 ∷ [])
    × (contents info.certificate ≡ 7 ∷ [])
    × (contents info.signatures_content ≡ 9 ∷ 9 ∷ [])
    × (contents info.public_key ≡ 5 ∷ [])
    × (info.digests_signatures_algorithm_id ≡ 259)
    × (info.signatures_algorithm_id ≡ 259)
get_signature_info_lem_example =
    get_signature_info_lem signer (4 ∷ []) (omega arith) (omega arith) (omega (arith, signer_size))

-- The content of the signing block: one pair, with the list of the one signer.
abbrev parts : Parts
parts = record {
  entries = 1 ∷ 2 ∷ 3 ∷ [];
  pairs = le64 69 ++ (le32 0x7109871a ++ block (signer_bytes signer));
  directory = 8 ∷ 8 ∷ [];
  head = 0 ∷ 0 ∷ 0 ∷ 0 ∷ 0 ∷ 0 ∷ 0 ∷ 0 ∷ 0 ∷ 0 ∷ 0 ∷ 0 ∷ 0 ∷ 0 ∷ 0 ∷ 0 ∷ [];
  tail = 0 ∷ 0 ∷ [];
}

archive_size : length (archive parts) ≡ 136
unfolding archive signature_len directory_offset signer_bytes signed_bytes block le64 le32
archive_size = refl

abbrev app : AppBlock
app = record {
  data_block = record { start = 0; len = 3 };
  signature_block = record { start = 11; len = length parts.pairs + 24 };
  central_directory_block = record { start = directory_offset parts; len = 2 };
  eocd_block = record { start = directory_offset parts + 2; len = 22 };
}

parse_app_block-archive_example : parse_app_block true (some (archive parts)) 0 ≡ some app
parse_app_block-archive_example =
    parse_app_block-archive parts 0 refl refl (omega (arith, archive_size))

abbrev toy_sha : Sha256
toy_sha = record { Ctx = List ℕ; init = []; update = λ c xs. c ++ xs; final = λ c. c }

toy_sha-laws : Sha256Laws toy_sha
toy_sha-laws = record {
  update-nil = λ c. append-nil c;
  update-update = λ c xs ys. append_assoc c xs ys;
}

-- Reads get at most two bytes.
abbrev small_file : File
small_file = record { bytes = 10 ∷ 11 ∷ 12 ∷ 13 ∷ 14 ∷ []; grant = λ position. some 2 }

md_file_block_lem_example :
    (ps : List (List ℕ)) × (md_file_block toy_sha small_file 4096 [] (record { start = 1; len = 3 })
      ≡ (pos 0, hash_pieces toy_sha [] ps))
    × (join ps ≡ slice small_file 1 3)
    × AllShort ps
md_file_block_lem_example =
    md_file_block_lem toy_sha toy_sha-laws small_file 4096 (omega arith) (λ position. (1, refl)) []
      1 3 (omega arith) (omega arith)

calc_chunk_count_range_example :
    ((4294967295 + chunk_max ≤ 2 ^ 32)
      × (4294967295 ≤ calc_chunk_count 4294967295 * chunk_max)
      × (calc_chunk_count 4294967295 * chunk_max < 4294967295 + chunk_max))
    ⊎ ((2 ^ 32 < 4294967295 + chunk_max) × (calc_chunk_count 4294967295 ≡ 0))
calc_chunk_count_range_example = calc_chunk_count_range 4294967295 (omega arith)

-- A run in which everything succeeds; `key` is what opening the key file gives.
abbrev system : Option (Option (List ℕ)) → (ℕ → Option ℕ) → System
system key grant = record {
  sha = toy_sha;
  algorithm_known = true;
  rsa_verify = λ k signature hash. true;
  memcmp = λ xs ys. pos 0;
  archive = record { bytes = archive parts; grant = grant };
  bufsize = 32768;
  block_allocated = true;
  parse_opens = true;
  signature_allocated = true;
  fresh = replicate 300 0;
  app_opens = true;
  cert_stat = pos 0;
  cert = key;
  digest_opens = true;
  buffer_allocated = true;
  buffer_grown = true;
}

abbrev with_key : System
with_key = system (some (some (5 ∷ []))) (λ position. some 4096)

abbrev without_key : System
without_key = system none (λ position. some 4096)

eocd_small : directory_offset parts + 2 < 2 ^ 31
unfolding directory_offset signer_bytes signed_bytes block le32 le64
eocd_small = omega arith

with_key-passes : verify_app with_key 0 ≡ some (pos 0)
unfolding verify_app parse_app_block parse_file check_block check_info check_cert verify_signature
    verify_digest compare_eocd read_signature parse_signature archive signature_len directory_offset
    signer_bytes signed_bytes block le64 le32 same_bytes seek_end sub32 read32 read64 read_at
    parse_kv_block parse_block get_signature_info
with_key-passes = refl

verify_app_sound_example :
    (info : SignatureBlock) × (parse_signature with_key (read_signature with_key app) ≡ some info)
    × SignaturePasses with_key info (some (5 ∷ []))
    × DigestPasses with_key app info.one_digest
verify_app_sound_example =
    verify_app_sound with_key 0 app (some (5 ∷ [])) parse_app_block-archive_example eocd_small refl
      with_key-passes

-- The signing block as it is read back from that archive.
parsed_info :
    (info : SignatureBlock) × (parse_signature without_key (read_signature without_key app)
      ≡ some info)
    × (info.digests_signatures_algorithm_id ≡ info.signatures_algorithm_id)
unfolding parse_signature read_signature read_at archive signature_len directory_offset signer_bytes
    signed_bytes block le64 le32 read32 read64 parse_kv_block parse_block get_signature_info
parsed_info = (_, refl, refl)

verify_app_no_key_example : verify_app without_key 0 ≡ some (pos 0)
verify_app_no_key_example =
    verify_app_no_key without_key 0 app parsed_info.0 parse_app_block-archive_example refl refl
      parsed_info.1 parsed_info.2 refl refl

abbrev silent : System
silent = system (some (some (5 ∷ []))) (λ position. some 0)

verify_digest_no_read_example : verify_digest silent app (record { start = []; len = 0 }) ≡ pos 0
unfolding read_at
verify_digest_no_read_example =
    verify_digest_no_read silent app (record { start = []; len = 0 }) refl refl refl eocd_small
      (omega arith) refl
