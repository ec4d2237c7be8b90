-- ===== src/Sdk/Tests.antt =====
-- receipt.test.ts: the tests of `parseBlobId`, on the model.
use sekisho.Base.{ℕ, ◌*◌, ◌^◌, ◌++◌, none, some, ◌≡◌, refl, replicate}
use sekisho.Text.{Str, lit, starts_with}
use sekisho.Sdk.{blob_loop, parse_blob_id}

abbrev zeros : ℕ → Str
zeros n = replicate (2 * n) b'0'

abbrev ParseBlobId : Type 0
ParseBlobId =
    (parse_blob_id (lit "01" ++ zeros 31) ≡ some 1)
    × (parse_blob_id (zeros 31 ++ lit "01") ≡ some (2 ^ 248))
    × (parse_blob_id (lit "0x01" ++ zeros 31) ≡ some 1)
    × (parse_blob_id (lit "12345") ≡ some 12345)
    × (parse_blob_id (lit "zz") ≡ none)
    × (parse_blob_id (lit "abc") ≡ none)

parse_blob_id_tests : ParseBlobId
unfolding parse_blob_id blob_loop starts_with
parse_blob_id_tests = (refl, refl, refl, refl, refl, refl)
