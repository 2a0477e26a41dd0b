-- ===== src/MetadataManager/Body.antt =====
-- DriverCore/Namenode_Protocol.c, Parse_NN_Protocol_Body: which bodies are parsed. READ and WRITE are the
-- kernel's 0 and 1.
use dms_blkdev.Base.{
  ℕ, ◌-◌, ◌≡◌, refl, Bool, true, not, ◌||◌, Option, none, some, List, ◌==◌, if◌then◌else◌, length,
  ap, Bool-cases, inl, inr,
}
use mathlib.Core.Option
use dms_blkdev.Protocol.{MetadataResponse, parse_metadata_response}
use dms_blkdev.Protocol.Wire.{WireResponse, encode_response, ResponseFits, filled_response}
use dms_blkdev.Protocol.Response.{parse_metadata_response-encode}
use dms_blkdev.MetadataManager.{Header}

abbrev pub query_for_read : ℕ
query_for_read = 0

abbrev pub query_for_write : ℕ
query_for_write = 1

abbrev pub query_for_overwrite : ℕ
query_for_overwrite = 2

abbrev pub response_sub_type : ℕ
response_sub_type = 2

abbrev pub is_query : ℕ → Bool
is_query service_type =
    service_type == query_for_read
    || (service_type == query_for_write || service_type == query_for_overwrite)

-- The inner `none` is -DMS_FAIL with the body as it was.
unfoldable pub parse_nn_protocol_body :
    Header → List ℕ → Option (Option (MetadataResponse × List ℕ × ℕ))
parse_nn_protocol_body header bs =
    if not (header.sub_type == response_sub_type)
    then (if is_query header.service_type
        then Option.map some (parse_metadata_response bs)
        else some none)
    else some none

-- A body that fits the format, behind the header of a query, is parsed where the header's sub type is
-- not RESPONSE, and refused where it is.
pub parse_nn_protocol_body-encode :
    (header : Header) (r : WireResponse) (after : List ℕ)
    → ResponseFits r
    → is_query header.service_type ≡ true
    → parse_nn_protocol_body header (encode_response r after)
      ≡ some (
          if header.sub_type == response_sub_type
          then none
          else some (filled_response r, after, length (encode_response r after) - length after))
unfolding parse_nn_protocol_body
parse_nn_protocol_body-encode header r after fits query =
    elim (Bool-cases (header.sub_type == response_sub_type)) [
      | inl t ↦ rw t refl
      | inr t ↦ rw (t, query) (ap (Option.map some) (parse_metadata_response-encode r after fits))
    ]
