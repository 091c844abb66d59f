-- ===== src/Ai/Boundary.antt =====
-- src/ai/boundary: what may not be sent to a model (find-boundary-refusal.ts). A request is here the
-- list of its own keys and values, `Object.entries(request)`, which may hold more than its type
-- allows. The tests of keys and texts that are regular expressions are parameters.
use dhund_research_ai.Base.{
  Bool, true, false, not, ◌&&◌, ◌||◌, String, Option, none, some, List, [], ◌∷◌, str_eq, any,
  if◌then◌else◌,
}
use dhund_research_ai.Ai.Requests.{AiCapability, ocr}

pub data Value : Type 0 where
  -- A string, a buffer of bytes, and anything else.
  string : String → Value
  bytes : Value
  other : Value

pub data BoundaryRefusalReason : Type 0 where
  declared_clinical object_storage_bytes_not_ocr presigned_url_not_ocr : BoundaryRefusalReason

-- The regular expressions: `key.replace(/_/g, '').toLowerCase()`, and the four tests of a trimmed
-- text.
pub record Patterns : Type 0 where
  pub normalize : String → String
  pub is_http : String → Bool
  pub has_amz_signature : String → Bool
  pub has_signature : String → Bool
  pub has_expires : String → Bool

-- `keys.has(key)`.
unfoldable pub has : List String → String → Bool
has keys key = any (str_eq key) keys

abbrev pub url_key_names : List String
url_key_names =
    "presignedurl" ∷ "signedurl" ∷ "presignedgeturl" ∷ "presignedputurl" ∷ "geturl" ∷ "puturl" ∷ []

abbrev pub byte_key_names : List String
byte_key_names = "bytes" ∷ "buffer" ∷ "objectbytes" ∷ "bytecontent" ∷ "filebytes" ∷ []

abbrev pub known_text_keys : List String
known_text_keys =
    "capability" ∷ "userMessage" ∷ "documentContent" ∷ "systemInstructions" ∷ "texts" ∷ "inputType"
    ∷ "expectedDimensions" ∷ "query" ∷ "candidates" ∷ "prefix" ∷ "columnKey" ∷ "criteria" ∷ "claim"
    ∷ "evidenceSummaries" ∷ "objectKey" ∷ "locatorCatalog" ∷ []

unfoldable pub is_byte_payload : Value → Bool
is_byte_payload bytes = true
is_byte_payload _ = false

unfoldable pub is_ocr : AiCapability → Bool
is_ocr ocr = true
is_ocr _ = false

module _ (re : Patterns) where
  unfoldable pub looks_like_presigned_or_http_url : String → Bool
  looks_like_presigned_or_http_url text =
      re.is_http text || re.has_amz_signature text || (re.has_signature text && re.has_expires text)

  -- `typeof value === 'string' && looksLikePresignedOrHttpUrl(value)`.
  unfoldable pub is_url : Value → Bool
  unfolding looks_like_presigned_or_http_url
  is_url (string text) = looks_like_presigned_or_http_url text
  is_url _ = false

  -- One round of the loop.
  unfoldable pub refusal_of_entry : AiCapability → String → Value → Option BoundaryRefusalReason
  unfolding has is_byte_payload is_ocr is_url
  refusal_of_entry capability key value =
      if has url_key_names (re.normalize key)
      then some presigned_url_not_ocr
      else if has byte_key_names (re.normalize key) || is_byte_payload value
      then some object_storage_bytes_not_ocr
      else if str_eq key "objectKey" && is_url value
      then some presigned_url_not_ocr
      else if str_eq key "objectKey" && not (is_ocr capability)
      then some object_storage_bytes_not_ocr
      else if not (has known_text_keys key) && is_url value
      then some presigned_url_not_ocr
      else none

  unfoldable pub find_object_storage_refusal :
      AiCapability → List (String × Value) → Option BoundaryRefusalReason
  unfolding refusal_of_entry
  find_object_storage_refusal capability [] = none
  find_object_storage_refusal capability ((key, value) ∷ entries) =
      let rest = find_object_storage_refusal capability entries in
      elim (refusal_of_entry capability key value) [ some reason ↦ some reason | none ↦ rest ]

  unfoldable pub find_boundary_refusal :
      Bool → AiCapability → List (String × Value) → Option BoundaryRefusalReason
  unfolding find_object_storage_refusal
  find_boundary_refusal clinical capability entries =
      if clinical then some declared_clinical else find_object_storage_refusal capability entries
