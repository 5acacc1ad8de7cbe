-- ===== src/Sdk.antt =====
-- src/sdk.rs: the endpoint of the API, and a request sent to it.
use duckdb_coda.Prelude.{
  ℕ, zero, suc, ◌+◌, ◌/◌, ◌%◌, ◌==◌, not, ◌&&◌, Option, none, some, [], ◌∷◌, ◌++◌, is_empty,
  if◌then◌else◌, Result, ok, err,
}
use duckdb_coda.Text.{Text, codes}
use duckdb_coda.Abi.{RustExtClientConfig}
use duckdb_coda.Platform.{Platform, SdkRequest, HttpRequest, HttpResponse}

-- `base.trim_end_matches('/')`
unfoldable pub normalize_api_base : Text → Text
normalize_api_base [] = []
normalize_api_base (c ∷ base) =
    let rest = normalize_api_base base in if is_empty rest && (c == b'/') then [] else c ∷ rest

-- A number in decimal digits, before `acc`; the fuel bounds the digits.
unfoldable pub digits_before : ℕ → ℕ → Text → Text
digits_before zero n acc = acc
digits_before (suc fuel) n acc =
    let acc' = (b'0' + n % 10) ∷ acc in
    let rest = digits_before fuel (n / 10) acc' in if n / 10 == 0 then acc' else rest

unfoldable pub decimal : ℕ → Text
decimal n = digits_before (suc n) n []

-- `non_empty_string`
unfoldable pub non_empty_string : Text → Option Text
non_empty_string value = if is_empty value then none else some value

module _ {Double : Type 0} (platform : Platform Double) where
  open platform use {World, http, default_base_url}

  unfoldable pub endpoint : RustExtClientConfig → Text
  endpoint config =
      normalize_api_base (if is_empty config.endpoint then default_base_url else config.endpoint)

  abbrev pub http_request : RustExtClientConfig → SdkRequest → HttpRequest
  http_request config sdk_request = record {
    method = sdk_request.method;
    url = sdk_request.url;
    authorization = codes "Bearer " ++ config.credential;
    content_type = codes "application/json";
    body = sdk_request.body;
  }

  -- What `send_request` makes of the answer.
  unfoldable pub read_response : SdkRequest → Result Text HttpResponse → Result Text Text
  read_response sdk_request (err message) = err message
  read_response sdk_request (ok response) =
      if not (response.status == sdk_request.expected_status)
      then err (
          sdk_request.operation
          ++ (codes " returned HTTP "
              ++ (decimal response.status
                  ++ (codes ", expected " ++ decimal sdk_request.expected_status))))
      else response.into_string

  -- `send_request`
  unfoldable pub send_request : RustExtClientConfig → SdkRequest → World → Result Text Text × World
  send_request config sdk_request w =
      let (answer, w') = http (http_request config sdk_request) w in
      (read_response sdk_request answer, w')
