-- ===== src/Lab/Requests.antt =====
-- cmd/lab/main.go: one payload sent to a server, and how the answers of two servers differ.
use multi_threaded_web_serve.Go.Reader.{ReadError, Reader, content}
use multi_threaded_web_serve.Go.Replacing.{split_n}
use multi_threaded_web_serve.Go.Strings.{trim_space}
use multi_threaded_web_serve.Lab.Fixtures.{PayloadCase, PayloadFiles, load_payloads}
use multi_threaded_web_serve.Core.Response.{signed_decimal}
use multi_threaded_web_serve.Base.{
  Bool, true, false, not, ◌&&◌, List, [], ◌∷◌, ◌++◌, Option, none, some, Bytes, Result, ok, err,
  codes, is_empty, ◌==◌, if◌then◌else◌, ℤ, pos, negsuc, map,
}

-- `Err` is nil where there is no error; an error is its text.
pub record RawResult : Type 0 where
  pub status_code : ℤ
  pub status_line : Bytes
  pub error : Option Bytes

-- What the network does with one request: an error in dialing, in the deadline or in the write, or the
-- connection to read from. `scan_int` is `fmt.Sscanf` with "%d", and `error_text` the text of a read's error.
pub record Exchange : Type 0 where
  pub send : Bytes → Bytes → Result Bytes Reader
  pub error_text : ReadError → Bytes
  pub scan_int : Bytes → Option ℤ

-- `ReadString('\n')`: the bytes up to a line feed, or none where there is no such byte.
unfoldable pub line_of : Bytes → Option Bytes
line_of [] = none
line_of (b ∷ s) =
    let rest = line_of s in
    if b == b'\n' then some (b ∷ []) else elim rest [ none ↦ none | some t ↦ some (b ∷ t) ]

abbrev pub failed_with : Bytes → RawResult
failed_with e = record { status_code = pos 0; status_line = []; error = some e }

abbrev pub with_code : Bytes → Option ℤ → RawResult
with_code line none = record { status_code = pos 0; status_line = line; error = none }
with_code line (some code) = record { status_code = code; status_line = line; error = none }

-- The second of the parts, if there is one.
abbrev pub second_part : List Bytes → Option Bytes
second_part [] = none
second_part (a ∷ []) = none
second_part (a ∷ b ∷ parts) = some b

module _ (x : Exchange) where
  unfoldable pub of_status_line : Bytes → RawResult
  unfolding split_n
  of_status_line line = elim (second_part (split_n 3 b' ' line)) [
    | none ↦ with_code line none
    | some part ↦ with_code line (x.scan_int part)
  ]

  abbrev pub of_line : ReadError → Option Bytes → RawResult
  unfolding of_status_line trim_space
  of_line fault none = failed_with (x.error_text fault)
  of_line fault (some line) = of_status_line (trim_space line)

  unfoldable pub execute_raw_request : Bytes → Bytes → RawResult
  unfolding line_of of_status_line trim_space content
  execute_raw_request addr request = elim (x.send addr request) [
    | err e ↦ failed_with e
    | ok r ↦ of_line r.fault (line_of (content r.pieces))
  ]

unfoldable pub summary : RawResult → Bytes
unfolding signed_decimal
summary r = elim r.error [
  | some e ↦ codes "error:" ++ e
  | none ↦
      if is_empty r.status_line
      then codes "no-response"
      else signed_decimal r.status_code ++ codes " " ++ r.status_line
]

pub record RawResultJson : Type 0 where
  pub status_code : ℤ
  pub status_line : Bytes
  pub error : Bytes

unfoldable pub to_serializable : RawResult → RawResultJson
to_serializable r = record {
  status_code = r.status_code;
  status_line = r.status_line;
  error = elim r.error [ none ↦ [] | some e ↦ e ];
}

abbrev pub is_error : RawResult → Bool
is_error r = elim r.error [ none ↦ false | some e ↦ true ]

unfoldable pub same_code : ℤ → ℤ → Bool
same_code (pos a) (pos b) = a == b
same_code (negsuc a) (negsuc b) = a == b
same_code (pos a) (negsuc b) = false
same_code (negsuc a) (pos b) = false

-- `!=` of two truth values.
abbrev pub differ : Bool → Bool → Bool
differ a b = if a then not b else b

unfoldable pub classify_difference : RawResult → RawResult → Bytes
unfolding same_code
classify_difference left right =
    if is_error left && is_error right
    then codes "unavailable"
    else if differ (is_error left) (is_error right)
    then codes "infra-gap"
    else if not (same_code left.status_code right.status_code)
    then codes "yes"
    else codes "no"

pub record CompareEntry : Type 0 where
  pub payload : Bytes
  pub mtws : RawResultJson
  pub proxy : RawResultJson
  pub divergence : Bytes

-- The loop of `runCompare` on one payload, as it is reported.
unfoldable pub compare_payload : Exchange → Bytes → Bytes → PayloadCase → CompareEntry
unfolding execute_raw_request classify_difference to_serializable
compare_payload x mtws_addr proxy_addr payload =
    let mtws_result = execute_raw_request x mtws_addr payload.body in
    let proxy_result = execute_raw_request x proxy_addr payload.body in
    record {
      payload = payload.name;
      mtws = to_serializable mtws_result;
      proxy = to_serializable proxy_result;
      divergence = classify_difference mtws_result proxy_result;
    }

-- `runCompare` from the payloads to the results of its report; printing is left out.
unfoldable pub compare_results :
    {E : Type 0} → PayloadFiles E → Exchange → Bytes → Bytes → Bytes → Result E (List CompareEntry)
unfolding load_payloads compare_payload
compare_results files x dir mtws_addr proxy_addr = elim (load_payloads files dir) [
  | err e ↦ err e
  | ok payloads ↦ ok (map (compare_payload x mtws_addr proxy_addr) payloads)
]
