-- ===== src/Http/Framing.antt =====
-- http/parser.go: the checks of `parseRequest` on the headers, and the framing that they choose.
use multi_threaded_web_serve.Go.Reader.{Reader}
use multi_threaded_web_serve.Go.Strings.{
  atoi_digits, contains_any, decimal_value, max_int, trim_space,
}
use multi_threaded_web_serve.Http.Action.{
  bind_ok, body_too_large, invalid_content_length, invalid_host, missing_host, pure,
  reject_if-eq-ok, reject_if_last,
}
use multi_threaded_web_serve.Http.Body.{read_body}
use multi_threaded_web_serve.Http.Chars.{
  is_chunked_transfer_encoding, is_decimal, max_body_bytes, max_trailer_count,
}
use multi_threaded_web_serve.Http.Chunks.{read_chunked_body_sound}
use multi_threaded_web_serve.Http.Fields.{AreFields, IsTrailer, not-not, no_fields}
use multi_threaded_web_serve.Http.Inspection.{inspect_body, read_body_sound}
use multi_threaded_web_serve.Http.Parser.{
  announced_length, check_host, check_transfer_encoding, content_length, encoding_check, host_check,
  length_check, read_framed,
}
use multi_threaded_web_serve.Http.Read.{Headers}
use multi_threaded_web_serve.Waf.Automaton.{Automaton}
use multi_threaded_web_serve.Waf.Scanner.{clean}
use multi_threaded_web_serve.Base.{
  ℕ, ◌≤◌, ◌<◌, Bool, true, false, not, ◌≡◌, refl, sym, ◌⊎◌, inl, inr, Option, none, some, arith,
  leb, ltb, ltb→le, Bool-cases, Bytes, codes, is_empty, length, lookup, ok, ok_injective, err-ne-ok,
  [],
}

abbrev pub transfer_encoding : Headers → Option Bytes
transfer_encoding = lookup (codes "Transfer-Encoding")

abbrev pub announced : Headers → Option Bytes
announced = lookup (codes "Content-Length")

-- The headers allow one reading of the body only: a transfer coding that is "chunked" and no
-- length, or no coding.
abbrev pub OneFraming : Headers → Type 0
OneFraming headers =
    (transfer_encoding headers ≡ none)
    ⊎ ((coding : Bytes) × (transfer_encoding headers ≡ some coding)
        × (is_chunked_transfer_encoding coding ≡ true)
        × (announced headers ≡ none))

encoding_check_sound :
    (headers : Headers) (te cl : Option Bytes) (r q : Reader)
    → transfer_encoding headers ≡ te
    → announced headers ≡ cl
    → encoding_check te cl r ≡ ok (tt, q)
    → OneFraming headers × (r ≡ q)
unfolding encoding_check
encoding_check_sound headers none cl r q e e' h = (inl e, (ok_injective h).1)
encoding_check_sound headers (some coding) (some n) r q e e' h = absurd (cc)
encoding_check_sound headers (some coding) none r q e e' h =
    let (chunked, same) = reject_if_last (not (is_chunked_transfer_encoding coding)) _ r h in
    (inr (coding, e, not-not _ chunked, e'), same)

pub check_transfer_encoding_sound :
    (headers : Headers) (r q : Reader)
    → check_transfer_encoding headers r ≡ ok (tt, q)
    → OneFraming headers × (r ≡ q)
unfolding check_transfer_encoding
check_transfer_encoding_sound headers r q h =
    encoding_check_sound headers (transfer_encoding headers) (announced headers) r q refl refl h

-- There is a host that is not blank, and that has no white space in it.
abbrev pub HasHost : Option Bytes → Type 0
HasHost none = ⊥
HasHost (some host) =
    (is_empty (trim_space host) ≡ false) × (contains_any host (codes " \t\r\n") ≡ false)

host_check_sound :
    (host : Option Bytes) (r q : Reader) → host_check host r ≡ ok (tt, q) → HasHost host × (r ≡ q)
unfolding host_check
host_check_sound none r q h = absurd (cc)
host_check_sound (some host) r q h =
    let (there, h') = reject_if-eq-ok (is_empty (trim_space host)) missing_host _ r h in
    let (plain, same) = reject_if_last (contains_any host (codes " \t\r\n")) invalid_host r h' in
    ((there, plain), same)

pub check_host_sound :
    (headers : Headers) (r q : Reader)
    → check_host headers r ≡ ok (tt, q)
    → HasHost (lookup (codes "Host") headers) × (r ≡ q)
unfolding check_host
check_host_sound headers r q h = host_check_sound (lookup (codes "Host") headers) r q h

-- `n` is the length announced: the number of a string of decimal digits, 0 where there is none.
abbrev pub Announces : Option Bytes → ℕ → Type 0
Announces none n = n ≡ 0
Announces (some cl) n = (is_decimal cl ≡ true) × (n ≡ decimal_value 0 cl)

length_check_sound :
    (cl : Bytes) (r q : Reader) (n : ℕ)
    → length_check cl (atoi_digits cl) r ≡ ok (n, q)
    → (n ≡ decimal_value 0 cl) × (n ≤ max_body_bytes) × (r ≡ q)
unfolding atoi_digits length_check
length_check_sound cl r q n h = elim (Bool-cases (leb (decimal_value 0 cl) max_int)) [
  | inl e ↦
      let (small, h') =
        reject_if-eq-ok (ltb max_body_bytes (decimal_value 0 cl)) body_too_large
          (pure (decimal_value 0 cl)) r (rw e at h) in
      let (n_is, same) = ok_injective h' in (sym n_is, rw (← n_is) (ltb→le _ _ small), same)
  | inr e ↦ absurd (err-ne-ok (rw e at h))
]

announced_length_sound :
    (cl : Option Bytes) (r q : Reader) (n : ℕ)
    → announced_length cl r ≡ ok (n, q)
    → Announces cl n × (n ≤ max_body_bytes) × (r ≡ q)
unfolding announced_length
announced_length_sound none r q n h =
    let (n_is, same) = ok_injective h in (sym n_is, rw (← n_is) (omega arith), same)
announced_length_sound (some cl) r q n h =
    let (digits, h') = reject_if-eq-ok (not (is_decimal cl)) (invalid_content_length cl) _ r h in
    let (value, small, same) = length_check_sound cl r q n h' in
    ((not-not _ digits, value), small, same)

pub content_length_sound :
    (headers : Headers) (r q : Reader) (n : ℕ)
    → content_length headers r ≡ ok (n, q)
    → Announces (announced headers) n × (n ≤ max_body_bytes) × (r ≡ q)
unfolding content_length
content_length_sound headers r q n h = announced_length_sound (announced headers) r q n h

-- What either framing gives.
pub record IsBody (a : Option Automaton) (body : Bytes) (trailers : Headers) : Type 0 where
  pub small : length body ≤ max_body_bytes
  pub inspected : inspect_body a body ≡ clean
  pub are_trailers : AreFields (IsTrailer a) trailers
  pub few_trailers : length trailers < max_trailer_count

pub read_framed_sound :
    (a : Option Automaton) (chunked : Bool) (n : ℕ) (r q : Reader) (body : Bytes)
    (trailers : Headers)
    → n ≤ max_body_bytes
    → read_framed a chunked n r ≡ ok ((body, trailers), q)
    → IsBody a body trailers × (chunked ≡ false → length body ≡ n)
unfolding read_framed
read_framed_sound a true n r q body trailers l h =
    let (small, inspected, ts, few) = read_chunked_body_sound a r q body trailers h in
    (
      record { small = small; inspected = inspected; are_trailers = ts; few_trailers = few },
      λ e. absurd (cc),
    )
read_framed_sound a false n r q body trailers l h = bind_ok (read_body a n) _ r h λ got p e k.
    let (_, is_long, inspected, _) = read_body_sound a n r p got e in
    let got_is : got ≡ body = cc in
    let ts_is : [] ≡ trailers = cc in
    (
      rw (← got_is, ← ts_is)
          (record {
            small = omega (arith, is_long, l);
            inspected = inspected;
            are_trailers = no_fields (IsTrailer a);
            few_trailers = omega arith;
          }),
      λ _. rw (← got_is) is_long,
    )
