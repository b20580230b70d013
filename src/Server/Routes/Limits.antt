-- ===== src/Server/Routes/Limits.antt =====
-- cmd/server/main.go: how many log entries a request can ask for.
use multi_threaded_web_serve.Go.Strings.{atoi, cut, trim_space}
use multi_threaded_web_serve.Go.Url.{parse_query}
use multi_threaded_web_serve.Server.Routes.{
  bounded, given, limit_of_text, limit_of_values, log_limit,
}
use multi_threaded_web_serve.Base.{
  ℕ, zero, suc, ◌≤◌, List, ◌≡◌, refl, ◌⊎◌, inl, inr, Option, none, some, Bytes, Bool-cases, arith,
  codes, is_empty, lookup, ltb, ltb→le, ℤ, pos, negsuc,
}

-- The fallback, or a number from 1 to 200.
abbrev pub IsLimit : ℤ → ℤ → Type 0
IsLimit fallback n = (n ≡ fallback) ⊎ ((k : ℕ) × (n ≡ pos (suc k)) × (suc k ≤ 200))

bounded-IsLimit : (fallback : ℤ) (n : Option ℤ) → IsLimit fallback (bounded fallback n)
bounded-IsLimit fallback none = inl refl
bounded-IsLimit fallback (some (negsuc n)) = inl refl
bounded-IsLimit fallback (some (pos zero)) = inl refl
bounded-IsLimit fallback (some (pos (suc n))) = elim (Bool-cases (ltb 200 (suc n))) [
  | inl y ↦ rw y (inr (199, refl, omega arith))
  | inr m ↦ rw m (inr (n, refl, ltb→le 200 (suc n) m))
]

limit_of_text-IsLimit : (fallback : ℤ) (raw : Bytes) → IsLimit fallback (limit_of_text fallback raw)
unfolding limit_of_text
limit_of_text-IsLimit fallback raw = elim (Bool-cases (is_empty raw)) [
  | inl y ↦ rw y (inl refl)
  | inr n ↦ rw n (bounded-IsLimit fallback (atoi raw))
]

limit_of_values-IsLimit :
    (fallback : ℤ) (values : Option (List (Bytes × Bytes)))
    → IsLimit fallback (limit_of_values fallback values)
unfolding limit_of_values
limit_of_values-IsLimit fallback none = inl refl
limit_of_values-IsLimit fallback (some values) =
    limit_of_text-IsLimit fallback (trim_space (given (lookup (codes "limit") values)))

-- Whatever the target of a request, the number of log entries that it asks for is the fallback, or a
-- number from 1 to 200.
pub log_limit-IsLimit : (path : Bytes) (fallback : ℤ) → IsLimit fallback (log_limit path fallback)
unfolding log_limit
log_limit-IsLimit path fallback = elim (Bool-cases (cut b'?' path).2) [
  | inl y ↦ rw y (limit_of_values-IsLimit fallback (parse_query (cut b'?' path).1))
  | inr n ↦ rw n (inl refl)
]
