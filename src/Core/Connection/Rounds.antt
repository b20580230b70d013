-- ===== src/Core/Connection/Rounds.antt =====
-- core/connection.go: the loop ends, within the number of requests that the options allow.
use multi_threaded_web_serve.Core.Connection.{
  Closed, ConnectionOptions, handle_connection, or_default, parse_failed, rounds, serve,
  should_keep_alive, with_defaults, answer_error, finish,
}
use multi_threaded_web_serve.Core.Metrics.{
  Metrics, inc_request, inc_active_connection, inc_parse_reject,
}
use multi_threaded_web_serve.Core.Response.{Net, ResponseWriter, status_bad_request}
use multi_threaded_web_serve.Core.Router.{Router}
use multi_threaded_web_serve.Go.Reader.{Reader}
use multi_threaded_web_serve.Http.Action.{ParseError, blocked, is_eof}
use multi_threaded_web_serve.Http.Parser.{Request, parse}
use multi_threaded_web_serve.Waf.Automaton.{Automaton}
use multi_threaded_web_serve.Base.{
  ℕ, zero, suc, ◌+◌, ◌-◌, ◌≤◌, ◌<◌, Bool, codes, not, true, false, ◌≡◌, refl, subst, sym, ◌∙◌,
  Option, none, some, ℤ, pos, negsuc, if◌then◌else◌, magnitude, ltb, ◌&&◌, arith, inl, inr,
  Result-cases,
}

should_keep_alive-remaining :
    (req : Request) (disabled : Bool) (n : ℕ) → should_keep_alive req disabled n ≡ true → 0 < n
unfolding should_keep_alive
should_keep_alive-remaining req true n h = ground arith
should_keep_alive-remaining req false n h = ground arith

chosen :
    {A : Type 0}
    → (P : A → Type 0) (b : Bool) {x y : A} → (b ≡ true → P x)
    → P y
    → P (if b then x else y)
chosen P true p q = p refl
chosen P false p q = q

abbrev second : {A : Type 0} → A × Bool → Bool
second x = x.1

keeps_nothing :
    {A : Type 0}
    → (b : Bool) (x y : A × Bool) → x.1 ≡ false
    → y.1 ≡ false
    → second (if b then x else y) ≡ false
keeps_nothing true x y h k = h
keeps_nothing false x y h k = k

branch : {A : Type 0} → (P : A → Type 0) (b : Bool) {x y : A} → P x → P y → P (if b then x else y)
branch P true p q = p
branch P false p q = q

finish-keeps :
    {C : Type 0}
    → (net : Net C) (waf : Option Automaton) (o : ConnectionOptions) (since : C → ℤ)
    → (w : ResponseWriter C) (keep_alive : Bool) → (finish net waf o since w keep_alive).1 ≡ true
    → keep_alive ≡ true
unfolding finish
finish-keeps net waf o since w true h = refl
finish-keeps net waf o since w false h = sym (keeps_nothing w.wrote _ _ refl refl) ∙ h

-- The loop has ended, with at most `n` requests served.
abbrev pub Ends : {C : Type 0} → ℕ → Option (Closed C) → Type 0
Ends n o = (c : Closed _) × (o ≡ some c) × (c.served ≤ n)

module _ {C : Type 0} (net : Net C) (waf : Option Automaton) (o : ConnectionOptions)
    (since : C → ℤ) where
  pub serve-remaining :
      (router : Router C) (req : Request) (served : ℕ) (conn : C) (m : Metrics)
      → (serve net waf o since router req served conn m).1 ≡ true
      → suc served < magnitude o.max_requests_per_connection
  unfolding serve
  serve-remaining router req served conn m h =
      let remaining = magnitude o.max_requests_per_connection - served - 1 in
      let keep = should_keep_alive req o.disable_keep_alive remaining in
      omega (
        arith,
        should_keep_alive-remaining req o.disable_keep_alive remaining
            (finish-keeps net waf o since _ keep h),
      )

  parse_failed-served :
      (e : ParseError) (served : ℕ) (conn : C) (m : Metrics)
      → (parse_failed net waf o since e served conn m).served ≤ served
  unfolding parse_failed answer_error
  parse_failed-served (blocked k) served conn m = omega arith
  parse_failed-served e served conn m =
      let same : served ≤ served = omega arith in
      branch (λ (c : Closed C). c.served ≤ served) (is_eof e && ltb 0 served)
        {x = record { conn = conn; metrics = m; served = served }}
        {y = answer_error net waf o since (codes "HTTP/1.1") status_bad_request served conn
          (inc_parse_reject m)}
        same same

  -- With fuel for the requests left the loop ends, and it has not served more than those.
  rounds-Ends :
      (router : Router C) (fuel served : ℕ) (r : Reader) (conn : C) (m : Metrics)
      → magnitude o.max_requests_per_connection ≤ served + fuel
      → 0 < fuel
      → Ends (served + fuel) (rounds net waf o since fuel (some router) served r conn m)
  unfolding rounds
  rounds-Ends router zero served r conn m h p = absurd (omega arith)
  rounds-Ends router (suc fuel) served r conn m h p =
      let here : served ≤ served + suc fuel = omega arith in
      elim (Result-cases (parse waf (some r))) [
        | inl (e, k) ↦
            let (conn', set) =
              net.set_read_deadline (if ltb 0 served then o.idle_timeout else o.read_timeout)
                conn in
            let failed : (parse_failed net waf o since e served conn' m).served
                ≤ served + suc fuel =
              omega (arith, parse_failed-served e served conn' m) in
            rw (rounds, k)
              (branch (Ends (served + suc fuel)) (not set) (_, refl, here) (_, refl, failed))
        | inr ((req, r'), k) ↦
            let (conn', set) =
              net.set_read_deadline (if ltb 0 served then o.idle_timeout else o.read_timeout)
                conn in
            let (w, keep_alive) = serve net waf o since router req served conn' (inc_request m) in
            let next : suc served ≤ served + suc fuel = omega arith in
            rw (rounds, k)
              (branch (Ends (served + suc fuel)) (not set) (_, refl, here)
                (chosen (Ends (served + suc fuel)) keep_alive
                  {x = rounds net waf o since fuel (some router) (suc served) r' w.conn w.metrics}
                  (λ keeps.
                    let left = serve-remaining router req served conn' (inc_request m) keeps in
                    let moved : suc served + fuel ≡ served + suc fuel = omega arith in
                    subst
                      (λ n. Ends n (
                        rounds net waf o since fuel (some router) (suc served) r' w.conn w.metrics))
                      moved
                      (rounds-Ends router fuel (suc served) r' w.conn w.metrics (omega arith)
                        (omega arith)))
                  (_, refl, next)))
      ]

  -- Without a router the loop ends in its first round.
  rounds-Ends-none :
      (fuel : ℕ) (r : Reader) (conn : C) (m : Metrics)
      → 0 < fuel
      → Ends fuel (rounds net waf o since fuel none 0 r conn m)
  unfolding rounds
  rounds-Ends-none zero r conn m h = absurd (omega arith)
  rounds-Ends-none (suc fuel) r conn m h =
      let here : 0 ≤ suc fuel = omega arith in
      elim (Result-cases (parse waf (some r))) [
        | inl (e, k) ↦
            let (conn', set) = net.set_read_deadline o.read_timeout conn in
            let failed : (parse_failed net waf o since e 0 conn' m).served ≤ suc fuel =
              omega (arith, parse_failed-served e 0 conn' m) in
            rw (rounds, k) (branch (Ends (suc fuel)) (not set) (_, refl, here) (_, refl, failed))
        | inr ((req, r'), k) ↦
            let (conn', set) = net.set_read_deadline o.read_timeout conn in
            rw (rounds, k) (branch (Ends (suc fuel)) (not set) (_, refl, here) (_, refl, here))
      ]

pub or_default-positive : (n : ℤ) (d : ℕ) → 0 < d → 0 < magnitude (or_default n d)
or_default-positive (pos zero) d h = h
or_default-positive (pos (suc n)) d h = omega arith
or_default-positive (negsuc n) d h = h

-- The loop of a connection always ends, whatever is delivered, however the writes fare and
-- whatever the handlers do: it has served at most as many requests as the options allow, or 100 if
-- they give no positive number.
pub handle_connection-Ends :
    {C : Type 0}
    → (net : Net C) (waf : Option Automaton) (since : C → ℤ) (o : ConnectionOptions)
    → (router : Option (Router C)) (r : Reader) (conn : C) (m : Metrics)
    → Ends
        (magnitude (or_default o.max_requests_per_connection 100))
        (handle_connection net waf since o router r conn m)
unfolding handle_connection with_defaults
handle_connection-Ends net waf since o none r conn m =
    let n = magnitude (or_default o.max_requests_per_connection 100) in
    let (c, ends, bound) =
      rounds-Ends-none net waf (with_defaults o) since n r conn (inc_active_connection m)
        (or_default-positive o.max_requests_per_connection 100 (omega arith)) in
    rw (handle_connection, ends) (_, refl, bound)
handle_connection-Ends net waf since o (some router) r conn m =
    let n = magnitude (or_default o.max_requests_per_connection 100) in
    let (c, ends, bound) =
      rounds-Ends net waf (with_defaults o) since router n 0 r conn (inc_active_connection m)
        (omega arith) (or_default-positive o.max_requests_per_connection 100 (omega arith)) in
    let served : c.served ≤ n = omega (arith, bound) in
    rw (handle_connection, ends) (_, refl, served)
