-- ===== src/Core/Response/Once.antt =====
-- core/response.go: what any sequence of writes to one writer records.
use mathlib.Core.Bool.{false≢true}
use multi_threaded_web_serve.Core.Metrics.{record_response}
use multi_threaded_web_serve.Core.Response.{
  Net, ResponseWriter, StatusCode, after_send, deadline, header, send_response, write, write_bytes,
  write_text,
}
use multi_threaded_web_serve.Base.{
  ℕ, Option, none, some, Bool, true, false, Bytes, ◌≡◌, refl, subst, codes, is_empty, ◌++◌, ◌∙◌,
  sym, ap, ◌⊎◌, inl, inr, if◌then◌else◌, Bool-cases,
}

-- One writer after another: any texts and bytes written to the first give the second.
pub data Writes {C : Type 0} (net : Net C) : ResponseWriter C → ResponseWriter C → Type 0 where
  rest : {w : ResponseWriter C} → Writes net w w
  text :
      {w w' : ResponseWriter C}
      → (status : StatusCode) (body : Bytes) → Writes net (write_text net status body w).0 w'
      → Writes net w w'
  bytes :
      {w w' : ResponseWriter C}
      → (status : StatusCode) (content_type body : Bytes)
      → Writes net (write_bytes net status content_type body w).0 w'
      → Writes net w w'

-- Nothing was recorded, or one response was: the one whose status the writer gives.
abbrev pub AtMostOne : {C : Type 0} → ResponseWriter C → ResponseWriter C → Type 0
AtMostOne w w' =
    ((w'.wrote ≡ false) × (w'.metrics ≡ w.metrics))
    ⊎ ((w'.wrote ≡ true) × (w'.metrics ≡ record_response w'.status_code w.metrics))

if-holds :
    {A : Type 0} → (P : A → Type 0) (b : Bool) (x y : A) → b ≡ true → P x → P (if b then x else y)
if-holds P true x y h p = p
if-holds P false x y h p = absurd (false≢true h)

if-fails :
    {A : Type 0} → (P : A → Type 0) (b : Bool) (x y : A) → b ≡ false → P y → P (if b then x else y)
if-fails P true x y h p = absurd (false≢true (sym h))
if-fails P false x y h p = p

module _ {C : Type 0} (net : Net C) (status : StatusCode) (content_type body : Bytes) where
  write-wrote :
      (w : ResponseWriter C) → w.wrote ≡ true → (write net status content_type body w).0 ≡ w
  unfolding write
  write-wrote w h = if-holds (λ (x : ResponseWriter C × Bool). x.0 ≡ w) w.wrote _ _ h refl

  after_send-AtMostOne :
      (w : ResponseWriter C) (conn : C) (sent : Option ℕ)
      → w.wrote ≡ false
      → AtMostOne w (after_send net status w conn sent).0
  unfolding after_send
  after_send-AtMostOne w conn none h = inl (h, refl)
  after_send-AtMostOne w conn (some n) h = inr (refl, refl)

  send_response-AtMostOne :
      (w : ResponseWriter C)
      → w.wrote ≡ false
      → AtMostOne w (send_response net status content_type w body).0
  unfolding send_response
  send_response-AtMostOne w h =
      let (conn, sent) = net.send (header net w status content_type body ++ body) w.conn in
      after_send-AtMostOne w conn sent h

  write-AtMostOne :
      (w : ResponseWriter C)
      → w.wrote ≡ false
      → AtMostOne w (write net status content_type body w).0
  unfolding write
  write-AtMostOne w h =
      let at = record w { conn = (deadline net w).0 } in
      if-fails (λ (x : ResponseWriter C × Bool). AtMostOne w x.0) w.wrote _ _ h
        (elim (Bool-cases (deadline net w).1) [
          | inl y ↦
              if-holds (λ (x : ResponseWriter C × Bool). AtMostOne w x.0) (deadline net w).1 _ _ y
                (send_response-AtMostOne at h)
          | inr n ↦
              if-fails (λ (x : ResponseWriter C × Bool). AtMostOne w x.0) (deadline net w).1 _ _ n
                (inl (h, refl))
        ])

write_text-wrote :
    {C : Type 0}
    → (net : Net C) (status : StatusCode) (body : Bytes) (w : ResponseWriter C) → w.wrote ≡ true
    → (write_text net status body w).0 ≡ w
unfolding write_text
write_text-wrote net status body w h =
    write-wrote net status (codes "text/plain; charset=utf-8")
      (if is_empty body then status.body else body) w h

pub write_text-AtMostOne :
    {C : Type 0}
    → (net : Net C) (status : StatusCode) (body : Bytes) (w : ResponseWriter C) → w.wrote ≡ false
    → AtMostOne w (write_text net status body w).0
unfolding write_text
write_text-AtMostOne net status body w h =
    write-AtMostOne net status (codes "text/plain; charset=utf-8")
      (if is_empty body then status.body else body) w h

module _ {C : Type 0} (net : Net C) (status : StatusCode) (content_type body : Bytes) where
  write_bytes-wrote :
      (w : ResponseWriter C) → w.wrote ≡ true → (write_bytes net status content_type body w).0 ≡ w
  unfolding write_bytes
  write_bytes-wrote w h =
      write-wrote net status
        (if is_empty content_type then codes "application/octet-stream" else content_type) body w h

  write_bytes-AtMostOne :
      (w : ResponseWriter C)
      → w.wrote ≡ false
      → AtMostOne w (write_bytes net status content_type body w).0
  unfolding write_bytes
  write_bytes-AtMostOne w h =
      write-AtMostOne net status
        (if is_empty content_type then codes "application/octet-stream" else content_type) body w h

after-one :
    {C : Type 0} {net : Net C} {w w' : ResponseWriter C} → Writes net w w' → w.wrote ≡ true → w' ≡ w
after-one rest h = refl
after-one {net} {w} {w'} (text status body ws) h =
    let same = write_text-wrote net status body w h in
    after-one ws (ap (λ (v : ResponseWriter _). v.wrote) same ∙ h) ∙ same
after-one {net} {w} {w'} (bytes status content_type body ws) h =
    let same = write_bytes-wrote net status content_type body w h in
    after-one ws (ap (λ (v : ResponseWriter _). v.wrote) same ∙ h) ∙ same

AtMostOne-then :
    {C : Type 0}
    → (w v w' : ResponseWriter C) → AtMostOne w v
    → (v.wrote ≡ false → AtMostOne v w')
    → (v.wrote ≡ true → w' ≡ v)
    → AtMostOne w w'
AtMostOne-then w v w' (inl (a, b)) none_yet done = elim (none_yet a) [
  | inl (c, d) ↦ inl (c, d ∙ b)
  | inr (c, d) ↦ inr (c, d ∙ ap (record_response w'.status_code) b)
]
AtMostOne-then w v w' (inr (a, b)) none_yet done =
    subst (λ u. AtMostOne w u) (sym (done a)) (inr (a, b))

-- Whatever texts and bytes a handler writes to a fresh writer, at most one response is recorded in
-- the metrics: none if the writer still says that nothing was written, and otherwise one with the
-- status that it reports.
pub Writes-AtMostOne :
    {C : Type 0} {net : Net C} {w w' : ResponseWriter C}
    → Writes net w w'
    → w.wrote ≡ false
    → AtMostOne w w'
Writes-AtMostOne rest h = inl (h, refl)
Writes-AtMostOne {net} {w} {w'} (text status body ws) h =
    AtMostOne-then w (write_text net status body w).0 w' (write_text-AtMostOne net status body w h)
      (λ k. Writes-AtMostOne ws k) (λ k. after-one ws k)
Writes-AtMostOne {net} {w} {w'} (bytes status content_type body ws) h =
    AtMostOne-then w (write_bytes net status content_type body w).0 w'
      (write_bytes-AtMostOne net status content_type body w h) (λ k. Writes-AtMostOne ws k)
      (λ k. after-one ws k)
