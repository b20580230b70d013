-- ===== src/Core/LogSink/History.antt =====
-- core/logsink.go against the history of all entries.
use multi_threaded_web_serve.Core.LogSink.{
  LogEntry, LogStore, add_entry, new_log_store, shift, snapshot,
}
use native.Mathlib.Nat.{zero-add, suc-add}
use multi_threaded_web_serve.Base.{
  ℕ, zero, suc, ◌+◌, ◌-◌, ◌≤◌, ◌<◌, Bool, List, [], ◌∷◌, ◌++◌, ◌≡◌, refl, sym, ap, ◌∙◌, ◌||◌, true,
  false, if◌then◌else◌, leb→le, leb→lt, ltb→le, append-nil, inl, inr, arith, leb, ltb, Bool-cases,
  length, drop, length-append, append_assoc, ℤ, pos, negsuc, not_positive, magnitude, length-drop,
}

-- The last `n` elements.
abbrev pub last {ℓ} : {A : Type ℓ} → ℕ → List A → List A
last n xs = drop (length xs - n) xs

drop-append {ℓ} :
    {A : Type ℓ} (n : ℕ) (xs ys : List A) → n ≤ length xs → drop n (xs ++ ys) ≡ drop n xs ++ ys
drop-append zero xs ys h = refl
drop-append (suc n) [] ys h = absurd (omega arith)
drop-append (suc n) (x ∷ xs) ys h = drop-append n xs ys (omega arith)

drop-drop {ℓ} : {A : Type ℓ} (n m : ℕ) (xs : List A) → drop n (drop m xs) ≡ drop (m + n) xs
drop-drop n zero xs = rw zero-add
drop-drop zero (suc m) [] = rw suc-add
drop-drop (suc n) (suc m) [] = rw suc-add
drop-drop n (suc m) (x ∷ xs) = rw suc-add (drop-drop n m xs)

drop_zero {ℓ} : {A : Type ℓ} (n : ℕ) (xs : List A) → n ≡ 0 → drop n xs ≡ xs
drop_zero n xs h = rw h

shift-drop : (e : LogEntry) (xs : List LogEntry) → 0 < length xs → shift e xs ≡ drop 1 xs ++ e ∷ []
unfolding shift
shift-drop e [] h = absurd (omega arith)
shift-drop e (x ∷ xs) h = refl

pub add_all : LogStore → List LogEntry → LogStore
add_all s [] = s
add_all s (e ∷ es) = add_all (add_entry s e) es

-- The store holds the last entries of the history `h`.
record Holds (s : LogStore) (h : List LogEntry) : Type 0 where
  entries : s.entries ≡ last s.max h
  bounded : 0 < s.max

last-fits {ℓ} : {A : Type ℓ} (n : ℕ) (xs : List A) → length xs ≤ n → last n xs ≡ xs
last-fits n xs h = drop_zero (length xs - n) xs (omega arith)

-- One more element pushes the first of the last ones out, once there are so many.
last-push {ℓ} :
    {A : Type ℓ} (n : ℕ) (xs : List A) (x : A)
    → 0 < n
    → n ≤ length xs
    → last n (xs ++ x ∷ []) ≡ drop 1 (last n xs) ++ x ∷ []
last-push n xs x p h =
    let more : length (xs ++ x ∷ []) - n ≡ length xs - n + 1 =
      omega (arith, length-append xs (x ∷ [])) in
    rw (more, drop-drop 1 (length xs - n) xs)
      (drop-append (length xs - n + 1) xs (x ∷ []) (omega arith))

length-last {ℓ} : {A : Type ℓ} (n : ℕ) (xs : List A) → n ≤ length xs → length (last n xs) ≡ n
length-last n xs h = length-drop (length xs - n) xs ∙ omega arith

module _ (s : LogStore) (h : List LogEntry) (e : LogEntry) (p : Holds s h) where
  add_entry-full : s.max ≤ length h → (add_entry s e).entries ≡ last s.max (h ++ e ∷ [])
  unfolding add_entry
  add_entry-full l =
      let held = ap length p.entries ∙ length-last s.max h l in
      let full : leb s.max (length s.entries) ≡ true = ground (arith, held) in
      rw full (
        shift-drop e s.entries (omega (arith, held, p.bounded))
        ∙ rw p.entries (sym (last-push s.max h e p.bounded l)))

  add_entry-room : length h < s.max → (add_entry s e).entries ≡ last s.max (h ++ e ∷ [])
  unfolding add_entry
  add_entry-room l =
      let all = p.entries ∙ last-fits s.max h (omega arith) in
      let room : leb s.max (length s.entries) ≡ false = ground (arith, ap length all) in
      rw room
        (rw all (sym (last-fits s.max (h ++ e ∷ []) (omega (arith, length-append h (e ∷ []))))))

add_entry-max : (s : LogStore) (e : LogEntry) → (add_entry s e).max ≡ s.max
unfolding add_entry
add_entry-max s e = ground arith

add_entry-Holds :
    (s : LogStore) (h : List LogEntry) (e : LogEntry)
    → Holds s h
    → Holds (add_entry s e) (h ++ e ∷ [])
add_entry-Holds s h e p = record {
  entries = rw (add_entry-max s e) (elim (Bool-cases (leb s.max (length h))) [
    | inl full ↦ add_entry-full s h e p (leb→le _ _ full)
    | inr room ↦ add_entry-room s h e p (leb→lt _ _ room)
  ]);
  bounded = rw (add_entry-max s e) p.bounded;
}

add_all-Holds :
    (es : List LogEntry) (s : LogStore) (h : List LogEntry)
    → Holds s h
    → Holds (add_all s es) (h ++ es)
unfolding add_all
add_all-Holds [] s h p = rw (append-nil h) p
add_all-Holds (e ∷ es) s h p =
    rw (append_assoc h (e ∷ []) es) at
      (add_all-Holds es (add_entry s e) (h ++ e ∷ []) (add_entry-Holds s h e p))

add_all-max : (es : List LogEntry) (s : LogStore) → (add_all s es).max ≡ s.max
unfolding add_all
add_all-max [] s = refl
add_all-max (e ∷ es) s = add_all-max es (add_entry s e) ∙ add_entry-max s e

new_log_store-Holds : (max : ℤ) → Holds (new_log_store max) []
unfolding new_log_store
new_log_store-Holds (pos zero) = record { entries = refl; bounded = omega arith }
new_log_store-Holds (pos (suc n)) = record {
  entries = sym (last-fits (suc n) [] (omega arith));
  bounded = omega arith;
}
new_log_store-Holds (negsuc n) = record { entries = refl; bounded = omega arith }

-- After any entries the store holds the last ones of them, in order, as many as its limit, and all
-- of them where there are fewer.
pub add_all-last :
    (max : ℤ) (es : List LogEntry)
    → (add_all (new_log_store max) es).entries ≡ last (new_log_store max).max es
add_all-last max es =
    rw (add_all-max es (new_log_store max)) at
      (add_all-Holds es (new_log_store max) [] (new_log_store-Holds max)).entries

or_right : (a b : Bool) → (a || b) ≡ false → b ≡ false
or_right false b h = h
or_right true b h = ground arith

last-last {ℓ} :
    {A : Type ℓ} (k n : ℕ) (xs : List A) → k ≤ n → k ≤ length xs → last k (last n xs) ≡ last k xs
last-last k n xs h l =
    rw (drop-drop (length (last n xs) - k) (length xs - n) xs)
      (ap (λ i. drop i xs) (omega (arith, length-drop (length xs - n) xs)))

-- A snapshot of a limit that is positive and that the store can meet gives the last entries of the
-- history, as many as asked for; any other limit gives all that the store holds.
pub snapshot-last :
    (max limit : ℤ) (es : List LogEntry)
    → snapshot (add_all (new_log_store max) es) limit ≡ (
        if not_positive limit || ltb (length (last (new_log_store max).max es)) (magnitude limit)
        then last (new_log_store max).max es
        else last (magnitude limit) es)
unfolding snapshot
snapshot-last max limit es =
    let all = add_all-last max es in
    let n = (new_log_store max).max in
    let size = length-drop (length es - n) es in
    rw all (elim (Bool-cases (not_positive limit || ltb (length (last n es)) (magnitude limit))) [
      | inl big ↦ rw big (drop_zero _ _ (omega arith))
      | inr fits ↦
          let asked = ltb→le (length (last n es)) (magnitude limit) (or_right _ _ fits) in
          rw fits (
            last-last (magnitude limit) n es (omega (arith, size, asked))
              (omega (arith, size, asked)))
    ])
