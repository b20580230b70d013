-- ===== src/Go/Reading.antt =====
-- What a read does to the bytes that are still to be read, whatever the pieces.
use multi_threaded_web_serve.Go.Reader.{
  ReadError, Reader, ShortRead, content, fill, next_byte, read_byte, read_full,
}
use mathlib.Core.Path.{subst₂}
use multi_threaded_web_serve.Base.{
  ℕ, zero, suc, ◌+◌, ◌-◌, ◌≤◌, List, [], ◌∷◌, ◌++◌, ◌≡◌, refl, sym, ap, ◌∙◌, ◌⊎◌, inl, inr, none,
  some, arith, leb, leb→le, leb→lt, ok_injective, subst, Bool-cases, Bytes, Result, ok, err,
  append_assoc, append-nil, length, take, drop, take-append-drop, length-take, length-append,
}

abbrev pub rest : Reader → Bytes
rest r = content r.pieces

next_byte-content :
    (ps : List Bytes)
    → ((content ps ≡ []) × (next_byte ps ≡ none))
      ⊎ ((b : ℕ) × (qs : List Bytes) × (content ps ≡ b ∷ content qs)
          × (next_byte ps ≡ some (b, qs)))
unfolding content next_byte
next_byte-content [] = inl (refl, refl)
next_byte-content ([] ∷ ps) = next_byte-content ps
next_byte-content ((b ∷ p) ∷ ps) = inr (b, p ∷ ps, refl, refl)

-- `ReadByte` takes the first byte, and fails at the end of the input only.
abbrev pub ReadsByte : Reader → Type 0
ReadsByte r =
    ((rest r ≡ []) × (read_byte r ≡ err r.fault))
    ⊎ ((b : ℕ) × (q : Reader) × (rest r ≡ b ∷ rest q)
        × (q.fault ≡ r.fault)
        × (read_byte r ≡ ok (b, q)))

pub read_byte-ReadsByte : (r : Reader) → ReadsByte r
unfolding read_byte
read_byte-ReadsByte r = elim (next_byte-content r.pieces) [
  | inl (e, n) ↦ inl (e, rw (n, read_byte))
  | inr (b, qs, e, n) ↦ inr (b, record r { pieces = qs }, e, refl, rw (n, read_byte))
]

-- `part` is the next `n` bytes of the pieces `ps`, and `qs` is what is left.
pub record Takes (n : ℕ) (ps qs : List Bytes) (part : Bytes) : Type 0 where
  pub splits : content ps ≡ part ++ content qs
  pub is_long : length part ≡ n

pub Takes-inside :
    (n : ℕ) (p : Bytes) (ps : List Bytes)
    → n ≤ length p
    → Takes n (p ∷ ps) (drop n p ∷ ps) (take n p)
unfolding content
Takes-inside n p ps h = record {
  splits =
      ap (λ s. s ++ content ps) (sym (take-append-drop n p))
      ∙ append_assoc (take n p) (drop n p) (content ps);
  is_long = length-take n p h;
}

pub Takes-across :
    {n m : ℕ} (p : Bytes) {ps qs : List Bytes} {part : Bytes}
    → n ≡ length p + m
    → Takes m ps qs part
    → Takes n (p ∷ ps) qs (p ++ part)
unfolding content
Takes-across p {qs = qs} {part} h t = record {
  splits = ap (◌++◌ p) t.splits ∙ sym (append_assoc p part (content qs));
  is_long = length-append p part ∙ omega (arith, t.is_long);
}

pub fill-Takes :
    (n : ℕ) (got : Bytes) (ps : List Bytes) (e : ReadError) {all : Bytes} {qs : List Bytes}
    → fill n got ps e ≡ ok (all, qs)
    → (part : Bytes) × Takes n ps qs part × (all ≡ got ++ part)
unfolding fill
fill-Takes zero got [] e h =
    ([], record { splits = ap content (cc); is_long = refl }, rw append-nil (cc))
fill-Takes (suc n) got [] e h = absurd (cc)
fill-Takes n got (p ∷ ps) e {all} {qs} h = elim (Bool-cases (leb n (length p))) [
  | inl x ↦
      let (all_is, qs_is) = ok_injective (rw (x, fill) at h) in
      (
        take n p,
        subst (λ t. Takes n (p ∷ ps) t (take n p)) qs_is
            (Takes-inside n p ps (leb→le n (length p) x)),
        sym all_is,
      )
  | inr x ↦
      let (part, t, all_is) = fill-Takes (n - length p) (got ++ p) ps e (rw (x, fill) at h) in
      (
        p ++ part,
        Takes-across p (omega (arith, leb→lt n (length p) x)) t,
        all_is ∙ append_assoc got p part,
      )
]

abbrev refilled : Reader → Result ShortRead (Bytes × List Bytes) → Result ShortRead (Bytes × Reader)
refilled r (err e) = err e
refilled r (ok (got, ps)) = ok (got, record r { pieces = ps })

-- io.ReadFull takes `n` bytes, from as many pieces as it needs.
pub read_full-Takes :
    (n : ℕ) (r : Reader) {part : Bytes} {q : Reader}
    → read_full n r ≡ ok (part, q)
    → Takes n r.pieces q.pieces part × (q.fault ≡ r.fault)
unfolding read_full
read_full-Takes n r {part} {q} h = go (fill n [] r.pieces r.fault) refl h
  where
    go :
        (x : Result ShortRead (Bytes × List Bytes))
        → fill n [] r.pieces r.fault ≡ x
        → refilled r x ≡ ok (part, q)
        → Takes n r.pieces q.pieces part × (q.fault ≡ r.fault)
    go (err e) x h = absurd (cc)
    go (ok (got, ps)) x h =
        let (got_is, q_is) = ok_injective h in
        let (all, t, e) = fill-Takes n [] r.pieces r.fault x in
        (
          subst₂ (λ (p : Reader) g. Takes n r.pieces p.pieces g) q_is (sym e ∙ got_is) t,
          ap (λ (p : Reader). p.fault) (sym q_is),
        )
